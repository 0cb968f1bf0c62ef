-- ===== src/Sensor/Search/Complete.antt =====
-- The search finds every device on the bus.
use brewster.Common.{
  ℕ, zero, suc, ◌≡◌, refl, sym, ap, ◌∙◌, inl, inr, Bool, true, false, Option, none, some, List, [],
  ◌∷◌, ◌++◌, map, append-nil, append_assoc, arith, ◌==◌, is_some, length, take, replicate, All,
}
use mathlib.Core.List.{Memᴰ}
use mathlib.Core.List.Memᴰ
use mathlib.Core.Path.{subst}
use brewster.Common.{◌↔◌}
use brewster.Sensor.Bus.{BitBus, one_wire_write_byte, onewire_search_rom}
use brewster.Status.{SensorError}
use brewster.Common.{append_assoc}
use brewster.Sensor.Search.{
  after_search_reset, search_bits, search_pass, scan_loop, ds18b20_scan_roms, crc_ok,
}
use brewster.Sensor.Search.Order.{
  null, branch, HasBits, in_order, Increasing, in_order-Increasing, mem-in_order, in_order-mem,
}
use brewster.Sensor.Search.Next.{
  lead, follow, turn, Shared, Chain, first_or, in_order-Chain, first_or-in_order, turn-follow,
}
use brewster.Sensor.Search.Bytes.{bytes_of, bytes_of-Holds, add_bits-zeros}
use brewster.Sensor.Search.Laws.{SearchLaws}
use brewster.Sensor.Search.Pass.{or_before, search_bits-lead, search_bits-follow}
use brewster.Sensor.Search.Next.{lead-is_some}

All-append {ℓ} :
    {A : Type ℓ} (P : A → Type 0) (xs ys : List A) → All P xs → All P ys → All P (xs ++ ys)
All-append P [] ys h k = k
All-append P (x ∷ xs) ys (h, hs) k = (h, All-append P xs ys hs k)

All-map {ℓ κ} :
    {A : Type ℓ} {B : Type κ} (P : A → Type 0) (Q : B → Type 0) (f : A → B) (xs : List A)
    → ((x : A) → P x → Q (f x))
    → All P xs
    → All Q (map f xs)
All-map P Q f [] g h = record {}
All-map P Q f (x ∷ xs) g (h, hs) = (g x h, All-map P Q f xs g hs)

-- A code of the order has its length, and devices that share it.
abbrev IsCode : ℕ → List (List Bool) → List Bool → Type 0
IsCode n d r = (length r ≡ n) × Shared n d r

in_order-IsCode : (n : ℕ) (d : List (List Bool)) → All (IsCode n d) (in_order n d)
unfolding in_order
in_order-IsCode zero [] = record {}
in_order-IsCode zero (r ∷ d) = ((refl, refl), record {})
in_order-IsCode (suc n) d =
    All-append (IsCode (suc n) d) _ _
      (All-map (IsCode n (branch false d)) (IsCode (suc n) d) (λ r. false ∷ r)
        (in_order n (branch false d)) (λ r (e, h). (ap suc e, h))
        (in_order-IsCode n (branch false d)))
      (All-map (IsCode n (branch true d)) (IsCode (suc n) d) (λ r. true ∷ r)
        (in_order n (branch true d)) (λ r (e, h). (ap suc e, h))
        (in_order-IsCode n (branch true d)))

length-mem : (n : ℕ) (r : List Bool) (d : List (List Bool)) → HasBits n d → Memᴰ r d → length r ≡ n
length-mem n r [] h m = absurd (Memᴰ.not-nil m)
length-mem n r (x ∷ d) (h, hs) m = elim (Memᴰ.cases_cons m) [
  | inl e ↦ ap length e ∙ h
  | inr m' ↦ length-mem n r d hs m'
]

after_search_reset-none :
    (bus : BitBus) (last : ℕ) (rom : List ℕ) (q : Option SensorError × bus.Wire)
    → q.0 ≡ none
    → after_search_reset bus last rom q
      ≡ search_bits bus 64 1 last rom 0
          (replicate 8 0)
          (one_wire_write_byte bus onewire_search_rom q.1)
after_search_reset-none bus last rom (none, w) h = refl
after_search_reset-none bus last rom (some error, w) h = absurd cc

take-nil : (n : ℕ) → take {A = List Bool} n [] ≡ []
take-nil zero = refl
take-nil (suc n) = refl

or_before_zero : (t : ℕ) → or_before 0 t ≡ t
or_before_zero t = ground arith

module _ (bus : BitBus) (devices : List (List Bool)) (laws : SearchLaws bus devices)
    (bits : HasBits 64 devices) where
  -- A pass that finds a code and its turn.
  abbrev Passes : (last : ℕ) → List ℕ → bus.Wire → List Bool → Type 0
  Passes last rom w r =
      ((search_pass bus last rom w).0 ≡ some (turn 1 64 devices r, bytes_of 8 r))
      × laws.Idle (search_pass bus last rom w).1

  first-Passes :
      (w : bus.Wire) (r : List Bool)
      → laws.Idle w
      → length r ≡ 64
      → null devices ≡ false
      → lead 64 devices ≡ some r
      → Passes 0 (replicate 8 0) w r
  unfolding search_pass
  first-Passes w r idle size busy e =
      let (present, at) = laws.reset-present w idle busy in
      let (found, idle') =
        search_bits-lead bus devices laws 64 1 0 (replicate 8 0) 0 (replicate 8 0) devices _ r
          (omega arith) bits at e in
      rw (after_search_reset-none bus 0 (replicate 8 0) (bus.reset w) present)
        (found ∙ rw (or_before_zero (turn 1 64 devices r), add_bits-zeros r size) refl, idle')

  next-Passes :
      (w : bus.Wire) (code r : List Bool)
      → laws.Idle w
      → IsCode 64 devices code
      → length r ≡ 64
      → null devices ≡ false
      → follow 64 devices code ≡ some r
      → Passes (turn 1 64 devices code) (bytes_of 8 code) w r
  unfolding search_pass
  next-Passes w code r idle (size_code, shared) size busy e =
      let (present, at) = laws.reset-present w idle busy in
      let last = turn 1 64 devices code in
      let (found, idle') =
        search_bits-follow bus devices laws 64 1 last (bytes_of 8 code) 0 (replicate 8 0) devices _
          code r (omega arith) bits shared (bytes_of-Holds 8 code size_code) refl at e in
      rw (after_search_reset-none bus last (bytes_of 8 code) (bus.reset w) present)
        (found ∙ rw (or_before_zero (turn 1 64 devices r), add_bits-zeros r size) refl, idle')

  scan_loop-rest :
      (room last : ℕ) (rom : List ℕ) (found : List (List ℕ)) (w : bus.Wire) (r : List Bool)
      (rest : List (List Bool))
      → null devices ≡ false
      → Passes last rom w r
      → All (IsCode 64 devices) (r ∷ rest)
      → All (λ r. crc_ok (bytes_of 8 r) ≡ true) (r ∷ rest)
      → Chain (follow 64 devices) (r ∷ rest) none
      → (scan_loop bus room last rom found w).0 ≡ found ++ map (bytes_of 8) (take room (r ∷ rest))
  unfolding scan_loop
  scan_loop-rest zero last rom found w r rest busy passes codes crcs chain = sym (append-nil found)
  scan_loop-rest (suc room) last rom found w r [] busy (pass, idle) codes (crc, crcs) (end, chain) =
      let last_one = turn-follow 1 64 devices r (omega arith) bits in
      let done : (turn 1 64 devices r == 0) ≡ true = last_one ∙ rw end refl in
      rw (pass, crc, done, take-nil room) refl
  scan_loop-rest (suc room) last rom found w r (s ∷ rest) busy (pass, idle) (code, codes)
        (crc, crcs) (next, chain) =
      let more = turn-follow 1 64 devices r (omega arith) bits in
      let going : (turn 1 64 devices r == 0) ≡ false = more ∙ rw next refl in
      let passes = next-Passes _ r s idle code codes.0.0 busy next in
      rw (pass, crc, going)
        (scan_loop-rest room (turn 1 64 devices r) (bytes_of 8 r) (found ++ (bytes_of 8 r ∷ [])) _ s
            rest busy passes codes crcs chain
          ∙ append_assoc found (bytes_of 8 r ∷ []) (map (bytes_of 8) (take room (s ∷ rest))))

-- Without a device there is no code.
empty_order : (ds : List (List Bool)) → HasBits 64 ds → in_order 64 ds ≡ [] → null ds ≡ true
empty_order [] h e = refl
empty_order (x ∷ ds) (h, hs) e =
    absurd (Memᴰ.not-nil (subst (Memᴰ x) e (mem-in_order 64 x (x ∷ ds) h (Memᴰ.head refl))))

after_search_reset-some :
    (bus : BitBus) (last : ℕ) (rom : List ℕ) (q : Option SensorError × bus.Wire)
    → is_some q.0 ≡ true
    → (after_search_reset bus last rom q).0 ≡ none
after_search_reset-some bus last rom (none, w) h = absurd cc
after_search_reset-some bus last rom (some error, w) h = refl

scan_loop-absent :
    (bus : BitBus) (devices : List (List Bool)) (laws : SearchLaws bus devices) (most : ℕ)
    (w : bus.Wire)
    → laws.Idle w
    → null devices ≡ true
    → (scan_loop bus most 0 (replicate 8 0) [] w).0 ≡ []
unfolding scan_loop search_pass
scan_loop-absent bus devices laws zero w idle e = refl
scan_loop-absent bus devices laws (suc room) w idle e =
    rw (after_search_reset-some bus 0 (replicate 8 0) (bus.reset w) (laws.reset-absent w idle e))
      refl

-- On a bus whose devices answer the search as the laws say, with codes of 64 bits and right
-- checksums, the scan returns the codes of the devices in increasing order, each once and no
-- others, up to the most that it has room for. A bus without a device gives no code.
pub ds18b20_scan_roms_complete :
    (bus : BitBus) (devices : List (List Bool)) (laws : SearchLaws bus devices) (most : ℕ)
    (w : bus.Wire)
    → HasBits 64 devices
    → All (λ r. crc_ok (bytes_of 8 r) ≡ true) devices
    → laws.Idle w
    → ((ds18b20_scan_roms bus most w).0 ≡ map (bytes_of 8) (take most (in_order 64 devices)))
      × Increasing (in_order 64 devices)
      × ((r : List Bool) → Memᴰ r (in_order 64 devices) ↔ Memᴰ r devices)
unfolding ds18b20_scan_roms
ds18b20_scan_roms_complete bus devices laws most w bits crcs idle = (
  scanned (in_order 64 devices) refl,
  in_order-Increasing 64 devices,
  λ r. (
    in_order-mem 64 r devices bits,
    λ m. mem-in_order 64 r devices (length-mem 64 r devices bits m) m,
  ),
)
  where
    crc_mem :
        (ds : List (List Bool))
        → All (λ r. crc_ok (bytes_of 8 r) ≡ true) ds
        → (r : List Bool) → Memᴰ r ds
        → crc_ok (bytes_of 8 r) ≡ true
    crc_mem [] h r m = absurd (Memᴰ.not-nil m)
    crc_mem (x ∷ ds) (h, hs) r m = elim (Memᴰ.cases_cons m) [
      | inl e ↦ ap (λ r. crc_ok (bytes_of 8 r)) e ∙ h
      | inr m' ↦ crc_mem ds hs r m'
    ]

    crc_codes :
        (codes : List (List Bool))
        → ((r : List Bool) → Memᴰ r codes → crc_ok (bytes_of 8 r) ≡ true)
        → All (λ r. crc_ok (bytes_of 8 r) ≡ true) codes
    crc_codes [] h = record {}
    crc_codes (r ∷ codes) h = (h r (Memᴰ.head refl), crc_codes codes (λ s m. h s (Memᴰ.tail m)))

    scanned :
        (codes : List (List Bool))
        → in_order 64 devices ≡ codes
        → (scan_loop bus most 0 (replicate 8 0) [] w).0 ≡ map (bytes_of 8) (take most codes)
    scanned [] e =
        scan_loop-absent bus devices laws most w idle (empty_order devices bits e)
        ∙ ap (map (bytes_of 8)) (sym (take-nil most))
    scanned (r ∷ codes) e =
        let leads : lead 64 devices ≡ some r =
          sym (first_or-in_order 64 devices) ∙ ap (λ xs. first_or xs none) e in
        let busy : null devices ≡ false =
          ground (arith, lead-is_some 64 devices bits, ap is_some leads) in
        let codes_ok = subst (All (IsCode 64 devices)) e (in_order-IsCode 64 devices) in
        scan_loop-rest bus devices laws bits most 0 (replicate 8 0) [] w r codes busy
          (first-Passes bus devices laws bits w r idle codes_ok.0.0 busy leads) codes_ok
          (crc_codes (r ∷ codes) (λ s m.
            crc_mem devices crcs s (in_order-mem 64 s devices bits (subst (Memᴰ s) (sym e) m))))
          (subst (λ xs. Chain (follow 64 devices) xs none) e (in_order-Chain 64 devices))
