-- ===== src/Storage/Snapshot/Suffix.antt =====
-- The snapshot against its description: the newest `max_points` of the ring's valid records.
use brewster.Common.{◌%◌}
use native.Mathlib.Nat.{mod-eq_of_lt, mod-eq-sub-mod}
use brewster.Common.{◌++◌, ◌+◌}
use brewster.Common.{
  ℕ, zero, suc, ◌-◌, ◌≤◌, ◌<◌, min, ◌≡◌, refl, sym, ap, ◌∙◌, inl, inr, true, none, some, List, [],
  ◌∷◌, map, arith, leb, ◌==◌, if◌then◌else◌, ==_iff, Bool-cases, Option-cases, length, drop,
  length-drop, length-map,
}
use brewster.Common.Float.{Float}
use brewster.Storage.{Flash, Storage}
use brewster.Storage.Record.{decode_record}
use brewster.Storage.Init.{history_record_offset}
use brewster.Storage.Init.Scanning.{valid_at}
use brewster.Storage.Snapshot.{read_valid, slot_of, count_valid, collect, history_snapshot}
use brewster.Common.{Option}

-- The last `n` elements of a list.
abbrev pub last {ℓ} : {A : Type ℓ} → ℕ → List A → List A
last n xs = drop (length xs - n) xs

drop-nil : {A : Type 0} (n : ℕ) → drop {A = A} n [] ≡ []
drop-nil zero = refl
drop-nil (suc n) = refl

drop_all : {A : Type 0} (skip seen : ℕ) (xs : List A) → skip ≤ seen → drop (skip - seen) xs ≡ xs
drop_all skip seen xs h = let e : skip - seen ≡ 0 = omega arith in rw e

drop_past : {A : Type 0} (n : ℕ) (xs : List A) → length xs ≤ n → drop n xs ≡ []
drop_past n [] h = drop-nil n
drop_past zero (x ∷ xs) h = absurd (omega arith)
drop_past (suc n) (x ∷ xs) h = drop_past n xs (omega arith)

-- Past one element there is one less to drop.
drop-sub :
    {A : Type 0} (skip seen : ℕ) (x : A) (xs : List A)
    → seen < skip
    → drop (skip - seen) (x ∷ xs) ≡ drop (skip - suc seen) xs
drop-sub skip seen x xs h = let e : skip - seen ≡ suc (skip - suc seen) = omega arith in rw e

-- `n` slots in a row.
pub slots_from : ℕ → ℕ → List ℕ
slots_from slot zero = []
slots_from slot (suc n) = slot ∷ slots_from (suc slot) n

slots_from-append :
    (a k m n b : ℕ) → n ≡ k + m → b ≡ a + k → slots_from a n ≡ slots_from a k ++ slots_from b m
unfolding slots_from
slots_from-append a zero m n b en eb =
    let e1 : n ≡ m = omega arith in let e2 : b ≡ a = omega arith in rw (e1, e2) refl
slots_from-append a (suc k) m zero b en eb = absurd (omega arith)
slots_from-append a (suc k) m (suc n) b en eb =
    ap (λ js. a ∷ js) (slots_from-append (suc a) k m n b (omega arith) (omega arith))

map-slots_from :
    (g : ℕ → ℕ) (a b n : ℕ)
    → ((x : ℕ) → a ≤ x → x < a + n → g x ≡ b + (x - a))
    → map g (slots_from a n) ≡ slots_from b n
unfolding slots_from
map-slots_from g a b zero h = refl
map-slots_from g a b (suc n) h =
    let here : g a ≡ b = omega (arith, h a (omega arith) (omega arith)) in
    ap (λ y. y ∷ map g (slots_from (suc a) n)) here
    ∙ ap (λ js. b ∷ js)
        (map-slots_from g (suc a) (suc b) n
          (λ x lo hi. omega (arith, h x (omega arith) (omega arith))))

map-join : (g : ℕ → ℕ) (xs ys : List ℕ) → map g (xs ++ ys) ≡ map g xs ++ map g ys
map-join g [] ys = refl
map-join g (x ∷ xs) ys = ap (λ zs. g x ∷ zs) (map-join g xs ys)

abbrev keep {ℓ} : {A : Type ℓ} → Option A → List A → List A
keep none xs = xs
keep (some x) xs = x ∷ xs

module _ (fl : Flash) (s : Storage fl.Dev) (d : fl.Dev) where
  -- The valid records of `n` slots in ring order, from a step on.
  pub records_from : ℕ → ℕ → List (List ℕ)
  records_from step zero = []
  records_from step (suc n) = elim (read_valid fl s d (slot_of fl s step)) [
    | none ↦ records_from (suc step) n
    | some raw ↦ raw ∷ records_from (suc step) n
  ]

  records_zero : length (records_from 0 0) ≡ 0
  unfolding records_from
  records_zero = refl

  count_valid-length : (step n : ℕ) → count_valid fl s d step n ≡ length (records_from step n)
  unfolding count_valid records_from
  count_valid-length step zero = refl
  count_valid-length step (suc n) = ground (arith, count_valid-length (suc step) n)

  collect-drop :
      (f : Float) (skip seen step n : ℕ)
      → collect fl f s d skip seen step n
        ≡ map (decode_record f) (drop (skip - seen) (records_from step n))
  unfolding collect records_from
  collect-drop f skip seen step zero = rw drop-nil refl
  collect-drop f skip seen step (suc n) =
      elim (Option-cases (read_valid fl s d (slot_of fl s step))) [
        | inl e ↦ rw (e, collect, records_from) (collect-drop f skip seen (suc step) n)
        | inr (raw, e) ↦ elim (Bool-cases (leb skip seen)) [
          | inl p ↦ ground (
            arith,
            collect-drop f skip (suc seen) (suc step) n,
            drop_all skip seen (raw ∷ records_from (suc step) n),
            drop_all skip (suc seen) (records_from (suc step) n),
          )
          | inr p ↦ ground (
            arith,
            collect-drop f skip (suc seen) (suc step) n,
            drop-sub skip seen raw (records_from (suc step) n),
          )
        ]
      ]

  -- The rest of the function, once a device and a positive capacity and limit are at hand.
  snapshot_nonempty :
      (f : Float) (max_points : ℕ)
      → (let valid_count = count_valid fl s d 0 s.history_capacity in
          if valid_count == 0
          then []
          else (let keep = min max_points valid_count in
              collect fl f s d (valid_count - keep) 0 0 s.history_capacity))
        ≡ map (decode_record f) (last max_points (records_from 0 s.history_capacity))
  snapshot_nonempty f max_points =
      let rs = records_from 0 s.history_capacity in
      let kept : length rs - min max_points (length rs) - 0 ≡ length rs - max_points =
        omega arith in
      rw (count_valid-length 0 s.history_capacity, collect-drop, kept)
        (elim (Bool-cases (length rs == 0)) [
          | inl p ↦ rw p (
              sym
                (ap (map (decode_record f)) (drop_past (length rs - max_points) rs (ground arith))))
          | inr p ↦ rw p
        ])

  snapshot-last :
      (f : Float) (max_points : ℕ)
      → s.flash_storage ≡ some d
      → history_snapshot fl f s max_points
        ≡ map (decode_record f) (last max_points (records_from 0 s.history_capacity))
  unfolding history_snapshot
  snapshot-last f max_points e = elim (Bool-cases (s.history_capacity == 0)) [
    | inl p ↦ rw p (sym (ap (map (decode_record f)) (drop_past _ _ (empty_lem p))))
    | inr p ↦ elim (Bool-cases (max_points == 0)) [
      | inl q ↦
          rw (p, q)
            (sym (
              ap (map (decode_record f)) (
                drop_past (length (records_from 0 s.history_capacity) - max_points)
                  (records_from 0 s.history_capacity) (ground (arith, (==_iff max_points 0).0 q)))))
      | inr q ↦ simp (p, q, e) (snapshot_nonempty f max_points)
    ]
  ]
    where
      empty_lem :
          (s.history_capacity == 0) ≡ true
          → length (records_from 0 s.history_capacity)
            ≤ length (records_from 0 s.history_capacity) - max_points
      empty_lem p =
          let z : s.history_capacity ≡ 0 = (==_iff _ _).0 p in
          omega (arith, ap (λ n. length (records_from 0 n)) z, records_zero)

  -- The valid records of slots, in the order of the slots.
  pub records_of : List ℕ → List (List ℕ)
  records_of [] = []
  records_of (j ∷ js) = keep (valid_at fl d s.history_base_offset j) (records_of js)

  -- The slots of the ring, from the one that is written next: those to the end, then those in
  -- front.
  abbrev pub ring_slots : List ℕ
  ring_slots =
      slots_from s.history_write_index (s.history_capacity - s.history_write_index)
      ++ slots_from 0 s.history_write_index

  records_from-slots :
      (step n : ℕ) → records_from step n ≡ records_of (map (slot_of fl s) (slots_from step n))
  unfolding records_from records_of slots_from read_valid valid_at history_record_offset
  records_from-slots step zero = refl
  records_from-slots step (suc n) =
      kept (valid_at fl d s.history_base_offset (slot_of fl s step)) (records_from (suc step) n)
      ∙ ap (keep (valid_at fl d s.history_base_offset (slot_of fl s step)))
          (records_from-slots (suc step) n)
    where
      kept :
          (o : Option (List ℕ)) (rs : List (List ℕ))
          → (elim o [ none ↦ rs | some raw ↦ raw ∷ rs ]) ≡ keep o rs
      kept none rs = refl
      kept (some raw) rs = refl

  -- The steps go once round the ring.
  slot_of-ring_slots :
      s.history_write_index < s.history_capacity
      → s.history_write_index + s.history_capacity < 4294967296
      → map (slot_of fl s) (slots_from 0 s.history_capacity) ≡ ring_slots
  slot_of-ring_slots inside room =
      let w = s.history_write_index in
      let n = s.history_capacity in
      ap (map (slot_of fl s)) (slots_from-append 0 (n - w) w n (n - w) (omega arith) (omega arith))
      ∙ map-join (slot_of fl s) (slots_from 0 (n - w)) (slots_from (n - w) w)
      ∙ ap (λ js. js ++ map (slot_of fl s) (slots_from (n - w) w))
          (map-slots_from (slot_of fl s) 0 w (n - w) (λ x lo hi.
            let plain : (w + x) % 4294967296 ≡ w + x = omega arith in
            let same : w + x ≡ w + (x - 0) = omega arith in
            rw plain (mod-eq_of_lt (omega arith) ∙ same)))
      ∙ ap (λ js. slots_from w (n - w) ++ js)
          (map-slots_from (slot_of fl s) (n - w) 0 w (λ x lo hi.
            let plain : (w + x) % 4294967296 ≡ w + x = omega arith in
            let back : w + x - n ≡ 0 + (x - (n - w)) = omega arith in
            rw plain (mod-eq-sub-mod (omega arith) ∙ mod-eq_of_lt (omega arith) ∙ back)))

  -- With the flash taken over at boot and the write index inside the ring, the snapshot is the last
  -- `max_points` of the ring's valid records, each decoded. They come in the order of their slots,
  -- from the slot that is written next to the end of the ring, then from its beginning; so there
  -- are as many points as records, but at most `max_points`.
  pub history_snapshot-last :
      (f : Float) (max_points : ℕ)
      → s.flash_storage ≡ some d
      → s.history_write_index < s.history_capacity
      → s.history_write_index + s.history_capacity < 4294967296
      → (history_snapshot fl f s max_points
          ≡ map (decode_record f) (last max_points (records_of ring_slots)))
        × (length (history_snapshot fl f s max_points)
            ≡ min max_points (length (records_of ring_slots)))
  history_snapshot-last f max_points e inside room =
      let ring : records_from 0 s.history_capacity ≡ records_of ring_slots =
        records_from-slots 0 s.history_capacity ∙ ap records_of (slot_of-ring_slots inside room) in
      rw (snapshot-last f max_points e, ring)
        (refl, length-map _ _ ∙ length-drop _ (records_of ring_slots) ∙ omega arith)
