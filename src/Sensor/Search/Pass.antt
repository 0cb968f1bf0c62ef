-- ===== src/Sensor/Search/Pass.antt =====
-- One pass of the search.
use brewster.Common.{
  ℕ, zero, suc, ◌≤◌, ◌<◌, ◌≡◌, refl, sym, ap, ◌∙◌, inl, inr, Bool, true, false, not, ◌&&◌, ◌||◌,
  Option, none, some, List, [], ◌∷◌, arith, ◌==◌, if◌then◌else◌, lt→ltb, Option-cases, is_some,
}
use brewster.Sensor.Bus.{BitBus}
use brewster.Sensor.Search.{take_one, bit_at, set_bit, search_bits}
use brewster.Sensor.Search.Order.{null, branch, HasBits, branch-HasBits}
use brewster.Sensor.Search.Next.{
  lead, follow, turn, Shared, Shared-null, lead-is_some, turn-follow, turn-least, with_bit, or_else,
}
use brewster.Sensor.Search.Laws.{SearchLaws}
use mathlib.Core.Path.{subst}
use brewster.Common.{sym, ap, ◌∙◌, refl, ◌||◌, ◌<◌}

-- The bits of a code set in the bytes, from bit `p` on.
abbrev pub add_bits : ℕ → List Bool → List ℕ → List ℕ
add_bits p [] rom = rom
add_bits p (b ∷ r) rom = add_bits (suc p) r (if b then set_bit rom p else rom)

-- The bytes have the bits of a code, from bit `p` on.
abbrev pub Holds : ℕ → List Bool → List ℕ → Type 0
Holds p [] rom = Unit
Holds p (b ∷ r) rom = (bit_at rom p ≡ b) × Holds (suc p) r rom

abbrev pub or_before : ℕ → ℕ → ℕ
or_before before t = if t == 0 then before else t

some_inj : {a b : List Bool} → some a ≡ some b → a ≡ b
some_inj {a} e = ap (from a) e
  where
    from : List Bool → Option (List Bool) → List Bool
    from x none = x
    from x (some y) = y

-- The first branch that has a code leads.
lead-false :
    (x y : Option (List Bool)) (r : List Bool)
    → or_else (with_bit false x) (with_bit true y) ≡ some r
    → is_some x ≡ false
    → (s : List Bool) × (y ≡ some s) × (r ≡ true ∷ s)
lead-false none none r e h = absurd cc
lead-false none (some s) r e h = (s, refl, sym (some_inj e))
lead-false (some x) y r e h = absurd cc

-- Before the turn, the bit of the code before is taken again.
kept :
    (b : Bool) (d : List (List Bool)) (p last : ℕ) (rom : List ℕ)
    → bit_at rom p ≡ b
    → null (branch b d) ≡ false
    → p < last
    → take_one (null (branch false d)) (null (branch true d)) p last rom ≡ some b
kept true d p last rom bit busy inside = rw busy (either (null (branch false d)))
  where
    either : (x : Bool) → take_one x false p last rom ≡ some true
    either true = refl
    either false = rw (lt→ltb p last inside, bit) refl
kept false d p last rom bit busy inside = rw busy (either (null (branch true d)))
  where
    either : (x : Bool) → take_one false x p last rom ≡ some false
    either true = refl
    either false = rw (lt→ltb p last inside, bit) refl

-- At the turn, the 1 is taken.
turn_taken : (p last : ℕ) (rom : List ℕ) → last ≡ p → take_one false false p last rom ≡ some true
turn_taken p last rom e = ground arith

turned :
    (b : Bool) (x : Option (List Bool)) (r : List Bool)
    → or_else (with_bit b none) (if b then none else with_bit true x) ≡ some r
    → (b ≡ false) × (s : List Bool) × (x ≡ some s) × (r ≡ true ∷ s)
turned true x r e = absurd cc
turned false none r e = absurd cc
turned false (some s) r e = (refl, s, refl, sym (some_inj e))

lead_end : (d : List (List Bool)) (r : List Bool) → lead 0 d ≡ some r → r ≡ []
unfolding lead
lead_end [] r e = absurd cc
lead_end (x ∷ d) r e = sym (some_inj e)

module _ (bus : BitBus) (devices : List (List Bool)) (laws : SearchLaws bus devices) where
  -- The loop ends with a code and its last turn.
  abbrev pub Finds :
      Option (ℕ × List ℕ) × bus.Wire
      → (before p n : ℕ) → List (List Bool)
      → List Bool
      → List ℕ
      → Type 0
  Finds result before p n d r next_rom =
      (result.0 ≡ some (or_before before (turn p n d r), add_bits p r next_rom))
      × laws.Idle result.1

  abbrev next_before : ℕ → ℕ → List (List Bool) → Bool → ℕ
  next_before p before d b =
      if not (null (branch false d)) && not (null (branch true d)) && not b then p else before

  -- One bit, for the bit that is taken.
  search_step :
      (n p last : ℕ) (rom : List ℕ) (before : ℕ) (next_rom : List ℕ) (d : List (List Bool))
      (w : bus.Wire) (b : Bool) (r : List Bool)
      → 1 ≤ p
      → laws.At d w
      → null (branch b d) ≡ false
      → take_one (null (branch false d)) (null (branch true d)) p last rom ≡ some b
      → ((v : bus.Wire)
          → laws.At (branch b d) v
          → Finds
              (search_bits bus n
                (suc p)
                last
                rom
                (next_before p before d b)
                (if b then set_bit next_rom p else next_rom)
                v)
              (next_before p before d b)
              (suc p)
              n
              (branch b d)
              r
              (if b then set_bit next_rom p else next_rom))
      → Finds
          (search_bits bus (suc n) p last rom before next_rom w)
          before
          p
          (suc n)
          d
          (b ∷ r)
          next_rom
  unfolding search_bits turn
  search_step n p last rom before next_rom d w b r one at busy choice rest =
      let (id, asked) = laws.read_id d w at in
      let (complement, answered) = laws.read_complement d (bus.read_bit w).1 asked in
      let w3 = bus.write_bit b (bus.read_bit (bus.read_bit w).1).1 in
      let (found, idle) =
        rest w3 (laws.write_choice d b (bus.read_bit (bus.read_bit w).1).1 answered) in
      let opened : search_bits bus (suc n) p last rom before next_rom w
          ≡ search_bits bus n (suc p) last rom (next_before p before d b)
              (if b then set_bit next_rom p else next_rom) w3 =
        rw (id, complement, choice) refl in
      subst (λ result. Finds result before p (suc n) d (b ∷ r) next_rom) (sym opened)
        (
          found
              ∙ ap (λ t. some (t, add_bits (suc p) r (if b then set_bit next_rom p else next_rom)))
                  (same_before b busy (turn (suc p) n (branch b d) r)),
          idle,
        )
    where
      same_before :
          (c : Bool)
          → null (branch c d) ≡ false
          → (later : ℕ)
          → or_before (next_before p before d c) later
            ≡ or_before before
                (if later == 0 then (if c || null (branch true d) then 0 else p) else later)
      same_before true h later = ground arith
      same_before false h later = ground arith

  -- Past the turn, the pass finds the first code of the devices that are left.
  pub search_bits-lead :
      (n p last : ℕ) (rom : List ℕ) (before : ℕ) (next_rom : List ℕ) (d : List (List Bool))
      (w : bus.Wire) (r : List Bool)
      → last < p
      → HasBits n d
      → laws.At d w
      → lead n d ≡ some r
      → Finds (search_bits bus n p last rom before next_rom w) before p n d r next_rom
  unfolding search_bits turn lead
  search_bits-lead zero p last rom before next_rom d w r past h at e =
      let ends = lead_end d r e in simp ends (refl, laws.finished d w h at)
  search_bits-lead (suc n) p last rom before next_rom d w r past h at e =
      let h0 = branch-HasBits false n d h in
      let h1 = branch-HasBits true n d h in
      let some0 = lead-is_some n (branch false d) h0 in
      let some1 = lead-is_some n (branch true d) h1 in
      elim (Option-cases (lead n (branch false d))) [
        | inl e0 ↦
            let (s, e1, same_r) =
              lead-false (lead n (branch false d)) (lead n (branch true d)) r e (ap is_some e0) in
            let empty : null (branch false d) ≡ true = ground (arith, some0, ap is_some e0) in
            let busy : null (branch true d) ≡ false = ground (arith, some1, ap is_some e1) in
            subst
              (λ r.
                Finds (search_bits bus (suc n) p last rom before next_rom w) before p (suc n) d r
                  next_rom)
              (sym same_r)
              (search_step n p last rom before next_rom d w true s (omega arith) at busy
                (rw (empty, busy) refl)
                (λ v atv.
                  search_bits-lead n (suc p) last rom _ _ (branch true d) v s (omega arith) h1 atv
                    e1))
        | inr (s, e0) ↦
            let same_r : r ≡ false ∷ s = sym (some_inj ((rw e0 at e))) in
            let busy : null (branch false d) ≡ false = ground (arith, some0, ap is_some e0) in
            subst
              (λ r.
                Finds (search_bits bus (suc n) p last rom before next_rom w) before p (suc n) d r
                  next_rom)
              (sym same_r)
              (search_step n p last rom before next_rom d w false s (omega arith) at busy
                (rw busy (zero_taken (null (branch true d)) rom past))
                (λ v atv.
                  search_bits-lead n (suc p) last rom _ _ (branch false d) v s (omega arith) h0 atv
                    e0))
      ]
    where
      zero_taken : (b : Bool) (rom : List ℕ) → last < p → take_one false b p last rom ≡ some false
      zero_taken true rom past = refl
      zero_taken false rom past = ground arith

  -- With the code of the pass before and its turn, the pass finds the code after it.
  pub search_bits-follow :
      (n p last : ℕ) (rom : List ℕ) (before : ℕ) (next_rom : List ℕ) (d : List (List Bool))
      (w : bus.Wire) (code r : List Bool)
      → 1 ≤ p
      → HasBits n d
      → Shared n d code
      → Holds p code rom
      → last ≡ turn p n d code
      → laws.At d w
      → follow n d code ≡ some r
      → Finds (search_bits bus n p last rom before next_rom w) before p n d r next_rom
  unfolding turn follow
  search_bits-follow zero p last rom before next_rom d w code r one h shared holds same_turn at e =
      absurd cc
  search_bits-follow (suc n) p last rom before next_rom d w [] r one h shared holds same_turn at e =
      absurd shared
  search_bits-follow (suc n) p last rom before next_rom d w (b ∷ code) r one h shared (bit, holds)
        same_turn at e =
      let hb = branch-HasBits b n d h in
      let busy = Shared-null n (branch b d) code shared in
      let later = turn (suc p) n (branch b d) code in
      let ends = turn-follow (suc p) n (branch b d) code (omega arith) hb in
      let least = turn-least (suc p) n (branch b d) code in
      elim (Option-cases (follow n (branch b d) code)) [
        | inr (s, e1) ↦
            let same_r : r ≡ b ∷ s = sym (some_inj (rw e1 at e)) in
            let more : (later == 0) ≡ false = ends ∙ rw e1 refl in
            let same_last : last ≡ later = same_turn ∙ rw more refl in
            let inside : p < last = ground (arith, least, more, same_last) in
            subst
              (λ r.
                Finds (search_bits bus (suc n) p last rom before next_rom w) before p (suc n) d r
                  next_rom)
              (sym same_r)
              (search_step n p last rom before next_rom d w b s one at busy
                (kept b d p last rom bit busy inside)
                (λ v atv.
                  search_bits-follow n (suc p) last rom _ _ (branch b d) v code s (omega arith) hb
                    shared holds same_last atv e1))
        | inl e1 ↦
            let (is_zero, s, e2, same_r) = turned b (lead n (branch true d)) r (rw e1 at e) in
            let h1 = branch-HasBits true n d h in
            let some1 = lead-is_some n (branch true d) h1 in
            let busy0 : null (branch false d) ≡ false =
              subst (λ c. null (branch c d) ≡ false) is_zero busy in
            let busy1 : null (branch true d) ≡ false = ground (arith, some1, ap is_some e2) in
            let done : (later == 0) ≡ true = ends ∙ rw e1 refl in
            let same_last : last ≡ p = same_turn ∙ rw done (rw (is_zero, busy1) refl) in
            subst
              (λ r.
                Finds (search_bits bus (suc n) p last rom before next_rom w) before p (suc n) d r
                  next_rom)
              (sym same_r)
              (search_step n p last rom before next_rom d w true s one at busy1
                (rw (busy0, busy1) (turn_taken p last rom same_last))
                (λ v atv.
                  search_bits-lead n (suc p) last rom _ _ (branch true d) v s
                    (omega (arith, same_last)) h1 atv e2))
      ]
