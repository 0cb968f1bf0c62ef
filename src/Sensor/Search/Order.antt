-- ===== src/Sensor/Search/Order.antt =====
-- The codes on a bus as lists of bits, and the order that a search runs through them in.
use brewster.Common.{
  ℕ, zero, suc, ◌≡◌, refl, sym, ap, ◌∙◌, inl, inr, Bool, true, false, List, [], ◌∷◌, ◌++◌, map,
  arith, if◌then◌else◌, Bool-cases, length, All,
}
use brewster.Common.Bits.{same, same→eq}
use mathlib.Core.List.{Memᴰ}
use mathlib.Core.List.Memᴰ

abbrev pub null {ℓ} : {A : Type ℓ} → List A → Bool
null [] = true
null (x ∷ xs) = false

-- What is left of the codes that go on with a bit.
abbrev pub branch : Bool → List (List Bool) → List (List Bool)
branch b [] = []
branch b ([] ∷ d) = branch b d
branch b ((c ∷ r) ∷ d) = let rest = branch b d in if same b c then r ∷ rest else rest

-- The codes of `n` bits, the ones with a 0 first, each once.
unfoldable pub in_order : ℕ → List (List Bool) → List (List Bool)
in_order zero d = if null d then [] else [] ∷ []
in_order (suc n) d =
    map (λ r. false ∷ r) (in_order n (branch false d))
    ++ map (λ r. true ∷ r) (in_order n (branch true d))

abbrev pub HasBits : ℕ → List (List Bool) → Type 0
HasBits n d = All (λ r. length r ≡ n) d

pub branch-HasBits :
    (b : Bool) (n : ℕ) (d : List (List Bool)) → HasBits (suc n) d → HasBits n (branch b d)
branch-HasBits b n [] h = record {}
branch-HasBits b n ([] ∷ d) (h, hs) = branch-HasBits b n d hs
branch-HasBits b n ((c ∷ r) ∷ d) (h, hs) = elim (Bool-cases (same b c)) [
  | inl e ↦ rw e (omega (arith, h), branch-HasBits b n d hs)
  | inr e ↦ rw e (branch-HasBits b n d hs)
]

head_eq : {b c : Bool} {r s : List Bool} → b ∷ r ≡ c ∷ s → (b ≡ c) × (r ≡ s)
head_eq e = (ap first e, ap others e)
  where
    first : List Bool → Bool
    first [] = false
    first (x ∷ xs) = x

    others : List Bool → List Bool
    others [] = []
    others (x ∷ xs) = xs

same_refl : (b : Bool) → same b b ≡ true
same_refl true = refl
same_refl false = refl

-- A code that goes on with a bit is in that bit's branch, and the other way round.
mem-branch :
    (b : Bool) (r : List Bool) (d : List (List Bool)) → Memᴰ (b ∷ r) d → Memᴰ r (branch b d)
mem-branch b r [] m = absurd (Memᴰ.not-nil m)
mem-branch b r ([] ∷ d) m = elim (Memᴰ.cases_cons m) [
  | inl e ↦ absurd cc
  | inr m' ↦ mem-branch b r d m'
]
mem-branch b r ((c ∷ s) ∷ d) m = elim (Bool-cases (same b c)) [
  | inl e ↦ rw e (elim (Memᴰ.cases_cons m) [
    | inl q ↦ Memᴰ.head (head_eq q).1
    | inr m' ↦ Memᴰ.tail (mem-branch b r d m')
  ])
  | inr e ↦ rw e (elim (Memᴰ.cases_cons m) [
    | inl q ↦ let differ = (head_eq q).0 in let refl_b = same_refl b in absurd (ground arith)
    | inr m' ↦ mem-branch b r d m'
  ])
]

branch-mem :
    (b : Bool) (r : List Bool) (d : List (List Bool)) → Memᴰ r (branch b d) → Memᴰ (b ∷ r) d
branch-mem b r [] m = absurd (Memᴰ.not-nil m)
branch-mem b r ([] ∷ d) m = Memᴰ.tail (branch-mem b r d m)
branch-mem b r ((c ∷ s) ∷ d) m = elim (Bool-cases (same b c)) [
  | inl e ↦
      let m2 : Memᴰ r (s ∷ branch b d) = (rw e at m) in
      elim (Memᴰ.cases_cons m2) [
        | inl q ↦ Memᴰ.head (ap (λ t. b ∷ t) q ∙ ap (λ x. x ∷ s) (same→eq b c e))
        | inr m' ↦ Memᴰ.tail (branch-mem b r d m')
      ]
  | inr e ↦ let m2 : Memᴰ r (branch b d) = (rw e at m) in Memᴰ.tail (branch-mem b r d m2)
]

null-mem : {r : List Bool} (d : List (List Bool)) → Memᴰ r d → null d ≡ false
null-mem [] m = absurd (Memᴰ.not-nil m)
null-mem (x ∷ d) m = refl

-- A device's code is in the order.
pub mem-in_order :
    (n : ℕ) (r : List Bool) (d : List (List Bool)) → length r ≡ n → Memᴰ r d → Memᴰ r (in_order n d)
unfolding in_order
mem-in_order zero [] d h m = rw (null-mem d m) (Memᴰ.head refl)
mem-in_order zero (b ∷ r) d h m = absurd (omega arith)
mem-in_order (suc n) [] d h m = absurd (omega arith)
mem-in_order (suc n) (false ∷ r) d h m = Memᴰ.append_left _ (
    Memᴰ.map (λ r. false ∷ r)
      (mem-in_order n r (branch false d) (omega (arith, h)) (mem-branch false r d m)))
mem-in_order (suc n) (true ∷ r) d h m =
    Memᴰ.append_right (map (λ r. false ∷ r) (in_order n (branch false d))) (
      Memᴰ.map (λ r. true ∷ r)
        (mem-in_order n r (branch true d) (omega (arith, h)) (mem-branch true r d m)))

-- What is in the order is a device's code.
pub in_order-mem :
    (n : ℕ) (r : List Bool) (d : List (List Bool)) → HasBits n d → Memᴰ r (in_order n d) → Memᴰ r d
unfolding in_order
in_order-mem zero r [] h m = absurd (Memᴰ.not-nil m)
in_order-mem zero r ([] ∷ d) h m = Memᴰ.head (Memᴰ.eq_of_singleton m)
in_order-mem zero r ((c ∷ s) ∷ d) (h, hs) m = absurd (omega (arith, h))
in_order-mem (suc n) r d h m =
    elim (Memᴰ.append_cases (map (λ r. false ∷ r) (in_order n (branch false d))) m) [
      | inl m0 ↦
          let (s, ms, e) = Memᴰ.of_map (λ r. false ∷ r) (in_order n (branch false d)) m0 in
          Memᴰ.cast (sym e) (
            branch-mem false s d
              (in_order-mem n s (branch false d) (branch-HasBits false n d h) ms))
      | inr m1 ↦
          let (s, ms, e) = Memᴰ.of_map (λ r. true ∷ r) (in_order n (branch true d)) m1 in
          Memᴰ.cast (sym e)
            (branch-mem true s d (in_order-mem n s (branch true d) (branch-HasBits true n d h) ms))
    ]

-- The order of codes: at the first bit that differs, the one with the 0.
abbrev pub Before : List Bool → List Bool → Type 0
Before [] s = ⊥
Before (b ∷ r) [] = ⊥
Before (false ∷ r) (false ∷ s) = Before r s
Before (false ∷ r) (true ∷ s) = Unit
Before (true ∷ r) (false ∷ s) = ⊥
Before (true ∷ r) (true ∷ s) = Before r s

abbrev pub Increasing : List (List Bool) → Type 0
Increasing [] = Unit
Increasing (r ∷ rs) = All (Before r) rs × Increasing rs

All-append :
    (P : List Bool → Type 0) (xs ys : List (List Bool)) → All P xs → All P ys → All P (xs ++ ys)
All-append P [] ys h k = k
All-append P (x ∷ xs) ys (h, hs) k = (h, All-append P xs ys hs k)

Before-map :
    (b : Bool) (r : List Bool) (rs : List (List Bool))
    → All (Before r) rs
    → All (Before (b ∷ r)) (map (λ s. b ∷ s) rs)
Before-map b r [] h = record {}
Before-map false r (s ∷ rs) (h, hs) = (h, Before-map false r rs hs)
Before-map true r (s ∷ rs) (h, hs) = (h, Before-map true r rs hs)

Before-true :
    (r : List Bool) (rs : List (List Bool)) → All (Before (false ∷ r)) (map (λ s. true ∷ s) rs)
Before-true r [] = record {}
Before-true r (s ∷ rs) = (record {}, Before-true r rs)

Increasing-map :
    (b : Bool) (rs : List (List Bool)) → Increasing rs → Increasing (map (λ s. b ∷ s) rs)
Increasing-map b [] h = record {}
Increasing-map b (r ∷ rs) (h, hs) = (Before-map b r rs h, Increasing-map b rs hs)

Increasing-append :
    (xs ys : List (List Bool))
    → Increasing xs
    → Increasing ys
    → Increasing (map (λ s. false ∷ s) xs ++ map (λ s. true ∷ s) ys)
Increasing-append [] ys h k = Increasing-map true ys k
Increasing-append (x ∷ xs) ys (h, hs) k = (
  All-append (Before (false ∷ x)) (map (λ s. false ∷ s) xs) (map (λ s. true ∷ s) ys)
      (Before-map false x xs h) (Before-true x ys),
  Increasing-append xs ys hs k,
)

pub in_order-Increasing : (n : ℕ) (d : List (List Bool)) → Increasing (in_order n d)
unfolding in_order
in_order-Increasing zero [] = record {}
in_order-Increasing zero (r ∷ d) = (record {}, record {})
in_order-Increasing (suc n) d =
    Increasing-append (in_order n (branch false d)) (in_order n (branch true d))
      (in_order-Increasing n (branch false d)) (in_order-Increasing n (branch true d))
