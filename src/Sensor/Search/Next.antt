-- ===== src/Sensor/Search/Next.antt =====
-- The code that comes after a code, and the bit at which the search turns off towards it.
use brewster.Common.{
  ℕ, zero, suc, ◌≤◌, ◌≡◌, refl, sym, ap, ◌∙◌, ◌⊎◌, inl, Bool, true, false, not, ◌&&◌, ◌||◌, Option,
  none, some, List, [], ◌∷◌, ◌++◌, map, arith, ◌==◌, if◌then◌else◌, is_some,
}
use brewster.Sensor.Search.Order.{null, branch, in_order, HasBits, branch-HasBits}

abbrev pub first_or : List (List Bool) → Option (List Bool) → Option (List Bool)
first_or [] e = e
first_or (r ∷ rs) e = some r

abbrev pub with_bit : Bool → Option (List Bool) → Option (List Bool)
with_bit b none = none
with_bit b (some r) = some (b ∷ r)

abbrev pub or_else : Option (List Bool) → Option (List Bool) → Option (List Bool)
or_else none o = o
or_else (some r) o = some r

-- The first code of all.
unfoldable pub lead : ℕ → List (List Bool) → Option (List Bool)
lead zero d = if null d then none else some []
lead (suc n) d =
    or_else (with_bit false (lead n (branch false d))) (with_bit true (lead n (branch true d)))

-- The code after one of them.
unfoldable pub follow : ℕ → List (List Bool) → List Bool → Option (List Bool)
follow zero d r = none
follow (suc n) d [] = none
follow (suc n) d (b ∷ r) =
    or_else (with_bit b (follow n (branch b d) r))
      (if b then none else with_bit true (lead n (branch true d)))

-- The last bit, numbered from `p` on, at which a code has a 0 and devices go on with either.
unfoldable pub turn : ℕ → ℕ → List (List Bool) → List Bool → ℕ
turn p zero d r = 0
turn p (suc n) d [] = 0
turn p (suc n) d (b ∷ r) =
    let later = turn (suc p) n (branch b d) r in
    if later == 0 then (if b || null (branch true d) then 0 else p) else later

-- A code that some devices have.
abbrev pub Shared : ℕ → List (List Bool) → List Bool → Type 0
Shared zero d r = null d ≡ false
Shared (suc n) d [] = ⊥
Shared (suc n) d (b ∷ r) = Shared n (branch b d) r

pub branch-null : (b : Bool) (d : List (List Bool)) → null (branch b d) ≡ false → null d ≡ false
branch-null b [] h = h
branch-null b (x ∷ d) h = refl

pub Shared-null : (n : ℕ) (d : List (List Bool)) (r : List Bool) → Shared n d r → null d ≡ false
Shared-null zero d r h = h
Shared-null (suc n) d [] h = absurd h
Shared-null (suc n) d (b ∷ r) h = branch-null b d (Shared-null n (branch b d) r h)

and_false : (b : Bool) → (b && false) ≡ false
and_false true = refl
and_false false = refl

is_some-with_bit : (b : Bool) (o : Option (List Bool)) → is_some (with_bit b o) ≡ is_some o
is_some-with_bit b none = refl
is_some-with_bit b (some r) = refl

is_some-or_else :
    (b : Bool) (o e : Option (List Bool))
    → is_some (or_else (with_bit b o) e) ≡ (is_some o || is_some e)
is_some-or_else b none e = refl
is_some-or_else b (some r) e = refl

or_else-none : (o : Option (List Bool)) → or_else o none ≡ o
or_else-none none = refl
or_else-none (some r) = refl

null-branches :
    (n : ℕ) (d : List (List Bool))
    → HasBits (suc n) d
    → null d ≡ (null (branch false d) && null (branch true d))
null-branches n [] h = refl
null-branches n ([] ∷ d) (h, hs) = absurd (omega arith)
null-branches n ((false ∷ r) ∷ d) h = refl
null-branches n ((true ∷ r) ∷ d) h = sym (and_false (null (branch false d)))

-- There is a first code exactly if there is a device.
pub lead-is_some : (n : ℕ) (d : List (List Bool)) → HasBits n d → is_some (lead n d) ≡ not (null d)
unfolding lead
lead-is_some zero [] h = refl
lead-is_some zero (r ∷ d) h = refl
lead-is_some (suc n) d h =
    let x = lead n (branch false d) in
    let y = lead n (branch true d) in
    let hx = lead-is_some n (branch false d) (branch-HasBits false n d h) in
    let hy = lead-is_some n (branch true d) (branch-HasBits true n d h) in
    is_some-or_else false x (with_bit true y)
    ∙ ap (λ b. is_some x || b) (is_some-with_bit true y)
    ∙ rw (hx, hy, null-branches n d h) (de_morgan (null (branch false d)) (null (branch true d)))
  where
    de_morgan : (a b : Bool) → (not a || not b) ≡ not (a && b)
    de_morgan true b = refl
    de_morgan false b = refl

pub turn-least :
    (p n : ℕ) (d : List (List Bool)) (r : List Bool) → (turn p n d r ≡ 0) ⊎ (p ≤ turn p n d r)
unfolding turn
turn-least p zero d r = inl refl
turn-least p (suc n) d [] = inl refl
turn-least p (suc n) d (b ∷ r) = ground (arith, turn-least (suc p) n (branch b d) r)

-- There is no bit to turn off at exactly for the last code.
pub turn-follow :
    (p n : ℕ) (d : List (List Bool)) (r : List Bool)
    → 1 ≤ p
    → HasBits n d
    → (turn p n d r == 0) ≡ not (is_some (follow n d r))
unfolding turn follow
turn-follow p zero d r one h = refl
turn-follow p (suc n) d [] one h = refl
turn-follow p (suc n) d (true ∷ r) one h =
    let below = turn-follow (suc p) n (branch true d) r (omega arith) (branch-HasBits true n d h) in
    rw (is_some-or_else true (follow n (branch true d) r) none) (ground (arith, below))
turn-follow p (suc n) d (false ∷ r) one h =
    let below =
      turn-follow (suc p) n (branch false d) r (omega arith) (branch-HasBits false n d h) in
    let other = lead-is_some n (branch true d) (branch-HasBits true n d h) in
    rw
      (
        is_some-or_else false (follow n (branch false d) r)
            (with_bit true (lead n (branch true d))),
        is_some-with_bit true (lead n (branch true d)),
        other,
      )
      (ground (arith, below))

-- A list in which `f` leads from each element to the next, and from the last to `e`.
abbrev pub Chain : (List Bool → Option (List Bool)) → List (List Bool) → Option (List Bool) → Type 0
Chain f [] e = Unit
Chain f (r ∷ rs) e = (f r ≡ first_or rs e) × Chain f rs e

first_or-append :
    (xs ys : List (List Bool)) (e : Option (List Bool))
    → first_or (xs ++ ys) e ≡ first_or xs (first_or ys e)
first_or-append [] ys e = refl
first_or-append (x ∷ xs) ys e = refl

Chain-append :
    (f : List Bool → Option (List Bool)) (xs ys : List (List Bool)) (e : Option (List Bool))
    → Chain f xs (first_or ys e)
    → Chain f ys e
    → Chain f (xs ++ ys) e
Chain-append f [] ys e h k = k
Chain-append f (x ∷ xs) ys e (h, hs) k =
    (h ∙ sym (first_or-append xs ys e), Chain-append f xs ys e hs k)

Chain-map :
    (f g : List Bool → Option (List Bool)) (b : Bool) (xs : List (List Bool))
    (e : Option (List Bool))
    → ((r : List Bool) → g (b ∷ r) ≡ or_else (with_bit b (f r)) e)
    → Chain f xs none
    → Chain g (map (λ r. b ∷ r) xs) e
Chain-map f g b [] e h c = record {}
Chain-map f g b (x ∷ []) e h (c, cs) = (h x ∙ ap (λ o. or_else (with_bit b o) e) c, record {})
Chain-map f g b (x ∷ y ∷ xs) e h (c, cs) =
    (h x ∙ ap (λ o. or_else (with_bit b o) e) c, Chain-map f g b (y ∷ xs) e h cs)

first_or-map :
    (b : Bool) (xs : List (List Bool)) (e : Option (List Bool))
    → first_or (map (λ r. b ∷ r) xs) e ≡ or_else (with_bit b (first_or xs none)) e
first_or-map b [] e = refl
first_or-map b (x ∷ xs) e = refl

pub first_or-in_order : (n : ℕ) (d : List (List Bool)) → first_or (in_order n d) none ≡ lead n d
unfolding in_order lead
first_or-in_order zero [] = refl
first_or-in_order zero (r ∷ d) = refl
first_or-in_order (suc n) d =
    let xs = in_order n (branch false d) in
    let ys = in_order n (branch true d) in
    first_or-append (map (λ r. false ∷ r) xs) (map (λ r. true ∷ r) ys) none
    ∙ first_or-map false xs (first_or (map (λ r. true ∷ r) ys) none)
    ∙ ap (or_else (with_bit false (first_or xs none))) (first_or-map true ys none ∙ or_else-none _)
    ∙ rw (first_or-in_order n (branch false d), first_or-in_order n (branch true d)) refl

pub in_order-Chain : (n : ℕ) (d : List (List Bool)) → Chain (follow n d) (in_order n d) none
unfolding in_order follow
in_order-Chain zero [] = record {}
in_order-Chain zero (r ∷ d) = (refl, record {})
in_order-Chain (suc n) d =
    let xs = in_order n (branch false d) in
    let ys = in_order n (branch true d) in
    let next =
      first_or-map true ys none
      ∙ or_else-none _
      ∙ ap (with_bit true) (first_or-in_order n (branch true d)) in
    Chain-append (follow (suc n) d) (map (λ r. false ∷ r) xs) (map (λ r. true ∷ r) ys) none
      (Chain-map (follow n (branch false d)) (follow (suc n) d) false xs
        (first_or (map (λ r. true ∷ r) ys) none)
        (λ r. ap (or_else (with_bit false (follow n (branch false d) r))) (sym next))
        (in_order-Chain n (branch false d)))
      (Chain-map (follow n (branch true d)) (follow (suc n) d) true ys none (λ r. refl)
        (in_order-Chain n (branch true d)))
