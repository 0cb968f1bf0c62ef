-- ===== src/Dns/Drop.antt =====
-- Reading a list at an index through what `drop` leaves there.
use brewster.Common.{
  ℕ, zero, suc, ◌+◌, ◌≡◌, refl, sym, ap, ◌∙◌, List, [], ◌∷◌, ◌++◌, arith, length, get_or, take,
  drop, length-drop,
}

nothing-left {ℓ} : {A : Type ℓ} (n : ℕ) → drop {A = A} n [] ≡ []
nothing-left zero = refl
nothing-left (suc n) = refl

pub drop-drop {ℓ} : {A : Type ℓ} (a b : ℕ) (xs : List A) → drop b (drop a xs) ≡ drop (a + b) xs
drop-drop zero b xs = ap (λ j. drop j xs) (omega arith)
drop-drop (suc a) b [] = nothing-left b ∙ sym (nothing-left (suc a + b))
drop-drop (suc a) b (x ∷ xs) = drop-drop a b xs ∙ ap (λ j. drop j (x ∷ xs)) e
  where
    e : suc (a + b) ≡ suc a + b
    e = omega arith

pub drop-append {ℓ} : {A : Type ℓ} (xs ys : List A) → drop (length xs) (xs ++ ys) ≡ ys
drop-append [] ys = refl
drop-append (x ∷ xs) ys = drop-append xs ys

pub take-append {ℓ} : {A : Type ℓ} (xs ys : List A) → take (length xs) (xs ++ ys) ≡ xs
take-append [] ys = refl
take-append (x ∷ xs) ys = ap (λ zs. x ∷ zs) (take-append xs ys)

-- `s` stands in `packet` from `off` on.
abbrev pub From : List ℕ → ℕ → List ℕ → Type 0
From packet off s = drop off packet ≡ s

pub get_or-drop :
    (off k : ℕ) (packet : List ℕ) → get_or packet (off + k) 0 ≡ get_or (drop off packet) k 0
get_or-drop zero k packet = ap (λ j. get_or packet j 0) (omega arith)
get_or-drop (suc off) k [] = refl
get_or-drop (suc off) k (x ∷ packet) =
    sym (ap (λ j. get_or (x ∷ packet) j 0) e) ∙ get_or-drop off k packet
  where
    e : suc (off + k) ≡ suc off + k
    e = omega arith

-- What is there bounds the index.
pub length-From :
    (packet : List ℕ) (off : ℕ) (b : ℕ) (s : List ℕ)
    → From packet off (b ∷ s)
    → length packet ≡ off + suc (length s)
length-From packet off b s h = ground (arith, length-drop off packet, ap length h)

pub From-get_or :
    (packet : List ℕ) (off k : ℕ) (s : List ℕ)
    → From packet off s
    → get_or packet (off + k) 0 ≡ get_or s k 0
From-get_or packet off k s h = get_or-drop off k packet ∙ ap (λ t. get_or t k 0) h

pub From-append :
    (packet : List ℕ) (off : ℕ) (s t : List ℕ)
    → From packet off (s ++ t)
    → From packet (off + length s) t
From-append packet off s t h =
    sym (drop-drop off (length s) packet) ∙ ap (λ u. drop (length s) u) h ∙ drop-append s t
