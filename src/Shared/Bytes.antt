-- ===== src/Shared/Bytes.antt =====
-- What the source uses of slices of bytes and of `str` when it reads a request: `starts_with`,
-- the first window that is a given text, and the text before and after a character.
use brewster.Common.{
  ℕ, suc, ◌-◌, ◌≤◌, ◌≡◌, refl, ap, inl, inr, Bool, true, false, ◌&&◌, Option, none, some, List, [],
  ◌∷◌, ◌++◌, arith, ◌==◌, if◌then◌else◌, Bool-cases, ◌>>=◌, length,
}

-- `xs.starts_with(prefix)`
unfoldable pub starts_with : List ℕ → List ℕ → Bool
starts_with [] xs = true
starts_with (p ∷ ps) [] = false
starts_with (p ∷ ps) (x ∷ xs) = (x == p) && starts_with ps xs

-- `xs.windows(n).position(|w| w == needle)` for a needle of n bytes, n not 0.
unfoldable pub window_position : List ℕ → List ℕ → Option ℕ
window_position needle [] = none
window_position needle (x ∷ xs) =
    let rest = window_position needle xs in
    if starts_with needle (x ∷ xs) then some 0 else rest >>= λ i. some (suc i)

-- What follows the first `c`: `&xs[i + 1..]` with `i = xs.find(c)?`.
unfoldable pub after : ℕ → List ℕ → Option (List ℕ)
after c [] = none
after c (x ∷ xs) = let rest = after c xs in if x == c then some xs else rest

-- What stands before the first `c`: `&xs[..i]` with `i = xs.find(c)?`.
unfoldable pub before : ℕ → List ℕ → Option (List ℕ)
before c [] = none
before c (x ∷ xs) = let rest = before c xs in if x == c then some [] else rest >>= λ t. some (x ∷ t)

pub starts_with-append :
    (ps xs ys : List ℕ) → length ps ≤ length xs → starts_with ps (xs ++ ys) ≡ starts_with ps xs
unfolding starts_with
starts_with-append [] xs ys h = refl
starts_with-append (p ∷ ps) [] ys h = absurd (omega arith)
starts_with-append (p ∷ ps) (x ∷ xs) ys h =
    ap (λ b. (x == p) && b) (starts_with-append ps xs ys (omega arith))

starts_with-length : (ps xs : List ℕ) → starts_with ps xs ≡ true → length ps ≤ length xs
unfolding starts_with
starts_with-length [] xs e = omega arith
starts_with-length (p ∷ ps) [] e = cc
starts_with-length (p ∷ ps) (x ∷ xs) e = elim (Bool-cases (x == p)) [
  | inl h ↦ (let r = starts_with-length ps xs (rw h at e) in omega (arith, r))
  | inr h ↦ absurd (cc)
]

map-some : (o : Option ℕ) {k : ℕ} → (o >>= λ i. some (suc i)) ≡ some k → o ≡ some (k - 1)
map-some none e = absurd (cc)
map-some (some i) e = ground arith

-- A window stays the first one when bytes are added behind it.
window_position-inside :
    (needle xs : List ℕ) {k : ℕ} → window_position needle xs ≡ some k → length needle ≤ length xs
unfolding window_position
window_position-inside needle [] e = absurd (cc)
window_position-inside needle (x ∷ xs) {k} e = elim (Bool-cases (starts_with needle (x ∷ xs))) [
  | inl h ↦ starts_with-length needle (x ∷ xs) h
  | inr h ↦
      let r = window_position-inside needle xs (map-some (window_position needle xs) (rw h at e)) in
      omega (arith, r)
]

pub window_position-append :
    (needle xs ys : List ℕ) {k : ℕ}
    → window_position needle xs ≡ some k
    → window_position needle (xs ++ ys) ≡ some k
unfolding window_position
window_position-append needle [] ys e = absurd (cc)
window_position-append needle (x ∷ xs) ys {k} e =
    let same = starts_with-append needle (x ∷ xs) ys (window_position-inside needle (x ∷ xs) e) in
    elim (Bool-cases (starts_with needle (x ∷ xs))) [
      | inl h ↦ rw (same, h) (rw h at e)
      | inr h ↦
          let t = map-some (window_position needle xs) (rw h at e) in
          rw (same, h, window_position-append needle xs ys t) (rw t at (rw h at e))
    ]
