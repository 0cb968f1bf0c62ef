-- ===== src/Sensor/Search/Bytes.antt =====
-- The bits of a code in the bytes of a ROM.
use brewster.Common.{
  ℕ, zero, suc, ◌+◌, ◌-◌, ◌*◌, ◌/◌, ◌%◌, ◌^◌, ◌≤◌, ◌<◌, ◌≡◌, refl, sym, ap, ◌∙◌, inl, inr, Bool,
  true, false, List, [], ◌∷◌, ◌++◌, append-nil, append_assoc, arith, ltb, ◌==◌, if◌then◌else◌,
  ltb→lt, ==_iff, Bool-cases, length, get_or, take, drop, replicate, length-append, length-take,
  length-drop,
}
use brewster.Common.Bits.{holds_below, holds_below_lem}
use Prim.Native.Nat.{bit_or}
use brewster.Sensor.Search.{bit_at, set_bit}
use brewster.Sensor.Search.Pass.{add_bits, Holds}
use native.Mathlib.Numerals.{unary_clauses}
use brewster.Common.{◌≤◌, ◌<◌}
use native.Mathlib.Nat.{div-div-eq-div-mul}
use brewster.Common.{length-take, get_or, append-nil}
use mathlib.Core.Path.{subst}
use brewster.Common.{append_assoc}

abbrev bit_value : Bool → ℕ
bit_value b = if b then 1 else 0

-- A byte of bits, the lowest first.
abbrev pub byte_of : List Bool → ℕ
byte_of [] = 0
byte_of (b ∷ r) = bit_value b + 2 * byte_of r

-- `n` bytes of a code.
unfoldable pub bytes_of : ℕ → List Bool → List ℕ
bytes_of zero r = []
bytes_of (suc n) r = byte_of (take 8 r) ∷ bytes_of n (drop 8 r)

double : (n : ℕ) → 2 ^ suc n ≡ 2 * 2 ^ n
double n = simp unary_clauses (omega arith)

byte_of-append :
    (r : List Bool) (b : Bool) → byte_of (r ++ (b ∷ [])) ≡ byte_of r + bit_value b * 2 ^ length r
byte_of-append [] b = ground arith
byte_of-append (c ∷ r) true = omega (arith, byte_of-append r true, double (length r))
byte_of-append (c ∷ r) false = omega (arith, byte_of-append r false)

byte_of-less : (r : List Bool) → byte_of r < 2 ^ length r
byte_of-less [] = omega arith
byte_of-less (b ∷ r) = ground (arith, byte_of-less r, double (length r))

or_table : holds_below (λ k. holds_below (λ v. bit_or v (2 ^ k) == v + 2 ^ k) (2 ^ k)) 8 ≡ true
unfolding holds_below
or_table = refl

or_lem : (k v : ℕ) → k < 8 → v < 2 ^ k → bit_or v (2 ^ k) ≡ v + 2 ^ k
or_lem k v hk hv = (==_iff _ _).0 (
    holds_below_lem (λ v. bit_or v (2 ^ k) == v + 2 ^ k) (2 ^ k) v
      (holds_below_lem (λ k. holds_below (λ v. bit_or v (2 ^ k) == v + 2 ^ k) (2 ^ k)) 8 k or_table
        hk)
      hv)

-- A bit set above the bits of a byte is the next bit of the byte.
byte_of-set :
    (r : List Bool) → length r < 8 → bit_or (byte_of r) (2 ^ length r) ≡ byte_of (r ++ (true ∷ []))
byte_of-set r h =
    or_lem (length r) (byte_of r) h (byte_of-less r) ∙ omega (arith, byte_of-append r true)

byte_of-unset : (r : List Bool) → byte_of r ≡ byte_of (r ++ (false ∷ []))
byte_of-unset r = omega (arith, byte_of-append r false)

take-long {ℓ} : {A : Type ℓ} (n : ℕ) (xs : List A) → length xs ≤ n → take n xs ≡ xs
take-long zero [] h = refl
take-long zero (x ∷ xs) h = absurd (omega arith)
take-long (suc n) [] h = refl
take-long (suc n) (x ∷ xs) h = ap (λ ys. x ∷ ys) (take-long n xs (omega arith))

drop-long {ℓ} : {A : Type ℓ} (n : ℕ) (xs : List A) → length xs ≤ n → drop n xs ≡ []
drop-long zero [] h = refl
drop-long zero (x ∷ xs) h = absurd (omega arith)
drop-long (suc n) [] h = refl
drop-long (suc n) (x ∷ xs) h = drop-long n xs (omega arith)

take-append_short {ℓ} :
    {A : Type ℓ} (n : ℕ) (xs ys : List A) → n ≤ length xs → take n (xs ++ ys) ≡ take n xs
take-append_short zero xs ys h = refl
take-append_short (suc n) [] ys h = absurd (omega arith)
take-append_short (suc n) (x ∷ xs) ys h =
    ap (λ zs. x ∷ zs) (take-append_short n xs ys (omega arith))

drop-append_short {ℓ} :
    {A : Type ℓ} (n : ℕ) (xs ys : List A) → n ≤ length xs → drop n (xs ++ ys) ≡ drop n xs ++ ys
drop-append_short zero xs ys h = refl
drop-append_short (suc n) [] ys h = absurd (omega arith)
drop-append_short (suc n) (x ∷ xs) ys h = drop-append_short n xs ys (omega arith)

-- A bit beyond the first byte is a bit of the other bytes.
set_bit-beyond :
    (x k : ℕ) (rom : List ℕ) → 8 ≤ k → set_bit (x ∷ rom) (suc k) ≡ x ∷ set_bit rom (suc (k - 8))
set_bit-beyond x k rom h =
    let i : (suc k - 1) / 8 ≡ suc ((suc (k - 8) - 1) / 8) = omega arith in
    let j : (suc k - 1) % 8 ≡ (suc (k - 8) - 1) % 8 = omega arith in rw (i, j) refl

bit_at-beyond :
    (x k : ℕ) (rom : List ℕ) → 8 ≤ k → bit_at (x ∷ rom) (suc k) ≡ bit_at rom (suc (k - 8))
bit_at-beyond x k rom h =
    let i : (suc k - 1) / 8 ≡ suc ((suc (k - 8) - 1) / 8) = omega arith in
    let j : (suc k - 1) % 8 ≡ (suc (k - 8) - 1) % 8 = omega arith in rw (i, j) refl

set_bit-low : (x k : ℕ) (rom : List ℕ) → k < 8 → set_bit (x ∷ rom) (suc k) ≡ bit_or x (2 ^ k) ∷ rom
set_bit-low x k rom h =
    let i : (suc k - 1) / 8 ≡ 0 = omega arith in
    let j : (suc k - 1) % 8 ≡ k = omega arith in rw (i, j) refl

bit_at-low : (x k : ℕ) (rom : List ℕ) → k < 8 → bit_at (x ∷ rom) (suc k) ≡ (x / 2 ^ k % 2 == 1)
bit_at-low x k rom h =
    let i : (suc k - 1) / 8 ≡ 0 = omega arith in
    let j : (suc k - 1) % 8 ≡ k = omega arith in rw (i, j) refl

-- With the bits of `r` set, the next bit is set or left.
add_bit :
    (n : ℕ) (r : List Bool) (b : Bool)
    → length r < 8 * n
    → (if b then set_bit (bytes_of n r) (suc (length r)) else bytes_of n r)
      ≡ bytes_of n (r ++ (b ∷ []))
unfolding bytes_of
add_bit zero r b h = absurd (omega arith)
add_bit (suc n) r b h =
    let size = length-append r (b ∷ []) in
    let rest = length-drop 8 r in
    elim (Bool-cases (ltb (length r) 8)) [
      | inl e ↦
          let short = ltb→lt (length r) 8 e in
          rw
            (
              take-long 8 r (omega (arith, short)),
              take-long 8 (r ++ (b ∷ [])) (omega (arith, short, size)),
              drop-long 8 r (omega (arith, short)),
              drop-long 8 (r ++ (b ∷ [])) (omega (arith, short, size)),
            )
            (low b short)
      | inr e ↦
          let long : 8 ≤ length r = ground (arith, e) in
          rw (take-append_short 8 r (b ∷ []) long, drop-append_short 8 r (b ∷ []) long)
            (high b long (add_bit n (drop 8 r) b (omega (arith, rest, h))))
    ]
  where
    low :
        (b : Bool)
        → length r < 8
        → (if b
            then set_bit (byte_of r ∷ bytes_of n []) (suc (length r))
            else byte_of r ∷ bytes_of n [])
          ≡ byte_of (r ++ (b ∷ [])) ∷ bytes_of n []
    low true short =
        set_bit-low (byte_of r) (length r) (bytes_of n []) short
        ∙ ap (λ x. x ∷ bytes_of n []) (byte_of-set r short)
    low false short = ap (λ x. x ∷ bytes_of n []) (byte_of-unset r)

    high :
        (b : Bool)
        → 8 ≤ length r
        → (if b
            then set_bit (bytes_of n (drop 8 r)) (suc (length (drop 8 r)))
            else bytes_of n (drop 8 r))
          ≡ bytes_of n (drop 8 r ++ (b ∷ []))
        → (if b
            then set_bit (byte_of (take 8 r) ∷ bytes_of n (drop 8 r)) (suc (length r))
            else byte_of (take 8 r) ∷ bytes_of n (drop 8 r))
          ≡ byte_of (take 8 r) ∷ bytes_of n (drop 8 r ++ (b ∷ []))
    high true long below =
        set_bit-beyond (byte_of (take 8 r)) (length r) (bytes_of n (drop 8 r)) long
        ∙ ap (λ k. byte_of (take 8 r) ∷ set_bit (bytes_of n (drop 8 r)) (suc k))
            (sym (length-drop 8 r))
        ∙ ap (λ xs. byte_of (take 8 r) ∷ xs) below
    high false long below = ap (λ xs. byte_of (take 8 r) ∷ xs) below

-- The bit of a byte.
bit_of_byte :
    (r : List Bool) (k : ℕ) → k < length r → byte_of r / 2 ^ k % 2 ≡ bit_value (get_or r k false)
bit_of_byte [] k h = absurd (omega arith)
bit_of_byte (true ∷ r) zero h = omega arith
bit_of_byte (false ∷ r) zero h = omega arith
bit_of_byte (b ∷ r) (suc k) h =
    let e : byte_of (b ∷ r) / 2 ≡ byte_of r = halved b (byte_of r) in
    ap (λ m. byte_of (b ∷ r) / m % 2) (double k)
    ∙ ap (λ q. q % 2) (sym (div-div-eq-div-mul (byte_of (b ∷ r)) 2 (2 ^ k)) ∙ ap (λ q. q / 2 ^ k) e)
    ∙ bit_of_byte r k (omega arith)
  where
    halved : (b : Bool) (v : ℕ) → (bit_value b + 2 * v) / 2 ≡ v
    halved true v = omega arith
    halved false v = omega arith

get_or-take : (n : ℕ) (r : List Bool) (k : ℕ) → k < n → get_or (take n r) k false ≡ get_or r k false
get_or-take zero r k h = absurd (omega arith)
get_or-take (suc n) [] k h = refl
get_or-take (suc n) (b ∷ r) zero h = refl
get_or-take (suc n) (b ∷ r) (suc k) h = get_or-take n r k (omega arith)

get_or-drop_bits :
    (n : ℕ) (r : List Bool) (k : ℕ) → n ≤ k → get_or (drop n r) (k - n) false ≡ get_or r k false
get_or-drop_bits zero r k h = ap (λ i. get_or r i false) (omega arith)
get_or-drop_bits (suc n) [] k h = refl
get_or-drop_bits (suc n) (b ∷ r) zero h = absurd (omega arith)
get_or-drop_bits (suc n) (b ∷ r) (suc k) h =
    ap (λ i. get_or (drop n r) i false) (omega arith) ∙ get_or-drop_bits n r k (omega arith)

bit_value-test : (b : Bool) → (bit_value b == 1) ≡ b
bit_value-test true = refl
bit_value-test false = refl

-- The bits of the bytes are the bits of the code.
bit_at-bytes_of :
    (n : ℕ) (r : List Bool) (k : ℕ)
    → k < length r
    → length r ≡ 8 * n
    → bit_at (bytes_of n r) (suc k) ≡ get_or r k false
unfolding bytes_of
bit_at-bytes_of zero r k h size = absurd (omega arith)
bit_at-bytes_of (suc n) r k h size = elim (Bool-cases (ltb k 8)) [
  | inl e ↦
      let short = ltb→lt k 8 e in
      bit_at-low (byte_of (take 8 r)) k (bytes_of n (drop 8 r)) short
      ∙ ap (λ v. v == 1) (bit_of_byte (take 8 r) k (omega (arith, length-take 8 r, short)))
      ∙ bit_value-test (get_or (take 8 r) k false)
      ∙ get_or-take 8 r k short
  | inr e ↦
      let long : 8 ≤ k = ground (arith, e) in
      bit_at-beyond (byte_of (take 8 r)) k (bytes_of n (drop 8 r)) long
      ∙ bit_at-bytes_of n (drop 8 r) (k - 8) (omega (arith, length-drop 8 r, h, long))
          (omega (arith, length-drop 8 r, size))
      ∙ get_or-drop_bits 8 r k long
]

length-snoc : (r : List Bool) (b : Bool) → length (r ++ (b ∷ [])) ≡ suc (length r)
length-snoc r b = omega (arith, length-append r (b ∷ []))

get_or-middle :
    (r : List Bool) (b : Bool) (s : List Bool) → get_or (r ++ (b ∷ s)) (length r) false ≡ b
get_or-middle [] b s = refl
get_or-middle (x ∷ r) b s = get_or-middle r b s

Holds-from :
    (r s : List Bool) (rom : List ℕ)
    → ((k : ℕ) → k < length (r ++ s) → bit_at rom (suc k) ≡ get_or (r ++ s) k false)
    → Holds (suc (length r)) s rom
Holds-from r [] rom h = record {}
Holds-from r (b ∷ s) rom h = (
  h (length r) (omega (arith, length-append r (b ∷ s))) ∙ get_or-middle r b s,
  subst (λ n. Holds (suc n) s rom) (length-snoc r b)
      (Holds-from (r ++ (b ∷ [])) s rom (λ k inside.
        subst (λ t. k < length t → bit_at rom (suc k) ≡ get_or t k false)
          (sym (append_assoc r (b ∷ []) s)) (h k) inside)),
)

-- The bytes of a code of 64 bits hold it, and the search sets them from zeros.
pub bytes_of-Holds : (n : ℕ) (r : List Bool) → length r ≡ 8 * n → Holds 1 r (bytes_of n r)
bytes_of-Holds n r size = Holds-from [] r (bytes_of n r) (λ k h. bit_at-bytes_of n r k h size)

add_bits-bytes_of :
    (n : ℕ) (r s : List Bool)
    → length r + length s ≤ 8 * n
    → add_bits (suc (length r)) s (bytes_of n r) ≡ bytes_of n (r ++ s)
add_bits-bytes_of n r [] h = ap (bytes_of n) (sym (append-nil r))
add_bits-bytes_of n r (b ∷ s) h =
    ap (add_bits (suc (suc (length r))) s) (add_bit n r b (omega arith))
    ∙ ap (λ k. add_bits (suc k) s (bytes_of n (r ++ (b ∷ [])))) (sym (length-snoc r b))
    ∙ add_bits-bytes_of n (r ++ (b ∷ [])) s (omega (arith, length-snoc r b, h))
    ∙ ap (bytes_of n) (append_assoc r (b ∷ []) s)

pub add_bits-zeros : (r : List Bool) → length r ≡ 64 → add_bits 1 r (replicate 8 0) ≡ bytes_of 8 r
unfolding bytes_of
add_bits-zeros r size = add_bits-bytes_of 8 [] r (omega (arith, size))
