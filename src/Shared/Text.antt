-- ===== src/Shared/Text.antt =====
-- What the source uses of `str`: `split`, `trim` over ASCII and `parse::<u8>`.
use brewster.Common.{
  ℕ, ◌+◌, ◌-◌, ◌*◌, ◌≡◌, ◌&&◌, Option, none, some, List, [], ◌∷◌, arith, leb, ◌==◌, if◌then◌else◌,
}
use brewster.Common.Words.{IsByte}
use brewster.Common.{◌≤◌}

-- `s.split(c)`: there is always a first part.
unfoldable pub split_rest : ℕ → List ℕ → List ℕ × List (List ℕ)
split_rest c [] = ([], [])
split_rest c (x ∷ xs) =
    let (part, parts) = split_rest c xs in if x == c then ([], part ∷ parts) else (x ∷ part, parts)

unfoldable pub split : ℕ → List ℕ → List (List ℕ)
split c xs = let (part, parts) = split_rest c xs in part ∷ parts

-- `parse` of an unsigned type with the greatest value `most`, from the first digit on.
unfoldable pub parse_digits : ℕ → ℕ → List ℕ → Option ℕ
parse_digits most acc [] = some acc
parse_digits most acc (c ∷ cs) =
    let rest = parse_digits most (acc * 10 + (c - b'0')) cs in
    if leb b'0' c && leb c b'9' && leb (acc * 10 + (c - b'0')) most then rest else none

-- An empty text and a sign alone are refused; a leading plus is accepted.
unfoldable pub parse_uint : ℕ → List ℕ → Option ℕ
parse_uint most [] = none
parse_uint most (c ∷ []) = parse_digits most 0 (c ∷ [])
parse_uint most (c ∷ d ∷ cs) =
    if c == b'+' then parse_digits most 0 (d ∷ cs) else parse_digits most 0 (c ∷ d ∷ cs)

abbrev pub parse_u8 : List ℕ → Option ℕ
parse_u8 cs = parse_uint 255 cs

pub parse_digits-le :
    (most acc : ℕ) (cs : List ℕ) {n : ℕ} → acc ≤ most → parse_digits most acc cs ≡ some n → n ≤ most
unfolding parse_digits
parse_digits-le most acc [] h e = ground arith
parse_digits-le most acc (c ∷ cs) {n} h e =
    ground (arith, parse_digits-le most (acc * 10 + (c - b'0')) cs {n = n})

pub parse_uint-le : (most : ℕ) (cs : List ℕ) {n : ℕ} → parse_uint most cs ≡ some n → n ≤ most
unfolding parse_uint
parse_uint-le most [] e = cc
parse_uint-le most (c ∷ []) e = parse_digits-le most 0 (c ∷ []) (omega arith) e
parse_uint-le most (c ∷ d ∷ cs) {n} e =
    ground
      (arith, parse_digits-le most 0 (d ∷ cs) {n = n}, parse_digits-le most 0 (c ∷ d ∷ cs) {n = n})

pub parse_u8-IsByte : (cs : List ℕ) {n : ℕ} → parse_u8 cs ≡ some n → IsByte n
parse_u8-IsByte cs e = omega (arith, parse_uint-le 255 cs e)
