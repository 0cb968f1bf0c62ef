-- ===== src/Http/Points.antt =====
-- src/firmware/network/http.rs: the number of points that a history request gets.
use brewster.Common.{
  ℕ, ◌+◌, ◌-◌, ◌*◌, ◌≤◌, ◌<◌, ◌≡◌, refl, inl, inr, Bool, true, false, not, ◌&&◌, Option, none, some,
  List, [], ◌∷◌, ◌++◌, arith, ltb, leb, ◌==◌, if◌then◌else◌, ltb→lt, Bool-cases, length, All,
}
use brewster.Common.Words.{u32_max}
use brewster.Config.{clamp}
use brewster.Dns.Drop.{take-append}
use brewster.Http.{points_key, parse_history_points, points_loop, points_of, query_of}
use brewster.Shared.Bytes.{starts_with, window_position, after}
use brewster.Shared.Utf8.{from_utf8-ascii}
use brewster.Shared.Text.{split, split_rest, parse_uint, parse_digits}
use brewster.Http.{points_in}
use brewster.Http.{or_points}

-- A byte of ASCII that ends neither a line nor a part of a query.
abbrev pub Plain : ℕ → Type 0
Plain b = (b < 128) × ((b == 13) ≡ false) × ((b == b'&') ≡ false)

clamp-range : (n : ℕ) → (1 ≤ clamp 1 1000 n) × (clamp 1 1000 n ≤ 1000)
clamp-range n = (ground arith, ground arith)

or_points-range :
    (o : Option ℕ) (rest : ℕ)
    → (1 ≤ rest) × (rest ≤ 1000)
    → (1 ≤ or_points o rest) × (or_points o rest ≤ 1000)
or_points-range (some n) rest h = clamp-range n
or_points-range none rest h = h

points_loop-range : (pairs : List (List ℕ)) → (1 ≤ points_loop pairs) × (points_loop pairs ≤ 1000)
unfolding points_loop
points_loop-range [] = (omega arith, omega arith)
points_loop-range (pair ∷ pairs) =
    or_points-range (points_of pair) (points_loop pairs) (points_loop-range pairs)

-- The number of points that a history request gets is at least 1 and at most 1000, whatever its
-- bytes are.
pub parse_history_points-range :
    (buf : List ℕ) → (1 ≤ parse_history_points buf) × (parse_history_points buf ≤ 1000)
unfolding parse_history_points
parse_history_points-range buf = bounded (query_of buf)
  where
    bounded : (o : Option (List ℕ)) → (1 ≤ points_in o) × (points_in o ≤ 1000)
    bounded none = (omega arith, omega arith)
    bounded (some query) = points_loop-range (split b'&' query)

if_same {ℓ} : {A : Type ℓ} (b : Bool) (x : A) → (if b then x else x) ≡ x
if_same true x = refl
if_same false x = refl

window_position-line :
    (xs ys : List ℕ)
    → All Plain xs
    → window_position (13 ∷ 10 ∷ []) (xs ++ (13 ∷ 10 ∷ ys)) ≡ some (length xs)
unfolding window_position starts_with
window_position-line [] ys h = refl
window_position-line (x ∷ xs) ys ((small, other, part), rest) =
    rw (other, window_position-line xs ys rest) refl

All-small : (xs : List ℕ) → All Plain xs → All (λ b. b < 128) xs
All-small [] h = record {}
All-small (x ∷ xs) ((small, other, part), rest) = (small, All-small xs rest)

split_rest-one : (xs : List ℕ) → All Plain xs → split_rest b'&' xs ≡ (xs, [])
unfolding split_rest
split_rest-one [] h = refl
split_rest-one (x ∷ xs) ((small, other, part), rest) = rw (split_rest-one xs rest, part) refl

parse_digits-blank :
    (most acc : ℕ) (xs ys : List ℕ) → parse_digits most acc (xs ++ (b' ' ∷ ys)) ≡ none
unfolding parse_digits
parse_digits-blank most acc [] ys = refl
parse_digits-blank most acc (x ∷ xs) ys =
    rw (parse_digits-blank most (acc * 10 + (x - b'0')) xs ys)
      (if_same (leb b'0' x && leb x b'9' && leb (acc * 10 + (x - b'0')) most) none)

-- A text with a blank is no number.
parse_uint-blank :
    (most : ℕ) (xs : List ℕ) (y : ℕ) (ys : List ℕ) → parse_uint most (xs ++ (b' ' ∷ y ∷ ys)) ≡ none
unfolding parse_uint
parse_uint-blank most [] y ys = parse_digits-blank most 0 [] (y ∷ ys)
parse_uint-blank most (c ∷ []) y ys =
    rw (parse_digits-blank most 0 [] (y ∷ ys), parse_digits-blank most 0 (c ∷ []) (y ∷ ys))
      (if_same (c == b'+') none)
parse_uint-blank most (c ∷ d ∷ xs) y ys =
    rw
      (parse_digits-blank most 0 (d ∷ xs) (y ∷ ys), parse_digits-blank most 0 (c ∷ d ∷ xs) (y ∷ ys))
      (if_same (c == b'+') none)

-- `b" HTTP/1.1"`
abbrev protocol : List ℕ
protocol = (b' ' ∷ b'H' ∷ b'T' ∷ b'T' ∷ b'P' ∷ b'/' ∷ b'1' ∷ b'.' ∷ b'1' ∷ [])

-- `b"GET /history?"`
abbrev history_target : List ℕ
history_target =
    (b'G' ∷ b'E' ∷ b'T' ∷ b' ' ∷ b'/' ∷ b'h' ∷ b'i' ∷ b's' ∷ b't' ∷ b'o' ∷ b'r' ∷ b'y' ∷ b'?' ∷ [])

-- `points=` with what a browser sends behind it on the line.
abbrev pub query_line : List ℕ → List ℕ
query_line value = points_key ++ (value ++ protocol)

abbrev pub history_line : List ℕ → List ℕ
history_line value = history_target ++ query_line value

All-join : (xs ys : List ℕ) → All Plain xs → All Plain ys → All Plain (xs ++ ys)
All-join [] ys h g = g
All-join (x ∷ xs) ys (p, h) g = (p, All-join xs ys h g)

abbrev all_plain : List ℕ → Bool
all_plain [] = true
all_plain (b ∷ bs) = (ltb b 128 && not (b == 13) && not (b == b'&')) && all_plain bs

All-Plain : (bs : List ℕ) → all_plain bs ≡ true → All Plain bs
All-Plain [] e = record {}
All-Plain (b ∷ bs) e = elim (Bool-cases (ltb b 128 && not (b == 13) && not (b == b'&'))) [
  | inl h ↦ (
    (ltb→lt b 128 (ground (arith, h)), ground (arith, h), ground (arith, h)),
    All-Plain bs (rw h at e),
  )
  | inr h ↦ absurd (cc)
]

All-query : (value : List ℕ) → All Plain value → All Plain (query_line value)
All-query value h =
    All-join points_key (value ++ protocol) (All-Plain points_key refl)
      (All-join value protocol h (All-Plain protocol refl))

points_loop-alone :
    (value : List ℕ) → All Plain value → points_loop (split b'&' (query_line value)) ≡ 400
unfolding points_loop split starts_with
points_loop-alone value h =
    rw
      (
        split_rest-one (query_line value) (All-query value h),
        parse_uint-blank u32_max value b'H' (b'T' ∷ b'T' ∷ b'P' ∷ b'/' ∷ b'1' ∷ b'.' ∷ b'1' ∷ []),
      )
      refl

-- The points of a request `GET /history?points=<value> HTTP/1.1` are 400 whatever the value is: the
-- rest of the line is read with it. The value is ASCII, with no carriage return and no ampersand.
pub parse_history_points-ignored :
    (value rest : List ℕ)
    → All Plain value
    → parse_history_points (history_line value ++ (13 ∷ 10 ∷ rest)) ≡ 400
unfolding parse_history_points after
parse_history_points-ignored value rest h =
    let plain =
      All-join history_target (query_line value) (All-Plain history_target refl)
        (All-query value h) in
    let buf = history_line value ++ (13 ∷ 10 ∷ rest) in
    let query : query_of buf ≡ some (query_line value) =
      rw
        (
          window_position-line (history_line value) rest plain,
          take-append (history_line value) (13 ∷ 10 ∷ rest),
          from_utf8-ascii (history_line value) (All-small (history_line value) plain),
        )
        refl in
    rw query (points_loop-alone value h)
