-- ===== src/Shared/Utf8.antt =====
-- `core::str::from_utf8`: the code points of a text in UTF-8, where the bytes are one.
use brewster.Common.{
  ℕ, zero, suc, ◌+◌, ◌-◌, ◌*◌, ◌<◌, ◌≡◌, refl, ap, Bool, ◌&&◌, Option, none, some, List, [], ◌∷◌,
  ◌++◌, ltb, leb, ◌==◌, if◌then◌else◌, lt→ltb, ◌>>=◌, All,
}

-- What a byte may be: the first of a code point, or one between `lo` and `hi`, with `left` bytes
-- behind it, the earlier ones giving `code`.
pub data Pending : Type 0 where
  first : Pending
  more : (left lo hi code : ℕ) → Pending
  bad : Pending

abbrev within : ℕ → ℕ → ℕ → Bool
within lo hi b = leb lo b && leb b hi

-- A first byte of more than one: no longer code than needed, no surrogate, at most U+10FFFF.
pub lead : ℕ → Pending
lead b =
    if within 0xC2 0xDF b
    then more 0 0x80 0xBF (b - 0xC0)
    else if b == 0xE0
    then more 1 0xA0 0xBF 0
    else if b == 0xED
    then more 1 0x80 0x9F 13
    else if within 0xE1 0xEF b
    then more 1 0x80 0xBF (b - 0xE0)
    else if b == 0xF0
    then more 2 0x90 0xBF 0
    else if within 0xF1 0xF3 b
    then more 2 0x80 0xBF (b - 0xF0)
    else if b == 0xF4
    then more 2 0x80 0x8F 4
    else bad

-- The code points that a byte ends, and what may follow it.
unfoldable pub utf8_step : Pending → ℕ → List ℕ × Pending
utf8_step first b = if ltb b 0x80 then (b ∷ [], first) else ([], lead b)
utf8_step (more zero lo hi code) b =
    if within lo hi b then ((code * 64 + (b - 0x80)) ∷ [], first) else ([], bad)
utf8_step (more (suc left) lo hi code) b =
    if within lo hi b then ([], more left 0x80 0xBF (code * 64 + (b - 0x80))) else ([], bad)
utf8_step bad b = ([], bad)

unfoldable pub utf8_loop : Pending → List ℕ → Option (List ℕ)
utf8_loop first [] = some []
utf8_loop (more left lo hi code) [] = none
utf8_loop bad [] = none
utf8_loop state (b ∷ bs) =
    let (chars, state') = utf8_step state b in utf8_loop state' bs >>= λ t. some (chars ++ t)

unfoldable pub from_utf8 : List ℕ → Option (List ℕ)
from_utf8 bytes = utf8_loop first bytes

-- A text of ASCII is its own list of code points.
pub from_utf8-ascii : (bs : List ℕ) → All (λ b. b < 128) bs → from_utf8 bs ≡ some bs
unfolding from_utf8 utf8_loop utf8_step
from_utf8-ascii [] h = refl
from_utf8-ascii (b ∷ bs) (small, rest) =
    rw (lt→ltb b 128 small) (ap (λ o. o >>= λ t. some (b ∷ t)) (from_utf8-ascii bs rest))
