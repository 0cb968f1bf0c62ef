-- ===== src/Common/Words.antt =====
-- Machine words as native numbers and integers, with their bytes.
use brewster.Common.{
  ℕ, ◌+◌, ◌-◌, ◌*◌, ◌/◌, ◌%◌, ◌<◌, ◌≡◌, List, [], ◌∷◌, arith, ltb, leb, if◌then◌else◌,
}
use brewster.Common.Int.{ℤ, pos, negsuc, ◌≤ℤ◌}

abbrev pub IsByte : ℕ → Type 0
IsByte b = b < 256

abbrev pub IsU16 : ℕ → Type 0
IsU16 n = n < 65536

abbrev pub IsU32 : ℕ → Type 0
IsU32 n = n < 4294967296

abbrev pub u32_max : ℕ
u32_max = 4294967295

abbrev pub wrapping_add32 : ℕ → ℕ → ℕ
wrapping_add32 a b = (a + b) % 4294967296

abbrev pub wrapping_sub32 : ℕ → ℕ → ℕ
wrapping_sub32 a b = (a + 4294967296 - b) % 4294967296

abbrev pub saturating_add32 : ℕ → ℕ → ℕ
saturating_add32 a b = if leb (a + b) u32_max then a + b else u32_max

abbrev pub saturating_mul32 : ℕ → ℕ → ℕ
saturating_mul32 a b = if leb (a * b) u32_max then a * b else u32_max

-- `to_le_bytes` and `from_le_bytes`
abbrev pub le_bytes16 : ℕ → List ℕ
le_bytes16 n = n % 256 ∷ n / 256 % 256 ∷ []

abbrev pub from_le16 : ℕ → ℕ → ℕ
from_le16 a b = a + 256 * b

abbrev pub le_bytes32 : ℕ → List ℕ
le_bytes32 n = n % 256 ∷ n / 256 % 256 ∷ n / 65536 % 256 ∷ n / 16777216 % 256 ∷ []

abbrev pub from_le32 : ℕ → ℕ → ℕ → ℕ → ℕ
from_le32 a b c d = a + 256 * b + 65536 * c + 16777216 * d

-- `to_be_bytes` and `from_be_bytes`
abbrev pub be_bytes16 : ℕ → List ℕ
be_bytes16 n = n / 256 % 256 ∷ n % 256 ∷ []

abbrev pub from_be16 : ℕ → ℕ → ℕ
from_be16 a b = 256 * a + b

abbrev pub be_bytes32 : ℕ → List ℕ
be_bytes32 n = n / 16777216 % 256 ∷ n / 65536 % 256 ∷ n / 256 % 256 ∷ n % 256 ∷ []

-- The bit pattern of an `i8`, `i16` and `i32`, and the integer that a pattern stands for.
abbrev pub bits8 : ℤ → ℕ
bits8 (pos n) = n % 256
bits8 (negsuc n) = 255 - n % 256

abbrev pub signed8 : ℕ → ℤ
signed8 w = if ltb w 128 then pos w else negsuc (255 - w)

abbrev pub bits16 : ℤ → ℕ
bits16 (pos n) = n % 65536
bits16 (negsuc n) = 65535 - n % 65536

abbrev pub signed16 : ℕ → ℤ
signed16 w = if ltb w 32768 then pos w else negsuc (65535 - w)

abbrev pub bits32 : ℤ → ℕ
bits32 (pos n) = n % 4294967296
bits32 (negsuc n) = 4294967295 - n % 4294967296

abbrev pub signed32 : ℕ → ℤ
signed32 w = if ltb w 2147483648 then pos w else negsuc (4294967295 - w)

abbrev pub i16_min : ℤ
i16_min = negsuc 32767

abbrev pub i16_max : ℤ
i16_max = pos 32767

abbrev pub i32_min : ℤ
i32_min = negsuc 2147483647

abbrev pub i32_max : ℤ
i32_max = pos 2147483647

pub from_le16-le_bytes16 : (n : ℕ) → IsU16 n → from_le16 (n % 256) (n / 256 % 256) ≡ n
from_le16-le_bytes16 n h = omega arith

pub from_le32-le_bytes32 :
    (n : ℕ)
    → IsU32 n
    → from_le32 (n % 256) (n / 256 % 256) (n / 65536 % 256) (n / 16777216 % 256) ≡ n
from_le32-le_bytes32 n h = omega arith

pub signed16-bits16 : (z : ℤ) → i16_min ≤ℤ z → z ≤ℤ i16_max → signed16 (bits16 z) ≡ z
signed16-bits16 (pos n) lo hi = ground arith
signed16-bits16 (negsuc n) lo hi = ground arith

pub signed32-bits32 : (z : ℤ) → i32_min ≤ℤ z → z ≤ℤ i32_max → signed32 (bits32 z) ≡ z
signed32-bits32 (pos n) lo hi = ground arith
signed32-bits32 (negsuc n) lo hi = ground arith

pub signed8-bits8 : (z : ℤ) → negsuc 127 ≤ℤ z → z ≤ℤ pos 127 → signed8 (bits8 z) ≡ z
signed8-bits8 (pos n) lo hi = ground arith
signed8-bits8 (negsuc n) lo hi = ground arith

pub bits8-signed8 : (w : ℕ) → IsByte w → bits8 (signed8 w) ≡ w
bits8-signed8 w h = ground arith

pub bits16-IsU16 : (z : ℤ) → IsU16 (bits16 z)
bits16-IsU16 (pos n) = omega arith
bits16-IsU16 (negsuc n) = omega arith

pub bits32-IsU32 : (z : ℤ) → IsU32 (bits32 z)
bits32-IsU32 (pos n) = omega arith
bits32-IsU32 (negsuc n) = omega arith
