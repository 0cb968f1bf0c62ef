-- ===== src/Storage/Probe.antt =====
-- The probe's name: `set_temp_probe_name` and `temp_probe_name`. A text is the list of its code
-- points.
pub mod Names
use brewster.Common.{
  ℕ, zero, suc, ◌+◌, ◌-◌, ◌*◌, ◌/◌, ◌%◌, ◌^◌, ◌≤◌, ◌<◌, min, ◌≡◌, refl, sym, ap, ◌∙◌, ◌≢◌, ◌⊎◌, inl,
  inr, Bool, true, false, not, ◌&&◌, ◌||◌, Option, none, some, List, [], ◌∷◌, ◌++◌, map, append-nil,
  append_assoc, arith, ltb, leb, ◌==◌, if◌then◌else◌, ltb→lt, lt→ltb, leb→le, ==_iff, Bool-cases,
  Option-cases, ◌>>=◌, is_some, length, get_elem?, set, get_or, take, drop, replicate, slice,
  copy_at, All, length-append, length-set, length-take, length-drop, length-replicate, length-map,
}
use brewster.Common.Int.{
  ℤ, pos, negsuc, pos_part, neg_part, ◌+ℤ◌, ◌-ℤ◌, ◌≤ℤ◌, ltb_ℤ, clamp_ℤ, ◌==ℤ◌,
}
use brewster.Common.Words.{
  IsByte, IsU16, IsU32, u32_max, wrapping_add32, wrapping_sub32, saturating_add32, saturating_mul32,
  le_bytes16, from_le16, le_bytes32, from_le32, be_bytes16, from_be16, be_bytes32, bits8, signed8,
  bits16, signed16, bits32, signed32, i16_min, i16_max, i32_min, i32_max, from_le16-le_bytes16,
  from_le32-le_bytes32, signed16-bits16, signed32-bits32, signed8-bits8, bits8-signed8,
  bits16-IsU16, bits32-IsU32,
}
use brewster.Common.Bits.{holds_below, holds_below_lem}
use brewster.Common.Float.{
  Float, of_centi, half, clamp_f, as_i8, as_i16, as_i32, as_u8, as_u16, as_u32,
}
use Prim.Native.Nat.{bit_and, bit_or, bit_xor, max}
use mathlib.Core.List.{reverse}
use brewster.Storage.{Storage}

pub data ProbeNameError : Type 0 where
  empty too_long invalid_char : ProbeNameError

abbrev pub temp_probe_name_max_len : ℕ
temp_probe_name_max_len = 32

-- `char::is_whitespace`: Unicode's White_Space.
unfoldable pub is_whitespace : ℕ → Bool
is_whitespace c =
    (leb 9 c && leb c 13)
    || c == 32
    || c == 0x85
    || c == 0xA0
    || c == 0x1680
    || (leb 0x2000 c && leb c 0x200A)
    || c == 0x2028
    || c == 0x2029
    || c == 0x202F
    || c == 0x205F
    || c == 0x3000

unfoldable pub trim_start : List ℕ → List ℕ
trim_start [] = []
trim_start (c ∷ cs) = if is_whitespace c then trim_start cs else c ∷ cs

-- `str::trim`
unfoldable pub trim : List ℕ → List ℕ
trim name = reverse (trim_start (reverse (trim_start name)))

-- `str::len`: the bytes of the text in UTF-8.
pub utf8_len : List ℕ → ℕ
utf8_len [] = 0
utf8_len (c ∷ cs) =
    (if ltb c 0x80 then 1 else if ltb c 0x800 then 2 else if ltb c 0x10000 then 3 else 4)
    + utf8_len cs

unfoldable pub is_valid_probe_name_char : ℕ → Bool
is_valid_probe_name_char ch =
    (leb b'0' ch && leb ch b'9')
    || (leb b'A' ch && leb ch b'Z')
    || (leb b'a' ch && leb ch b'z')
    || ch == b' '
    || ch == b'-'
    || ch == b'_'
    || ch == b'.'

pub all_chars : (ℕ → Bool) → List ℕ → Bool
all_chars p [] = true
all_chars p (c ∷ cs) = p c && all_chars p cs

pub set_temp_probe_name :
    {Dev : Type 0} → List ℕ → Storage Dev → Option ProbeNameError × Storage Dev
set_temp_probe_name name s =
    let trimmed = trim name in
    if utf8_len trimmed == 0
    then (some empty, s)
    else if ltb temp_probe_name_max_len (utf8_len trimmed)
    then (some too_long, s)
    else if not (all_chars is_valid_probe_name_char trimmed)
    then (some invalid_char, s)
    else (none, record s { temp_probe_name = trimmed })

-- `"probe-1"` stands in for the empty name.
pub temp_probe_name : {Dev : Type 0} → Storage Dev → List ℕ
temp_probe_name s =
    if utf8_len s.temp_probe_name == 0
    then b'p' ∷ b'r' ∷ b'o' ∷ b'b' ∷ b'e' ∷ b'-' ∷ b'1' ∷ []
    else s.temp_probe_name
