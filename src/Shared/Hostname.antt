-- ===== src/Shared/Hostname.antt =====
-- `normalized_dhcp_hostname`
pub mod Shape
use brewster.Common.{
  ℕ, zero, suc, ◌+◌, ◌-◌, ◌*◌, ◌/◌, ◌%◌, ◌^◌, ◌≤◌, ◌<◌, min, ◌≡◌, refl, sym, ap, ◌∙◌, ◌≢◌, ◌⊎◌, inl,
  inr, Bool, true, false, not, ◌&&◌, ◌||◌, Option, none, some, List, [], ◌∷◌, ◌++◌, map, append-nil,
  append_assoc, arith, ltb, leb, ◌==◌, if◌then◌else◌, ltb→lt, lt→ltb, leb→le, ==_iff, Bool-cases,
  Option-cases, ◌>>=◌, is_some, length, get_elem?, set, get_or, take, drop, replicate, slice,
  copy_at, All, length-append, length-set, length-take, length-drop, length-replicate, length-map,
}
use brewster.Common.Int.{
  ℤ, pos, negsuc, pos_part, neg_part, ◌+ℤ◌, ◌-ℤ◌, ◌≤ℤ◌, ltb_ℤ, clamp_ℤ, ◌==ℤ◌,
}
use brewster.Common.Words.{
  IsByte, IsU16, IsU32, u32_max, wrapping_add32, wrapping_sub32, saturating_add32, saturating_mul32,
  le_bytes16, from_le16, le_bytes32, from_le32, be_bytes16, from_be16, be_bytes32, bits8, signed8,
  bits16, signed16, bits32, signed32, i16_min, i16_max, i32_min, i32_max, from_le16-le_bytes16,
  from_le32-le_bytes32, signed16-bits16, signed32-bits32, signed8-bits8, bits8-signed8,
  bits16-IsU16, bits32-IsU32,
}
use brewster.Common.Bits.{holds_below, holds_below_lem}
use brewster.Common.Float.{
  Float, of_centi, half, clamp_f, as_i8, as_i16, as_i32, as_u8, as_u16, as_u32,
}
use Prim.Native.Nat.{bit_and, bit_or, bit_xor, max}
use mathlib.Core.List.{reverse}

-- The `match` on a byte: letters to lower case, digits and dashes as they are, others to a dash.
pub map_byte : ℕ → ℕ
map_byte byte =
    if leb b'A' byte && leb byte b'Z'
    then byte + (b'a' - b'A')
    else if (leb b'a' byte && leb byte b'z') || (leb b'0' byte && leb byte b'9') || byte == b'-'
    then byte
    else b'-'

-- The loop over the bytes.
pub hostname_loop : List ℕ → List ℕ → List ℕ
hostname_loop out [] = out
hostname_loop out (byte ∷ rest) =
    let mapped = map_byte byte in
    let skipped = hostname_loop out rest in
    let pushed = hostname_loop (out ++ (mapped ∷ [])) rest in
    if leb 32 (length out)
    then out
    else if length out == 0 && mapped == b'-'
    then skipped
    else pushed

-- `while out.as_bytes().last() == Some(&b'-') { out.pop(); }`, on the reversed text.
pub drop_dashes : List ℕ → List ℕ
drop_dashes [] = []
drop_dashes (c ∷ cs) = if c == b'-' then drop_dashes cs else c ∷ cs

-- `"brewster"`
abbrev pub default_hostname : List ℕ
default_hostname = b'b' ∷ b'r' ∷ b'e' ∷ b'w' ∷ b's' ∷ b't' ∷ b'e' ∷ b'r' ∷ []

pub normalized_dhcp_hostname : List ℕ → List ℕ
normalized_dhcp_hostname input =
    let out = reverse (drop_dashes (reverse (hostname_loop [] input))) in
    if length out == 0 then default_hostname else out
