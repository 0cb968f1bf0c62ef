-- ===== src/Shared/Crc.antt =====
-- `crc8_maxim`
pub mod Bounds
pub mod Division
use brewster.Common.{
  ℕ, zero, suc, ◌+◌, ◌-◌, ◌*◌, ◌/◌, ◌%◌, ◌^◌, ◌≤◌, ◌<◌, min, ◌≡◌, refl, sym, ap, ◌∙◌, ◌≢◌, ◌⊎◌, inl,
  inr, Bool, true, false, not, ◌&&◌, ◌||◌, Option, none, some, List, [], ◌∷◌, ◌++◌, map, append-nil,
  append_assoc, arith, ltb, leb, ◌==◌, if◌then◌else◌, ltb→lt, lt→ltb, leb→le, ==_iff, Bool-cases,
  Option-cases, ◌>>=◌, is_some, length, get_elem?, set, get_or, take, drop, replicate, slice,
  copy_at, All, length-append, length-set, length-take, length-drop, length-replicate, length-map,
}
use brewster.Common.Int.{
  ℤ, pos, negsuc, pos_part, neg_part, ◌+ℤ◌, ◌-ℤ◌, ◌≤ℤ◌, ltb_ℤ, clamp_ℤ, ◌==ℤ◌,
}
use brewster.Common.Words.{
  IsByte, IsU16, IsU32, u32_max, wrapping_add32, wrapping_sub32, saturating_add32, saturating_mul32,
  le_bytes16, from_le16, le_bytes32, from_le32, be_bytes16, from_be16, be_bytes32, bits8, signed8,
  bits16, signed16, bits32, signed32, i16_min, i16_max, i32_min, i32_max, from_le16-le_bytes16,
  from_le32-le_bytes32, signed16-bits16, signed32-bits32, signed8-bits8, bits8-signed8,
  bits16-IsU16, bits32-IsU32,
}
use brewster.Common.Bits.{holds_below, holds_below_lem}
use brewster.Common.Float.{
  Float, of_centi, half, clamp_f, as_i8, as_i16, as_i32, as_u8, as_u16, as_u32,
}
use Prim.Native.Nat.{bit_and, bit_or, bit_xor, max}

-- One of the eight rounds: the sum and the rest of the byte.
unfoldable pub crc_bit : ℕ × ℕ → ℕ × ℕ
crc_bit (crc, value) =
    let mix = bit_and (bit_xor crc value) 0x01 in
    let shifted = crc / 2 in (if mix == 0 then shifted else bit_xor shifted 0x8C, value / 2)

unfoldable pub crc_rounds : ℕ → ℕ × ℕ → ℕ × ℕ
crc_rounds zero c = c
crc_rounds (suc n) c = crc_rounds n (crc_bit c)

unfoldable pub crc_byte : ℕ → ℕ → ℕ
crc_byte crc byte = (crc_rounds 8 (crc, byte)).0

unfoldable pub crc_from : ℕ → List ℕ → ℕ
crc_from crc [] = crc
crc_from crc (byte ∷ bytes) = crc_from (crc_byte crc byte) bytes

unfoldable pub crc8_maxim : List ℕ → ℕ
crc8_maxim bytes = crc_from 0 bytes
