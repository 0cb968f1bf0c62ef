-- ===== src/Sensor.antt =====
-- src/firmware/sensor.rs: the serial numbers of the probes, and a reading with its retries.
-- The signals on the wire are an interface.
pub mod Serial
pub mod Bus
pub mod Search
pub mod Runs
pub mod Tests
use brewster.Common.{
  ℕ, zero, suc, ◌+◌, ◌-◌, ◌*◌, ◌/◌, ◌%◌, ◌^◌, ◌≤◌, ◌<◌, min, ◌≡◌, refl, sym, ap, ◌∙◌, ◌≢◌, ◌⊎◌, inl,
  inr, Bool, true, false, not, ◌&&◌, ◌||◌, Option, none, some, List, [], ◌∷◌, ◌++◌, map, append-nil,
  append_assoc, arith, ltb, leb, ◌==◌, if◌then◌else◌, ltb→lt, lt→ltb, leb→le, ==_iff, Bool-cases,
  Option-cases, ◌>>=◌, is_some, length, get_elem?, set, get_or, take, drop, replicate, slice,
  copy_at, All, tabulate, tabulate_lem, length-copy_at, bytes_eq, bytes_eq_refl, bytes_eq→eq,
  length-append, length-set, length-take, length-drop, length-replicate, length-map,
}
use brewster.Common.Int.{
  ℤ, pos, negsuc, pos_part, neg_part, ◌+ℤ◌, ◌-ℤ◌, ◌≤ℤ◌, ltb_ℤ, clamp_ℤ, ◌==ℤ◌,
}
use brewster.Common.Words.{
  IsByte, IsU16, IsU32, u32_max, wrapping_add32, wrapping_sub32, saturating_add32, saturating_mul32,
  le_bytes16, from_le16, le_bytes32, from_le32, be_bytes16, from_be16, be_bytes32, bits8, signed8,
  bits16, signed16, bits32, signed32, i16_min, i16_max, i32_min, i32_max, from_le16-le_bytes16,
  from_le32-le_bytes32, signed16-bits16, signed32-bits32, signed8-bits8, bits8-signed8,
  bits16-IsU16, bits32-IsU32,
}
use brewster.Common.Bits.{holds_below, holds_below_lem, both, both_sound, same, same→eq}
use brewster.Common.Float.{
  Float, of_centi, half, clamp_f, as_i8, as_i16, as_i32, as_u8, as_u16, as_u32,
}
use Prim.Native.Nat.{bit_and, bit_or, bit_xor, max}
use brewster.Shared.Crc.{crc8_maxim}
use brewster.Status.{SensorError, crc_mismatch}

-- The bus: `ds18b20_start_conversion` and `ds18b20_read_scratchpad`, with the state of the wire.
pub record OneWire : Type 1 where
  pub Wire : Type 0
  pub start_conversion : Wire → Option SensorError × Wire
  pub read_scratchpad : Option (List ℕ) → Wire → (SensorError ⊎ List ℕ) × Wire

-- `DS18B20_READ_ATTEMPTS`
abbrev pub ds18b20_read_attempts : ℕ
ds18b20_read_attempts = 3

module _ (ow : OneWire) (f : Float) where
  -- The loop over the attempts that are left.
  unfoldable pub read_loop : ℕ → Option (List ℕ) → ow.Wire → (SensorError ⊎ f.F) × ow.Wire
  read_loop zero rom w = (inl crc_mismatch, w)
  read_loop (suc left) rom w =
      let (got, w') = ow.read_scratchpad rom w in
      let again = read_loop left rom w' in
      elim got [
        | inl error ↦ (inl error, w')
        | inr pad ↦
            (if crc8_maxim (slice pad 0 8) == get_or pad 8 0
              then (
                inr (
                    f.div (f.of_int (signed16 (from_le16 (get_or pad 0 0) (get_or pad 1 0))))
                      (f.of_int (pos 16))),
                w',
              )
              else if left == 0
              then (inl crc_mismatch, w')
              else again)
      ]

  unfoldable pub ds18b20_read_temperature_c_for :
      Option (List ℕ) → ow.Wire → (SensorError ⊎ f.F) × ow.Wire
  ds18b20_read_temperature_c_for rom w = read_loop ds18b20_read_attempts rom w

-- The bytes that the parser skips: `:`, `-`, a space and a tab.
abbrev pub is_separator : ℕ → Bool
is_separator b = b == 58 || b == 45 || b == 32 || b == 9

-- `(b as char).to_digit(16)`
pub to_digit : ℕ → Option ℕ
to_digit b =
    if leb b'0' b && leb b b'9'
    then some (b - b'0')
    else if leb b'a' b && leb b b'f'
    then some (b - b'a' + 10)
    else if leb b'A' b && leb b b'F'
    then some (b - b'A' + 10)
    else none

-- The compact text: a 17th byte is an error.
pub compact_loop : List ℕ → List ℕ → Option (List ℕ)
compact_loop compact [] = some compact
compact_loop compact (b ∷ bs) =
    let skipped = compact_loop compact bs in
    let pushed = compact_loop (compact ++ (b ∷ [])) bs in
    if is_separator b then skipped else if leb 16 (length compact) then none else pushed

-- Two digits a byte; `(hi << 4) | lo`.
pub rom_of : List ℕ → Option (List ℕ)
rom_of [] = some []
rom_of (h ∷ []) = none
rom_of (h ∷ l ∷ rest) =
    let tail = rom_of rest in
    to_digit h >>= λ hi. to_digit l >>= λ lo. tail >>= λ rom. some (bit_or (hi * 16) lo ∷ rom)

pub parse_ds18b20_serial : List ℕ → Option (List ℕ)
parse_ds18b20_serial serial =
    compact_loop [] serial >>= λ compact. if length compact == 16 then rom_of compact else none

-- `HEX[n]`
abbrev pub hex_digit : ℕ → ℕ
hex_digit n = if ltb n 10 then b'0' + n else b'a' + (n - 10)

pub format_ds18b20_serial : List ℕ → List ℕ
format_ds18b20_serial [] = []
format_ds18b20_serial (byte ∷ rom) =
    hex_digit (byte / 16) ∷ hex_digit (bit_and byte 0x0F) ∷ format_ds18b20_serial rom
