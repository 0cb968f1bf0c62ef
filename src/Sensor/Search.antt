-- ===== src/Sensor/Search.antt =====
-- src/firmware/sensor.rs: `ds18b20_scan_roms`, the search for the codes of the devices.
pub mod Order
pub mod Next
pub mod Bytes
pub mod Laws
pub mod Pass
pub mod Complete
pub mod Line
use brewster.Common.{
  ℕ, zero, suc, ◌+◌, ◌-◌, ◌*◌, ◌/◌, ◌%◌, ◌^◌, ◌≤◌, ◌<◌, min, ◌≡◌, refl, sym, ap, ◌∙◌, ◌≢◌, ◌⊎◌, inl,
  inr, Bool, true, false, not, ◌&&◌, ◌||◌, Option, none, some, List, [], ◌∷◌, ◌++◌, map, append-nil,
  append_assoc, arith, ltb, leb, ◌==◌, if◌then◌else◌, ltb→lt, lt→ltb, leb→le, ==_iff, Bool-cases,
  Option-cases, ◌>>=◌, is_some, length, get_elem?, set, get_or, take, drop, replicate, slice,
  copy_at, All, tabulate, tabulate_lem, length-copy_at, bytes_eq, bytes_eq_refl, bytes_eq→eq,
  length-append, length-set, length-take, length-drop, length-replicate, length-map,
}
use brewster.Common.Int.{
  ℤ, pos, negsuc, pos_part, neg_part, ◌+ℤ◌, ◌-ℤ◌, ◌≤ℤ◌, ltb_ℤ, clamp_ℤ, ◌==ℤ◌,
}
use brewster.Common.Words.{
  IsByte, IsU16, IsU32, u32_max, wrapping_add32, wrapping_sub32, saturating_add32, saturating_mul32,
  le_bytes16, from_le16, le_bytes32, from_le32, be_bytes16, from_be16, be_bytes32, bits8, signed8,
  bits16, signed16, bits32, signed32, i16_min, i16_max, i32_min, i32_max, from_le16-le_bytes16,
  from_le32-le_bytes32, signed16-bits16, signed32-bits32, signed8-bits8, bits8-signed8,
  bits16-IsU16, bits32-IsU32,
}
use brewster.Common.Bits.{holds_below, holds_below_lem, both, both_sound, same, same→eq}
use brewster.Common.Float.{
  Float, of_centi, half, clamp_f, as_i8, as_i16, as_i32, as_u8, as_u16, as_u32,
}
use Prim.Native.Nat.{bit_and, bit_or, bit_xor, max}
use brewster.Shared.Crc.{crc8_maxim}
use brewster.Status.{SensorError}
use brewster.Sensor.Bus.{BitBus, one_wire_write_byte, onewire_search_rom}

-- `(rom[(bit_number - 1) / 8] >> ((bit_number - 1) % 8)) & 1 == 1`
abbrev pub bit_at : List ℕ → ℕ → Bool
bit_at rom bit_number = get_or rom ((bit_number - 1) / 8) 0 / 2 ^ ((bit_number - 1) % 8) % 2 == 1

-- `next_rom[byte_index] |= 1 << bit_index`
abbrev pub set_bit : List ℕ → ℕ → List ℕ
set_bit rom bit_number =
    set rom ((bit_number - 1) / 8)
      (bit_or (get_or rom ((bit_number - 1) / 8) 0) (2 ^ ((bit_number - 1) % 8)))

-- `take_one`; `none` is `return Ok(false)`.
abbrev pub take_one : Bool → Bool → ℕ → ℕ → List ℕ → Option Bool
take_one true true bit_number last_discrepancy rom = none
take_one false false bit_number last_discrepancy rom = some (
    if ltb bit_number last_discrepancy
    then bit_at rom bit_number
    else if bit_number == last_discrepancy
    then true
    else false)
take_one false true bit_number last_discrepancy rom = some false
take_one true false bit_number last_discrepancy rom = some true

-- `crc8_maxim(&next_rom[..7]) == next_rom[7]`
abbrev pub crc_ok : List ℕ → Bool
crc_ok next_rom = crc8_maxim (take 7 next_rom) == get_or next_rom 7 0

module _ (bus : BitBus) where
  open bus use {Wire, reset, write_bit, read_bit}

  abbrev after_choice :
      Option Bool → Wire → (Bool → Option (ℕ × List ℕ) × Wire) → Option (ℕ × List ℕ) × Wire
  after_choice none w next = (none, w)
  after_choice (some one) w next = next one

  -- The loop over the bits that are left; a found code with its last discrepancy, or nothing.
  pub search_bits :
      (left bit_number last_discrepancy : ℕ)
      → List ℕ
      → ℕ
      → List ℕ
      → Wire
      → Option (ℕ × List ℕ) × Wire
  search_bits zero bit_number last_discrepancy rom next_discrepancy next_rom w =
      (some (next_discrepancy, next_rom), w)
  search_bits (suc left) bit_number last_discrepancy rom next_discrepancy next_rom w =
      let id = read_bit w in
      let complement = read_bit id.1 in
      after_choice (take_one id.0 complement.0 bit_number last_discrepancy rom) complement.1 (λ one.
        search_bits left (suc bit_number) last_discrepancy rom
          (if not id.0 && not complement.0 && not one then bit_number else next_discrepancy)
          (if one then set_bit next_rom bit_number else next_rom) (write_bit one complement.1))

  abbrev pub after_search_reset :
      ℕ → List ℕ → Option SensorError × Wire → Option (ℕ × List ℕ) × Wire
  after_search_reset last_discrepancy rom (some error, w) = (none, w)
  after_search_reset last_discrepancy rom (none, w) =
      search_bits 64 1 last_discrepancy rom 0 (replicate 8 0)
        (one_wire_write_byte bus onewire_search_rom w)

  -- The closure of `search_ok`; `Err` and `Ok(false)` are `none`.
  pub search_pass : ℕ → List ℕ → Wire → Option (ℕ × List ℕ) × Wire
  search_pass last_discrepancy rom w = after_search_reset last_discrepancy rom (reset w)

  -- A found code is kept, and the search goes on unless it was the last device.
  abbrev after_pass :
      Option (ℕ × List ℕ)
      → List (List ℕ)
      → Wire
      → (ℕ → List ℕ → List (List ℕ) → Wire → List (List ℕ) × Wire)
      → List (List ℕ) × Wire
  after_pass none found w next = (found, w)
  after_pass (some (next_discrepancy, next_rom)) found w next =
      if not (crc_ok next_rom)
      then (found, w)
      else if next_discrepancy == 0
      then (found ++ (next_rom ∷ []), w)
      else next next_discrepancy next_rom (found ++ (next_rom ∷ [])) w

  -- The loop over the passes: `room` is what `found` has left. A full `found` ends it.
  pub scan_loop : (room last_discrepancy : ℕ) → List ℕ → List (List ℕ) → Wire → List (List ℕ) × Wire
  scan_loop zero last_discrepancy rom found w = (found, (search_pass last_discrepancy rom w).1)
  scan_loop (suc room) last_discrepancy rom found w =
      let pass = search_pass last_discrepancy rom w in
      after_pass pass.0 found pass.1 (scan_loop room)

  pub ds18b20_scan_roms : ℕ → Wire → List (List ℕ) × Wire
  ds18b20_scan_roms most w = scan_loop most 0 (replicate 8 0) [] w
