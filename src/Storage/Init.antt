-- ===== src/Storage/Init.antt =====
-- `history_init` and `history_record_offset`: the scan of the history partition at boot.
pub mod Scanning
use brewster.Common.{
  ℕ, zero, suc, ◌+◌, ◌-◌, ◌*◌, ◌/◌, ◌%◌, ◌^◌, ◌≤◌, ◌<◌, min, ◌≡◌, refl, sym, ap, ◌∙◌, ◌≢◌, ◌⊎◌, inl,
  inr, Bool, true, false, not, ◌&&◌, ◌||◌, Option, none, some, List, [], ◌∷◌, ◌++◌, map, append-nil,
  append_assoc, arith, ltb, leb, ◌==◌, if◌then◌else◌, ltb→lt, lt→ltb, leb→le, ==_iff, Bool-cases,
  Option-cases, ◌>>=◌, is_some, length, get_elem?, set, get_or, take, drop, replicate, slice,
  copy_at, All, length-append, length-set, length-take, length-drop, length-replicate, length-map,
}
use brewster.Common.Int.{
  ℤ, pos, negsuc, pos_part, neg_part, ◌+ℤ◌, ◌-ℤ◌, ◌≤ℤ◌, ltb_ℤ, clamp_ℤ, ◌==ℤ◌,
}
use brewster.Common.Words.{
  IsByte, IsU16, IsU32, u32_max, wrapping_add32, wrapping_sub32, saturating_add32, saturating_mul32,
  le_bytes16, from_le16, le_bytes32, from_le32, be_bytes16, from_be16, be_bytes32, bits8, signed8,
  bits16, signed16, bits32, signed32, i16_min, i16_max, i32_min, i32_max, from_le16-le_bytes16,
  from_le32-le_bytes32, signed16-bits16, signed32-bits32, signed8-bits8, bits8-signed8,
  bits16-IsU16, bits32-IsU32,
}
use brewster.Common.Bits.{holds_below, holds_below_lem}
use brewster.Common.Float.{
  Float, of_centi, half, clamp_f, as_i8, as_i16, as_i32, as_u8, as_u16, as_u32,
}
use Prim.Native.Nat.{bit_and, bit_or, bit_xor, max}
use brewster.Storage.{Flash, Storage, history_record_size, history_data_offset}
use brewster.Storage.Record.{history_record_valid, record_seq}

unfoldable pub history_record_offset : {Dev : Type 0} → Storage Dev → ℕ → ℕ
history_record_offset s index =
    wrapping_add32 s.history_base_offset (saturating_mul32 index history_record_size)

-- The variables of the scan.
pub record Scan : Type 0 where
  pub max_seq : ℕ
  pub max_index : ℕ
  pub has_records : Bool
  pub valid_count : ℕ

abbrev pub scan_start : Scan
scan_start = record { max_seq = 0; max_index = 0; has_records = false; valid_count = 0 }

-- The body of the loop from the validity test on.
pub scan_record : ℕ → List ℕ → Scan → Scan
scan_record index raw c =
    if history_record_valid raw
    then (let counted = saturating_add32 c.valid_count 1 in
        if not c.has_records || ltb c.max_seq (record_seq raw)
        then record {
          max_seq = record_seq raw;
          max_index = index;
          has_records = true;
          valid_count = counted;
        }
        else record c { valid_count = counted })
    else c

module _ (fl : Flash) where
  -- One round: a read error and an invalid record are passed over.
  pub scan_slot : fl.Dev → ℕ → ℕ → Scan → Scan
  scan_slot d base index c =
      elim (fl.read d (wrapping_add32 base (saturating_mul32 index history_record_size)) 16) [
        | none ↦ c
        | some raw ↦ scan_record index raw c
      ]

  -- `for index in 0..capacity`, after the rounds below `n`.
  pub scan : fl.Dev → ℕ → ℕ → Scan
  scan d base zero = scan_start
  scan d base (suc n) = scan_slot d base n (scan d base n)

  pub history_init : fl.Dev → ℕ → ℕ → Storage fl.Dev → Storage fl.Dev
  history_init d partition_offset partition_len s =
      if leb partition_len (history_data_offset + history_record_size)
      then record s {
        history_base_offset = 0;
        history_capacity = 0;
        history_write_index = 0;
        history_next_seq = 0;
        history_count = 0;
      }
      else (let base = wrapping_add32 partition_offset history_data_offset in
          let capacity = (partition_len - history_data_offset) / history_record_size in
          let c = scan d base capacity in
          if c.has_records
          then record s {
            history_base_offset = base;
            history_capacity = capacity;
            history_write_index = (c.max_index + 1) % capacity;
            history_next_seq = wrapping_add32 c.max_seq 1;
            history_count = c.valid_count;
          }
          else record s {
            history_base_offset = base;
            history_capacity = capacity;
            history_write_index = 0;
            history_next_seq = 0;
            history_count = 0;
          })
