-- ===== src/Storage/Clear.antt =====
-- `clear_history_persistent`: every sector of the history is erased, then the counters are reset.
pub mod Erased
use brewster.Common.{
  ℕ, zero, suc, ◌+◌, ◌-◌, ◌*◌, ◌/◌, ◌%◌, ◌^◌, ◌≤◌, ◌<◌, min, ◌≡◌, refl, sym, ap, ◌∙◌, ◌≢◌, ◌⊎◌, inl,
  inr, Bool, true, false, not, ◌&&◌, ◌||◌, Option, none, some, List, [], ◌∷◌, ◌++◌, map, append-nil,
  append_assoc, arith, ltb, leb, ◌==◌, if◌then◌else◌, ltb→lt, lt→ltb, leb→le, ==_iff, Bool-cases,
  Option-cases, ◌>>=◌, is_some, length, get_elem?, set, get_or, take, drop, replicate, slice,
  copy_at, All, length-append, length-set, length-take, length-drop, length-replicate, length-map,
}
use brewster.Common.Int.{
  ℤ, pos, negsuc, pos_part, neg_part, ◌+ℤ◌, ◌-ℤ◌, ◌≤ℤ◌, ltb_ℤ, clamp_ℤ, ◌==ℤ◌,
}
use brewster.Common.Words.{
  IsByte, IsU16, IsU32, u32_max, wrapping_add32, wrapping_sub32, saturating_add32, saturating_mul32,
  le_bytes16, from_le16, le_bytes32, from_le32, be_bytes16, from_be16, be_bytes32, bits8, signed8,
  bits16, signed16, bits32, signed32, i16_min, i16_max, i32_min, i32_max, from_le16-le_bytes16,
  from_le32-le_bytes32, signed16-bits16, signed32-bits32, signed8-bits8, bits8-signed8,
  bits16-IsU16, bits32-IsU32,
}
use brewster.Common.Bits.{holds_below, holds_below_lem}
use brewster.Common.Float.{
  Float, of_centi, half, clamp_f, as_i8, as_i16, as_i32, as_u8, as_u16, as_u32,
}
use Prim.Native.Nat.{bit_and, bit_or, bit_xor, max}
use brewster.Storage.{
  Flash, Storage, StorageError, missing_partition, not_initialized, flash, history_record_size,
  history_sector_size,
}

-- What the erase loop gives: the error that stopped it, if any, and the device. `stuck` is no
-- value of the source: the fuel ran out.
pub data Erasing (Dev E : Type 0) : Type 0 where
  erased : Dev → Erasing Dev E
  failed : E → Dev → Erasing Dev E
  stuck : Erasing Dev E

module _ (fl : Flash) where
  -- `while sector < end { erase(sector, sector + 0x1000)?; sector += 0x1000; }`
  pub erase_loop : ℕ → fl.Dev → ℕ → ℕ → Erasing fl.Dev fl.Error
  erase_loop zero d sector end = stuck
  erase_loop (suc fuel) d sector end =
      let next = wrapping_add32 sector history_sector_size in
      let (error, d') = fl.erase d sector next in
      let rest = erase_loop fuel d' next end in
      if ltb sector end then elim error [ none ↦ rest | some e ↦ failed e d' ] else erased d

  -- `none` of the outer option: the fuel ran out.
  unfoldable pub clear_history_persistent :
      Storage fl.Dev → Option (Option (StorageError fl.Error) × Storage fl.Dev)
  clear_history_persistent s =
      if s.history_capacity == 0
      then some (some missing_partition, s)
      else (let start = s.history_base_offset in
          let end =
            wrapping_add32 start (saturating_mul32 s.history_capacity history_record_size) in
          elim s.flash_storage [
            | none ↦ some (some not_initialized, s)
            | some d ↦ elim (erase_loop (suc s.history_capacity) d start end) [
              | stuck ↦ none
              | failed e d' ↦ some (some (flash e), record s { flash_storage = some d' })
              | erased d' ↦ some (
                none,
                record s {
                  history_write_index = 0;
                  history_next_seq = 0;
                  history_count = 0;
                  history_last_persist_uptime_s = 0;
                  flash_storage = some d';
                },
              )
            ]
          ])
