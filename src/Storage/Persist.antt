-- ===== src/Storage/Persist.antt =====
-- `persist_history_sample`: one sample into the ring of records.
pub mod Count
pub mod Recover
pub mod Decode
pub mod Reboot
use brewster.Common.{
  ℕ, zero, suc, ◌+◌, ◌-◌, ◌*◌, ◌/◌, ◌%◌, ◌^◌, ◌≤◌, ◌<◌, min, ◌≡◌, refl, sym, ap, ◌∙◌, ◌≢◌, ◌⊎◌, inl,
  inr, Bool, true, false, not, ◌&&◌, ◌||◌, Option, none, some, List, [], ◌∷◌, ◌++◌, map, append-nil,
  append_assoc, arith, ltb, leb, ◌==◌, if◌then◌else◌, ltb→lt, lt→ltb, leb→le, ==_iff, Bool-cases,
  Option-cases, ◌>>=◌, is_some, length, get_elem?, set, get_or, take, drop, replicate, slice,
  copy_at, All, length-append, length-set, length-take, length-drop, length-replicate, length-map,
}
use brewster.Common.Int.{
  ℤ, pos, negsuc, pos_part, neg_part, ◌+ℤ◌, ◌-ℤ◌, ◌≤ℤ◌, ltb_ℤ, clamp_ℤ, ◌==ℤ◌,
}
use brewster.Common.Words.{
  IsByte, IsU16, IsU32, u32_max, wrapping_add32, wrapping_sub32, saturating_add32, saturating_mul32,
  le_bytes16, from_le16, le_bytes32, from_le32, be_bytes16, from_be16, be_bytes32, bits8, signed8,
  bits16, signed16, bits32, signed32, i16_min, i16_max, i32_min, i32_max, from_le16-le_bytes16,
  from_le32-le_bytes32, signed16-bits16, signed32-bits32, signed8-bits8, bits8-signed8,
  bits16-IsU16, bits32-IsU32,
}
use brewster.Common.Bits.{holds_below, holds_below_lem}
use brewster.Common.Float.{
  Float, of_centi, half, clamp_f, as_i8, as_i16, as_i32, as_u8, as_u16, as_u32,
}
use Prim.Native.Nat.{bit_and, bit_or, bit_xor, max}
use brewster.Storage.{
  Flash, Storage, RuntimeSample, history_record_size, history_sector_size,
  history_sample_interval_secs,
}
use brewster.Storage.Record.{extra_centi, pack_steps, encode_record}
use brewster.Storage.Init.{history_record_offset}

-- The record's fields but the sequence number, as they are computed before the critical section.
pub record Fields : Type 0 where
  pub temp_centi : ℤ
  pub extra : List ℤ
  pub target_centi : ℤ
  pub output_pct : ℕ
  pub flags : ℕ

module _ (f : Float) where
  open f use {of_int, mul}

  pub fields_of : RuntimeSample f.F → List ℤ → ℤ → Fields
  fields_of sample extra_temps_centi target_temp_centi = record {
    temp_centi = as_i16 f (mul sample.temp_c (of_int (pos 100)));
    extra = extra_centi 3 extra_temps_centi;
    target_centi = signed16 (bits16 target_temp_centi);
    output_pct = as_u8 f (clamp_f f (of_int (pos 0)) (of_int (pos 100)) sample.pid_output);
    flags = pack_steps sample.pid_window_step sample.pid_on_steps;
  }

abbrev pub records_per_sector : ℕ
records_per_sector = history_sector_size / history_record_size

module _ (fl : Flash) where
  -- The write of the record, after the sector was seen to: `count` is the local variable.
  unfoldable pub write_record : Fields → fl.Dev → ℕ → Storage fl.Dev → Storage fl.Dev
  write_record x d count s =
      let seq = s.history_next_seq in
      let raw = encode_record seq x.temp_centi x.extra x.target_centi x.output_pct x.flags in
      let (failed, d') = fl.write d (history_record_offset s s.history_write_index) raw in
      if is_some failed then record s { flash_storage = some d' } else record s {
        history_write_index = wrapping_add32 s.history_write_index 1 % s.history_capacity;
        history_next_seq = wrapping_add32 seq 1;
        history_count = min (saturating_add32 count 1) s.history_capacity;
        flash_storage = some d';
      }

  -- The critical section: the sector is erased where the record is the first in it.
  unfoldable pub store_record : Fields → fl.Dev → Storage fl.Dev → Storage fl.Dev
  store_record x d s =
      let offset = history_record_offset s s.history_write_index in
      if offset % history_sector_size == 0
      then (let (failed, d') = fl.erase d offset (wrapping_add32 offset history_sector_size) in
          if is_some failed
          then record s { flash_storage = some d' }
          else write_record x d' (s.history_count - min s.history_count records_per_sector) s)
      else write_record x d s.history_count s

  -- `now_uptime_s` is the uptime that the clock shows.
  unfoldable pub persist_history_sample :
      (f : Float) → ℕ → RuntimeSample f.F → List ℤ → Storage fl.Dev → Storage fl.Dev
  persist_history_sample f now_uptime_s sample extra_temps_centi s =
      let last = s.history_last_persist_uptime_s in
      if not (last == 0) && ltb (now_uptime_s - last) history_sample_interval_secs
      then s
      else if s.history_capacity == 0
      then s
      else (let s' = record s { history_last_persist_uptime_s = now_uptime_s } in
          let x = fields_of f sample extra_temps_centi s.target_temp_centi in
          elim s.flash_storage [ none ↦ s' | some d ↦ store_record x d s' ])
