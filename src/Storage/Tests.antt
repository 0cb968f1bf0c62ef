-- ===== src/Storage/Tests.antt =====
-- The storage's theorems at a device in memory, and runs of its operations.
use brewster.Common.{
  ℕ, ◌+◌, ◌≤◌, ◌<◌, min, ◌≡◌, refl, sym, ◌∙◌, ◌≢◌, ◌⊎◌, true, false, Option, none, some, List, [],
  ◌∷◌, map, arith, length,
}
use brewster.Common.Int.{ℤ, pos, negsuc, ◌+ℤ◌, ◌≤ℤ◌}
use brewster.Common.Words.{i32_max}
use brewster.Common.Fixed.{fixed}
use brewster.Storage.{
  Storage, StorageError, RuntimeSample, initial, target_temp_min_centi, target_temp_max_centi,
  flash,
}
use brewster.Storage.Device.{memory, memory_laws, put}
use brewster.Storage.Record.{record_seq, encode_record, decode_record}
use brewster.Storage.Init.{history_init}
use brewster.Storage.Init.Scanning.Frame.{valid_at-write_ne}
use native.Mathlib.Decide.{ℕ_discrete}
use brewster.Storage.Init.Scanning.{valid_at, valid_below}
use brewster.Storage.Persist.{fields_of, persist_history_sample, store_record, write_record}
use brewster.Storage.Device.{read_cells}
use brewster.Storage.Record.{history_record_valid}
use brewster.Storage.Init.{history_record_offset}
use brewster.Storage.Persist.Reboot.{IsReady}
use brewster.Storage.Persist.Recover.{persist_recovers}
use brewster.Storage.Persist.Count.{persist_counts, persist_miscounts}
use brewster.Storage.Persist.Decode.{decode_record-encode_record}
use brewster.Storage.Clear.{clear_history_persistent}
use brewster.Storage.Clear.Erased.{clear_history_recovers}
use brewster.Storage.Snapshot.{history_snapshot}
use brewster.Storage.Snapshot.Suffix.{history_snapshot-last, records_of, ring_slots}
use brewster.Storage.Flags.{flags_init, set_features_persistent, set_collection_enabled_persistent}
use brewster.Storage.Probe.{
  set_temp_probe_name, temp_probe_name, trim, utf8_len, all_chars, is_valid_probe_name_char,
}
use brewster.Storage.Probe.Names.{set_temp_probe_name_lem}
use brewster.Storage.Snapshot.Suffix.{last}
use brewster.Storage.Snapshot.{count_valid, collect, read_valid}
use brewster.Storage.Target.{persist_target_temp_c, target_centi_of, valid_target_centi}
use brewster.Storage.Flags.{persist_flags}
use brewster.Storage.Flags.RoundTrip.{HasFlags}
use brewster.Storage.Flags.RoundTrip.{set_flags_recover}
use brewster.Storage.Target.{set_target_temp_c_persistent, init_persistent_target}
use brewster.Storage.Target.Reboot.{set_target_recovers}
use brewster.Storage.Target.{find_partition}

abbrev blank : ℕ → ℕ
blank at = 0xFF

abbrev sample : RuntimeSample (Option ℤ)
sample = record {
  temp_c = some (pos 2150);
  pid_output = some (pos 4000);
  heating_on = true;
  heat_on = true;
  led_red = 0;
  led_green = 0;
  led_blue = 0;
  pid_window_step = 3;
  pid_on_steps = 4;
  pid_p_pct = some (pos 0);
  pid_i_pct = some (pos 0);
  pid_d_pct = some (pos 0);
}

-- A ring of 260 slots at 0xA000, over a device.
abbrev ring : ℕ → ℕ → ℕ → (ℕ → ℕ) → Storage (ℕ → ℕ)
ring index seq count d = record initial {
  target_store_offset = 0x9000;
  target_store_partition_len = 0x2040;
  history_base_offset = 0xA000;
  history_capacity = 260;
  history_write_index = index;
  history_next_seq = seq;
  history_count = count;
  flash_storage = some d;
}

abbrev empty_ring : Storage (ℕ → ℕ)
empty_ring = ring 0 0 0 blank

unfoldable pub one_record_bytes : List ℕ
one_record_bytes = encode_record 0 (pos 2150) (pos 0 ∷ pos 0 ∷ pos 0 ∷ []) (pos 2100) 40 0x43

-- The first slot holds a record.
abbrev one_record : ℕ → ℕ
one_record =
    put 0xA000 (encode_record 0 (pos 2150) (pos 0 ∷ pos 0 ∷ pos 0 ∷ []) (pos 2100) 40 0x43) blank

blank-none : (j : ℕ) → valid_at memory blank 0xA000 j ≡ none
unfolding valid_at history_record_valid read_cells
blank-none j = refl

blank_at-IsReady : (index : ℕ) → index < 260 → IsReady memory (ring index 0 0 blank) blank
blank_at-IsReady index h = record {
  device = refl;
  room = omega arith;
  aligned = refl;
  index = h;
  next = omega arith;
  older = λ j raw h e. absurd (none-ne-some (sym (blank-none j) ∙ e));
}
  where
    none-ne-some : {x : List ℕ} → none ≢ some x
    none-ne-some e = cc

blank_below : valid_below memory blank 0xA000 260 ≡ 0
unfolding valid_below valid_at history_record_valid read_cells
blank_below = refl

-- The record at the first slot is the only one on the device.
one_record-none : (j : ℕ) → j < 1000 → j ≢ 0 → valid_at memory one_record 0xA000 j ≡ none
unfolding one_record_bytes encode_record
one_record-none j h ne =
    valid_at-write_ne memory memory_laws blank 0xA000 0 j one_record_bytes (omega arith) refl ne
    ∙ blank-none j

one_record_first : valid_at memory one_record 0xA000 0 ≡ some one_record_bytes
unfolding valid_at one_record_bytes encode_record put read_cells history_record_valid
one_record_first = refl

one_record-IsReady : IsReady memory (ring 256 1 1 one_record) one_record
unfolding one_record_bytes encode_record
one_record-IsReady = record {
  device = refl;
  room = omega arith;
  aligned = refl;
  index = omega arith;
  next = omega arith;
  older = λ j raw h e. elim (ℕ_discrete j 0) [
    | yes p ↦ first_lem raw (rw p at e)
    | no p ↦ absurd (none-ne-some (sym (one_record-none j (omega arith) p) ∙ e))
  ];
}
  where
    none-ne-some : {x : List ℕ} → none ≢ some x
    none-ne-some e = cc

    first_lem : (raw : List ℕ) → valid_at memory one_record 0xA000 0 ≡ some raw → record_seq raw < 1
    first_lem raw e = ground (arith, one_record_first, e)

one_record_below : valid_below memory one_record 0xA000 260 ≡ 1
unfolding valid_below valid_at history_record_valid read_cells put one_record_bytes encode_record
one_record_below = refl

-- A sample at uptime 100 that moves the sequence number.
moved_empty : (persist_history_sample memory fixed 100 sample [] empty_ring).history_next_seq ≡ 1
unfolding persist_history_sample store_record write_record history_record_offset
moved_empty = refl

moved_inside :
    (persist_history_sample memory fixed 100 sample [] (ring 1 0 0 blank)).history_next_seq ≡ 1
unfolding persist_history_sample store_record write_record history_record_offset
moved_inside = refl

moved_next_sector :
    (persist_history_sample memory fixed 100 sample [] (ring 256 1 1 one_record)).history_next_seq
    ≡ 2
unfolding persist_history_sample store_record write_record history_record_offset
moved_next_sector = refl

persist_recovers_example :
    (d' : ℕ → ℕ) × IsReady memory (persist_history_sample memory fixed 100 sample [] empty_ring) d'
    × ((persist_history_sample memory fixed 100 sample [] empty_ring).history_next_seq ≡ 1)
    × ((history_init memory d' 0x9000 0x2040 initial).history_base_offset ≡ 0xA000)
    × ((history_init memory d' 0x9000 0x2040 initial).history_capacity ≡ 260)
    × ((history_init memory d' 0x9000 0x2040 initial).history_write_index ≡ 1)
    × ((history_init memory d' 0x9000 0x2040 initial).history_next_seq ≡ 1)
    × ((history_init memory d' 0x9000 0x2040 initial).history_count
        ≡ valid_below memory d' 0xA000 260)
unfolding persist_history_sample store_record history_record_offset write_record
persist_recovers_example =
    persist_recovers memory memory_laws fixed 100 sample [] empty_ring initial blank 0x9000 0x2040
      (blank_at-IsReady 0 (omega arith)) refl refl (omega arith) (omega arith)
      (λ e. omega (arith, moved_empty, e))

persist_counts_example :
    (d' : ℕ → ℕ) × ((persist_history_sample memory fixed 100 sample []
        (ring 1 0 0 blank)).flash_storage
      ≡ some d')
    × ((persist_history_sample memory fixed 100 sample [] (ring 1 0 0 blank)).history_count ≡ 1)
    × ((history_init memory d' 0x9000 0x2040 initial).history_count
        ≡ (persist_history_sample memory fixed 100 sample [] (ring 1 0 0 blank)).history_count)
persist_counts_example =
    persist_counts memory memory_laws fixed 100 sample [] (ring 1 0 0 blank) initial blank 0x9000
      0x2040 (blank_at-IsReady 1 (omega arith)) refl refl (omega arith) (sym blank_below)
      (blank-none 1, λ j start lo hi. blank-none j) (λ e. omega (arith, moved_inside, e))
      (λ e. omega (arith, e))

-- One record, and a count of one; the first slot of the next sector is empty. The count stays
-- one, and the boot counts two records.
persist_miscounts_example :
    (d' : ℕ → ℕ) × ((persist_history_sample memory fixed 100 sample []
        (ring 256 1 1 one_record)).flash_storage
      ≡ some d')
    × ((history_init memory d' 0x9000 0x2040 initial).history_count
        ≡ (persist_history_sample memory fixed 100 sample []
            (ring 256 1 1 one_record)).history_count
          + 1)
persist_miscounts_example =
    persist_miscounts memory memory_laws fixed 100 sample [] (ring 256 1 1 one_record) initial
      one_record 0x9000 0x2040 one_record-IsReady refl refl (omega arith) (sym one_record_below)
      (
        one_record-none 256 (omega arith) (omega arith),
        λ j start lo hi. one_record-none j (omega arith) (omega arith),
      )
      (λ e. omega (arith, moved_next_sector, e)) refl

decode_record-encode_record_example :
    let x = fields_of fixed sample (pos 1234 ∷ i32_max ∷ negsuc 499 ∷ []) (pos 2100) in
    decode_record fixed (encode_record 7 x.temp_centi x.extra x.target_centi x.output_pct x.flags)
    ≡ record {
      seq = 7;
      temp_c = some (pos 2150);
      target_c = some (pos 2100);
      output_percent = some (pos 4000);
      window_step = 3;
      on_steps = 4;
      relay_on = true;
      extra_temps = some (pos 1234) ∷ none ∷ some (negsuc 499) ∷ [];
    }
decode_record-encode_record_example =
    decode_record-encode_record fixed sample (pos 1234) i32_max (negsuc 499) (pos 2100) 7
      (omega arith) (omega arith) (omega arith)

clear_history_recovers_example :
    (r : Option (StorageError ℕ) × Storage (ℕ → ℕ)) × (clear_history_persistent memory
        (ring 256 1 1 one_record)
      ≡ some r)
    × (((x : ℕ) × (r.0 ≡ some (flash x)))
        ⊎ ((d' : ℕ → ℕ) × (r.0 ≡ none)
            × (r.1.flash_storage ≡ some d')
            × (r.1.history_write_index ≡ 0)
            × (r.1.history_next_seq ≡ 0)
            × (r.1.history_count ≡ 0)
            × ((history_init memory d' 0x9000 0x2040 initial).history_write_index ≡ 0)
            × ((history_init memory d' 0x9000 0x2040 initial).history_next_seq ≡ 0)
            × ((history_init memory d' 0x9000 0x2040 initial).history_count ≡ 0)))
clear_history_recovers_example =
    clear_history_recovers memory memory_laws (ring 256 1 1 one_record) initial one_record 0x9000
      0x2040 refl (omega arith) refl (omega arith) refl refl

-- The states that the flags' setters leave.
abbrev http_set : Storage (ℕ → ℕ)
http_set = (set_features_persistent memory true false empty_ring).1

abbrev collection_set : Storage (ℕ → ℕ)
collection_set = (set_collection_enabled_persistent memory true empty_ring).1

features_ok : set_features_persistent memory true false empty_ring ≡ (none, http_set)
unfolding set_features_persistent persist_flags
features_ok = refl

collection_ok : set_collection_enabled_persistent memory true empty_ring ≡ (none, collection_set)
unfolding set_collection_enabled_persistent persist_flags
collection_ok = refl

set_flags_recover_example :
    (dt du : ℕ → ℕ) × (http_set.flash_storage ≡ some dt)
    × HasFlags (flags_init memory dt 0x9000 0x2040 initial) true false false
    × (collection_set.flash_storage ≡ some du)
    × HasFlags (flags_init memory du 0x9000 0x2040 initial) true true true
set_flags_recover_example =
    set_flags_recover memory memory_laws true false true empty_ring initial http_set collection_set
      features_ok collection_ok

-- 21.00 degrees.
abbrev target_set : Storage (ℕ → ℕ)
target_set = (set_target_temp_c_persistent memory fixed (some (pos 2100)) empty_ring).1

target_ok :
    set_target_temp_c_persistent memory fixed (some (pos 2100)) empty_ring ≡ (none, target_set)
unfolding set_target_temp_c_persistent persist_target_temp_c target_centi_of valid_target_centi ◌+ℤ◌
target_ok = refl

set_target_recovers_example :
    (d' : ℕ → ℕ) × (target_set.flash_storage ≡ some d')
    × (target_temp_min_centi ≤ℤ pos 2100)
    × (pos 2100 ≤ℤ target_temp_max_centi)
    × ((init_persistent_target memory fixed d' initial).0 ≡ some (some (pos 2100)))
    × ((init_persistent_target memory fixed d' initial).1.target_temp_centi ≡ pos 2100)
unfolding target_centi_of find_partition ◌+ℤ◌
set_target_recovers_example =
    set_target_recovers memory memory_laws fixed (some (pos 2100)) empty_ring initial target_set
      blank (record { label = 99 ∷ 102 ∷ 103 ∷ []; offset = 0x9000; len = 0x2040 }) refl refl refl
      refl (omega arith) target_ok

history_snapshot-last_example :
    let r = ring 256 1 1 one_record in
    (history_snapshot memory fixed r 5
      ≡ map
          (decode_record fixed)
          (last 5 (records_of memory r one_record (ring_slots memory r one_record))))
    × (length (history_snapshot memory fixed r 5)
        ≡ min 5 (length (records_of memory r one_record (ring_slots memory r one_record))))
history_snapshot-last_example =
    history_snapshot-last memory (ring 256 1 1 one_record) one_record fixed 5 refl (omega arith)
      (omega arith)

-- The snapshot of the one record.
snapshot_run : length (history_snapshot memory fixed (ring 256 1 1 one_record) 5) ≡ 1
unfolding history_snapshot count_valid collect read_valid put read_cells one_record_bytes
    encode_record history_record_valid history_record_offset
snapshot_run = refl

set_temp_probe_name_example :
    let (error, t) = set_temp_probe_name (32 ∷ 75 ∷ 49 ∷ []) empty_ring in
    ((error ≢ none) × (t ≡ empty_ring))
    ⊎ ((error ≡ none)
        × (t.temp_probe_name ≡ trim (32 ∷ 75 ∷ 49 ∷ []))
        × (temp_probe_name t ≡ trim (32 ∷ 75 ∷ 49 ∷ []))
        × (1 ≤ utf8_len (trim (32 ∷ 75 ∷ 49 ∷ [])))
        × (utf8_len (trim (32 ∷ 75 ∷ 49 ∷ [])) ≤ 32)
        × (all_chars is_valid_probe_name_char (trim (32 ∷ 75 ∷ 49 ∷ [])) ≡ true)
        × (set_temp_probe_name (temp_probe_name t) t ≡ (none, t)))
set_temp_probe_name_example = set_temp_probe_name_lem (32 ∷ 75 ∷ 49 ∷ []) empty_ring
