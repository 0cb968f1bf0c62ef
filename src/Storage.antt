-- ===== src/Storage.antt =====
-- src/firmware/storage.rs: the flash-backed state, its records and the flash device under it.
-- The children hold the operations: `Record` the history record's bytes, `Init` the scan at boot,
-- `Persist` one history sample, `Clear` the erase loop, `Snapshot` the read-out, `Target` the
-- target temperature with the whole of the boot, `Flags` the feature flags, `Probe` the probe name.
pub mod Record
pub mod Init
pub mod Persist
pub mod Clear
pub mod Snapshot
pub mod Flags
pub mod Target
pub mod Device
mod Tests
pub mod Probe
use brewster.Common.{
  ℕ, ◌+◌, ◌<◌, ◌≤◌, ◌≡◌, ◌⊎◌, Bool, true, false, Option, none, some, List, length,
}
use brewster.Common.Int.{ℤ, pos, negsuc}
use brewster.Common.{[]}
use brewster.Common.{replicate}

-- `StorageError`, over the device's own error.
pub data StorageError (E : Type 0) : Type 0 where
  not_initialized missing_partition partition_too_small out_of_range : StorageError E
  flash : E → StorageError E

-- One entry of the partition table, as far as it is read.
pub record Entry : Type 0 where
  pub label : List ℕ
  pub offset : ℕ
  pub len : ℕ

-- `esp_storage::FlashStorage` and the reader of the partition table, which are not in the
-- repository. `write` and `erase` return the error, if any, and the device as they leave it.
pub record Flash : Type 1 where
  pub Dev : Type 0
  pub Error : Type 0
  pub read : Dev → ℕ → ℕ → Option (List ℕ)
  pub write : Dev → ℕ → List ℕ → Option Error × Dev
  pub erase : Dev → ℕ → ℕ → Option Error × Dev
  pub partition_table : Dev → Option (List Entry)

-- `RuntimeSample`
pub record RuntimeSample (F : Type 0) : Type 0 where
  pub temp_c : F
  pub pid_output : F
  pub heating_on : Bool
  pub heat_on : Bool
  pub led_red : ℕ
  pub led_green : ℕ
  pub led_blue : ℕ
  pub pid_window_step : ℕ
  pub pid_on_steps : ℕ
  pub pid_p_pct : F
  pub pid_i_pct : F
  pub pid_d_pct : F

-- `HistorySample`
pub record HistorySample (F : Type 0) : Type 0 where
  pub seq : ℕ
  pub temp_c : F
  pub target_c : F
  pub output_percent : F
  pub window_step : ℕ
  pub on_steps : ℕ
  pub relay_on : Bool
  pub extra_temps : List F

-- The statics of the file, over the flash device.
pub record Storage (Dev : Type 0) : Type 0 where
  pub target_temp_centi : ℤ
  pub target_store_offset : ℕ
  pub target_store_partition_len : ℕ
  pub history_base_offset : ℕ
  pub history_capacity : ℕ
  pub history_write_index : ℕ
  pub history_next_seq : ℕ
  pub history_count : ℕ
  pub history_last_persist_uptime_s : ℕ
  pub feature_http_enabled : Bool
  pub feature_prometheus_enabled : Bool
  pub collection_enabled_persisted : Bool
  pub temp_probe_name : List ℕ
  pub flash_storage : Option Dev

abbrev pub target_temp_min_centi : ℤ
target_temp_min_centi = negsuc 1999

abbrev pub target_temp_max_centi : ℤ
target_temp_max_centi = pos 10000

abbrev pub history_record_size : ℕ
history_record_size = 16

abbrev pub history_data_offset : ℕ
history_data_offset = 0x1000

abbrev pub history_sector_size : ℕ
history_sector_size = 0x1000

abbrev pub history_sample_interval_secs : ℕ
history_sample_interval_secs = 60

-- What the statics hold before `init_persistent_target`.
abbrev pub initial : {Dev : Type 0} → Storage Dev
initial = record {
  target_temp_centi = pos 2111;
  target_store_offset = 0;
  target_store_partition_len = 0;
  history_base_offset = 0;
  history_capacity = 0;
  history_write_index = 0;
  history_next_seq = 0;
  history_count = 0;
  history_last_persist_uptime_s = 0;
  feature_http_enabled = true;
  feature_prometheus_enabled = true;
  collection_enabled_persisted = false;
  temp_probe_name = [];
  flash_storage = none;
}

-- What the firmware relies on: a write that succeeds is read back, an erase that succeeds leaves
-- 0xFF, both leave the other bytes as they were, and neither reaches the partition table, which
-- ends at 0x9000.
pub record FlashLaws (fl : Flash) : Type 0 where
  pub read-write :
      (d : fl.Dev) (off : ℕ) (bytes : List ℕ)
      → (fl.write d off bytes).0 ≡ none
      → fl.read (fl.write d off bytes).1 off (length bytes) ≡ some bytes
  pub read-write_apart :
      (d : fl.Dev) (off : ℕ) (bytes : List ℕ) (at n : ℕ)
      → (at + n ≤ off) ⊎ (off + length bytes ≤ at)
      → fl.read (fl.write d off bytes).1 at n ≡ fl.read d at n
  pub read-erase :
      (d : fl.Dev) (from to at n : ℕ)
      → (fl.erase d from to).0 ≡ none
      → from ≤ at
      → at + n ≤ to
      → fl.read (fl.erase d from to).1 at n ≡ some (replicate n 0xFF)
  pub read-erase_apart :
      (d : fl.Dev) (from to at n : ℕ)
      → (at + n ≤ from) ⊎ (to ≤ at)
      → fl.read (fl.erase d from to).1 at n ≡ fl.read d at n
  pub partition_table-write :
      (d : fl.Dev) (off : ℕ) (bytes : List ℕ)
      → 0x9000 ≤ off
      → fl.partition_table (fl.write d off bytes).1 ≡ fl.partition_table d
