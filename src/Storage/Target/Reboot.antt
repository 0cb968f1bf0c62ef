-- ===== src/Storage/Target/Reboot.antt =====
-- A target temperature that was accepted is the one that the next boot restores.
use brewster.Common.{ℕ, ◌≤◌, ◌≡◌, refl, ◌∙◌, true, none, some, arith, ◌>>=◌}
use brewster.Common.Int.{ℤ, pos, negsuc, ◌≤ℤ◌}
use brewster.Common.Words.{
  bits32, i32_min, i32_max, from_le32-le_bytes32, signed32-bits32, bits32-IsU32,
}
use brewster.Common.Float.{Float, of_centi}
use brewster.Storage.{
  Flash, Entry, Storage, FlashLaws, target_temp_min_centi, target_temp_max_centi,
}
use brewster.Storage.Init.Scanning.{target_temp_centi-history_init}
use brewster.Storage.Flags.RoundTrip.{target_temp_centi-flags_init}
use brewster.Storage.Target.{
  target_store_size, valid_target_centi, target_record, read_target, find_partition, store_loaded,
  locate, load_target, init_persistent_target, persist_target_temp_c, target_centi_of,
  set_target_temp_c_persistent,
}

-- The record of a valid target reads back as that target.
read_target-target_record :
    (c : ℤ) → valid_target_centi c ≡ true → read_target (target_record c) ≡ some c
unfolding read_target target_record
read_target-target_record c v = rw (
  from_le32-le_bytes32 (bits32 c) (bits32-IsU32 c),
  signed32-bits32 c (range c v).0 (range c v).1,
  v,
)
  where
    range : (c : ℤ) → valid_target_centi c ≡ true → (i32_min ≤ℤ c) × (c ≤ℤ i32_max)
    range (pos n) v = unfold valid_target_centi in ground arith
    range (negsuc n) v = unfold valid_target_centi in ground arith

init-loaded :
    (fl : Flash) (f : Float) (d : fl.Dev) (s0 : Storage fl.Dev) (c : ℤ)
    → load_target fl d (locate fl d s0) ≡ some c
    → ((init_persistent_target fl f d s0).0 ≡ some (of_centi f c))
      × ((init_persistent_target fl f d s0).1.target_temp_centi ≡ c)
unfolding init_persistent_target
init-loaded fl f d s0 c e = (
  ground arith,
  target_temp_centi-flags_init fl d _ _ _
      ∙ target_temp_centi-history_init fl d _ _ _
      ∙ rw e (unfold store_loaded in refl),
)

module _ (fl : Flash) (laws : FlashLaws fl) (f : Float) where
  -- The setter's successful run: the target is valid, and the device is the one written to.
  set_target-inv :
      (target_c : f.F) (s t : Storage fl.Dev) (d : fl.Dev)
      → s.flash_storage ≡ some d
      → set_target_temp_c_persistent fl f target_c s ≡ (none, t)
      → let w = fl.write d s.target_store_offset (target_record (target_centi_of fl f target_c)) in
        (valid_target_centi (target_centi_of fl f target_c) ≡ true)
        × (target_store_size ≤ s.target_store_partition_len)
        × (w.0 ≡ none)
        × (t.flash_storage ≡ some w.1)
  unfolding set_target_temp_c_persistent persist_target_temp_c
  set_target-inv target_c s t d p e = (ground arith, ground arith, ground arith, ground arith)

  -- The boot's load, where the partition holds the record.
  load_target-record :
      (s0 : Storage fl.Dev) (d : fl.Dev) (entry : Entry) (c : ℤ)
      → (fl.partition_table d >>= find_partition) ≡ some entry
      → target_store_size ≤ entry.len
      → fl.read d entry.offset target_store_size ≡ some (target_record c)
      → valid_target_centi c ≡ true
      → load_target fl d (locate fl d s0) ≡ some c
  unfolding load_target locate
  load_target-record s0 d entry c et size e v = ground (arith, read_target-target_record c v)

  written_lem :
      (d : fl.Dev) (offset : ℕ) (c : ℤ)
      → (fl.write d offset (target_record c)).0 ≡ none
      → fl.read (fl.write d offset (target_record c)).1 offset target_store_size
        ≡ some (target_record c)
  unfolding target_record
  written_lem d offset c ok = laws.read-write d offset (target_record c) ok

  valid_range :
      (c : ℤ)
      → valid_target_centi c ≡ true
      → (target_temp_min_centi ≤ℤ c) × (c ≤ℤ target_temp_max_centi)
  unfolding valid_target_centi
  valid_range c v = ground arith

  -- A target that the setter accepts is within -20.00 and 100.00 degrees, in hundredths. The
  -- next boot, from any state, returns it and holds it, where the partition that the boot locates
  -- is the one that the setter wrote to, beyond the partition table.
  pub set_target_recovers :
      (target_c : f.F) (s s0 t : Storage fl.Dev) (d : fl.Dev) (entry : Entry)
      → s.flash_storage ≡ some d
      → (fl.partition_table d >>= find_partition) ≡ some entry
      → entry.offset ≡ s.target_store_offset
      → entry.len ≡ s.target_store_partition_len
      → 0x9000 ≤ s.target_store_offset
      → set_target_temp_c_persistent fl f target_c s ≡ (none, t)
      → let c = target_centi_of fl f target_c in
        (d' : fl.Dev) × (t.flash_storage ≡ some d')
        × (target_temp_min_centi ≤ℤ c)
        × (c ≤ℤ target_temp_max_centi)
        × ((init_persistent_target fl f d' s0).0 ≡ some (of_centi f c))
        × ((init_persistent_target fl f d' s0).1.target_temp_centi ≡ c)
  set_target_recovers target_c s s0 t d entry es et eo el far e =
      let c = target_centi_of fl f target_c in
      let d' = (fl.write d s.target_store_offset (target_record c)).1 in
      let (valid, size, ok, left) = set_target-inv target_c s t d es e in
      let table : (fl.partition_table d' >>= find_partition) ≡ some entry =
        rw (laws.partition_table-write d s.target_store_offset (target_record c) far) et in
      let load =
        load_target-record s0 d' entry c table (rw el size)
          (rw eo (written_lem d s.target_store_offset c ok)) valid in
      let boot = init-loaded fl f d' s0 c load in
      (d', left, (valid_range c valid).0, (valid_range c valid).1, boot.0, boot.1)
