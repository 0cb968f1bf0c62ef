-- ===== src/Storage/Flags/RoundTrip.antt =====
-- The flags that were persisted are the flags that the boot loads.
use brewster.Common.{ℕ, ◌≤◌, ◌≡◌, inl, inr, Bool, true, false, none, some, arith, Option-cases}
use brewster.Storage.{Flash, Storage, FlashLaws}
use brewster.Storage.Flags.{
  flags_store_size, required, flags_offset, flags_byte, flags_record, flags_init, persist_flags,
}
use brewster.Storage.Flags.{set_features_persistent}
use brewster.Storage.Flags.{set_collection_enabled_persistent}

-- `flags_init` leaves the target temperature alone.
pub target_temp_centi-flags_init :
    (fl : Flash) (d : fl.Dev) (offset len : ℕ) (s : Storage fl.Dev)
    → (flags_init fl d offset len s).target_temp_centi ≡ s.target_temp_centi
unfolding flags_init
target_temp_centi-flags_init fl d offset len s = ground arith

-- The three flags of a state.
abbrev pub HasFlags : {Dev : Type 0} → Storage Dev → Bool → Bool → Bool → Type 0
HasFlags s http prometheus collecting =
    (s.feature_http_enabled ≡ http)
    × (s.feature_prometheus_enabled ≡ prometheus)
    × (s.collection_enabled_persisted ≡ collecting)

flags_init-record :
    (fl : Flash) (d : fl.Dev) (offset len : ℕ) (s0 : Storage fl.Dev)
    (http prometheus collecting : Bool)
    → required ≤ len
    → fl.read d (flags_offset offset) flags_store_size
      ≡ some (flags_record (flags_byte http prometheus collecting))
    → HasFlags (flags_init fl d offset len s0) http prometheus collecting
unfolding flags_init flags_record flags_byte
flags_init-record fl d offset len s0 true true true h e = ground arith
flags_init-record fl d offset len s0 true true false h e = ground arith
flags_init-record fl d offset len s0 true false true h e = ground arith
flags_init-record fl d offset len s0 true false false h e = ground arith
flags_init-record fl d offset len s0 false true true h e = ground arith
flags_init-record fl d offset len s0 false true false h e = ground arith
flags_init-record fl d offset len s0 false false true h e = ground arith
flags_init-record fl d offset len s0 false false false h e = ground arith

module _ (fl : Flash) (laws : FlashLaws fl) where
  persist_flags_recovers :
      (http prometheus collecting : Bool) (s s0 t : Storage fl.Dev)
      → persist_flags fl http prometheus collecting s ≡ (none, t)
      → (d' : fl.Dev) × (t.flash_storage ≡ some d')
        × HasFlags
            (flags_init fl d' s.target_store_offset s.target_store_partition_len s0)
            http
            prometheus
            collecting
  unfolding persist_flags flags_record
  persist_flags_recovers http prometheus collecting s s0 t e = elim (Option-cases s.flash_storage) [
    | inl p ↦ absurd (ground arith)
    | inr (d, p) ↦
        elim (Option-cases
          (fl.write d (flags_offset s.target_store_offset)
            (flags_record (flags_byte http prometheus collecting))).0) [
              | inr (x, ko) ↦ absurd (ground arith)
              | inl ok ↦ (
                (fl.write d (flags_offset s.target_store_offset)
                    (flags_record (flags_byte http prometheus collecting))).1,
                ground arith,
                flags_init-record fl _ s.target_store_offset s.target_store_partition_len s0 http
                    prometheus collecting (ground arith)
                    (laws.read-write d (flags_offset s.target_store_offset)
                      (flags_record (flags_byte http prometheus collecting)) ok),
              )
            ]
  ]

  -- The two setters agree with the boot: where the write succeeds, a boot from any state loads
  -- the flags that were set, with the ones that the setter leaves as they were before.
  pub set_flags_recover :
      (http prometheus enabled : Bool) (s s0 t u : Storage fl.Dev)
      → set_features_persistent fl http prometheus s ≡ (none, t)
      → set_collection_enabled_persistent fl enabled s ≡ (none, u)
      → (dt du : fl.Dev) × (t.flash_storage ≡ some dt)
        × HasFlags
            (flags_init fl dt s.target_store_offset s.target_store_partition_len s0)
            http
            prometheus
            s.collection_enabled_persisted
        × (u.flash_storage ≡ some du)
        × HasFlags
            (flags_init fl du s.target_store_offset s.target_store_partition_len s0)
            s.feature_http_enabled
            s.feature_prometheus_enabled
            enabled
  unfolding set_features_persistent set_collection_enabled_persistent
  set_flags_recover http prometheus enabled s s0 t u et eu =
      let (dt, pt, ft) =
        persist_flags_recovers http prometheus s.collection_enabled_persisted _ s0 t et in
      let (du, pu, fu) =
        persist_flags_recovers s.feature_http_enabled s.feature_prometheus_enabled enabled _ s0 u
          eu in
      (dt, du, pt, ft, pu, fu)
