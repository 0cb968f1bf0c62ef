-- ===== src/Storage/Persist/Count.antt =====
-- How `HISTORY_COUNT` follows the number of records on the device.
use brewster.Common.{
  ℕ, suc, ◌+◌, ◌-◌, ◌*◌, ◌/◌, ◌%◌, ◌≤◌, ◌<◌, min, ◌≡◌, sym, ◌∙◌, ◌≢◌, inl, inr, none, some, List,
  arith,
}
use brewster.Common.Int.{ℤ}
use brewster.Common.Words.{wrapping_add32}
use brewster.Common.Float.{Float}
use brewster.Storage.{Flash, Storage, FlashLaws, RuntimeSample}
use brewster.Storage.Init.{history_init}
use brewster.Storage.Init.Scanning.{valid_at, valid_below, valid_below-le}
use brewster.Storage.Init.Scanning.Frame.{valid_below-fill}
use brewster.Storage.Persist.{Fields, fields_of, persist_history_sample}
use brewster.Storage.Persist.Recover.{
  stored-valid_count, stamped, stamped-IsReady, persist-IsStored,
}
use brewster.Storage.Persist.Reboot.{IsReady, IsStored, raw_of}

-- The slots that the store takes hold no valid record: the one at the write index, and with it
-- its whole sector where it is the first one there.
abbrev pub IsFresh : (fl : Flash) → Storage fl.Dev → fl.Dev → Type 0
IsFresh fl s d =
    (valid_at fl d s.history_base_offset s.history_write_index ≡ none)
    × ((j : ℕ)
        → (s.history_base_offset + 16 * s.history_write_index) % 4096 ≡ 0
        → s.history_write_index ≤ j
        → j < s.history_write_index + 256
        → valid_at fl d s.history_base_offset j ≡ none)

-- The device holds one valid record more.
stored-filled :
    (fl : Flash) (x : Fields) (s t : Storage fl.Dev) (d d' : fl.Dev)
    → IsReady fl s d
    → IsStored fl x s d t d'
    → IsFresh fl s d
    → valid_below fl d' s.history_base_offset s.history_capacity
      ≡ suc (valid_below fl d s.history_base_offset s.history_capacity)
stored-filled fl x s t d d' r st fresh =
    valid_below-fill fl d d' s.history_base_offset s.history_capacity s.history_write_index
      (raw_of x s) r.index fresh.0 st.slot
      (λ j hj ne. elim (st.others j hj ne) [
        | inl (gone, lo, hi, start) ↦ gone ∙ sym (fresh.1 j start lo hi)
        | inr same ↦ same
      ])

module _ (fl : Flash) (laws : FlashLaws fl) (f : Float) where
  module _ (now : ℕ) (sample : RuntimeSample f.F) (extra : List ℤ) (s s0 : Storage fl.Dev)
      (d : fl.Dev) (offset len : ℕ) (r : IsReady fl s d)
      (eb : s.history_base_offset ≡ wrapping_add32 offset 0x1000)
      (ec : s.history_capacity ≡ (len - 0x1000) / 16) (hl : 0x1010 < len)
      (in_step : s.history_count ≡ valid_below fl d s.history_base_offset s.history_capacity)
      (fresh : IsFresh fl s d)
      (moved : (persist_history_sample fl f now sample extra s).history_next_seq
        ≢ s.history_next_seq) where
    -- Inside a sector, a sample that is stored into a slot with no valid record keeps
    -- `HISTORY_COUNT` equal to the number of records that the boot finds.
    pub persist_counts :
        (s.history_base_offset + 16 * s.history_write_index) % 4096 ≢ 0
        → let t = persist_history_sample fl f now sample extra s in
          (d' : fl.Dev) × (t.flash_storage ≡ some d')
          × (t.history_count ≡ s.history_count + 1)
          × ((history_init fl d' offset len s0).history_count ≡ t.history_count)
    persist_counts inside =
        let x = fields_of f sample extra s.target_temp_centi in
        let r1 = stamped-IsReady fl now s d r in
        let (d', st) = persist-IsStored fl laws f now sample extra s d r moved in
        let boot = stored-valid_count fl x (stamped now s) _ s0 d d' offset len r1 st eb ec hl in
        let most = valid_below-le fl d' s.history_base_offset s.history_capacity in
        let filled = stored-filled fl x (stamped now s) _ d d' r1 st fresh in
        let counted : (persist_history_sample fl f now sample extra s).history_count
            ≡ s.history_count + 1 =
          ground (arith, st.count, most, filled, r.room) in
        (d', st.device, counted, omega (arith, boot, filled, counted))

    -- At the first slot of a sector that holds no record the count falls short: the code takes a
    -- sector's worth off the count although the erase removed nothing. After the store, the boot
    -- finds `min 256 count` records more than `HISTORY_COUNT` says.
    pub persist_miscounts :
        (s.history_base_offset + 16 * s.history_write_index) % 4096 ≡ 0
        → let t = persist_history_sample fl f now sample extra s in
          (d' : fl.Dev) × (t.flash_storage ≡ some d')
          × ((history_init fl d' offset len s0).history_count
              ≡ t.history_count + min s.history_count 256)
    persist_miscounts start =
        let x = fields_of f sample extra s.target_temp_centi in
        let r1 = stamped-IsReady fl now s d r in
        let (d', st) = persist-IsStored fl laws f now sample extra s d r moved in
        let boot = stored-valid_count fl x (stamped now s) _ s0 d d' offset len r1 st eb ec hl in
        let most = valid_below-le fl d' s.history_base_offset s.history_capacity in
        let filled = stored-filled fl x (stamped now s) _ d d' r1 st fresh in
        (d', st.device, ground (arith, st.count, most, filled, boot, r.room))
