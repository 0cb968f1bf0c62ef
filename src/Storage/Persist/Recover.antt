-- ===== src/Storage/Persist/Recover.antt =====
-- What the boot makes of a device on which a sample was stored.
use brewster.Storage.Init.Scanning.{valid_below, scan-valid_count}
use brewster.Common.{ℕ, ◌+◌, ◌-◌, ◌/◌, ◌<◌, ◌≡◌, sym, ◌∙◌, ◌≢◌, inl, inr, true, some, List, arith}
use brewster.Common.Int.{ℤ}
use brewster.Common.Words.{u32_max, wrapping_add32}
use brewster.Common.Float.{Float}
use native.Mathlib.Decide.{ℕ_discrete}
use brewster.Storage.{Flash, Storage, FlashLaws, RuntimeSample}
use brewster.Storage.Record.{record_seq}
use brewster.Storage.Record.RoundTrip.{record_seq-encode_record}
use brewster.Storage.Init.{history_init}
use brewster.Storage.Init.Scanning.{valid_at, Older, scan-newest, history_init-found}
use brewster.Storage.Persist.{Fields, fields_of, store_record, persist_history_sample}
use brewster.Storage.Persist.Reboot.{IsReady, IsStored, raw_of, store_record-IsStored}
use brewster.Storage.Init.{scan}

-- A sample that moves the sequence number is `store_record`'s work.
persist-store :
    (fl : Flash) (f : Float) (now : ℕ) (sample : RuntimeSample f.F) (extra : List ℤ)
    (s : Storage fl.Dev) (d : fl.Dev)
    → s.flash_storage ≡ some d
    → (persist_history_sample fl f now sample extra s).history_next_seq ≢ s.history_next_seq
    → persist_history_sample fl f now sample extra s
      ≡ store_record fl
          (fields_of f sample extra s.target_temp_centi)
          d
          (record s { history_last_persist_uptime_s = now })
unfolding persist_history_sample
persist-store fl f now sample extra s d e moved = ground arith

-- The records of the device after the store, but the one just stored, are older than it.
stored-Older :
    (fl : Flash) (x : Fields) (s t : Storage fl.Dev) (d d' : fl.Dev)
    → IsReady fl s d
    → IsStored fl x s d t d'
    → Older fl d' s.history_base_offset s.history_capacity s.history_write_index s.history_next_seq
stored-Older fl x s t d d' r st j raw hj ne e = elim (st.others j hj ne) [
  | inl (gone, lo, hi, start) ↦ cc
  | inr same ↦ r.older j raw hj (sym same ∙ e)
]

-- The invariant holds again, as long as the sequence numbers last.
stored-IsReady :
    (fl : Flash) (x : Fields) (s t : Storage fl.Dev) (d d' : fl.Dev)
    → IsReady fl s d
    → IsStored fl x s d t d'
    → s.history_next_seq + 1 < u32_max
    → IsReady fl t d'
stored-IsReady fl x s t d d' r st more = record {
  device = st.device;
  room = omega (arith, r.room, st.base, st.capacity);
  aligned = rw st.base r.aligned;
  index = rw (st.index, st.capacity) (omega (arith, r.index));
  next = omega (arith, st.next);
  older = λ j raw hj e. elim (ℕ_discrete j s.history_write_index) [
    | yes p ↦ seq_below j raw p (rw st.base at e)
    | no p ↦ omega (
      arith,
      st.next,
      stored-Older fl x s t d d' r st j raw (rw st.capacity at hj) p (rw st.base at e),
    )
  ];
}
  where
    seq_below :
        (j : ℕ) (raw : List ℕ)
        → j ≡ s.history_write_index
        → valid_at fl d' s.history_base_offset j ≡ some raw
        → record_seq raw < t.history_next_seq
    seq_below j raw p e = ground (
      arith,
      st.slot,
      st.next,
      record_seq-encode_record s.history_next_seq x.temp_centi x.extra x.target_centi x.output_pct
          x.flags,
    )

-- The scan settles on the stored record.
pub stored-newest :
    (fl : Flash) (x : Fields) (s t : Storage fl.Dev) (d d' : fl.Dev)
    → IsReady fl s d
    → IsStored fl x s d t d'
    → ((scan fl d' s.history_base_offset s.history_capacity).has_records ≡ true)
      × ((scan fl d' s.history_base_offset s.history_capacity).max_index ≡ s.history_write_index)
      × ((scan fl d' s.history_base_offset s.history_capacity).max_seq ≡ s.history_next_seq)
stored-newest fl x s t d d' r st =
    let seq =
      record_seq-encode_record s.history_next_seq x.temp_centi x.extra x.target_centi x.output_pct
        x.flags (omega (arith, r.next)) in
    let newest =
      scan-newest fl d' s.history_base_offset s.history_capacity s.history_write_index (raw_of x s)
        r.index st.slot (λ j raw hj ne e. rw seq (stored-Older fl x s t d d' r st j raw hj ne e)) in
    (newest.0, newest.1, newest.2 ∙ seq)

-- The boot finds the stored record as the newest, and goes on behind it.
stored-recovers :
    (fl : Flash) (x : Fields) (s t s0 : Storage fl.Dev) (d d' : fl.Dev) (offset len : ℕ)
    → IsReady fl s d
    → IsStored fl x s d t d'
    → s.history_base_offset ≡ wrapping_add32 offset 0x1000
    → s.history_capacity ≡ (len - 0x1000) / 16
    → 0x1010 < len
    → ((history_init fl d' offset len s0).history_base_offset ≡ t.history_base_offset)
      × ((history_init fl d' offset len s0).history_capacity ≡ t.history_capacity)
      × ((history_init fl d' offset len s0).history_write_index ≡ t.history_write_index)
      × ((history_init fl d' offset len s0).history_next_seq ≡ t.history_next_seq)
stored-recovers fl x s t s0 d d' offset len r st eb ec hl =
    let newest = stored-newest fl x s t d d' r st in
    let init =
      history_init-found fl d' offset len s0 s.history_base_offset s.history_capacity hl eb ec
        newest.0 in
    ground (arith, newest, init, st.base, st.capacity, st.index, st.next, r.next)

-- The boot counts the valid records of the device.
pub stored-valid_count :
    (fl : Flash) (x : Fields) (s t s0 : Storage fl.Dev) (d d' : fl.Dev) (offset len : ℕ)
    → IsReady fl s d
    → IsStored fl x s d t d'
    → s.history_base_offset ≡ wrapping_add32 offset 0x1000
    → s.history_capacity ≡ (len - 0x1000) / 16
    → 0x1010 < len
    → (history_init fl d' offset len s0).history_count
      ≡ valid_below fl d' s.history_base_offset s.history_capacity
stored-valid_count fl x s t s0 d d' offset len r st eb ec hl =
    let found = (stored-newest fl x s t d d' r st).0 in
    (history_init-found fl d' offset len s0 s.history_base_offset s.history_capacity hl eb ec
      found).4
    ∙ scan-valid_count fl d' s.history_base_offset s.history_capacity (omega (arith, r.room))

-- The state as `persist_history_sample` hands it on to the critical section.
abbrev pub stamped : {Dev : Type 0} → ℕ → Storage Dev → Storage Dev
stamped now s = record s { history_last_persist_uptime_s = now }

pub stamped-IsReady :
    (fl : Flash) (now : ℕ) (s : Storage fl.Dev) (d : fl.Dev)
    → IsReady fl s d
    → IsReady fl (stamped now s) d
stamped-IsReady fl now s d q = record {
  device = q.device;
  room = q.room;
  aligned = q.aligned;
  index = q.index;
  next = q.next;
  older = q.older;
}

module _ (fl : Flash) (laws : FlashLaws fl) (f : Float) where
  -- A sample that moves the sequence number is stored.
  pub persist-IsStored :
      (now : ℕ) (sample : RuntimeSample f.F) (extra : List ℤ) (s : Storage fl.Dev) (d : fl.Dev)
      → IsReady fl s d
      → (persist_history_sample fl f now sample extra s).history_next_seq ≢ s.history_next_seq
      → (d' : fl.Dev) × IsStored fl
          (fields_of f sample extra s.target_temp_centi)
          (stamped now s)
          d
          (persist_history_sample fl f now sample extra s)
          d'
  persist-IsStored now sample extra s d r moved =
      let whole = persist-store fl f now sample extra s d r.device moved in
      rw whole (
        store_record-IsStored fl laws (fields_of f sample extra s.target_temp_centi) (stamped now s)
          d (stamped-IsReady fl now s d r) (rw whole at moved))

  -- From a ring that is in step with its device, a sample that is stored leaves a device on which
  -- the boot's scan finds the base, the capacity, the write index and the next sequence number as
  -- the RAM has them, and counts the valid records of the ring on that device, whatever
  -- `HISTORY_COUNT` is in RAM. The new ring is in step with the new device, as long as sequence
  -- numbers last.
  pub persist_recovers :
      (now : ℕ) (sample : RuntimeSample f.F) (extra : List ℤ) (s s0 : Storage fl.Dev) (d : fl.Dev)
      (offset len : ℕ)
      → IsReady fl s d
      → s.history_base_offset ≡ wrapping_add32 offset 0x1000
      → s.history_capacity ≡ (len - 0x1000) / 16
      → 0x1010 < len
      → s.history_next_seq + 1 < u32_max
      → (persist_history_sample fl f now sample extra s).history_next_seq ≢ s.history_next_seq
      → let t = persist_history_sample fl f now sample extra s in
        (d' : fl.Dev) × IsReady fl t d'
        × (t.history_next_seq ≡ s.history_next_seq + 1)
        × ((history_init fl d' offset len s0).history_base_offset ≡ t.history_base_offset)
        × ((history_init fl d' offset len s0).history_capacity ≡ t.history_capacity)
        × ((history_init fl d' offset len s0).history_write_index ≡ t.history_write_index)
        × ((history_init fl d' offset len s0).history_next_seq ≡ t.history_next_seq)
        × ((history_init fl d' offset len s0).history_count
            ≡ valid_below fl d' s.history_base_offset s.history_capacity)
  persist_recovers now sample extra s s0 d offset len r eb ec hl more moved =
      let x = fields_of f sample extra s.target_temp_centi in
      let r1 = stamped-IsReady fl now s d r in
      let (d', st) = persist-IsStored now sample extra s d r moved in
      let found = stored-recovers fl x (stamped now s) _ s0 d d' offset len r1 st eb ec hl in
      (
        d',
        stored-IsReady fl x (stamped now s) _ d d' r1 st more,
        st.next,
        found.0,
        found.1,
        found.2,
        found.3,
        stored-valid_count fl x (stamped now s) _ s0 d d' offset len r1 st eb ec hl,
      )
