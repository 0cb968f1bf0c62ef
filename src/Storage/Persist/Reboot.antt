-- ===== src/Storage/Persist/Reboot.antt =====
-- A stored sample survives a reboot: the scan of the device finds the ring where the RAM has it.
use brewster.Common.{
  ℕ, ◌+◌, ◌-◌, ◌*◌, ◌%◌, ◌≤◌, ◌<◌, min, ◌≡◌, refl, ap, ◌≢◌, ◌⊎◌, inl, inr, none, some, List, arith,
  ◌==◌, if◌then◌else◌, Option-cases,
}
use brewster.Common.Words.{u32_max, wrapping_add32, saturating_add32}
use native.Mathlib.Decide.{dec_lt, ℕ_discrete}
use brewster.Storage.{Flash, Storage, FlashLaws}
use brewster.Storage.Record.{record_seq, encode_record}
use brewster.Storage.Record.RoundTrip.{length-encode_record, encode_record-valid}
use brewster.Storage.Init.{history_record_offset}
use brewster.Storage.Init.Scanning.{valid_at}
use brewster.Storage.Init.Scanning.Frame.{slot_offset, valid_at-write_self, valid_at-write_ne}
use brewster.Storage.Persist.{Fields, write_record}
use brewster.Storage.Init.Scanning.Frame.{valid_at-erase_out}
use brewster.Storage.Persist.{store_record}
use brewster.Storage.Init.Scanning.Frame.{valid_at-erase_in}

-- The ring in RAM is the ring on the device: the write index is in range, and every valid record
-- is older than the next sequence number.
pub record IsReady (fl : Flash) (s : Storage fl.Dev) (d : fl.Dev) : Type 0 where
  pub device : s.flash_storage ≡ some d
  pub room : s.history_base_offset + 16 * s.history_capacity + 4096 < 4294967296
  pub aligned : s.history_base_offset % 4096 ≡ 0
  pub index : s.history_write_index < s.history_capacity
  pub next : s.history_next_seq < u32_max
  pub older :
      (j : ℕ) (raw : List ℕ)
      → j < s.history_capacity
      → valid_at fl d s.history_base_offset j ≡ some raw
      → record_seq raw < s.history_next_seq

-- The bytes that `write_record` writes.
abbrev pub raw_of : {Dev : Type 0} → Fields → Storage Dev → List ℕ
raw_of x s =
    encode_record s.history_next_seq x.temp_centi x.extra x.target_centi x.output_pct x.flags

-- What is left of the count when the sector has been seen to.
abbrev pub kept_count : {Dev : Type 0} → Storage Dev → ℕ
kept_count s =
    if (s.history_base_offset + 16 * s.history_write_index) % 4096 == 0
    then s.history_count - min s.history_count 256
    else s.history_count

-- What a stored record leaves: the new state `t` over the device `d'`.
pub record IsStored (fl : Flash) (x : Fields) (s : Storage fl.Dev) (d : fl.Dev) (t : Storage fl.Dev)
    (d' : fl.Dev) : Type 0 where
  pub device : t.flash_storage ≡ some d'
  pub base : t.history_base_offset ≡ s.history_base_offset
  pub capacity : t.history_capacity ≡ s.history_capacity
  pub index : t.history_write_index ≡ (s.history_write_index + 1) % s.history_capacity
  pub next : t.history_next_seq ≡ s.history_next_seq + 1
  pub slot : valid_at fl d' s.history_base_offset s.history_write_index ≡ some (raw_of x s)
  pub others :
      (j : ℕ)
      → j < s.history_capacity
      → j ≢ s.history_write_index
      → ((valid_at fl d' s.history_base_offset j ≡ none)
          × (s.history_write_index ≤ j)
          × (j < s.history_write_index + 256)
          × ((s.history_base_offset + 16 * s.history_write_index) % 4096 ≡ 0))
        ⊎ (valid_at fl d' s.history_base_offset j ≡ valid_at fl d s.history_base_offset j)
  pub count : t.history_count ≡ min (saturating_add32 (kept_count s) 1) s.history_capacity

module _ (fl : Flash) (laws : FlashLaws fl) where
  -- The device that the write of the record leaves.
  abbrev written : Fields → Storage fl.Dev → fl.Dev → fl.Dev
  written x s d = (fl.write d (s.history_base_offset + 16 * s.history_write_index) (raw_of x s)).1

  offset_lem :
      (s : Storage fl.Dev) (j : ℕ)
      → s.history_base_offset + 16 * j + 16 < 4294967296
      → history_record_offset s j ≡ s.history_base_offset + 16 * j
  unfolding history_record_offset
  offset_lem s j h = slot_offset s.history_base_offset j h

  -- `write_record`, from a device `d1` that differs from `d` by erased slots only.
  write_record-IsStored :
      (x : Fields) (s : Storage fl.Dev) (d d1 : fl.Dev) (count : ℕ)
      → IsReady fl s d
      → ((j : ℕ)
          → j < s.history_capacity
          → ((valid_at fl d1 s.history_base_offset j ≡ none)
              × (s.history_write_index ≤ j)
              × (j < s.history_write_index + 256)
              × ((s.history_base_offset + 16 * s.history_write_index) % 4096 ≡ 0))
            ⊎ (valid_at fl d1 s.history_base_offset j ≡ valid_at fl d s.history_base_offset j))
      → (fl.write d1 (s.history_base_offset + 16 * s.history_write_index) (raw_of x s)).0 ≡ none
      → count ≡ kept_count s
      → IsStored fl x s d (write_record fl x d1 count s) (written x s d1)
  unfolding write_record
  write_record-IsStored x s d d1 count r h ok kept =
      rw (offset_lem s s.history_write_index (omega arith), ok)
        (record {
          device = refl;
          base = refl;
          capacity = refl;
          index = ap (λ k. k % s.history_capacity) (omega arith);
          next = omega arith;
          slot =
              valid_at-write_self fl laws d1 s.history_base_offset s.history_write_index
                (raw_of x s) (omega arith) (length-encode_record _ _ _ _ _ _)
                (encode_record-valid _ _ _ _ _ _ r.next) ok;
          others = λ j hj ne.
              rw
                (valid_at-write_ne fl laws d1 s.history_base_offset s.history_write_index j
                  (raw_of x s) (omega arith) (length-encode_record _ _ _ _ _ _) ne)
                (h j hj);
          count = rw kept;
        })

  -- The sector of the write index, as the erase takes it.
  abbrev from_of : Storage fl.Dev → ℕ
  from_of s = s.history_base_offset + 16 * s.history_write_index

  erase_others :
      (s : Storage fl.Dev) (d : fl.Dev)
      → IsReady fl s d
      → from_of s % 4096 ≡ 0
      → (fl.erase d (from_of s) (from_of s + 4096)).0 ≡ none
      → (j : ℕ) → j < s.history_capacity
      → ((valid_at fl (fl.erase d (from_of s) (from_of s + 4096)).1 s.history_base_offset j ≡ none)
          × (s.history_write_index ≤ j)
          × (j < s.history_write_index + 256)
          × ((s.history_base_offset + 16 * s.history_write_index) % 4096 ≡ 0))
        ⊎ (valid_at fl (fl.erase d (from_of s) (from_of s + 4096)).1 s.history_base_offset j
            ≡ valid_at fl d s.history_base_offset j)
  erase_others s d r al ok j hj = elim (dec_lt j s.history_write_index) [
    | yes p ↦ inr (
        valid_at-erase_out fl laws d s.history_base_offset (from_of s) (from_of s + 4096) j
          (omega arith) (inl (omega arith)))
    | no p ↦ elim (dec_lt j (s.history_write_index + 256)) [
      | yes q ↦ inl (
        (valid_at-erase_in fl laws d s.history_base_offset (from_of s) (from_of s + 4096) j
            (omega arith) ok (omega arith) (omega arith)),
        omega arith,
        omega arith,
        al,
      )
      | no q ↦ inr (
          valid_at-erase_out fl laws d s.history_base_offset (from_of s) (from_of s + 4096) j
            (omega arith) (inr (omega arith)))
    ]
  ]

  write_record-failed :
      (x : Fields) (s : Storage fl.Dev) (d1 : fl.Dev) (count : ℕ)
      → (fl.write d1 (history_record_offset s s.history_write_index) (raw_of x s)).0 ≢ none
      → (write_record fl x d1 count s).history_next_seq ≡ s.history_next_seq
  unfolding write_record
  write_record-failed x s d1 count h = ground arith

  -- The device after the erase of the sector.
  abbrev swept : Storage fl.Dev → fl.Dev → fl.Dev
  swept s d = (fl.erase d (from_of s) (from_of s + 4096)).1

  end_lem :
      (s : Storage fl.Dev) (d : fl.Dev)
      → IsReady fl s d
      → wrapping_add32 (from_of s) 4096 ≡ from_of s + 4096
  end_lem s d r = omega arith

  store_record-inside :
      (x : Fields) (s : Storage fl.Dev) (d : fl.Dev)
      → IsReady fl s d
      → from_of s % 4096 ≢ 0
      → store_record fl x d s ≡ write_record fl x d s.history_count s
  unfolding store_record
  store_record-inside x s d r ne = ground (arith, offset_lem s s.history_write_index)

  store_record-start :
      (x : Fields) (s : Storage fl.Dev) (d : fl.Dev)
      → IsReady fl s d
      → from_of s % 4096 ≡ 0
      → (fl.erase d (from_of s) (from_of s + 4096)).0 ≡ none
      → store_record fl x d s
        ≡ write_record fl x (swept s d) (s.history_count - min s.history_count 256) s
  unfolding store_record
  store_record-start x s d r al ok =
      rw (offset_lem s s.history_write_index (omega arith), end_lem s d r, al, ok)

  store_record-erase_failed :
      (x : Fields) (s : Storage fl.Dev) (d : fl.Dev)
      → IsReady fl s d
      → from_of s % 4096 ≡ 0
      → (fl.erase d (from_of s) (from_of s + 4096)).0 ≢ none
      → (store_record fl x d s).history_next_seq ≡ s.history_next_seq
  unfolding store_record
  store_record-erase_failed x s d r al ko =
      rw (offset_lem s s.history_write_index (omega arith), end_lem s d r, al) (ground arith)

  -- A `store_record` that moves the sequence number has stored its record.
  pub store_record-IsStored :
      (x : Fields) (s : Storage fl.Dev) (d : fl.Dev)
      → IsReady fl s d
      → (store_record fl x d s).history_next_seq ≢ s.history_next_seq
      → (d' : fl.Dev) × IsStored fl x s d (store_record fl x d s) d'
  store_record-IsStored x s d r moved = elim (ℕ_discrete (from_of s % 4096) 0) [
    | no p ↦
        let whole = store_record-inside x s d r p in
        rw whole (stored d s.history_count (λ j hj. inr refl) (ground arith) (rw whole at moved))
    | yes p ↦ elim (Option-cases (fl.erase d (from_of s) (from_of s + 4096)).0) [
      | inl ok ↦
          let whole = store_record-start x s d r p ok in
          rw whole (
            stored (swept s d) (s.history_count - min s.history_count 256) (erase_others s d r p ok)
              (ground arith) (rw whole at moved))
      | inr (e, ko) ↦ absurd (moved (store_record-erase_failed x s d r p (λ ok. cc)))
    ]
  ]
    where
      stored :
          (d1 : fl.Dev) (count : ℕ)
          → ((j : ℕ)
              → j < s.history_capacity
              → ((valid_at fl d1 s.history_base_offset j ≡ none)
                  × (s.history_write_index ≤ j)
                  × (j < s.history_write_index + 256)
                  × ((s.history_base_offset + 16 * s.history_write_index) % 4096 ≡ 0))
                ⊎ (valid_at fl d1 s.history_base_offset j ≡ valid_at fl d s.history_base_offset j))
          → count ≡ kept_count s
          → (write_record fl x d1 count s).history_next_seq ≢ s.history_next_seq
          → (d' : fl.Dev) × IsStored fl x s d (write_record fl x d1 count s) d'
      stored d1 count others kept moved' =
          elim (Option-cases (fl.write d1 (from_of s) (raw_of x s)).0) [
            | inl ok ↦ (written x s d1, write_record-IsStored x s d d1 count r others ok kept)
            | inr (e, ko) ↦ absurd (
                moved' (
                  write_record-failed x s d1 count
                    (rw (offset_lem s s.history_write_index (omega arith)) (λ ok. cc))))
          ]
