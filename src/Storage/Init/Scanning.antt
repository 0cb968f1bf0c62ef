-- ===== src/Storage/Init/Scanning.antt =====
-- What the scan at boot finds: the newest record, and how many are valid.
pub mod Frame
use brewster.Common.{
  ℕ, zero, suc, ◌+◌, ◌-◌, ◌*◌, ◌/◌, ◌%◌, ◌^◌, ◌≤◌, ◌<◌, min, ◌≡◌, refl, sym, ap, ◌∙◌, ◌≢◌, ◌⊎◌, inl,
  inr, Bool, true, false, not, ◌&&◌, ◌||◌, Option, none, some, List, [], ◌∷◌, ◌++◌, map, append-nil,
  append_assoc, arith, ltb, leb, ◌==◌, if◌then◌else◌, ltb→lt, lt→ltb, leb→le, ==_iff, Bool-cases,
  Option-cases, ◌>>=◌, is_some, length, get_elem?, set, get_or, take, drop, replicate, slice,
  copy_at, All, length-append, length-set, length-take, length-drop, length-replicate, length-map,
}
use brewster.Common.Int.{
  ℤ, pos, negsuc, pos_part, neg_part, ◌+ℤ◌, ◌-ℤ◌, ◌≤ℤ◌, ltb_ℤ, clamp_ℤ, ◌==ℤ◌,
}
use brewster.Common.Words.{
  IsByte, IsU16, IsU32, u32_max, wrapping_add32, wrapping_sub32, saturating_add32, saturating_mul32,
  le_bytes16, from_le16, le_bytes32, from_le32, be_bytes16, from_be16, be_bytes32, bits8, signed8,
  bits16, signed16, bits32, signed32, i16_min, i16_max, i32_min, i32_max, from_le16-le_bytes16,
  from_le32-le_bytes32, signed16-bits16, signed32-bits32, signed8-bits8, bits8-signed8,
  bits16-IsU16, bits32-IsU32,
}
use brewster.Common.Bits.{holds_below, holds_below_lem}
use brewster.Common.Float.{
  Float, of_centi, half, clamp_f, as_i8, as_i16, as_i32, as_u8, as_u16, as_u32,
}
use Prim.Native.Nat.{bit_and, bit_or, bit_xor, max}
use native.Mathlib.Decide.{ℕ_discrete}
use brewster.Storage.{Flash, Storage}
use brewster.Storage.Record.{history_record_valid, record_seq}
use brewster.Storage.Init.{Scan, scan_start, scan_record, scan_slot, scan, history_init}

module _ (fl : Flash) where
  -- The valid record of a slot, if it holds one.
  unfoldable pub valid_at : fl.Dev → ℕ → ℕ → Option (List ℕ)
  valid_at d base j = fl.read d (wrapping_add32 base (saturating_mul32 j 16)) 16 >>= λ raw.
      if history_record_valid raw then some raw else none

  -- Every valid record of the slots below `n` but `i` has a sequence number below `q`.
  abbrev pub Older : fl.Dev → ℕ → ℕ → ℕ → ℕ → Type 0
  Older d base n i q =
      (j : ℕ) (raw : List ℕ) → j < n → j ≢ i → valid_at d base j ≡ some raw → record_seq raw < q

  scan_slot-none :
      (d : fl.Dev) (base n : ℕ) (c : Scan) → valid_at d base n ≡ none → scan_slot fl d base n c ≡ c
  unfolding scan_slot valid_at scan_record
  scan_slot-none d base n c e = ground arith

  scan_slot-some :
      (d : fl.Dev) (base n : ℕ) (c : Scan) (raw : List ℕ)
      → valid_at d base n ≡ some raw
      → scan_slot fl d base n c ≡ (
          if not c.has_records || ltb c.max_seq (record_seq raw)
          then record {
            max_seq = record_seq raw;
            max_index = n;
            has_records = true;
            valid_count = saturating_add32 c.valid_count 1;
          }
          else record c { valid_count = saturating_add32 c.valid_count 1 })
  unfolding scan_slot valid_at scan_record
  scan_slot-some d base n c raw e = ground arith

  -- The scan has met nothing, or its greatest sequence number is below `q`.
  abbrev Below : Scan → ℕ → Type 0
  Below c q = (c.has_records ≡ false) ⊎ (c.max_seq < q)

  scan-Below :
      (d : fl.Dev) (base n i q : ℕ) → n ≤ i → Older d base n i q → Below (scan fl d base n) q
  unfolding scan
  scan-Below d base zero i q h old = inl refl
  scan-Below d base (suc n) i q h old =
      let before : Below (scan fl d base n) q =
        scan-Below d base n i q (omega arith) (λ j raw hj ne e. old j raw (omega arith) ne e) in
      elim (Option-cases (valid_at d base n)) [
        | inl e ↦ rw (scan_slot-none d base n (scan fl d base n) e) before
        | inr (raw, e) ↦ ground (
          arith,
          before,
          scan_slot-some d base n (scan fl d base n) raw e,
          old n raw (omega arith) (omega arith) e,
        )
      ]

  -- The scan over the slots below `n` settles on the slot `i` with the greatest sequence number.
  pub scan-newest :
      (d : fl.Dev) (base n i : ℕ) (raw : List ℕ)
      → i < n
      → valid_at d base i ≡ some raw
      → Older d base n i (record_seq raw)
      → ((scan fl d base n).has_records ≡ true)
        × ((scan fl d base n).max_index ≡ i)
        × ((scan fl d base n).max_seq ≡ record_seq raw)
  unfolding scan
  scan-newest d base zero i raw h e old = absurd (omega arith)
  scan-newest d base (suc n) i raw h e old = elim (ℕ_discrete i n) [
    | yes p ↦ ground (
      arith,
      scan-Below d base n i (record_seq raw) (omega arith)
          (λ j r hj ne v. old j r (omega arith) ne v),
      scan_slot-some d base n (scan fl d base n) raw (rw p at e),
    )
    | no p ↦
        let before =
          scan-newest d base n i raw (omega arith) e (λ j r hj ne v. old j r (omega arith) ne v) in
        elim (Option-cases (valid_at d base n)) [
          | inl v ↦ rw (scan_slot-none d base n (scan fl d base n) v) before
          | inr (r, v) ↦ ground (
            arith,
            before,
            scan_slot-some d base n (scan fl d base n) r v,
            old n r (omega arith) (λ q. p (sym q)) v,
          )
        ]
  ]

  scan-empty :
      (d : fl.Dev) (base n : ℕ)
      → ((j : ℕ) → j < n → valid_at d base j ≡ none)
      → scan fl d base n ≡ scan_start
  unfolding scan
  scan-empty d base zero h = refl
  scan-empty d base (suc n) h =
      scan_slot-none d base n (scan fl d base n) (h n (omega arith))
      ∙ scan-empty d base n (λ j hj. h j (omega arith))

  -- A partition with no valid record is taken up as an empty ring.
  pub history_init-empty :
      (d : fl.Dev) (offset len : ℕ) (s : Storage fl.Dev)
      → ((j : ℕ) → j < (len - 0x1000) / 16 → valid_at d (wrapping_add32 offset 0x1000) j ≡ none)
      → ((history_init fl d offset len s).history_write_index ≡ 0)
        × ((history_init fl d offset len s).history_next_seq ≡ 0)
        × ((history_init fl d offset len s).history_count ≡ 0)
  unfolding history_init
  history_init-empty d offset len s h =
      ground (arith, scan-empty d (wrapping_add32 offset 0x1000) ((len - 0x1000) / 16) h)

  -- A partition on which the scan found a record.
  pub history_init-found :
      (d : fl.Dev) (offset len : ℕ) (s : Storage fl.Dev) (base capacity : ℕ)
      → 0x1010 < len
      → base ≡ wrapping_add32 offset 0x1000
      → capacity ≡ (len - 0x1000) / 16
      → (scan fl d base capacity).has_records ≡ true
      → ((history_init fl d offset len s).history_base_offset ≡ base)
        × ((history_init fl d offset len s).history_capacity ≡ capacity)
        × ((history_init fl d offset len s).history_write_index
            ≡ ((scan fl d base capacity).max_index + 1) % capacity)
        × ((history_init fl d offset len s).history_next_seq
            ≡ wrapping_add32 (scan fl d base capacity).max_seq 1)
        × ((history_init fl d offset len s).history_count ≡ (scan fl d base capacity).valid_count)
  unfolding history_init
  history_init-found d offset len s base capacity hl eb ec found =
      rw (eb, ec) (rw (rw (eb, ec) at found) (ground arith))

  -- The number of valid records among the slots below `n`.
  unfoldable pub valid_below : fl.Dev → ℕ → ℕ → ℕ
  valid_below d base zero = 0
  valid_below d base (suc n) = elim (valid_at d base n) [
    | none ↦ valid_below d base n
    | some raw ↦ suc (valid_below d base n)
  ]

  pub valid_below-le : (d : fl.Dev) (base n : ℕ) → valid_below d base n ≤ n
  unfolding valid_below
  valid_below-le d base zero = omega arith
  valid_below-le d base (suc n) = elim (Option-cases (valid_at d base n)) [
    | inl v ↦ rw (v, valid_below) (omega (arith, valid_below-le d base n))
    | inr (r, v) ↦ rw (v, valid_below) (omega (arith, valid_below-le d base n))
  ]

  -- The scan counts the valid records.
  pub scan-valid_count :
      (d : fl.Dev) (base n : ℕ)
      → n < 4294967296
      → (scan fl d base n).valid_count ≡ valid_below d base n
  unfolding scan valid_below
  scan-valid_count d base zero h = refl
  scan-valid_count d base (suc n) h = elim (Option-cases (valid_at d base n)) [
    | inl v ↦
        rw (v, valid_below, scan_slot-none d base n (scan fl d base n) v)
          (scan-valid_count d base n (omega arith))
    | inr (r, v) ↦
        rw (v, valid_below)
          (ground (
            arith,
            scan_slot-some d base n (scan fl d base n) r v,
            scan-valid_count d base n (omega arith),
            valid_below-le d base n,
          ))
  ]

-- `history_init` leaves the target temperature alone.
pub target_temp_centi-history_init :
    (fl : Flash) (d : fl.Dev) (offset len : ℕ) (s : Storage fl.Dev)
    → (history_init fl d offset len s).target_temp_centi ≡ s.target_temp_centi
unfolding history_init
target_temp_centi-history_init fl d offset len s = ground arith
