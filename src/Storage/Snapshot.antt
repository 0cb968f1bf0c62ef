-- ===== src/Storage/Snapshot.antt =====
-- `history_snapshot`: the records from the oldest slot on, the last `max_points` of them.
pub mod Suffix
use brewster.Common.{
  ℕ, zero, suc, ◌+◌, ◌-◌, ◌*◌, ◌/◌, ◌%◌, ◌^◌, ◌≤◌, ◌<◌, min, ◌≡◌, refl, sym, ap, ◌∙◌, ◌≢◌, ◌⊎◌, inl,
  inr, Bool, true, false, not, ◌&&◌, ◌||◌, Option, none, some, List, [], ◌∷◌, ◌++◌, map, append-nil,
  append_assoc, arith, ltb, leb, ◌==◌, if◌then◌else◌, ltb→lt, lt→ltb, leb→le, ==_iff, Bool-cases,
  Option-cases, ◌>>=◌, is_some, length, get_elem?, set, get_or, take, drop, replicate, slice,
  copy_at, All, length-append, length-set, length-take, length-drop, length-replicate, length-map,
}
use brewster.Common.Int.{
  ℤ, pos, negsuc, pos_part, neg_part, ◌+ℤ◌, ◌-ℤ◌, ◌≤ℤ◌, ltb_ℤ, clamp_ℤ, ◌==ℤ◌,
}
use brewster.Common.Words.{
  IsByte, IsU16, IsU32, u32_max, wrapping_add32, wrapping_sub32, saturating_add32, saturating_mul32,
  le_bytes16, from_le16, le_bytes32, from_le32, be_bytes16, from_be16, be_bytes32, bits8, signed8,
  bits16, signed16, bits32, signed32, i16_min, i16_max, i32_min, i32_max, from_le16-le_bytes16,
  from_le32-le_bytes32, signed16-bits16, signed32-bits32, signed8-bits8, bits8-signed8,
  bits16-IsU16, bits32-IsU32,
}
use brewster.Common.Bits.{holds_below, holds_below_lem}
use brewster.Common.Float.{
  Float, of_centi, half, clamp_f, as_i8, as_i16, as_i32, as_u8, as_u16, as_u32,
}
use Prim.Native.Nat.{bit_and, bit_or, bit_xor, max}
use brewster.Storage.{Flash, Storage, HistorySample}
use brewster.Storage.Record.{history_record_valid, decode_record}
use brewster.Storage.Init.{history_record_offset}

module _ (fl : Flash) where
  -- What one round of either loop reads: a record, unless the read fails or it is not valid.
  unfoldable pub read_valid : Storage fl.Dev → fl.Dev → ℕ → Option (List ℕ)
  read_valid s d index = fl.read d (history_record_offset s index) 16 >>= λ raw.
      if history_record_valid raw then some raw else none

  -- The slot of a step, going round from the write index.
  abbrev pub slot_of : Storage fl.Dev → ℕ → ℕ
  slot_of s step = wrapping_add32 s.history_write_index step % s.history_capacity

  -- The first loop, over `n` steps from `step` on.
  unfoldable pub count_valid : Storage fl.Dev → fl.Dev → ℕ → ℕ → ℕ
  count_valid s d step zero = 0
  count_valid s d step (suc n) = elim (read_valid s d (slot_of s step)) [
    | none ↦ count_valid s d (suc step) n
    | some raw ↦ suc (count_valid s d (suc step) n)
  ]

  module _ (f : Float) where
    -- The second loop: `seen` counts the valid records so far, and those below `skip` are dropped.
    unfoldable pub collect : Storage fl.Dev → fl.Dev → ℕ → ℕ → ℕ → ℕ → List (HistorySample f.F)
    collect s d skip seen step zero = []
    collect s d skip seen step (suc n) = elim (read_valid s d (slot_of s step)) [
      | none ↦ collect s d skip seen (suc step) n
      | some raw ↦
          (let rest = collect s d skip (suc seen) (suc step) n in
            if leb skip seen then decode_record f raw ∷ rest else rest)
    ]

    unfoldable pub history_snapshot : Storage fl.Dev → ℕ → List (HistorySample f.F)
    history_snapshot s max_points =
        if s.history_capacity == 0 || max_points == 0 then [] else elim s.flash_storage [
          | none ↦ []
          | some d ↦
              (let valid_count = count_valid s d 0 s.history_capacity in
                if valid_count == 0
                then []
                else (let keep = min max_points valid_count in
                    collect s d (valid_count - keep) 0 0 s.history_capacity))
        ]
