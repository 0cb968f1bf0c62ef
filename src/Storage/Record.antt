-- ===== src/Storage/Record.antt =====
-- The 16 bytes of a history record, as `persist_history_sample` writes and `history_snapshot`
-- reads them.
pub mod RoundTrip
use Prim.Native.Nat.{bit_and, bit_or}
use brewster.Common.{
  ℕ, ◌+◌, ◌*◌, ◌/◌, ◌%◌, min, Bool, true, false, ◌&&◌, not, List, [], ◌∷◌, ◌++◌, get_or, ltb, ◌==◌,
  if◌then◌else◌,
}
use brewster.Common.Int.{ℤ, pos, negsuc, clamp_ℤ, ◌==ℤ◌}
use brewster.Common.Words.{
  le_bytes16, le_bytes32, from_le16, from_le32, bits16, signed16, i16_min, i16_max, i32_max,
  u32_max,
}
use brewster.Common.Float.{Float, of_centi}
use brewster.Storage.{HistorySample}
use Prim.Native.Nat.{zero, suc}

-- `history_record_valid`: an erased slot reads as the sequence number `u32::MAX`.
unfoldable pub history_record_valid : List ℕ → Bool
history_record_valid raw =
    not (from_le32 (get_or raw 0 0) (get_or raw 1 0) (get_or raw 2 0) (get_or raw 3 0) == u32_max)

abbrev pub record_seq : List ℕ → ℕ
record_seq raw = from_le32 (get_or raw 0 0) (get_or raw 1 0) (get_or raw 2 0) (get_or raw 3 0)

-- One slot of `extra_centi`: `i32::MAX` stands for "no reading", and so does `i16::MAX`.
unfoldable pub extra_slot : ℤ → ℤ
extra_slot raw_centi =
    if raw_centi ==ℤ i32_max then i16_max else clamp_ℤ i16_min (pos 32766) raw_centi

-- The zip of the three slots with the readings: slots beyond the readings keep the sentinel.
unfoldable pub extra_centi : ℕ → List ℤ → List ℤ
extra_centi zero readings = []
extra_centi (suc n) [] = i16_max ∷ extra_centi n []
extra_centi (suc n) (r ∷ readings) = extra_slot r ∷ extra_centi n readings

-- `(window_step.min(15) << 4) | on_steps.min(15)`
pub pack_steps : ℕ → ℕ → ℕ
pack_steps window_step on_steps = bit_or (min window_step 15 * 16) (min on_steps 15)

unfoldable pub encode_record : ℕ → ℤ → List ℤ → ℤ → ℕ → ℕ → List ℕ
encode_record seq temp_centi extra target_centi output_pct flags =
    le_bytes32 seq
    ++ (le_bytes16 (bits16 temp_centi)
        ++ (le_bytes16 (bits16 (get_or extra 0 i16_max))
            ++ (le_bytes16 (bits16 (get_or extra 1 i16_max))
                ++ (le_bytes16 (bits16 (get_or extra 2 i16_max))
                    ++ (le_bytes16 (bits16 target_centi) ++ (output_pct ∷ flags ∷ []))))))

module _ (fl : Float) where
  open fl use {F, nan, of_int}

  -- The closure `decode` of `history_snapshot`.
  unfoldable pub decode_extra : ℤ → F
  decode_extra ec = if ec ==ℤ i16_max then nan else of_centi fl ec

  pub decode_record : List ℕ → HistorySample F
  decode_record raw =
      let window_step = get_or raw 15 0 / 16 in
      let on_steps = bit_and (get_or raw 15 0) 0x0F in
      record {
        seq = record_seq raw;
        temp_c = of_centi fl (signed16 (from_le16 (get_or raw 4 0) (get_or raw 5 0)));
        target_c = of_centi fl (signed16 (from_le16 (get_or raw 12 0) (get_or raw 13 0)));
        output_percent = of_int (pos (get_or raw 14 0));
        window_step = window_step;
        on_steps = on_steps;
        relay_on = ltb 0 on_steps && ltb window_step on_steps;
        extra_temps =
            decode_extra (signed16 (from_le16 (get_or raw 6 0) (get_or raw 7 0)))
            ∷ decode_extra (signed16 (from_le16 (get_or raw 8 0) (get_or raw 9 0)))
            ∷ decode_extra (signed16 (from_le16 (get_or raw 10 0) (get_or raw 11 0)))
            ∷ [];
      }
