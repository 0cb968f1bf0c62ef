-- ===== src/Storage/Persist/Decode.antt =====
-- What the snapshot shows of a sample that was stored.
use brewster.Common.{ℕ, min, ◌≡◌, ◌∙◌, ◌&&◌, [], ◌∷◌, arith, ltb, if◌then◌else◌}
use brewster.Common.Int.{ℤ, pos, negsuc, ◌≤ℤ◌, clamp_ℤ, ◌==ℤ◌}
use brewster.Common.Words.{IsU32, bits16, signed16, i16_min, i16_max, i32_max}
use brewster.Common.Float.{Float, of_centi, clamp_f, as_i16, as_u8}
use brewster.Storage.{RuntimeSample, target_temp_min_centi, target_temp_max_centi}
use brewster.Storage.Record.{extra_slot, extra_centi, encode_record, decode_extra, decode_record}
use brewster.Storage.Record.RoundTrip.{decode-encode_fields, pack_steps_lem, extra_slot_range}
use brewster.Storage.Persist.{fields_of}

-- A reading of an extra sensor, as it comes back: `i32::MAX` as a NaN, others as they are, held
-- between -327.68 and 327.66 degrees.
abbrev pub shown : (f : Float) → ℤ → f.F
shown f r = if r ==ℤ i32_max then f.nan else of_centi f (clamp_ℤ i16_min (pos 32766) r)

decode_extra-extra_slot : (f : Float) (r : ℤ) → decode_extra f (extra_slot r) ≡ shown f r
unfolding decode_extra extra_slot
decode_extra-extra_slot f r = ground arith

signed16_target :
    (c : ℤ) → target_temp_min_centi ≤ℤ c → c ≤ℤ target_temp_max_centi → signed16 (bits16 c) ≡ c
signed16_target (pos n) lo hi = ground arith
signed16_target (negsuc n) lo hi = ground arith

-- The record of a sample, with a target in the valid range and three extra readings, decodes to
-- that sample: the temperature in hundredths as the cast takes it, the target unchanged, the
-- output as a whole percentage, both steps held to 15 with the relay state that they imply, and
-- the three readings, a missing one as a NaN.
pub decode_record-encode_record :
    (f : Float) (sample : RuntimeSample f.F) (a b c target : ℤ) (seq : ℕ)
    → IsU32 seq
    → target_temp_min_centi ≤ℤ target
    → target ≤ℤ target_temp_max_centi
    → let x = fields_of f sample (a ∷ b ∷ c ∷ []) target in
      let w = min sample.pid_window_step 15 in
      let o = min sample.pid_on_steps 15 in
      decode_record f (encode_record seq x.temp_centi x.extra x.target_centi x.output_pct x.flags)
      ≡ record {
        seq = seq;
        temp_c = of_centi f (as_i16 f (f.mul sample.temp_c (f.of_int (pos 100))));
        target_c = of_centi f target;
        output_percent =
            f.of_int
              (pos (as_u8 f (clamp_f f (f.of_int (pos 0)) (f.of_int (pos 100)) sample.pid_output)));
        window_step = w;
        on_steps = o;
        relay_on = ltb 0 o && ltb w o;
        extra_temps = shown f a ∷ shown f b ∷ shown f c ∷ [];
      }
unfolding fields_of extra_centi
decode_record-encode_record f sample a b c target seq hs lo hi =
    let steps = pack_steps_lem sample.pid_window_step sample.pid_on_steps in
    let t = clamp_range (f.trunc (f.mul sample.temp_c (f.of_int (pos 100)))) in
    decode-encode_fields f seq _ _ _ _ _ _ _ hs t.0 t.1 (extra_slot_range a).0
      (extra_slot_range a).1 (extra_slot_range b).0 (extra_slot_range b).1 (extra_slot_range c).0
      (extra_slot_range c).1 (rw (signed16_target target lo hi) (omega arith))
      (rw (signed16_target target lo hi) (omega arith))
    ∙ rw (
      signed16_target target lo hi,
      steps.1,
      steps.2,
      decode_extra-extra_slot f a,
      decode_extra-extra_slot f b,
      decode_extra-extra_slot f c,
    )
  where
    clamp_range :
        (z : ℤ) → (i16_min ≤ℤ clamp_ℤ i16_min i16_max z) × (clamp_ℤ i16_min i16_max z ≤ℤ i16_max)
    clamp_range z = ground arith
