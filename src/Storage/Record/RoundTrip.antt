-- ===== src/Storage/Record/RoundTrip.antt =====
-- What `decode_record` reads from the bytes that `encode_record` wrote.
use brewster.Common.{
  ℕ, ◌+◌, ◌*◌, ◌/◌, ◌%◌, ◌<◌, min, ◌≡◌, refl, true, ◌&&◌, List, [], ◌∷◌, arith, ltb, ◌==◌, ==_iff,
  length,
}
use brewster.Common.Int.{ℤ, pos, ◌≤ℤ◌}
use brewster.Common.Words.{
  IsU32, u32_max, from_le16, bits16, signed16, i16_min, i16_max, from_le16-le_bytes16,
  from_le32-le_bytes32, signed16-bits16, bits16-IsU16,
}
use brewster.Common.Bits.{holds_below, holds_below_lem}
use brewster.Common.Float.{Float, of_centi}
use Prim.Native.Nat.{bit_and, bit_or}
use brewster.Storage.Record.{extra_slot, pack_steps, encode_record, decode_extra, decode_record}
use brewster.Storage.Record.{history_record_valid}
use brewster.Storage.Record.{record_seq}

pack_table : holds_below (λ x. bit_or (x / 16 * 16) (x % 16) == x) 256 ≡ true
unfolding holds_below
pack_table = refl

low_table : holds_below (λ x. bit_and x 0x0F == x % 16) 256 ≡ true
unfolding holds_below
low_table = refl

pack_lem : (hi lo : ℕ) → hi < 16 → lo < 16 → bit_or (hi * 16) lo ≡ hi * 16 + lo
pack_lem hi lo p q = rw (hi_eq, lo_eq) at whole
  where
    whole : bit_or ((hi * 16 + lo) / 16 * 16) ((hi * 16 + lo) % 16) ≡ hi * 16 + lo
    whole = (==_iff _ _).0 (holds_below_lem _ 256 (hi * 16 + lo) pack_table (omega arith))

    hi_eq : (hi * 16 + lo) / 16 ≡ hi
    hi_eq = omega arith

    lo_eq : (hi * 16 + lo) % 16 ≡ lo
    lo_eq = omega arith

low_lem : (x : ℕ) → x < 256 → bit_and x 0x0F ≡ x % 16
low_lem x h = (==_iff _ _).0 (holds_below_lem _ 256 x low_table h)

-- The two nibbles of the flags byte.
pub pack_steps_lem :
    (w o : ℕ)
    → (pack_steps w o < 256)
      × (pack_steps w o / 16 ≡ min w 15)
      × (bit_and (pack_steps w o) 0x0F ≡ min o 15)
unfolding pack_steps
pack_steps_lem w o =
    let e : bit_or (min w 15 * 16) (min o 15) ≡ min w 15 * 16 + min o 15 =
      pack_lem (min w 15) (min o 15) (omega arith) (omega arith) in
    rw e (omega arith, omega arith, omega (arith, low_lem (min w 15 * 16 + min o 15) (omega arith)))

-- Each of the three slots reads back, and is in range.
pub extra_slot_range : (r : ℤ) → (i16_min ≤ℤ extra_slot r) × (extra_slot r ≤ℤ i16_max)
unfolding extra_slot
extra_slot_range r = ground arith

-- The bytes of a record: what each field of `decode_record` reads.
pub decode-encode_fields :
    (fl : Float) (seq : ℕ) (t a b c target : ℤ) (output flags : ℕ)
    → IsU32 seq
    → i16_min ≤ℤ t
    → t ≤ℤ i16_max
    → i16_min ≤ℤ a
    → a ≤ℤ i16_max
    → i16_min ≤ℤ b
    → b ≤ℤ i16_max
    → i16_min ≤ℤ c
    → c ≤ℤ i16_max
    → i16_min ≤ℤ target
    → target ≤ℤ i16_max
    → decode_record fl (encode_record seq t (a ∷ b ∷ c ∷ []) target output flags) ≡ record {
      seq = seq;
      temp_c = of_centi fl t;
      target_c = of_centi fl target;
      output_percent = fl.of_int (pos output);
      window_step = flags / 16;
      on_steps = bit_and flags 0x0F;
      relay_on = ltb 0 (bit_and flags 0x0F) && ltb (flags / 16) (bit_and flags 0x0F);
      extra_temps = decode_extra fl a ∷ decode_extra fl b ∷ decode_extra fl c ∷ [];
    }
unfolding decode_record encode_record
decode-encode_fields fl seq t a b c target output flags hs t1 t2 a1 a2 b1 b2 c1 c2 g1 g2 = rw (
  from_le32-le_bytes32 seq hs,
  read t t1 t2,
  read a a1 a2,
  read b b1 b2,
  read c c1 c2,
  read target g1 g2,
)
  where
    read :
        (z : ℤ)
        → i16_min ≤ℤ z
        → z ≤ℤ i16_max
        → signed16 (from_le16 (bits16 z % 256) (bits16 z / 256 % 256)) ≡ z
    read z lo hi = rw (from_le16-le_bytes16 (bits16 z) (bits16-IsU16 z)) (signed16-bits16 z lo hi)

module _ (seq : ℕ) (t : ℤ) (extra : List ℤ) (target : ℤ) (output flags : ℕ) where
  pub length-encode_record : length (encode_record seq t extra target output flags) ≡ 16
  unfolding encode_record
  length-encode_record = refl

  pub record_seq-encode_record :
      IsU32 seq → record_seq (encode_record seq t extra target output flags) ≡ seq
  unfolding encode_record
  record_seq-encode_record h = from_le32-le_bytes32 seq h

  pub encode_record-valid :
      seq < u32_max → history_record_valid (encode_record seq t extra target output flags) ≡ true
  unfolding encode_record history_record_valid
  encode_record-valid h = ground (arith, from_le32-le_bytes32 seq (omega arith))
