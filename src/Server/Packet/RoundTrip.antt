-- ===== src/Server/Packet/RoundTrip.antt =====
-- What the server decodes from the bytes of a packet.
use brewster.Common.{
  ℕ, ◌*◌, ◌/◌, ◌%◌, ◌≡◌, refl, ap, ◌∙◌, Bool, true, false, ◌&&◌, some, List, [], ◌∷◌, ◌++◌, arith,
  length, get_or, tabulate, tabulate_lem,
}
use brewster.Common.Int.{ℤ, pos, negsuc, ◌≤ℤ◌, clamp_ℤ}
use brewster.Common.Words.{
  IsU32, le_bytes16, from_le16, le_bytes32, signed8, bits16, signed16, i16_min, i16_max,
  from_le16-le_bytes16, from_le32-le_bytes32, signed16-bits16, signed8-bits8, bits16-IsU16,
}
use brewster.Common.Bits.{both, both_sound, same, same→eq}
use brewster.Common.Float.{Float, of_centi, clamp_f, as_i16, as_u8}
use Prim.Native.Nat.{bit_or}
use mathlib.Core.Path.{subst}
use brewster.Server.Packet.{
  packet_magic, packet_version, has_bit, decode_temp, decode, encode_temp, encode,
}
use brewster.Config.{clamp}
use brewster.Server.Packet.{Packet}
use brewster.Server.Packet.{bit_of}

-- The bytes of a packet around a hostname `g` of 20 bytes.
abbrev pub wire : (ℕ → ℕ) → ℕ → ℕ → ℤ → ℤ → ℤ → ℤ → List ℕ → List ℕ
wire g seq up t0 t1 t2 target rest =
    packet_magic
    ++ (packet_version ∷ [])
    ++ tabulate 20 g
    ++ le_bytes32 seq
    ++ le_bytes32 up
    ++ le_bytes16 (bits16 t0)
    ++ le_bytes16 (bits16 t1)
    ++ le_bytes16 (bits16 t2)
    ++ le_bytes16 (bits16 target)
    ++ rest

read_i16 :
    (z : ℤ)
    → i16_min ≤ℤ z
    → z ≤ℤ i16_max
    → signed16 (from_le16 (bits16 z % 256) (bits16 z / 256 % 256)) ≡ z
read_i16 z lo hi = rw (from_le16-le_bytes16 (bits16 z) (bits16-IsU16 z)) (signed16-bits16 z lo hi)

-- Every field of the decoded packet, by the bytes that it is read from.
pub decode-wire :
    (f : Float) (g : ℕ → ℕ) (seq up : ℕ) (t0 t1 t2 target : ℤ)
    (output flags window on s0 s1 s2 i0 i1 i2 i3 count deadband p i d : ℕ)
    → IsU32 seq
    → IsU32 up
    → i16_min ≤ℤ t0
    → t0 ≤ℤ i16_max
    → i16_min ≤ℤ t1
    → t1 ≤ℤ i16_max
    → i16_min ≤ℤ t2
    → t2 ≤ℤ i16_max
    → i16_min ≤ℤ target
    → target ≤ℤ i16_max
    → decode f (
        wire g seq up t0 t1 t2 target (
          output ∷ flags ∷ window ∷ on ∷ s0 ∷ s1 ∷ s2 ∷ i0 ∷ i1 ∷ i2 ∷ i3 ∷ count ∷ deadband ∷ p ∷ i
          ∷ d ∷ []))
      ≡ some (record {
        version = 5;
        hostname = tabulate 20 g;
        seq = seq;
        uptime_s = up;
        temps = decode_temp f t0 ∷ decode_temp f t1 ∷ decode_temp f t2 ∷ [];
        target_c = of_centi f target;
        output_pct = output;
        relay_on = has_bit flags 0x01;
        collecting = has_bit flags 0x02;
        ntp_synced = has_bit flags 0x04;
        history_clear = has_bit flags 0x08;
        heat_on = has_bit flags 0x10;
        window_step = window;
        on_steps = on;
        sensor_status = s0 ∷ s1 ∷ s2 ∷ [];
        device_ip = i0 ∷ i1 ∷ i2 ∷ i3 ∷ [];
        sensor_count = clamp 1 3 count;
        deadband_c = of_centi f (pos deadband);
        pid_p_pct = signed8 p;
        pid_i_pct = signed8 i;
        pid_d_pct = signed8 d;
      })
unfolding decode
decode-wire f g seq up t0 t1 t2 target output flags window on s0 s1 s2 i0 i1 i2 i3 count deadband p
      i d hs hu a0 b0 a1 b1 a2 b2 at bt =
    rw (
      from_le32-le_bytes32 seq hs,
      from_le32-le_bytes32 up hu,
      read_i16 t0 a0 b0,
      read_i16 t1 a1 b1,
      read_i16 t2 a2 b2,
      read_i16 target at bt,
    )

-- The four flags that `encode` packs are read back, and bit 4 is not set.
encode_flags_lem :
    (r c n h : Bool)
    → let w = bit_or (bit_or (bit_or (bit_of r) (bit_of c * 2)) (bit_of n * 4)) (bit_of h * 8) in
      (has_bit w 1 ≡ r)
      × (has_bit w 2 ≡ c)
      × (has_bit w 4 ≡ n)
      × (has_bit w 8 ≡ h)
      × (has_bit w 16 ≡ false)
encode_flags_lem r c n h = ground (
  arith,
  whole,
  same→eq (has_bit (flags r c n h) 1) r,
  same→eq (has_bit (flags r c n h) 2) c,
  same→eq (has_bit (flags r c n h) 4) n,
  same→eq (has_bit (flags r c n h) 8) h,
  same→eq (has_bit (flags r c n h) 16) false,
)
  where
    flags : Bool → Bool → Bool → Bool → ℕ
    flags r c n h = bit_or (bit_or (bit_or (bit_of r) (bit_of c * 2)) (bit_of n * 4)) (bit_of h * 8)

    bits : Bool → Bool → Bool → Bool → Bool
    bits r c n h =
        same (has_bit (flags r c n h) 1) r
        && same (has_bit (flags r c n h) 2) c
        && same (has_bit (flags r c n h) 4) n
        && same (has_bit (flags r c n h) 8) h
        && same (has_bit (flags r c n h) 16) false

    whole : bits r c n h ≡ true
    whole = both_sound (bits r c n) h (
        both_sound (λ n. both (bits r c n)) n
          (both_sound (λ c. both (λ n. both (bits r c n))) c
            (both_sound (λ r. both (λ c. both (λ n. both (bits r c n)))) r refl)))

-- A packet as `encode` shows it: with the version set, the temperatures as their casts to
-- hundredths show them, the count held to 1 to 3, and `heat_on` off.
abbrev pub through_encode : (f : Float) → Packet f.F → Packet f.F
through_encode f p = record p {
  version = 5;
  temps =
      decode_temp f (encode_temp f (get_or p.temps 0 f.nan))
      ∷ decode_temp f (encode_temp f (get_or p.temps 1 f.nan))
      ∷ decode_temp f (encode_temp f (get_or p.temps 2 f.nan))
      ∷ [];
  target_c = of_centi f (
      as_i16 f
        (clamp_f f (f.of_int i16_min) (f.of_int i16_max) (f.mul p.target_c (f.of_int (pos 100)))));
  heat_on = false;
  sensor_count = clamp 1 3 p.sensor_count;
  deadband_c = of_centi f (
      pos (
        as_u8 f (
          clamp_f f (f.of_int (pos 0)) (f.of_int (pos 255))
            (f.mul p.deadband_c (f.of_int (pos 100))))));
}

-- The fixed-size fields written out.
abbrev written_out : {F : Type 0} → Packet F → (ℕ → ℕ) → (ℕ → ℕ) → (ℕ → ℕ) → Packet F
written_out p g0 g1 g2 = record p {
  hostname = tabulate 20 g0;
  sensor_status = tabulate 3 g1;
  device_ip = tabulate 4 g2;
}

-- The three terms of the PID are `i8`.
abbrev pub HasI8 : {F : Type 0} → Packet F → Type 0
HasI8 p =
    (negsuc 127 ≤ℤ p.pid_p_pct)
    × (p.pid_p_pct ≤ℤ pos 127)
    × (negsuc 127 ≤ℤ p.pid_i_pct)
    × (p.pid_i_pct ≤ℤ pos 127)
    × (negsuc 127 ≤ℤ p.pid_d_pct)
    × (p.pid_d_pct ≤ℤ pos 127)

decode-encode_written :
    (f : Float) (p : Packet f.F) (g0 g1 g2 : ℕ → ℕ)
    → IsU32 p.seq
    → IsU32 p.uptime_s
    → HasI8 p
    → decode f (encode f (written_out p g0 g1 g2))
      ≡ some (through_encode f (written_out p g0 g1 g2))
unfolding encode
decode-encode_written f p g0 g1 g2 seq up (p1, p2, i1, i2, d1, d2) =
    let flags = encode_flags_lem p.relay_on p.collecting p.ntp_synced p.history_clear in
    let a = temp_range (get_or p.temps 0 f.nan) in
    let b = temp_range (get_or p.temps 1 f.nan) in
    let c = temp_range (get_or p.temps 2 f.nan) in
    let t = clamp_range (
      f.trunc (
        clamp_f f (f.of_int i16_min) (f.of_int i16_max) (f.mul p.target_c (f.of_int (pos 100))))) in
    decode-wire f g0 p.seq p.uptime_s _ _ _ _ p.output_pct _ p.window_step p.on_steps (g1 0) (g1 1)
      (g1 2) (g2 0) (g2 1) (g2 2) (g2 3) p.sensor_count _ _ _ _ seq up a.0 a.1 b.0 b.1 c.0 c.1 t.0
      t.1
    ∙ rw (
      flags.0,
      flags.1,
      flags.2,
      flags.3,
      flags.4,
      signed8-bits8 p.pid_p_pct p1 p2,
      signed8-bits8 p.pid_i_pct i1 i2,
      signed8-bits8 p.pid_d_pct d1 d2,
    )
  where
    clamp_range :
        (z : ℤ) → (i16_min ≤ℤ clamp_ℤ i16_min i16_max z) × (clamp_ℤ i16_min i16_max z ≤ℤ i16_max)
    clamp_range z = ground arith

    temp_range : (c : f.F) → (i16_min ≤ℤ encode_temp f c) × (encode_temp f c ≤ℤ i16_max)
    temp_range c = unfold encode_temp in ground arith

-- The packet that `encode` writes decodes to the packet, but for the version, which is set, the
-- temperatures, which are as their casts to hundredths show them, the count, which is held to 1
-- to 3, and `heat_on`, which is off whatever it was.
pub decode-encode :
    (f : Float) (p : Packet f.F)
    → length p.hostname ≡ 20
    → length p.sensor_status ≡ 3
    → length p.device_ip ≡ 4
    → IsU32 p.seq
    → IsU32 p.uptime_s
    → HasI8 p
    → decode f (encode f p) ≡ some (through_encode f p)
decode-encode f p hh hs hi seq up i8 =
    subst (λ q. decode f (encode f q) ≡ some (through_encode f q)) whole
      (decode-encode_written f p (λ i. get_or p.hostname i 0) (λ i. get_or p.sensor_status i 0)
        (λ i. get_or p.device_ip i 0) seq up i8)
  where
    whole :
        written_out p
          (λ i. get_or p.hostname i 0)
          (λ i. get_or p.sensor_status i 0)
          (λ i. get_or p.device_ip i 0)
        ≡ p
    whole =
        ap
          (λ h. record p {
            hostname = h;
            sensor_status = tabulate 3 (λ i. get_or p.sensor_status i 0);
            device_ip = tabulate 4 (λ i. get_or p.device_ip i 0);
          })
          (tabulate_lem 20 p.hostname hh)
        ∙ ap
            (λ h. record p {
              sensor_status = h;
              device_ip = tabulate 4 (λ i. get_or p.device_ip i 0);
            })
            (tabulate_lem 3 p.sensor_status hs)
        ∙ ap (λ h. record p { device_ip = h }) (tabulate_lem 4 p.device_ip hi)
