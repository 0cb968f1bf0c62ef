-- ===== src/Server/Packet.antt =====
-- server/src/packet.rs: the telemetry packet, decoded and encoded.
pub mod RoundTrip
use brewster.Common.{
  ℕ, zero, suc, ◌+◌, ◌-◌, ◌*◌, ◌/◌, ◌%◌, ◌^◌, ◌≤◌, ◌<◌, min, ◌≡◌, refl, sym, ap, ◌∙◌, ◌≢◌, ◌⊎◌, inl,
  inr, Bool, true, false, not, ◌&&◌, ◌||◌, Option, none, some, List, [], ◌∷◌, ◌++◌, map, append-nil,
  append_assoc, arith, ltb, leb, ◌==◌, if◌then◌else◌, ltb→lt, lt→ltb, leb→le, ==_iff, Bool-cases,
  Option-cases, ◌>>=◌, is_some, length, get_elem?, set, get_or, take, drop, replicate, slice,
  copy_at, All, bytes_eq, bytes_eq_refl, bytes_eq→eq, length-append, length-set, length-take,
  length-drop, length-replicate, length-map,
}
use brewster.Common.Int.{
  ℤ, pos, negsuc, pos_part, neg_part, ◌+ℤ◌, ◌-ℤ◌, ◌≤ℤ◌, ltb_ℤ, clamp_ℤ, ◌==ℤ◌,
}
use brewster.Common.Words.{
  IsByte, IsU16, IsU32, u32_max, wrapping_add32, wrapping_sub32, saturating_add32, saturating_mul32,
  le_bytes16, from_le16, le_bytes32, from_le32, be_bytes16, from_be16, be_bytes32, bits8, signed8,
  bits16, signed16, bits32, signed32, i16_min, i16_max, i32_min, i32_max, from_le16-le_bytes16,
  from_le32-le_bytes32, signed16-bits16, signed32-bits32, signed8-bits8, bits8-signed8,
  bits16-IsU16, bits32-IsU32,
}
use brewster.Common.Bits.{holds_below, holds_below_lem}
use brewster.Common.Float.{
  Float, of_centi, half, clamp_f, as_i8, as_i16, as_i32, as_u8, as_u16, as_u32,
}
use Prim.Native.Nat.{bit_and, bit_or, bit_xor, max}
use brewster.Config.{clamp}

-- `Packet`
pub record Packet (F : Type 0) : Type 0 where
  pub version : ℕ
  pub hostname : List ℕ
  pub seq : ℕ
  pub uptime_s : ℕ
  pub temps : List F
  pub target_c : F
  pub output_pct : ℕ
  pub relay_on : Bool
  pub collecting : Bool
  pub ntp_synced : Bool
  pub history_clear : Bool
  pub heat_on : Bool
  pub window_step : ℕ
  pub on_steps : ℕ
  pub sensor_status : List ℕ
  pub device_ip : List ℕ
  pub sensor_count : ℕ
  pub deadband_c : F
  pub pid_p_pct : ℤ
  pub pid_i_pct : ℤ
  pub pid_d_pct : ℤ

-- `b"BREW"`
abbrev pub packet_magic : List ℕ
packet_magic = 66 ∷ 82 ∷ 69 ∷ 87 ∷ []

abbrev pub packet_version : ℕ
packet_version = 5

abbrev pub packet_size : ℕ
packet_size = 57

-- `i16::from_le_bytes` and `u32::from_le_bytes` of the bytes from an index on.
abbrev pub i16_at : List ℕ → ℕ → ℤ
i16_at buf i = signed16 (from_le16 (get_or buf i 0) (get_or buf (suc i) 0))

abbrev pub u32_at : List ℕ → ℕ → ℕ
u32_at buf i =
    from_le32 (get_or buf i 0) (get_or buf (i + 1) 0) (get_or buf (i + 2) 0) (get_or buf (i + 3) 0)

-- `flags & mask != 0`
abbrev pub has_bit : ℕ → ℕ → Bool
has_bit flags mask = not (bit_and flags mask == 0)

-- `b as u8`
abbrev pub bit_of : Bool → ℕ
bit_of b = if b then 1 else 0

module _ (f : Float) where
  open f use {F}

  -- The closure `decode_temp`.
  unfoldable pub decode_temp : ℤ → F
  decode_temp centi = if centi ==ℤ i16_max then f.nan else of_centi f centi

  unfoldable pub decode : List ℕ → Option (Packet F)
  decode buf =
      if ltb (length buf) packet_size
      then none
      else if not (bytes_eq (slice buf 0 4) packet_magic)
      then none
      else if not (get_or buf 4 0 == packet_version)
      then none
      else (let flags = get_or buf 42 0 in
          some (record {
            version = get_or buf 4 0;
            hostname = slice buf 5 25;
            seq = u32_at buf 25;
            uptime_s = u32_at buf 29;
            temps =
                decode_temp (i16_at buf 33)
                ∷ decode_temp (i16_at buf 35)
                ∷ decode_temp (i16_at buf 37)
                ∷ [];
            target_c = of_centi f (i16_at buf 39);
            output_pct = get_or buf 41 0;
            relay_on = has_bit flags 0x01;
            collecting = has_bit flags 0x02;
            ntp_synced = has_bit flags 0x04;
            history_clear = has_bit flags 0x08;
            heat_on = has_bit flags 0x10;
            window_step = get_or buf 43 0;
            on_steps = get_or buf 44 0;
            sensor_status = slice buf 45 48;
            device_ip = slice buf 48 52;
            sensor_count = clamp 1 3 (get_or buf 52 0);
            deadband_c = of_centi f (pos (get_or buf 53 0));
            pid_p_pct = signed8 (get_or buf 54 0);
            pid_i_pct = signed8 (get_or buf 55 0);
            pid_d_pct = signed8 (get_or buf 56 0);
          }))

  -- The closure `encode_temp`.
  pub encode_temp : F → ℤ
  encode_temp c =
      if f.is_nan c
      then i16_max
      else as_i16 f
          (clamp_f f (f.of_int i16_min) (f.of_int (pos 32766)) (f.mul c (f.of_int (pos 100))))

  unfoldable pub encode : Packet F → List ℕ
  encode p =
      packet_magic
      ++ (packet_version ∷ [])
      ++ p.hostname
      ++ le_bytes32 p.seq
      ++ le_bytes32 p.uptime_s
      ++ le_bytes16 (bits16 (encode_temp (get_or p.temps 0 f.nan)))
      ++ le_bytes16 (bits16 (encode_temp (get_or p.temps 1 f.nan)))
      ++ le_bytes16 (bits16 (encode_temp (get_or p.temps 2 f.nan)))
      ++ le_bytes16 (
          bits16 (
            as_i16 f (
              clamp_f f (f.of_int i16_min) (f.of_int i16_max)
                (f.mul p.target_c (f.of_int (pos 100))))))
      ++ (p.output_pct
          ∷ bit_or
              (bit_or (bit_or (bit_of p.relay_on) (bit_of p.collecting * 2))
                (bit_of p.ntp_synced * 4))
              (bit_of p.history_clear * 8)
          ∷ p.window_step
          ∷ p.on_steps
          ∷ [])
      ++ p.sensor_status
      ++ p.device_ip
      ++ (p.sensor_count
          ∷ as_u8 f (
              clamp_f f (f.of_int (pos 0)) (f.of_int (pos 255))
                (f.mul p.deadband_c (f.of_int (pos 100))))
          ∷ bits8 p.pid_p_pct
          ∷ bits8 p.pid_i_pct
          ∷ bits8 p.pid_d_pct
          ∷ [])
