-- ===== src/Telemetry/Received.antt =====
-- What the server decodes from a packet that the firmware built.
use brewster.Common.{
  ℕ, ◌/◌, ◌%◌, min, ◌≡◌, refl, ◌∙◌, inl, inr, Bool, true, ◌&&◌, some, List, [], ◌∷◌, arith,
  if◌then◌else◌, Bool-cases, length, get_or, take, replicate, tabulate, tabulate_lem,
  length-copy_at,
}
use brewster.Common.Int.{ℤ, pos, ◌≤ℤ◌, clamp_ℤ, ◌==ℤ◌}
use brewster.Common.Words.{
  IsByte, IsU32, be_bytes32, bits8, signed8, i16_min, i16_max, bits8-signed8,
}
use brewster.Common.Bits.{both, both_sound, same, same→eq}
use brewster.Common.Float.{Float, of_centi, clamp_f, as_i16, as_u8}
use Prim.Native.Nat.{max}
use mathlib.Core.Path.{subst}
use brewster.Config.{Config, ssr_deadband_c, device_hostname, device_hostname_bytes, clamp}
use brewster.Storage.{Flash, Storage}
use brewster.Storage.Target.{get_target_temp_c}
use brewster.Status.{Status, unknown_temperature_centi}
use brewster.Status.Sensors.{
  primary_temp_centi, primary_sensor_status, sensor_temp_centi, sensor_status,
}
use brewster.Status.Snapshot.{metrics_snapshot}
use brewster.Server.Packet.{Packet, decode, decode_temp, has_bit}
use brewster.Server.Packet.RoundTrip.{decode-wire, wire}
use brewster.Telemetry.{Telemetry, uptime, build_packet, packet_bytes, packet_flags, encode_centi}

packet_flags_lem :
    (r c n h t : Bool)
    → let w = packet_flags r c n h t in
      (has_bit w 1 ≡ r)
      × (has_bit w 2 ≡ c)
      × (has_bit w 4 ≡ n)
      × (has_bit w 8 ≡ h)
      × (has_bit w 16 ≡ t)
unfolding packet_flags
packet_flags_lem r c n h t = ground (
  arith,
  whole,
  same→eq (has_bit (packet_flags r c n h t) 1) r,
  same→eq (has_bit (packet_flags r c n h t) 2) c,
  same→eq (has_bit (packet_flags r c n h t) 4) n,
  same→eq (has_bit (packet_flags r c n h t) 8) h,
  same→eq (has_bit (packet_flags r c n h t) 16) t,
)
  where
    bits : Bool → Bool → Bool → Bool → Bool → Bool
    bits r c n h t =
        same (has_bit (packet_flags r c n h t) 1) r
        && same (has_bit (packet_flags r c n h t) 2) c
        && same (has_bit (packet_flags r c n h t) 4) n
        && same (has_bit (packet_flags r c n h t) 8) h
        && same (has_bit (packet_flags r c n h t) 16) t

    whole : bits r c n h t ≡ true
    whole = both_sound (bits r c n h) t (
        both_sound (λ h. both (bits r c n h)) h
          (both_sound (λ n. both (λ h. both (bits r c n h))) n
            (both_sound (λ c. both (λ n. both (λ h. both (bits r c n h)))) c
              (both_sound (λ r. both (λ c. both (λ n. both (λ h. both (bits r c n h))))) r refl))))

pub length-device_hostname_bytes :
    {f : Float} (c : Config f) → length (device_hostname_bytes c) ≡ 20
unfolding device_hostname_bytes
length-device_hostname_bytes c =
    length-copy_at {A = ℕ} (replicate 20 0) 0
      (take (min (length (device_hostname c)) 20) (device_hostname c))

-- A reading as the server sees it: an unknown one as a NaN, others held to -327.68 to 327.66.
abbrev pub shown : (f : Float) → ℤ → f.F
shown f z =
    if z ==ℤ unknown_temperature_centi then f.nan else of_centi f (clamp_ℤ i16_min (pos 32766) z)

decode_temp-encode_centi : (f : Float) (z : ℤ) → decode_temp f (encode_centi z) ≡ shown f z
unfolding decode_temp encode_centi
decode_temp-encode_centi f z = ground arith

encode_centi_range : (z : ℤ) → (i16_min ≤ℤ encode_centi z) × (encode_centi z ≤ℤ i16_max)
unfolding encode_centi
encode_centi_range z = ground arith

module _ (fl : Flash) (f : Float) (c : Config f) (tick_hz now_ticks : ℕ) where
  -- The device's state, as the server is to see it.
  abbrev pub server_view : List ℕ → Status → Storage fl.Dev → Telemetry → Packet f.F
  server_view hostname s st t = record {
    version = 5;
    hostname = hostname;
    seq = t.udp_seq;
    uptime_s = uptime tick_hz now_ticks;
    temps =
        shown f (primary_temp_centi s)
        ∷ shown f (sensor_temp_centi s 1)
        ∷ shown f (sensor_temp_centi s 2)
        ∷ [];
    target_c = of_centi f (as_i16 f (f.mul (get_target_temp_c fl f st) (f.of_int (pos 100))));
    output_pct = s.last_pid_output_deci_percent / 10 % 256;
    relay_on = s.last_relay_on;
    collecting = s.collection_enabled;
    ntp_synced = s.ntp_synced;
    history_clear = t.history_clear_pending;
    heat_on = s.last_heat_on;
    window_step = s.last_pid_window_step;
    on_steps = s.last_pid_on_steps;
    sensor_status = primary_sensor_status s ∷ sensor_status s 1 ∷ sensor_status s 2 ∷ [];
    device_ip = if s.last_ip_valid then be_bytes32 s.last_ip else 0 ∷ 0 ∷ 0 ∷ 0 ∷ [];
    sensor_count = max 1 (min (length c.sensors) 3);
    deadband_c = of_centi f (
        pos (
          as_u8 f (
            clamp_f f (f.of_int (pos 0)) (f.of_int (pos 255))
              (f.mul (ssr_deadband_c c) (f.of_int (pos 100))))));
    pid_p_pct = signed8 s.last_pid_p;
    pid_i_pct = signed8 s.last_pid_i;
    pid_d_pct = signed8 s.last_pid_d;
  }

  decode-packet_bytes :
      (g : ℕ → ℕ) (s : Status) (st : Storage fl.Dev) (t : Telemetry)
      → IsU32 t.udp_seq
      → IsByte s.last_pid_p
      → IsByte s.last_pid_i
      → IsByte s.last_pid_d
      → decode f (
          packet_bytes fl f c tick_hz now_ticks
            (tabulate 20 g)
            t.udp_seq
            t.history_clear_pending
            s
            (metrics_snapshot fl f tick_hz now_ticks s st))
        ≡ some (server_view (tabulate 20 g) s st t)
  unfolding packet_bytes metrics_snapshot
  decode-packet_bytes g s st t seq p i d = elim (Bool-cases s.last_ip_valid) [
    | inl e ↦ simp e (
        from_wire (get_or (be_bytes32 s.last_ip) 0 0) (get_or (be_bytes32 s.last_ip) 1 0)
          (get_or (be_bytes32 s.last_ip) 2 0) (get_or (be_bytes32 s.last_ip) 3 0))
    | inr e ↦ simp e (from_wire 0 0 0 0)
  ]
    where
      target : ℤ
      target = as_i16 f (f.mul (get_target_temp_c fl f st) (f.of_int (pos 100)))

      target_range :
          (z : ℤ) → (i16_min ≤ℤ clamp_ℤ i16_min i16_max z) × (clamp_ℤ i16_min i16_max z ≤ℤ i16_max)
      target_range z = ground arith

      count_lem : clamp 1 3 (min (length c.sensors) 3) ≡ max 1 (min (length c.sensors) 3)
      count_lem = ground arith

      from_wire :
          (i0 i1 i2 i3 : ℕ)
          → decode f (
              wire g t.udp_seq
                (uptime tick_hz now_ticks)
                (encode_centi (primary_temp_centi s))
                (encode_centi (sensor_temp_centi s 1))
                (encode_centi (sensor_temp_centi s 2))
                target
                (s.last_pid_output_deci_percent / 10 % 256
                  ∷ packet_flags s.last_relay_on s.collection_enabled s.ntp_synced
                      t.history_clear_pending s.last_heat_on
                  ∷ s.last_pid_window_step
                  ∷ s.last_pid_on_steps
                  ∷ primary_sensor_status s
                  ∷ sensor_status s 1
                  ∷ sensor_status s 2
                  ∷ i0
                  ∷ i1
                  ∷ i2
                  ∷ i3
                  ∷ min (length c.sensors) 3
                  ∷ as_u8 f (
                      clamp_f f
                        (f.of_int (pos 0))
                        (f.of_int (pos 255))
                        (f.mul (ssr_deadband_c c) (f.of_int (pos 100))))
                  ∷ bits8 (signed8 s.last_pid_p)
                  ∷ bits8 (signed8 s.last_pid_i)
                  ∷ bits8 (signed8 s.last_pid_d)
                  ∷ []))
            ≡ some
                (record (server_view (tabulate 20 g) s st t) { device_ip = i0 ∷ i1 ∷ i2 ∷ i3 ∷ [] })
      from_wire i0 i1 i2 i3 =
          let a = encode_centi_range (primary_temp_centi s) in
          let b = encode_centi_range (sensor_temp_centi s 1) in
          let e = encode_centi_range (sensor_temp_centi s 2) in
          let r = target_range (f.trunc (f.mul (get_target_temp_c fl f st) (f.of_int (pos 100)))) in
          let flags =
            packet_flags_lem s.last_relay_on s.collection_enabled s.ntp_synced
              t.history_clear_pending s.last_heat_on in
          decode-wire f g t.udp_seq (uptime tick_hz now_ticks) _ _ _ target _ _ _ _ _ _ _ i0 i1 i2
            i3 _ _ _ _ _ seq (omega arith) a.0 a.1 b.0 b.1 e.0 e.1 r.0 r.1
          ∙ rw (
            flags.0,
            flags.1,
            flags.2,
            flags.3,
            flags.4,
            count_lem,
            decode_temp-encode_centi f (primary_temp_centi s),
            decode_temp-encode_centi f (sensor_temp_centi s 1),
            decode_temp-encode_centi f (sensor_temp_centi s 2),
            bits8-signed8 s.last_pid_p p,
            bits8-signed8 s.last_pid_i i,
            bits8-signed8 s.last_pid_d d,
          )

  -- Bit 3 of the flags byte is the notice that was pending.
  pub build_packet-notice :
      (s : Status) (st : Storage fl.Dev) (t : Telemetry)
      → has_bit (get_or (build_packet fl f c tick_hz now_ticks s st t).0 42 0) 8
        ≡ t.history_clear_pending
  unfolding build_packet packet_bytes
  build_packet-notice s st t =
      subst
        (λ h.
          has_bit
            (get_or
              (packet_bytes fl f c tick_hz now_ticks h t.udp_seq t.history_clear_pending s
                (metrics_snapshot fl f tick_hz now_ticks s st))
              42 0)
            8
          ≡ t.history_clear_pending)
        (tabulate_lem 20 (device_hostname_bytes c) (length-device_hostname_bytes c))
        (placed (λ i. get_or (device_hostname_bytes c) i 0))
    where
      placed :
          (g : ℕ → ℕ)
          → has_bit
              (get_or
                (packet_bytes fl f c tick_hz now_ticks
                  (tabulate 20 g)
                  t.udp_seq
                  t.history_clear_pending
                  s
                  (metrics_snapshot fl f tick_hz now_ticks s st))
                42
                0)
              8
            ≡ t.history_clear_pending
      placed g =
          let snap = metrics_snapshot fl f tick_hz now_ticks s st in
          (packet_flags_lem snap.relay_on snap.collection_enabled snap.ntp_synced
            t.history_clear_pending snap.heat_on).3

  -- The server decodes the packet that the firmware builds, and reads in it the device's state:
  -- the hostname's 20 bytes, the sequence number and uptime, the three readings with an unknown
  -- one as a NaN, the target, all five flags, the sensors' states, the address (zeros where it
  -- has none), the number of sensors between 1 and 3, the deadband and the terms of the PID.
  pub decode-build_packet :
      (s : Status) (st : Storage fl.Dev) (t : Telemetry)
      → IsU32 t.udp_seq
      → IsByte s.last_pid_p
      → IsByte s.last_pid_i
      → IsByte s.last_pid_d
      → decode f (build_packet fl f c tick_hz now_ticks s st t).0
        ≡ some (server_view (device_hostname_bytes c) s st t)
  unfolding build_packet
  decode-build_packet s st t seq p i d =
      subst
        (λ h.
          decode f (
            packet_bytes fl f c tick_hz now_ticks h t.udp_seq t.history_clear_pending s
              (metrics_snapshot fl f tick_hz now_ticks s st))
          ≡ some (server_view h s st t))
        (tabulate_lem 20 (device_hostname_bytes c) (length-device_hostname_bytes c))
        (decode-packet_bytes (λ i. get_or (device_hostname_bytes c) i 0) s st t seq p i d)
