-- ===== src/Telemetry.antt =====
-- src/firmware/network/udp.rs: the discovery of the server and the telemetry packets.
-- A time is an argument: `tick_hz` is the rate of the clock and `now_ticks` its reading.
pub mod Expiry
pub mod Sending
pub mod Received
use brewster.Common.{
  ℕ, zero, suc, ◌+◌, ◌-◌, ◌*◌, ◌/◌, ◌%◌, ◌^◌, ◌≤◌, ◌<◌, min, ◌≡◌, refl, sym, ap, ◌∙◌, ◌≢◌, ◌⊎◌, inl,
  inr, Bool, true, false, not, ◌&&◌, ◌||◌, Option, none, some, List, [], ◌∷◌, ◌++◌, map, append-nil,
  append_assoc, arith, ltb, leb, ◌==◌, if◌then◌else◌, ltb→lt, lt→ltb, leb→le, ==_iff, Bool-cases,
  Option-cases, ◌>>=◌, is_some, length, get_elem?, set, get_or, take, drop, replicate, slice,
  copy_at, All, bytes_eq, bytes_eq_refl, bytes_eq→eq, length-append, length-set, length-take,
  length-drop, length-replicate, length-map,
}
use brewster.Common.Int.{
  ℤ, pos, negsuc, pos_part, neg_part, ◌+ℤ◌, ◌-ℤ◌, ◌≤ℤ◌, ltb_ℤ, clamp_ℤ, ◌==ℤ◌,
}
use brewster.Common.Words.{
  IsByte, IsU16, IsU32, u32_max, wrapping_add32, wrapping_sub32, saturating_add32, saturating_mul32,
  le_bytes16, from_le16, le_bytes32, from_le32, be_bytes16, from_be16, be_bytes32, bits8, signed8,
  bits16, signed16, bits32, signed32, i16_min, i16_max, i32_min, i32_max, from_le16-le_bytes16,
  from_le32-le_bytes32, signed16-bits16, signed32-bits32, signed8-bits8, bits8-signed8,
  bits16-IsU16, bits32-IsU32,
}
use brewster.Common.Bits.{holds_below, holds_below_lem}
use brewster.Common.Float.{
  Float, of_centi, half, clamp_f, as_i8, as_i16, as_i32, as_u8, as_u16, as_u32,
}
use Prim.Native.Nat.{bit_and, bit_or, bit_xor, max}
use brewster.Config.{
  Config, ssr_deadband_c, device_hostname_bytes, udp_server_port, non_empty, filtered,
}
use brewster.Shared.Ipv4.{parse_ipv4_octets}
use brewster.Storage.{Flash, Storage}
use brewster.Status.{Status, unknown_temperature_centi}
use brewster.Status.Sensors.{sensor_temp_centi, sensor_status}
use brewster.Status.Led.{udp_send_notify}
use brewster.Status.Net.{ip_of}
use brewster.Status.Snapshot.{MetricsSnapshot, metrics_snapshot}

-- The statics of the file.
pub record Telemetry : Type 0 where
  pub discovered_ip : ℕ
  pub discovered_port : ℕ
  pub discovered_uptime_s : ℕ
  pub udp_seq : ℕ
  pub telemetry_sent : ℕ
  pub telemetry_failed : ℕ
  pub history_clear_pending : Bool

abbrev pub initial : Telemetry
initial = record {
  discovered_ip = 0;
  discovered_port = 0;
  discovered_uptime_s = 0;
  udp_seq = 0;
  telemetry_sent = 0;
  telemetry_failed = 0;
  history_clear_pending = false;
}

-- `b"BREW"` and `b"BRWS"`
abbrev pub packet_magic : List ℕ
packet_magic = 66 ∷ 82 ∷ 69 ∷ 87 ∷ []

abbrev pub beacon_magic : List ℕ
beacon_magic = 66 ∷ 82 ∷ 87 ∷ 83 ∷ []

abbrev pub packet_version : ℕ
packet_version = 5

abbrev pub discovery_expiry_s : ℕ
discovery_expiry_s = 30

-- `(ticks / TICK_HZ) as u32`
abbrev pub uptime : ℕ → ℕ → ℕ
uptime tick_hz now_ticks = now_ticks / tick_hz % 4294967296

pub set_discovered_server : ℕ → ℕ → List ℕ → ℕ → Telemetry → Telemetry
set_discovered_server tick_hz now_ticks ip port t = record t {
  discovered_ip = ip_of ip;
  discovered_port = port;
  discovered_uptime_s = uptime tick_hz now_ticks;
}

-- The address that was discovered, while it has not expired.
pub discovered_addr : ℕ → ℕ → Telemetry → Option (List ℕ × ℕ)
discovered_addr tick_hz now_ticks t =
    if t.discovered_ip == 0 || t.discovered_port == 0
    then none
    else if ltb discovery_expiry_s (wrapping_sub32 (uptime tick_hz now_ticks) t.discovered_uptime_s)
    then none
    else some (be_bytes32 t.discovered_ip, t.discovered_port)

pub server_addr : {f : Float} → Config f → ℕ → ℕ → Telemetry → Option (List ℕ × ℕ)
server_addr c tick_hz now_ticks t =
    elim (filtered non_empty c.udp_server_ip_config >>= parse_ipv4_octets) [
      | some octets ↦ some (octets, udp_server_port c)
      | none ↦ discovered_addr tick_hz now_ticks t
    ]

abbrev pub set_history_clear_pending : Telemetry → Telemetry
set_history_clear_pending t = record t { history_clear_pending = true }

-- One round of `udp_discovery_task`: what `recv_from` gave, an error or a datagram.
pub receive_beacon : ℕ → ℕ → Option (List ℕ) → Telemetry → Telemetry
receive_beacon tick_hz now_ticks none t = t
receive_beacon tick_hz now_ticks (some buf) t =
    if ltb (length buf) 12
    then t
    else if not (bytes_eq (slice buf 0 4) beacon_magic)
    then t
    else (let ip : List ℕ =
          get_or buf 4 0 ∷ get_or buf 5 0 ∷ get_or buf 6 0 ∷ get_or buf 7 0 ∷ [] in
        let port = from_le16 (get_or buf 8 0) (get_or buf 9 0) in
        if bytes_eq ip (0 ∷ 0 ∷ 0 ∷ 0 ∷ []) || port == 0
        then t
        else set_discovered_server tick_hz now_ticks ip port t)

unfoldable pub discovered_server_ip_octets : Telemetry → Option (List ℕ)
discovered_server_ip_octets t =
    if t.discovered_ip == 0 then none else some (be_bytes32 t.discovered_ip)

-- The closure `encode_temp` of `build_packet`.
pub encode_centi : ℤ → ℤ
encode_centi centi =
    if centi ==ℤ unknown_temperature_centi then i16_max else clamp_ℤ i16_min (pos 32766) centi

-- `b as u8`
abbrev pub bit_of : Bool → ℕ
bit_of b = if b then 1 else 0

-- The five flags of the packet, shifted to their bits.
pub packet_flags : Bool → Bool → Bool → Bool → Bool → ℕ
packet_flags relay_on collecting ntp_synced history_clear heat_on =
    bit_or
      (bit_or (bit_or (bit_or (bit_of relay_on) (bit_of collecting * 2)) (bit_of ntp_synced * 4))
        (bit_of history_clear * 8))
      (bit_of heat_on * 16)

module _ (fl : Flash) (f : Float) (c : Config f) (tick_hz now_ticks : ℕ) where
  -- The bytes of a packet, field after field.
  pub packet_bytes : List ℕ → ℕ → Bool → Status → MetricsSnapshot f.F → List ℕ
  packet_bytes hostname seq history_clear s snap =
      packet_magic
      ++ (packet_version ∷ [])
      ++ hostname
      ++ le_bytes32 seq
      ++ le_bytes32 (uptime tick_hz now_ticks)
      ++ le_bytes16 (bits16 (encode_centi snap.temp_centi))
      ++ le_bytes16 (bits16 (encode_centi (sensor_temp_centi s 1)))
      ++ le_bytes16 (bits16 (encode_centi (sensor_temp_centi s 2)))
      ++ le_bytes16 (bits16 (as_i16 f (f.mul snap.target_c (f.of_int (pos 100)))))
      ++ (snap.pid_deci / 10 % 256
          ∷ packet_flags snap.relay_on snap.collection_enabled snap.ntp_synced history_clear
              snap.heat_on
          ∷ snap.pid_window_step
          ∷ snap.pid_on_steps
          ∷ snap.sensor_status_code
          ∷ sensor_status s 1
          ∷ sensor_status s 2
          ∷ [])
      ++ (if snap.ip_valid then snap.ip_octets else 0 ∷ 0 ∷ 0 ∷ 0 ∷ [])
      ++ (min (length c.sensors) 3
          ∷ as_u8 f (
              clamp_f f (f.of_int (pos 0)) (f.of_int (pos 255))
                (f.mul (ssr_deadband_c c) (f.of_int (pos 100))))
          ∷ bits8 snap.pid_p_pct
          ∷ bits8 snap.pid_i_pct
          ∷ bits8 snap.pid_d_pct
          ∷ [])

  -- The packet, with the counter and the pending flag that it takes.
  pub build_packet : Status → Storage fl.Dev → Telemetry → List ℕ × Telemetry
  build_packet s st t = (
    packet_bytes (device_hostname_bytes c) t.udp_seq t.history_clear_pending s
        (metrics_snapshot fl f tick_hz now_ticks s st),
    record t { udp_seq = wrapping_add32 t.udp_seq 1; history_clear_pending = false },
  )

  -- One round of `udp_telemetry_task`: `send_to` is the socket's, `true` where it succeeds.
  pub telemetry_round :
      (List ℕ → List ℕ × ℕ → Bool) → Storage fl.Dev → Telemetry × Status → Telemetry × Status
  telemetry_round send_to st (t, s) = elim (server_addr c tick_hz now_ticks t) [
    | none ↦ (t, s)
    | some addr ↦
        (let (buf, t') = build_packet s st t in
          if send_to buf addr
          then (
            record t' { telemetry_sent = wrapping_add32 t'.telemetry_sent 1 },
            udp_send_notify tick_hz now_ticks s,
          )
          else (record t' { telemetry_failed = wrapping_add32 t'.telemetry_failed 1 }, s))
  ]

abbrev pub telemetry_stats : Telemetry → ℕ × ℕ
telemetry_stats t = (t.telemetry_sent, t.telemetry_failed)
