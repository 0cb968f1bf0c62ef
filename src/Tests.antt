-- ===== src/Tests.antt =====
-- The theorems of the other parts at concrete inputs, and runs of the operations.
pub mod Runs
use brewster.Common.{◌%◌, ◌+◌}
use brewster.Common.{
  ℕ, suc, ◌≤◌, ◌<◌, ◌≡◌, refl, ◌⊎◌, inr, true, false, not, ◌&&◌, ◌||◌, Option, none, some, List, [],
  ◌∷◌, ◌++◌, arith, ◌==◌, length, get_or, take, replicate, All,
}
use brewster.Common.Int.{ℤ, pos, negsuc}
use brewster.Common.Words.{IsByte, u32_max}
use brewster.Common.Fixed.{fixed}
use brewster.Config.{
  Config, ds18b20_resolution_bits, ds18b20_conversion_ms, status_print_interval_cycles,
  udp_server_port, truncated, is_char_boundary, device_hostname_bytes,
}
use brewster.Config.Limits.{settings-bounded, truncated_lem}
use brewster.Controller.{Pid, Controller, control_step}
use brewster.Controller.Interlock.{Leaves, control_step-IsSafe, IsOff, control_step-IsOff}
use brewster.Sensor.{OneWire, parse_ds18b20_serial, format_ds18b20_serial}
use brewster.Sensor.Serial.{parse_ds18b20_serial-format}
use brewster.Server.Discovery.{build_beacon}
use brewster.Server.Packet.{Packet, decode, encode}
use brewster.Server.Packet.RoundTrip.{decode-encode, through_encode}
use brewster.Shared.Crc.{crc8_maxim}
use brewster.Shared.Crc.Division.{crc8_maxim-remainder, reversed8, remainder}
use brewster.Shared.Hostname.{normalized_dhcp_hostname}
use brewster.Shared.Hostname.Shape.{normalized_dhcp_hostname_lem, HostChar}
use brewster.Shared.Ipv4.{parse_ipv4_octets}
use brewster.Shared.Selection.{NtpSelectionSample, should_replace_master}
use brewster.Shared.Selection.Order.{should_replace_master_lem, SameSample}
use brewster.Status.{Status, NtpPeerState, SensorError, no_device}
use brewster.Status.Led.{
  idle, active_ok, active_error, http_exchange_begin, http_exchange_mark_error, http_exchange_end,
  http_led_state,
}
use brewster.Status.Led.Hold.{http_exchange_lem}
use brewster.Shared.Text.{split}
use brewster.Status.Net.{first_part}
use brewster.Status.Net.{update_ip_from_cidr}
use brewster.Status.Net.Validity.{Shows, update_ip_from_cidr-Shows}
use brewster.Storage.{Storage, Flash}
use brewster.Storage.Device.{memory}
use brewster.Telemetry.{
  Telemetry, build_packet, server_addr, receive_beacon, telemetry_round, set_history_clear_pending,
}
use brewster.Telemetry.Expiry.{server_addr-beacon}
use brewster.Telemetry.Sending.{Round, rounds, notices, first_only, rounds-notices}
use brewster.Telemetry.{telemetry_round}
use brewster.Telemetry.Received.{decode-build_packet, server_view}
use mathlib.Core.List.{reverse}

abbrev pub config : Config fixed
config = record {
  ds18b20_resolution_config = none;
  status_print_every_seconds_config = none;
  ssr_deadband_config = none;
  device_hostname_config = none;
  udp_server_ip_config = none;
  udp_server_port_config = none;
  sensors = record { name = []; serial = none } ∷ [];
  control_probe_index = 0;
  parse_f32 = λ text. none;
}

abbrev pub status : Status
status = brewster.Status.initial

abbrev pub storage : Storage (ℕ → ℕ)
storage = brewster.Storage.initial

abbrev pub telemetry : Telemetry
telemetry = brewster.Telemetry.initial

settings-bounded_example :
    (9 ≤ ds18b20_resolution_bits config)
    × (ds18b20_resolution_bits config ≤ 12)
    × (94 ≤ ds18b20_conversion_ms config)
    × (ds18b20_conversion_ms config ≤ 750)
    × (1 ≤ status_print_interval_cycles config)
    × (status_print_interval_cycles config ≤ u32_max)
    × (1024 < udp_server_port config)
    × (udp_server_port config ≤ 65535)
settings-bounded_example = settings-bounded config

-- `"héllo-héllo-héllo-h"`: the cut may not fall into the last letter.
abbrev long_name : List ℕ
long_name = replicate 19 97 ++ (195 ∷ 169 ∷ [])

truncated_example :
    (length (truncated long_name) ≤ 20)
    × ((length long_name ≤ 20) × (truncated long_name ≡ long_name)
        ⊎ ((n : ℕ) × (truncated long_name ≡ take n long_name)
            × (n ≤ 20)
            × (is_char_boundary long_name n ≡ true)))
truncated_example = truncated_lem long_name

-- A controller that answers every reading with the output 50 and counts the resets.
abbrev pub pids : Pid (Option ℤ)
pids = record {
  State = ℕ;
  reset_integral_term = λ n. suc n;
  set_setpoint = λ target n. n;
  next_control_output = λ reading n. (
    record { output = some (pos 5000); p = some (pos 0); i = some (pos 0); d = some (pos 0) },
    n,
  );
}

-- A bus on which every probe answers with 25.0 degrees.
abbrev pub warm : OneWire
warm = record {
  Wire = ℕ;
  start_conversion = λ w. (none, w);
  read_scratchpad = λ rom w. (
    inr (
        (0x90 ∷ 0x01 ∷ 0 ∷ 0 ∷ 0 ∷ 0 ∷ 0 ∷ 0 ∷ [])
        ++ (crc8_maxim (0x90 ∷ 0x01 ∷ 0 ∷ 0 ∷ 0 ∷ 0 ∷ 0 ∷ 0 ∷ []) ∷ [])),
    w,
  );
}

abbrev pub controller : Controller ℕ (Option ℤ)
controller = record {
  pid = 0;
  heat_pid = 0;
  relay = true;
  heat_relay = true;
  window_step = 0;
  heat_window_step = 0;
  last_target_c = some (pos 2111);
}

abbrev pub collecting : Status
collecting = record status { collection_enabled = true }

control_step-IsSafe_example :
    Leaves (control_step fixed pids memory config 100 warm 0 (controller, collecting, storage))
control_step-IsSafe_example =
    control_step-IsSafe fixed pids memory config 100 warm 0 controller collecting storage

control_step-IsOff_example :
    IsOff (control_step fixed pids memory config 100 warm 0 (controller, status, storage)).1
control_step-IsOff_example =
    control_step-IsOff fixed pids memory config 100 warm 0 controller status storage (inr refl)

abbrev rom : List ℕ
rom = 0x28 ∷ 0xFF ∷ 0x4A ∷ 0x01 ∷ 0x90 ∷ 0x16 ∷ 0x04 ∷ 0x5C ∷ []

parse_ds18b20_serial-format_example : parse_ds18b20_serial (format_ds18b20_serial rom) ≡ some rom
parse_ds18b20_serial-format_example = parse_ds18b20_serial-format rom refl (
  omega arith,
  (
    omega arith,
    (
      omega arith,
      (omega arith, (omega arith, (omega arith, (omega arith, (omega arith, record {}))))),
    ),
  ),
)

crc8_maxim-remainder_example :
    IsByte (crc8_maxim rom) × (reversed8 (crc8_maxim rom) ≡ remainder rom 0)
crc8_maxim-remainder_example = crc8_maxim-remainder rom (
  omega arith,
  (
    omega arith,
    (
      omega arith,
      (omega arith, (omega arith, (omega arith, (omega arith, (omega arith, record {}))))),
    ),
  ),
)

-- `"-My Brew-"`
abbrev typed : List ℕ
typed = 45 ∷ 77 ∷ 121 ∷ 32 ∷ 66 ∷ 114 ∷ 101 ∷ 119 ∷ 45 ∷ []

normalized_dhcp_hostname_example :
    (1 ≤ length (normalized_dhcp_hostname typed))
    × (length (normalized_dhcp_hostname typed) ≤ 32)
    × All HostChar (normalized_dhcp_hostname typed)
    × ((get_or (normalized_dhcp_hostname typed) 0 0 == b'-') ≡ false)
    × ((get_or (reverse (normalized_dhcp_hostname typed)) 0 0 == b'-') ≡ false)
normalized_dhcp_hostname_example = normalized_dhcp_hostname_lem typed

abbrev near_sample : NtpSelectionSample
near_sample = record { stratum = 2; latency_ms = 5; jitter_ms = 1 }

abbrev far_sample : NtpSelectionSample
far_sample = record { stratum = 2; latency_ms = 80; jitter_ms = 1 }

should_replace_master_example :
    (should_replace_master far_sample far_sample ≡ false)
    × ((should_replace_master far_sample near_sample
          && should_replace_master near_sample far_sample
          && not (should_replace_master far_sample far_sample))
        ≡ false)
    × ((should_replace_master far_sample near_sample
          && should_replace_master near_sample far_sample)
        ≡ false)
    × (SameSample far_sample near_sample
        ⊎ ((should_replace_master far_sample near_sample
              || should_replace_master near_sample far_sample)
            ≡ true))
should_replace_master_example = should_replace_master_lem far_sample near_sample far_sample

http_exchange_example :
    (http_led_state 5 (http_exchange_begin 1000 3 status) ≡ active_ok)
    × (http_led_state 5 (http_exchange_mark_error (http_exchange_begin 1000 3 status))
        ≡ active_error)
    × (http_exchange_mark_error (http_exchange_end (http_exchange_begin 1000 3 status))
        ≡ http_exchange_end (http_exchange_begin 1000 3 status))
    × (((5 < 1203)
          × (http_led_state 5 (http_exchange_end (http_exchange_begin 1000 3 status)) ≡ active_ok))
        ⊎ ((1203 ≤ 5)
            × (http_led_state 5 (http_exchange_end (http_exchange_begin 1000 3 status)) ≡ idle)))
http_exchange_example = http_exchange_lem 1000 3 5 status (omega arith)

-- `"10.0.0.7/24"`
abbrev cidr : List ℕ
cidr = 49 ∷ 48 ∷ 46 ∷ 48 ∷ 46 ∷ 48 ∷ 46 ∷ 55 ∷ 47 ∷ 50 ∷ 52 ∷ []

update_ip_from_cidr-Shows_example :
    Shows (update_ip_from_cidr cidr status) (parse_ipv4_octets (first_part (split b'/' cidr)))
update_ip_from_cidr-Shows_example = update_ip_from_cidr-Shows cidr status

server_addr-beacon_example :
    let heard =
      receive_beacon 1000 5000 (some (build_beacon (10 ∷ 0 ∷ 0 ∷ 7 ∷ []) 47890 8080)) telemetry in
    ((20 ≤ 30) × (server_addr config 1000 25000 heard ≡ some (10 ∷ 0 ∷ 0 ∷ 7 ∷ [], 47890)))
    ⊎ ((30 < 20) × (server_addr config 1000 25000 heard ≡ none))
server_addr-beacon_example =
    server_addr-beacon config 1000 5000 25000 10 0 0 7 47890 8080 telemetry refl (omega arith)
      (omega arith) (omega arith) (omega arith) (omega arith) (omega arith) (omega arith)

decode-build_packet_example :
    decode fixed (build_packet memory fixed config 1000 25000 collecting storage telemetry).0
    ≡ some (
        server_view memory fixed config 1000 25000
          (device_hostname_bytes config)
          collecting
          storage
          telemetry)
decode-build_packet_example =
    decode-build_packet memory fixed config 1000 25000 collecting storage telemetry (omega arith)
      (omega arith) (omega arith) (omega arith)

-- A packet with both relays' flags set.
abbrev packet : Packet (Option ℤ)
packet = record {
  version = 5;
  hostname = replicate 20 98;
  seq = 42;
  uptime_s = 3600;
  temps = some (pos 2150) ∷ none ∷ some (pos 1925) ∷ [];
  target_c = some (negsuc 199);
  output_pct = 55;
  relay_on = true;
  collecting = true;
  ntp_synced = false;
  history_clear = false;
  heat_on = true;
  window_step = 3;
  on_steps = 5;
  sensor_status = 0 ∷ 255 ∷ 0 ∷ [];
  device_ip = 192 ∷ 168 ∷ 1 ∷ 100 ∷ [];
  sensor_count = 2;
  deadband_c = some (pos 50);
  pid_p_pct = pos 14;
  pid_i_pct = pos 3;
  pid_d_pct = negsuc 1;
}

decode-encode_example : decode fixed (encode fixed packet) ≡ some (through_encode fixed packet)
decode-encode_example =
    decode-encode fixed packet refl refl refl (omega arith) (omega arith)
      (omega arith, omega arith, omega arith, omega arith, omega arith, omega arith)

-- A server is known, and the socket refuses to send.
abbrev found : Telemetry
found = record telemetry { discovered_ip = 167772167; discovered_port = 47890 }

-- Two rounds whose packets cannot be sent.
abbrev failing : List (Round (ℕ → ℕ))
failing =
    record { now_ticks = 25000; send_to = λ buf addr. false; storage = storage }
    ∷ record { now_ticks = 26000; send_to = λ buf addr. false; storage = storage }
    ∷ []

rounds-notices_example :
    let t = set_history_clear_pending found in
    let flags = notices memory fixed config 1000 failing (t, status) in
    let k' = rounds memory fixed config 1000 failing (t, status) in
    (flags ≡ first_only t.history_clear_pending (length flags))
    × (k'.0.udp_seq % 4294967296 ≡ (t.udp_seq + length flags) % 4294967296)
    × ((k'.0.telemetry_sent + k'.0.telemetry_failed) % 4294967296
        ≡ (t.telemetry_sent + t.telemetry_failed + length flags) % 4294967296)
    × (((length flags ≡ 0) × (k' ≡ (t, status)))
        ⊎ ((1 ≤ length flags) × (k'.0.history_clear_pending ≡ false)))
rounds-notices_example =
    rounds-notices memory fixed config 1000 failing (set_history_clear_pending found) status
