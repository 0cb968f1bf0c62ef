-- ===== src/Status.antt =====
-- src/firmware/status.rs: the runtime state that the tasks of the firmware share, and
-- `SensorError` of src/firmware/error.rs. An atomic or a cell is a field; a time is an argument,
-- in ticks of the clock or in seconds of uptime.
-- The children: `Sensors` the readings, `Net` the address, `Ntp` the peers and the time, `Led` the
-- exchange lights, `Snapshot` the metrics.
pub mod Sensors
pub mod Net
pub mod Ntp
pub mod Led
pub mod Snapshot
use brewster.Common.{ℕ, Bool, false, Option, none, List, [], ◌∷◌, replicate}
use brewster.Common.Int.{ℤ, pos}
use brewster.Common.Words.{i32_min}

-- `SensorError`
pub data SensorError : Type 0 where
  bus_stuck_low no_device crc_mismatch : SensorError

-- `shared::NtpSource`, with `as u8`
pub data NtpSource : Type 0 where
  unknown config dhcp_gateway : NtpSource

abbrev pub source_code : NtpSource → ℕ
source_code unknown = 0
source_code config = 1
source_code dhcp_gateway = 2

-- `NtpPeerState`
pub record NtpPeerState : Type 0 where
  pub address : List ℕ
  pub has_sample : Bool
  pub stratum : ℕ
  pub latency_us : ℕ
  pub last_latency_us : ℕ
  pub jitter_us : ℕ
  pub has_offset : Bool
  pub offset_us : ℤ
  pub last_offset_us : ℤ
  pub offset_jitter_us : ℕ
  pub success_count : ℕ
  pub fail_count : ℕ
  pub last_sync_uptime_s : ℕ
  pub source : NtpSource

-- The statics of the file.
pub record Status : Type 0 where
  pub last_temp_centi : List ℤ
  pub last_pid_output_deci_percent : ℕ
  pub last_relay_on : Bool
  pub last_heat_on : Bool
  pub last_sensor_status : List ℕ
  pub last_led_red : ℕ
  pub last_led_green : ℕ
  pub last_led_blue : ℕ
  pub http_exchange_active : Bool
  pub http_exchange_error : Bool
  pub http_led_active_until_ticks : ℕ
  pub udp_send_active_until_ticks : ℕ
  pub last_pid_window_step : ℕ
  pub last_pid_on_steps : ℕ
  pub last_pid_p : ℕ
  pub last_pid_i : ℕ
  pub last_pid_d : ℕ
  pub collection_enabled : Bool
  pub last_ip : ℕ
  pub last_ip_valid : Bool
  pub last_net_state : ℕ
  pub ntp_synced : Bool
  pub ntp_sync_anchor : ℕ × ℕ
  pub ntp_sync_count : ℕ
  pub ntp_server_source : ℕ
  pub ntp_server_ip : ℕ
  pub ntp_peers : List (Option NtpPeerState)
  pub sensor_scan_roms : List (List ℕ)
  pub sensor_scan_count : ℕ
  pub sensor_scan_last_uptime_s : ℕ

abbrev pub unknown_temperature_centi : ℤ
unknown_temperature_centi = i32_min

abbrev pub max_sensors : ℕ
max_sensors = 3

abbrev pub max_sensor_scan_results : ℕ
max_sensor_scan_results = 8

abbrev pub ntp_max_tracked_peers : ℕ
ntp_max_tracked_peers = 5

abbrev pub zero_rom : List ℕ
zero_rom = replicate 8 0

-- The values at boot.
abbrev pub initial : Status
initial = record {
  last_temp_centi = replicate max_sensors unknown_temperature_centi;
  last_pid_output_deci_percent = 0;
  last_relay_on = false;
  last_heat_on = false;
  last_sensor_status = replicate max_sensors 2;
  last_led_red = 0;
  last_led_green = 0;
  last_led_blue = 0;
  http_exchange_active = false;
  http_exchange_error = false;
  http_led_active_until_ticks = 0;
  udp_send_active_until_ticks = 0;
  last_pid_window_step = 0;
  last_pid_on_steps = 0;
  last_pid_p = 0;
  last_pid_i = 0;
  last_pid_d = 0;
  collection_enabled = false;
  last_ip = 0;
  last_ip_valid = false;
  last_net_state = 0;
  ntp_synced = false;
  ntp_sync_anchor = (0, 0);
  ntp_sync_count = 0;
  ntp_server_source = 0;
  ntp_server_ip = 0;
  ntp_peers = replicate ntp_max_tracked_peers none;
  sensor_scan_roms = replicate max_sensor_scan_results zero_rom;
  sensor_scan_count = 0;
  sensor_scan_last_uptime_s = 0;
}
