-- ===== src/Status/Snapshot.antt =====
-- `metrics_snapshot` and `prometheus_snapshot`: what the formatters and the telemetry read.
use brewster.Common.{ℕ, ◌/◌, ◌%◌, Bool, Option, List}
use brewster.Common.Int.{ℤ, pos}
use brewster.Common.Words.{be_bytes32, signed8}
use brewster.Common.Float.{Float}
use brewster.Status.{Status}
use brewster.Status.Sensors.{primary_temp_centi, primary_sensor_status}
use brewster.Status.Ntp.{current_unix_time}
use brewster.Storage.{Flash, Storage}
use brewster.Storage.Target.{get_target_temp_c}
use brewster.Storage.Probe.{temp_probe_name}

-- `MetricsSnapshot`
pub record MetricsSnapshot (F : Type 0) : Type 0 where
  pub temp_centi : ℤ
  pub pid_deci : ℕ
  pub relay_on : Bool
  pub heat_on : Bool
  pub collection_enabled : Bool
  pub sensor_status_code : ℕ
  pub led_red : ℕ
  pub led_green : ℕ
  pub led_blue : ℕ
  pub pid_window_step : ℕ
  pub pid_on_steps : ℕ
  pub pid_p_pct : ℤ
  pub pid_i_pct : ℤ
  pub pid_d_pct : ℤ
  pub target_c : F
  pub target_f : F
  pub ip_valid : Bool
  pub net_state_code : ℕ
  pub ip_octets : List ℕ
  pub ntp_synced : Bool
  pub ntp_sync_count : ℕ
  pub ntp_source_code : ℕ
  pub ntp_uptime_at_sync : ℕ
  pub current_ntp_time : Option ℕ
  pub master_ip : List ℕ
  pub probe_name : List ℕ

-- `PrometheusSnapshot`
pub record PrometheusSnapshot (F : Type 0) : Type 0 where
  pub temp_centi : ℤ
  pub pid_deci : ℕ
  pub pid_window_step : ℕ
  pub pid_on_steps : ℕ
  pub relay_on : Bool
  pub target_c : F
  pub target_f : F
  pub ntp_synced : Bool
  pub ntp_sync_count : ℕ
  pub ntp_source_code : ℕ
  pub ntp_uptime_at_sync : ℕ
  pub master_ip : List ℕ
  pub probe_name : List ℕ

module _ (fl : Flash) (f : Float) (tick_hz now_ticks : ℕ) where
  -- `target_c * 9.0 / 5.0 + 32.0`
  abbrev pub fahrenheit : f.F → f.F
  fahrenheit c = f.add (f.div (f.mul c (f.of_int (pos 9))) (f.of_int (pos 5))) (f.of_int (pos 32))

  unfoldable pub metrics_snapshot : Status → Storage fl.Dev → MetricsSnapshot f.F
  metrics_snapshot s st = record {
    temp_centi = primary_temp_centi s;
    pid_deci = s.last_pid_output_deci_percent;
    relay_on = s.last_relay_on;
    heat_on = s.last_heat_on;
    collection_enabled = s.collection_enabled;
    sensor_status_code = primary_sensor_status s;
    led_red = s.last_led_red;
    led_green = s.last_led_green;
    led_blue = s.last_led_blue;
    pid_window_step = s.last_pid_window_step;
    pid_on_steps = s.last_pid_on_steps;
    pid_p_pct = signed8 s.last_pid_p;
    pid_i_pct = signed8 s.last_pid_i;
    pid_d_pct = signed8 s.last_pid_d;
    target_c = get_target_temp_c fl f st;
    target_f = fahrenheit (get_target_temp_c fl f st);
    ip_valid = s.last_ip_valid;
    net_state_code = s.last_net_state;
    ip_octets = be_bytes32 s.last_ip;
    ntp_synced = s.ntp_synced;
    ntp_sync_count = s.ntp_sync_count;
    ntp_source_code = s.ntp_server_source;
    ntp_uptime_at_sync = s.ntp_sync_anchor.0 / tick_hz % 4294967296;
    current_ntp_time = current_unix_time tick_hz now_ticks s;
    master_ip = be_bytes32 s.ntp_server_ip;
    probe_name = temp_probe_name st;
  }

  unfoldable pub prometheus_snapshot : Status → Storage fl.Dev → PrometheusSnapshot f.F
  prometheus_snapshot s st = record {
    temp_centi = primary_temp_centi s;
    pid_deci = s.last_pid_output_deci_percent;
    pid_window_step = s.last_pid_window_step;
    pid_on_steps = s.last_pid_on_steps;
    relay_on = s.last_relay_on;
    target_c = get_target_temp_c fl f st;
    target_f = fahrenheit (get_target_temp_c fl f st);
    ntp_synced = s.ntp_synced;
    ntp_sync_count = s.ntp_sync_count;
    ntp_source_code = s.ntp_server_source;
    ntp_uptime_at_sync = s.ntp_sync_anchor.0 / tick_hz % 4294967296;
    master_ip = be_bytes32 s.ntp_server_ip;
    probe_name = temp_probe_name st;
  }
