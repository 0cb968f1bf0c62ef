-- ===== src/Tests/Runs.antt =====
-- Runs of the operations of the status, the settings and the shared helpers.
use brewster.Controller.{
  control_step, finish_step, sensors_loop, active_step, run_pid, detect_setpoint, active_sample,
  compute_on_steps, status_color, rom_for,
}
use brewster.Sensor.{ds18b20_read_temperature_c_for, read_loop}
use brewster.Shared.Crc.{crc8_maxim, crc_from, crc_byte, crc_rounds, crc_bit}
use brewster.Status.Led.{udp_led_active, udp_send_notify}
use brewster.Status.Sensors.{update_sensor}
use brewster.Telemetry.{discovered_server_ip_octets}
use brewster.Tests.{pids, warm, controller, collecting, telemetry}
use brewster.Common.Int.{◌+ℤ◌, ◌-ℤ◌}
use brewster.Storage.Target.{get_target_temp_c}
use brewster.Common.{ℕ, ◌≡◌, refl, true, Option, none, some, List, [], ◌∷◌, length, replicate}
use brewster.Common.Int.{ℤ, pos}
use brewster.Common.Words.{i32_min}
use brewster.Common.Fixed.{fixed}
use brewster.Config.{
  ssr_deadband_c, status_print_every_seconds, device_hostname, truncated, boundary_below,
}
use brewster.Shared.Calendar.{days_to_ymd}
use brewster.Shared.Ipv4.{parse_ipv4_octets, ntp_config_peers_from}
use brewster.Shared.Text.{split, split_rest, parse_digits, parse_uint}
use brewster.Status.{Status, dhcp_gateway, no_device}
use brewster.Status.Sensors.{
  status_of, runtime_error_active, sensor_temp_centi, sensor_status, update_sensor_scan,
  sensor_scan_snapshot, update_success, update_error, missing_as_max,
}
use brewster.Status.Ntp.{
  clear_ntp_peers_by_source, update_ntp_peer, update_dhcp_ntp_server, update_ntp_peer_stats,
  mark_ntp_peer_query_failed, ntp_selection_sample, update_ntp_time, current_unix_time, find_peer,
}
use brewster.Status.Net.{clear_ip, mark_net_dhcp_pending}
use brewster.Status.Snapshot.{prometheus_snapshot}
use brewster.Storage.{RuntimeSample}
use brewster.Storage.Device.{memory}
use brewster.Storage.Probe.{is_valid_probe_name_char}
use brewster.Tests.{config, status, storage}
use brewster.Shared.Ipv4.{peers_loop}
use brewster.Status.Ntp.{current_unix_time_millis}
use brewster.Status.Ntp.{update_slots}
use brewster.Shared.Ipv4.{nonempty}
use brewster.Status.Ntp.{find_slot}
use brewster.Status.Ntp.{unix_time_micros_from_ntp_anchor}
use brewster.Shared.Ipv4.{contains}
use brewster.Status.Ntp.{peer_stats}
use brewster.Shared.Ipv4.{octets_loop}
use brewster.Status.Ntp.{clear_slots}
use brewster.Status.Ntp.{micros_to_ms_rounded}
use brewster.Status.Ntp.{micros_to_ms_ceil_nonzero}
use brewster.Status.Ntp.{smooth}
use brewster.Storage.Probe.{trim}
use brewster.Status.Net.{mark_net_link_down}
use brewster.Storage.Probe.{trim_start}
use brewster.Status.Net.{mark_ip_invalid}
use brewster.Storage.Probe.{is_whitespace}
use brewster.Common.{false}
use brewster.Shared.Calendar.{iso8601_fields}

abbrev server : List ℕ
server = 10 ∷ 0 ∷ 0 ∷ 1 ∷ []

-- The gateway becomes a peer, answers, and is dropped with the link.
abbrev answered : Status
answered =
    update_ntp_peer_stats 60 dhcp_gateway server 2 12400 (some (pos 300))
      (update_dhcp_ntp_server server status)

answered_run :
    ntp_selection_sample dhcp_gateway server answered
    ≡ some (record { stratum = 2; latency_ms = 12; jitter_ms = 0 })
unfolding ntp_selection_sample update_ntp_peer_stats update_dhcp_ntp_server update_ntp_peer
    update_slots find_slot peer_stats find_peer micros_to_ms_rounded micros_to_ms_ceil_nonzero
    clear_slots smooth
answered_run = refl

dropped_run : ntp_selection_sample dhcp_gateway server (clear_ip answered) ≡ none
unfolding ntp_selection_sample update_ntp_peer_stats update_dhcp_ntp_server update_ntp_peer
    update_slots find_slot peer_stats find_peer clear_slots smooth clear_ip mark_net_link_down
    mark_net_dhcp_pending mark_ip_invalid clear_ntp_peers_by_source mark_ntp_peer_query_failed
dropped_run = refl

time_run :
    current_unix_time 1000000 5000000
      (update_ntp_time 1700000000 500000 3000000 1000 server dhcp_gateway status)
    ≡ some 1700000002
unfolding current_unix_time current_unix_time_millis unix_time_micros_from_ntp_anchor
    update_ntp_time
time_run = refl

peers_run :
    ntp_config_peers_from (some (49 ∷ 46 ∷ 49 ∷ 46 ∷ 49 ∷ 46 ∷ 49 ∷ 44 ∷ 120 ∷ [])) none
    ≡ (1 ∷ 1 ∷ 1 ∷ 1 ∷ []) ∷ []
unfolding ntp_config_peers_from peers_loop nonempty contains parse_ipv4_octets octets_loop split
    split_rest parse_uint parse_digits trim trim_start is_whitespace
peers_run = refl

day_run : (days_to_ymd 19675 ≡ record { year = 2023; month = 11; day = 14 })
unfolding days_to_ymd
day_run = refl

error_run :
    let s = update_error no_device 10 4 0 status in
    (runtime_error_active s ≡ true) × (sensor_status s 0 ≡ 2) × (sensor_temp_centi s 0 ≡ i32_min)
unfolding update_error runtime_error_active sensor_status sensor_temp_centi status_of
error_run = (refl, refl, refl)

scan_run :
    sensor_scan_snapshot (update_sensor_scan 9 (replicate 8 1 ∷ []) status) ≡ replicate 8 1 ∷ []
unfolding sensor_scan_snapshot update_sensor_scan
scan_run = refl

settings_run :
    (status_print_every_seconds config ≡ 5)
    × (ssr_deadband_c config ≡ some (pos 50))
    × (length (device_hostname config) ≡ 8)
unfolding status_print_every_seconds ssr_deadband_c device_hostname truncated boundary_below
settings_run = (refl, refl, refl)

prometheus_run : (prometheus_snapshot memory fixed 1000 0 status storage).target_c ≡ some (pos 2111)
unfolding prometheus_snapshot get_target_temp_c
prometheus_run = refl

-- A sample is shown at once, and stored only while collecting.
success_run :
    (sample : RuntimeSample (Option ℤ))
    → ((update_success memory fixed 7 sample (status, storage)).0.last_relay_on ≡ sample.heating_on)
      × ((update_success memory fixed 7 sample (status, storage)).1 ≡ storage)
unfolding update_success missing_as_max
success_run sample = (refl, refl)

char_run : is_valid_probe_name_char 45 ≡ true
unfolding is_valid_probe_name_char
char_run = refl

-- 25.0 degrees against a target of 21.11: cooling is on for five of ten steps.
cooling_run :
    let k =
      (control_step fixed pids memory config 100 warm 0 (controller, collecting, storage)).1 in
    (k.relay ≡ true) × (k.heat_relay ≡ false) × (k.window_step ≡ 1)
unfolding control_step finish_step sensors_loop active_step run_pid detect_setpoint active_sample
    compute_on_steps status_color rom_for ds18b20_read_temperature_c_for read_loop crc8_maxim
    crc_from crc_byte crc_rounds crc_bit get_target_temp_c update_sensor update_success
    ssr_deadband_c ◌+ℤ◌ ◌-ℤ◌
cooling_run = (refl, refl, refl)

light_run :
    (udp_led_active 10 (udp_send_notify 1000 5 status) ≡ true)
    × (udp_led_active 155 (udp_send_notify 1000 5 status) ≡ false)
unfolding udp_led_active udp_send_notify
light_run = (refl, refl)

iso_run : (iso8601_fields 1700000000).1 ≡ 22
unfolding iso8601_fields
iso_run = refl

unknown_server_run : discovered_server_ip_octets telemetry ≡ none
unfolding discovered_server_ip_octets
unknown_server_run = refl
