-- ===== src/Status/Sensors.antt =====
-- The sensors' readings and states, the control step's result, and the bus scan.
use brewster.Common.{
  ℕ, min, Bool, false, not, List, [], ◌∷◌, ltb, ◌==◌, if◌then◌else◌, length, set, get_or, take,
  replicate, copy_at,
}
use brewster.Common.Int.{ℤ, pos, negsuc, ◌==ℤ◌}
use brewster.Common.Words.{bits8, i32_max}
use brewster.Common.Float.{Float, clamp_f, as_i8, as_i32, as_u16}
use brewster.Storage.{Flash, Storage, RuntimeSample}
use brewster.Storage.Persist.{persist_history_sample}
use brewster.Status.{
  Status, SensorError, bus_stuck_low, no_device, crc_mismatch, unknown_temperature_centi,
  max_sensors, max_sensor_scan_results, zero_rom,
}

-- `SensorStatus::from(error) as u8`; `SensorStatus::None as u8` is 0.
unfoldable pub status_of : SensorError → ℕ
status_of bus_stuck_low = 1
status_of no_device = 2
status_of crc_mismatch = 3

unfoldable pub runtime_error_active : Status → Bool
runtime_error_active s = not (get_or s.last_sensor_status 0 2 == 0)

abbrev pub primary_temp_centi : Status → ℤ
primary_temp_centi s = get_or s.last_temp_centi 0 unknown_temperature_centi

abbrev pub primary_sensor_status : Status → ℕ
primary_sensor_status s = get_or s.last_sensor_status 0 2

unfoldable pub sensor_temp_centi : Status → ℕ → ℤ
sensor_temp_centi s index =
    if ltb index max_sensors
    then get_or s.last_temp_centi index unknown_temperature_centi
    else unknown_temperature_centi

unfoldable pub sensor_status : Status → ℕ → ℕ
sensor_status s index =
    if ltb index max_sensors then get_or s.last_sensor_status index 2 else status_of no_device

-- The closure `map` of `update_success`.
unfoldable pub missing_as_max : ℤ → ℤ
missing_as_max v = if v ==ℤ unknown_temperature_centi then i32_max else v

module _ (fl : Flash) (f : Float) where
  open f use {F, of_int, mul}

  -- `clamp(-127.0, 127.0) as i8 as u8`
  abbrev pub term_byte : F → ℕ
  term_byte x = bits8 (as_i8 f (clamp_f f (of_int (negsuc 126)) (of_int (pos 127)) x))

  unfoldable pub update_success :
      ℕ → RuntimeSample F → Status × Storage fl.Dev → Status × Storage fl.Dev
  update_success now_uptime_s sample (s, st) =
      let s' = record s {
        last_temp_centi = set s.last_temp_centi 0 (as_i32 f (mul sample.temp_c (of_int (pos 100))));
        last_pid_output_deci_percent = as_u16 f (mul sample.pid_output (of_int (pos 10)));
        last_relay_on = sample.heating_on;
        last_heat_on = sample.heat_on;
        last_sensor_status = set s.last_sensor_status 0 0;
        last_led_red = sample.led_red;
        last_led_green = sample.led_green;
        last_led_blue = sample.led_blue;
        last_pid_window_step = sample.pid_window_step;
        last_pid_on_steps = sample.pid_on_steps;
        last_pid_p = term_byte sample.pid_p_pct;
        last_pid_i = term_byte sample.pid_i_pct;
        last_pid_d = term_byte sample.pid_d_pct;
      } in
      let extra_temps_centi =
        missing_as_max (sensor_temp_centi s' 1)
        ∷ missing_as_max (sensor_temp_centi s' 2)
        ∷ missing_as_max (sensor_temp_centi s' 3)
        ∷ [] in
      (
        s',
        if s'.collection_enabled
            then persist_history_sample fl f now_uptime_s sample extra_temps_centi st
            else st,
      )

unfoldable pub update_error : SensorError → ℕ → ℕ → ℕ → Status → Status
update_error error led_red led_green led_blue s = record s {
  last_temp_centi = set s.last_temp_centi 0 unknown_temperature_centi;
  last_pid_output_deci_percent = 0;
  last_relay_on = false;
  last_heat_on = false;
  last_sensor_status = set s.last_sensor_status 0 (status_of error);
  last_led_red = led_red;
  last_led_green = led_green;
  last_led_blue = led_blue;
  last_pid_window_step = 0;
  last_pid_on_steps = 0;
  last_pid_p = 0;
  last_pid_i = 0;
  last_pid_d = 0;
}

unfoldable pub update_sensor : (f : Float) → ℕ → f.F → Status → Status
update_sensor f sensor_index temp_c s =
    if ltb sensor_index max_sensors
    then record s {
      last_temp_centi =
          set s.last_temp_centi sensor_index (as_i32 f (f.mul temp_c (f.of_int (pos 100))));
      last_sensor_status = set s.last_sensor_status sensor_index 0;
    }
    else s

unfoldable pub update_sensor_error : ℕ → SensorError → Status → Status
update_sensor_error sensor_index error s =
    if ltb sensor_index max_sensors
    then record s {
      last_temp_centi = set s.last_temp_centi sensor_index unknown_temperature_centi;
      last_sensor_status = set s.last_sensor_status sensor_index (status_of error);
    }
    else s

-- The slots are zeroed, then the first `count` take the scanned codes.
unfoldable pub update_sensor_scan : ℕ → List (List ℕ) → Status → Status
update_sensor_scan now_uptime_s roms s =
    let count = min (length roms) max_sensor_scan_results in
    record s {
      sensor_scan_roms =
          copy_at (replicate (length s.sensor_scan_roms) zero_rom) 0 (take count roms);
      sensor_scan_count = count;
      sensor_scan_last_uptime_s = now_uptime_s;
    }

unfoldable pub sensor_scan_snapshot : Status → List (List ℕ)
sensor_scan_snapshot s = take s.sensor_scan_count s.sensor_scan_roms
