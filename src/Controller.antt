-- ===== src/Controller.antt =====
-- src/firmware/controller.rs: one step of the control loop.
pub mod Interlock
use brewster.Common.{
  ℕ, zero, suc, ◌+◌, ◌-◌, ◌*◌, ◌/◌, ◌%◌, ◌^◌, ◌≤◌, ◌<◌, min, ◌≡◌, refl, sym, ap, ◌∙◌, ◌≢◌, ◌⊎◌, inl,
  inr, Bool, true, false, not, ◌&&◌, ◌||◌, Option, none, some, List, [], ◌∷◌, ◌++◌, map, append-nil,
  append_assoc, arith, ltb, leb, ◌==◌, if◌then◌else◌, ltb→lt, lt→ltb, leb→le, ==_iff, Bool-cases,
  Option-cases, ◌>>=◌, is_some, length, get_elem?, set, get_or, take, drop, replicate, slice,
  copy_at, All, tabulate, tabulate_lem, length-copy_at, bytes_eq, bytes_eq_refl, bytes_eq→eq,
  length-append, length-set, length-take, length-drop, length-replicate, length-map,
}
use brewster.Common.Int.{
  ℤ, pos, negsuc, pos_part, neg_part, ◌+ℤ◌, ◌-ℤ◌, ◌≤ℤ◌, ltb_ℤ, clamp_ℤ, ◌==ℤ◌,
}
use brewster.Common.Words.{
  IsByte, IsU16, IsU32, u32_max, wrapping_add32, wrapping_sub32, saturating_add32, saturating_mul32,
  le_bytes16, from_le16, le_bytes32, from_le32, be_bytes16, from_be16, be_bytes32, bits8, signed8,
  bits16, signed16, bits32, signed32, i16_min, i16_max, i32_min, i32_max, from_le16-le_bytes16,
  from_le32-le_bytes32, signed16-bits16, signed32-bits32, signed8-bits8, bits8-signed8,
  bits16-IsU16, bits32-IsU32,
}
use brewster.Common.Bits.{holds_below, holds_below_lem, both, both_sound, same, same→eq}
use brewster.Common.Float.{
  Float, of_centi, half, clamp_f, as_i8, as_i16, as_i32, as_u8, as_u16, as_u32,
}
use Prim.Native.Nat.{bit_and, bit_or, bit_xor, max}
use brewster.Config.{Config, SensorConfig, ssr_deadband_c}
use brewster.Sensor.{OneWire, ds18b20_read_temperature_c_for, parse_ds18b20_serial}
use brewster.Storage.{Flash, Storage, RuntimeSample}
use brewster.Storage.Target.{get_target_temp_c}
use brewster.Status.{Status, SensorError, no_device}
use brewster.Status.Sensors.{update_success, update_error, update_sensor, update_sensor_error}

-- `Rgb8`
pub record Rgb8 : Type 0 where
  pub red : ℕ
  pub green : ℕ
  pub blue : ℕ

-- What `next_control_output` of the PID library returns.
pub record ControlOutput (F : Type 0) : Type 0 where
  pub output : F
  pub p : F
  pub i : F
  pub d : F

-- The PID controller of the library `pid`.
pub record Pid (F : Type 0) : Type 1 where
  pub State : Type 0
  pub reset_integral_term : State → State
  pub set_setpoint : F → State → State
  pub next_control_output : F → State → ControlOutput F × State

-- What `control_step` borrows: the controllers, the two relays and the counters.
pub record Controller (State F : Type 0) : Type 0 where
  pub pid : State
  pub heat_pid : State
  pub relay : Bool
  pub heat_relay : Bool
  pub window_step : ℕ
  pub heat_window_step : ℕ
  pub last_target_c : F

abbrev pub ssr_window_steps : ℕ
ssr_window_steps = 10

unfoldable pub status_color : Bool → Rgb8
status_color relay_on =
    if relay_on
    then record { red = 10; green = 4; blue = 0 }
    else record { red = 0; green = 4; blue = 0 }

abbrev pub sensor_fault_color : SensorError → Rgb8
sensor_fault_color error = record { red = 10; green = 4; blue = 0 }

abbrev pub zero_rom : List ℕ
zero_rom = replicate 8 0

-- `config::SENSORS[i].serial` with `CONTROL_PROBE_INDEX`: the code that a probe is read by.
unfoldable pub rom_for : ℕ → SensorConfig → Option (List ℕ)
rom_for sensor_count sensor =
    let parsed = sensor.serial >>= parse_ds18b20_serial in
    let raw : Option (List ℕ) = elim parsed [
      | some rom ↦ some rom
      | none ↦ (if sensor_count == 1 then some zero_rom else none)
    ] in
    raw >>= λ rom. if bytes_eq rom zero_rom then none else some rom

module _ (f : Float) where
  open f use {F, of_int}

  unfoldable pub compute_on_steps : F → ℕ
  compute_on_steps pid_output =
      let scaled_steps = f.mul (f.div pid_output (of_int (pos 100))) (of_int (pos 10)) in
      if f.le scaled_steps (of_int (pos 0))
      then 0
      else if f.le (of_int (pos 10)) scaled_steps
      then ssr_window_steps
      else as_u32 f (f.add scaled_steps (half f))

  module _ (pids : Pid F) where
    -- Both integrals cleared, both relays low, both counters at zero.
    pub all_off : Controller pids.State F → Controller pids.State F
    all_off k = record k {
      pid = pids.reset_integral_term k.pid;
      heat_pid = pids.reset_integral_term k.heat_pid;
      relay = false;
      heat_relay = false;
      window_step = 0;
      heat_window_step = 0;
    }

    pub on_sensor_error :
        SensorError
        → Controller pids.State F × Status
        → (Rgb8 × Bool) × Controller pids.State F × Status
    on_sensor_error error (k, s) =
        let color = sensor_fault_color error in
        ((color, false), all_off k, update_error error color.red color.green color.blue s)

    -- One of the two controllers: its state, and the output with its terms. `wound` is the test
    -- of the anti-windup, `active` that of the dead band.
    unfoldable pub run_pid : Bool → Bool → F → F → pids.State → ControlOutput F × pids.State
    run_pid wound active setpoint input pid =
        let cleared = if wound then pids.reset_integral_term pid else pid in
        let (co, pid') = pids.next_control_output input (pids.set_setpoint setpoint cleared) in
        if active
        then (record co { output = clamp_f f (of_int (pos 0)) (of_int (pos 100)) co.output }, pid')
        else (
          record {
            output = of_int (pos 0);
            p = of_int (pos 0);
            i = of_int (pos 0);
            d = of_int (pos 0);
          },
          pids.reset_integral_term cleared,
        )

    -- The change of the set point.
    unfoldable pub detect_setpoint : F → Controller pids.State F → Controller pids.State F
    detect_setpoint target_c k =
        if f.lt (f.div (of_int (pos 5)) (of_int (pos 100))) (f.abs (f.sub target_c k.last_target_c))
        then record (all_off k) { last_target_c = target_c }
        else k

    -- The sample that is reported: the active side's duty cycle and terms.
    unfoldable pub active_sample :
        F → Bool → Bool → Rgb8 → ControlOutput F → ControlOutput F → ℕ → ℕ → ℕ → ℕ → RuntimeSample F
    active_sample temp_c cooling_on heat_on color cool heat cool_on_steps heat_on_steps window_step
          heat_window_step =
        let off : RuntimeSample F = record {
          temp_c = temp_c;
          pid_output = of_int (pos 0);
          heating_on = cooling_on;
          heat_on = heat_on;
          led_red = color.red;
          led_green = color.green;
          led_blue = color.blue;
          pid_window_step = 0;
          pid_on_steps = 0;
          pid_p_pct = of_int (pos 0);
          pid_i_pct = of_int (pos 0);
          pid_d_pct = of_int (pos 0);
        } in
        if ltb 0 cool_on_steps
        then record off {
          pid_output = cool.output;
          pid_window_step = window_step % 256;
          pid_on_steps = cool_on_steps % 256;
          pid_p_pct = cool.p;
          pid_i_pct = cool.i;
          pid_d_pct = cool.d;
        }
        else if ltb 0 heat_on_steps
        then record off {
          pid_output = heat.output;
          pid_window_step = heat_window_step % 256;
          pid_on_steps = heat_on_steps % 256;
          pid_p_pct = heat.p;
          pid_i_pct = heat.i;
          pid_d_pct = heat.d;
        }
        else off

    module _ (fl : Flash) (c : Config f) (now_uptime_s : ℕ) where
      -- Collection is off: everything is switched off and the reading reported.
      pub idle_step :
          F
          → Controller pids.State F × Status × Storage fl.Dev
          → (Rgb8 × Bool) × Controller pids.State F × Status × Storage fl.Dev
      idle_step temp_c (k, s, st) =
          let color = status_color false in
          let none_on : ControlOutput F = record {
            output = of_int (pos 0);
            p = of_int (pos 0);
            i = of_int (pos 0);
            d = of_int (pos 0);
          } in
          let (s', st') =
            update_success fl f now_uptime_s
              (active_sample temp_c false false color none_on none_on 0 0 0 0) (s, st) in
          ((color, false), all_off k, s', st')

      -- Collection is on: the two controllers and their relays.
      unfoldable pub active_step :
          F
          → Controller pids.State F × Status × Storage fl.Dev
          → (Rgb8 × Bool) × Controller pids.State F × Status × Storage fl.Dev
      active_step temp_c (k, s, st) =
          let target_c = get_target_temp_c fl f st in
          let k1 = detect_setpoint target_c k in
          let control_error = f.sub temp_c target_c in
          let half_band = f.div (ssr_deadband_c c) (of_int (pos 2)) in
          let (cool, pid') =
            run_pid (f.lt control_error (of_int (pos 0))) (f.lt half_band control_error)
              (f.neg target_c) (f.neg temp_c) k1.pid in
          let cool_on_steps = compute_on_steps cool.output in
          let cooling_on = ltb k1.window_step cool_on_steps in
          let (heat, heat_pid') =
            run_pid (f.lt (of_int (pos 0)) control_error) (f.lt control_error (f.neg half_band))
              target_c temp_c k1.heat_pid in
          let heat_on_steps = compute_on_steps heat.output in
          let heat_on = not cooling_on && ltb k1.heat_window_step heat_on_steps in
          let color = status_color (cooling_on || heat_on) in
          let sample =
            active_sample temp_c cooling_on heat_on color cool heat cool_on_steps heat_on_steps
              k1.window_step k1.heat_window_step in
          let (s', st') = update_success fl f now_uptime_s sample (s, st) in
          (
            (color, cooling_on || heat_on),
            record k1 {
              pid = pid';
              heat_pid = heat_pid';
              relay = cooling_on;
              heat_relay = heat_on;
              window_step = (k1.window_step + 1) % ssr_window_steps;
              heat_window_step = (k1.heat_window_step + 1) % ssr_window_steps;
            },
            s',
            st',
          )

      -- The two matches: on the start of the conversion, and on the control probe's reading. `s`
      -- is the status before the probes were read and `s2` after.
      unfoldable pub finish_step :
          Option SensorError
          → Option F
          → Controller pids.State F × Status × Status × Storage fl.Dev
          → (Rgb8 × Bool) × Controller pids.State F × Status × Storage fl.Dev
      finish_step (some error) control_temp_c (k, s, s2, st) =
          let (shown, k', s') = on_sensor_error error (k, s) in (shown, k', s', st)
      finish_step none none (k, s, s2, st) =
          let (shown, k', s') = on_sensor_error no_device (k, s2) in (shown, k', s', st)
      finish_step none (some temp_c) (k, s, s2, st) =
          if s2.collection_enabled
          then active_step temp_c (k, s2, st)
          else idle_step temp_c (k, s2, st)

      module _ (ow : OneWire) where
        -- The loop over the probes, from an index on: the control probe's reading, if any.
        unfoldable pub sensors_loop :
            ℕ
            → ℕ
            → ℕ
            → List SensorConfig
            → Option F
            → ow.Wire × Status
            → Option F × ow.Wire × Status
        sensors_loop sensor_count control_index index [] control_temp_c (w, s) =
            (control_temp_c, w, s)
        sensors_loop sensor_count control_index index (sensor ∷ sensors) control_temp_c (w, s) =
            let (got, w') = ds18b20_read_temperature_c_for ow f (rom_for sensor_count sensor) w in
            let missing = ltb 1 sensor_count && not (is_some sensor.serial) in
            let found : Option F = if missing then control_temp_c else elim got [
              | inl error ↦ control_temp_c
              | inr temp_c ↦ (if index == control_index then some temp_c else control_temp_c)
            ] in
            let next : ow.Wire × Status =
              if missing then (w, update_sensor_error index no_device s) else elim got [
                | inl error ↦ (w', update_sensor_error index error s)
                | inr temp_c ↦ (w', update_sensor f index temp_c s)
              ] in
            sensors_loop sensor_count control_index (suc index) sensors found next

        unfoldable pub control_step :
            ow.Wire
            → Controller pids.State F × Status × Storage fl.Dev
            → (Rgb8 × Bool) × Controller pids.State F × Status × Storage fl.Dev
        control_step w (k, s, st) =
            let (started, w1) = ow.start_conversion w in
            let sensor_count = min (length c.sensors) 3 in
            let control_index = min c.control_probe_index (sensor_count - 1) in
            let (control_temp_c, w2, s2) =
              sensors_loop sensor_count control_index 0 (take sensor_count c.sensors) none
                (w1, s) in
            finish_step started control_temp_c (k, s, s2, st)
