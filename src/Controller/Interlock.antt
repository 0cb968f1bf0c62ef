-- ===== src/Controller/Interlock.antt =====
-- The two relays and the window counters.
use brewster.Common.{
  ℕ, suc, ◌<◌, ◌≡◌, refl, ◌∙◌, ◌≢◌, ◌⊎◌, inl, inr, Bool, false, not, ◌&&◌, ◌||◌, Option, none, some,
  List, [], ◌∷◌, arith, Bool-cases,
}
use brewster.Common.Float.{Float}
use brewster.Config.{Config}
use brewster.Sensor.{OneWire}
use brewster.Storage.{Flash, Storage}
use brewster.Status.{Status}
use brewster.Controller.{finish_step, sensors_loop}
use brewster.Config.{SensorConfig}
use brewster.Status.{no_device, SensorError}
use brewster.Status.Sensors.{update_sensor, update_sensor_error}
use brewster.Controller.{
  Pid, Controller, Rgb8, control_step, active_step, idle_step, on_sensor_error, all_off,
}
use brewster.Controller.{SensorError}

-- Cooling and heating are not on at once, and both counters are inside the window.
abbrev pub IsSafe : {State F : Type 0} → Controller State F → Type 0
IsSafe k = ((k.relay && k.heat_relay) ≡ false) × (k.window_step < 10) × (k.heat_window_step < 10)

-- What a step leaves: safe relays, and it reports "on" just where a relay is on.
abbrev pub Leaves :
    {Dev State F : Type 0} → (Rgb8 × Bool) × Controller State F × Status × Storage Dev → Type 0
Leaves r = IsSafe r.1 × (r.0.1 ≡ (r.1.relay || r.1.heat_relay))

-- Both relays are off and both counters at zero.
abbrev pub IsOff : {State F : Type 0} → Controller State F → Type 0
IsOff k =
    (k.relay ≡ false) × (k.heat_relay ≡ false) × (k.window_step ≡ 0) × (k.heat_window_step ≡ 0)

module _ (f : Float) (pids : Pid f.F) (fl : Flash) (c : Config f) (now_uptime_s : ℕ) where
  on_sensor_error-Leaves :
      (e : SensorError) (k : Controller pids.State f.F) (s : Status) (st : Storage fl.Dev)
      → let (shown, k', s') = on_sensor_error f pids e (k, s) in Leaves (shown, k', s', st)
  unfolding on_sensor_error all_off
  on_sensor_error-Leaves e k s st = ((refl, omega arith, omega arith), refl)

  idle_step-Leaves :
      (temp_c : f.F) (k : Controller pids.State f.F) (s : Status) (st : Storage fl.Dev)
      → Leaves (idle_step f pids fl c now_uptime_s temp_c (k, s, st))
  unfolding idle_step all_off
  idle_step-Leaves temp_c k s st = ((refl, omega arith, omega arith), refl)

  interlock_lem : (a b : Bool) → (a && (not a && b)) ≡ false
  interlock_lem a b = ground arith

  active_step-Leaves :
      (temp_c : f.F) (k : Controller pids.State f.F) (s : Status) (st : Storage fl.Dev)
      → Leaves (active_step f pids fl c now_uptime_s temp_c (k, s, st))
  unfolding active_step
  active_step-Leaves temp_c k s st = ((interlock_lem _ _, omega arith, omega arith), refl)

  finish_step-Leaves :
      (started : Option SensorError) (found : Option f.F) (k : Controller pids.State f.F)
      (s s2 : Status) (st : Storage fl.Dev)
      → Leaves (finish_step f pids fl c now_uptime_s started found (k, s, s2, st))
  unfolding finish_step
  finish_step-Leaves (some e) found k s s2 st = on_sensor_error-Leaves e k s st
  finish_step-Leaves none none k s s2 st = on_sensor_error-Leaves no_device k s2 st
  finish_step-Leaves none (some temp_c) k s s2 st = elim (Bool-cases s2.collection_enabled) [
    | inl p ↦ simp p (active_step-Leaves temp_c k s2 st)
    | inr p ↦ simp p (idle_step-Leaves temp_c k s2 st)
  ]

  -- After every step - whatever the bus and the probes answer, and whatever state it starts
  -- from - the cooling and the heating relay are not both on, both window counters are below 10,
  -- and the step reports a relay as on just where one is.
  pub control_step-IsSafe :
      (ow : OneWire) (w : ow.Wire) (k : Controller pids.State f.F) (s : Status)
      (st : Storage fl.Dev)
      → Leaves (control_step f pids fl c now_uptime_s ow w (k, s, st))
  unfolding control_step
  control_step-IsSafe ow w k s st = finish_step-Leaves _ _ k s _ st

  finish_step-IsOff :
      (started : Option SensorError) (found : Option f.F) (k : Controller pids.State f.F)
      (s s2 : Status) (st : Storage fl.Dev)
      → (started ≢ none) ⊎ (found ≡ none) ⊎ (s2.collection_enabled ≡ false)
      → IsOff (finish_step f pids fl c now_uptime_s started found (k, s, s2, st)).1
  unfolding finish_step on_sensor_error idle_step all_off
  finish_step-IsOff (some e) found k s s2 st h = (refl, refl, refl, refl)
  finish_step-IsOff none none k s s2 st h = (refl, refl, refl, refl)
  finish_step-IsOff none (some temp_c) k s s2 st h = ground arith

  -- Reading the probes leaves the collection switch alone.
  sensors_loop-collection :
      (ow : OneWire) (count control index : ℕ) (sensors : List SensorConfig) (found : Option f.F)
      (w : ow.Wire) (s : Status)
      → (sensors_loop f pids fl c now_uptime_s ow count control index sensors found
          (w, s)).2.collection_enabled
        ≡ s.collection_enabled
  unfolding sensors_loop update_sensor update_sensor_error
  sensors_loop-collection ow count control index [] found w s = refl
  sensors_loop-collection ow count control index (x ∷ xs) found w s =
      sensors_loop-collection ow count control (suc index) xs _ _ _ ∙ ground arith

  -- A step that finds the conversion failing to start, or collection switched off, leaves both
  -- relays off and both counters at zero, whatever the probes answer.
  pub control_step-IsOff :
      (ow : OneWire) (w : ow.Wire) (k : Controller pids.State f.F) (s : Status)
      (st : Storage fl.Dev)
      → ((ow.start_conversion w).0 ≢ none) ⊎ (s.collection_enabled ≡ false)
      → IsOff (control_step f pids fl c now_uptime_s ow w (k, s, st)).1
  unfolding control_step
  control_step-IsOff ow w k s st h = finish_step-IsOff _ _ k s _ st (elim h [
    | inl p ↦ inl p
    | inr p ↦ inr (inr (sensors_loop-collection ow _ _ 0 _ none _ s ∙ p))
  ])
