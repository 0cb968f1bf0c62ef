-- ===== src/Status/Led/Hold.antt =====
-- How long the lights stay on.
use brewster.Common.{ℕ, ◌+◌, ◌≤◌, ◌<◌, ◌≡◌, refl, ◌⊎◌, arith}
use brewster.Status.{Status}
use brewster.Status.Ntp.{u64_mod}
use brewster.Status.Led.{
  idle, active_ok, active_error, hold_ticks, http_exchange_begin, http_exchange_mark_error,
  http_exchange_end, http_led_state,
}

-- An exchange that begins at `begun`, where the clock is far from its end, shows as active at any
-- time until it ends, and as an error once one was marked. When it has ended it shows as active
-- until the hold time of 1.2 seconds since its beginning is over, and as idle from then on. An
-- error that is marked outside an exchange changes nothing.
pub http_exchange_lem :
    (tick_hz begun now : ℕ) (s : Status)
    → begun + hold_ticks 1200 tick_hz < u64_mod
    → let started = http_exchange_begin tick_hz begun s in
      let ended = http_exchange_end started in
      (http_led_state now started ≡ active_ok)
      × (http_led_state now (http_exchange_mark_error started) ≡ active_error)
      × (http_exchange_mark_error ended ≡ ended)
      × (((now < begun + hold_ticks 1200 tick_hz) × (http_led_state now ended ≡ active_ok))
          ⊎ ((begun + hold_ticks 1200 tick_hz ≤ now) × (http_led_state now ended ≡ idle)))
unfolding http_exchange_begin http_exchange_mark_error http_exchange_end http_led_state
http_exchange_lem tick_hz begun now s h = (refl, refl, refl, ground arith)
