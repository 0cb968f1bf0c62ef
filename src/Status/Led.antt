-- ===== src/Status/Led.antt =====
-- The exchange lights: `http_exchange_*`, `http_led_state`, `udp_send_notify`, `udp_led_active`.
-- `tick_hz` is the rate of the clock and `now_ticks` its reading.
pub mod Hold
use brewster.Common.{ℕ, ◌+◌, ◌*◌, ◌/◌, Bool, true, false, ◌&&◌, ltb, if◌then◌else◌}
use brewster.Status.{Status}
use brewster.Status.Ntp.{saturate64}

-- `HttpLedState`
pub data HttpLedState : Type 0 where
  idle active_ok active_error : HttpLedState

abbrev pub hold_ticks : ℕ → ℕ → ℕ
hold_ticks hold_ms tick_hz = saturate64 (hold_ms * tick_hz) / 1000

unfoldable pub http_exchange_begin : ℕ → ℕ → Status → Status
http_exchange_begin tick_hz now_ticks s = record s {
  http_led_active_until_ticks = saturate64 (now_ticks + hold_ticks 1200 tick_hz);
  http_exchange_error = false;
  http_exchange_active = true;
}

unfoldable pub http_exchange_mark_error : Status → Status
http_exchange_mark_error s =
    if s.http_exchange_active then record s { http_exchange_error = true } else s

unfoldable pub http_exchange_end : Status → Status
http_exchange_end s = record s { http_exchange_active = false; http_exchange_error = false }

pub http_led_state : ℕ → Status → HttpLedState
http_led_state now_ticks s =
    if s.http_exchange_active && s.http_exchange_error
    then active_error
    else if s.http_exchange_active
    then active_ok
    else if ltb now_ticks s.http_led_active_until_ticks
    then active_ok
    else idle

unfoldable pub udp_send_notify : ℕ → ℕ → Status → Status
udp_send_notify tick_hz now_ticks s = record s {
  udp_send_active_until_ticks = saturate64 (now_ticks + hold_ticks 150 tick_hz);
}

unfoldable pub udp_led_active : ℕ → Status → Bool
udp_led_active now_ticks s = ltb now_ticks s.udp_send_active_until_ticks
