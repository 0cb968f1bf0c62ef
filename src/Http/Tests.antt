-- ===== src/Http/Tests.antt =====
-- Requests at concrete bytes.
use brewster.Common.{ℕ, ◌≤◌, ◌≡◌, refl, true, false, none, some, List, [], ◌∷◌, ◌++◌, arith}
use brewster.Shared.Bytes.{window_position, starts_with, after, before}
use brewster.Shared.Utf8.{from_utf8, utf8_loop, utf8_step}
use brewster.Shared.Text.{split, split_rest, parse_uint, parse_digits}
use brewster.Storage.Probe.{trim, trim_start, is_whitespace}
use brewster.Http.{parse_json_string_field, points_loop, get_config}
use brewster.Common.Fixed.{fixed}
use brewster.Storage.{Storage}
use brewster.Storage.Device.{memory}
use brewster.Status.{Status}
use brewster.Http.{
  post_probe_name, post_config, parse_request, parse_history_points, header_end, temperature_text,
  parse_probe_name,
}
use brewster.Http.Serve.{Device, serve, http_exchange, reply, ok_line, text}
use brewster.Http.Points.{history_line, parse_history_points-range, parse_history_points-ignored}
use brewster.Http.Config.{config_target, parse_request-get_config}
use brewster.Http.Exchange.{Over, http_exchange-Over}
use brewster.Http.{parse_json_string_field}
use brewster.Http.{points_loop}
use brewster.Http.{window_position}
use brewster.Http.{before}
use brewster.Http.{starts_with}

-- `b"50"`
abbrev fifty : List ℕ
fifty = (b'5' ∷ b'0' ∷ [])

abbrev fields : List ℕ
fields =
    (b'H' ∷ b'T' ∷ b'T' ∷ b'P' ∷ b'/' ∷ b'1' ∷ b'.' ∷ b'1' ∷ 13 ∷ 10 ∷ b'H' ∷ b'o' ∷ b's' ∷ b't'
      ∷ b':' ∷ b' ' ∷ b'b' ∷ b'r' ∷ b'e' ∷ b'w' ∷ b's' ∷ b't' ∷ b'e' ∷ b'r' ∷ [])

abbrev device : Device (ℕ → ℕ)
device = record {
  status = brewster.Status.initial;
  storage = brewster.Storage.initial;
  telemetry = brewster.Telemetry.initial;
}

abbrev clear_request : List ℕ
clear_request =
    (b'P' ∷ b'O' ∷ b'S' ∷ b'T' ∷ b' ' ∷ b'/' ∷ b'h' ∷ b'i' ∷ b's' ∷ b't' ∷ b'o' ∷ b'r' ∷ b'y' ∷ b'/'
      ∷ b'c' ∷ b'l' ∷ b'e' ∷ b'a' ∷ b'r' ∷ b' ' ∷ b'H' ∷ b'T' ∷ b'T' ∷ b'P' ∷ b'/' ∷ b'1' ∷ b'.'
      ∷ b'1' ∷ 13 ∷ 10 ∷ 13 ∷ 10 ∷ [])

parse_history_points-range_example :
    (1 ≤ parse_history_points (history_line fifty))
    × (parse_history_points (history_line fifty) ≤ 1000)
parse_history_points-range_example = parse_history_points-range (history_line fifty)

parse_history_points-ignored_example :
    parse_history_points (history_line fifty ++ (13 ∷ 10 ∷ [])) ≡ 400
parse_history_points-ignored_example =
    parse_history_points-ignored fifty []
      ((omega arith, refl, refl), ((omega arith, refl, refl), record {}))

parse_request-get_config_example :
    (body : List ℕ) × (serve memory fixed get_config device
      ≡ some (reply memory fixed ok_line (text body), device))
    × (parse_request {F = fixed.F}
          (λ t. none)
          true
          (((config_target ++ fields) ++ header_end) ++ body)
        ≡ post_config device.storage.feature_http_enabled device.storage.feature_prometheus_enabled)
unfolding window_position starts_with
parse_request-get_config_example =
    parse_request-get_config memory fixed (λ t. none) true device fields refl

http_exchange-Over_example :
    Over memory fixed device
      (http_exchange memory fixed (λ t. none) true 1000 5 (some clear_request) false device)
http_exchange-Over_example =
    http_exchange-Over memory fixed (λ t. none) true 1000 5 (some clear_request) false device
      (omega arith)

-- With an ampersand behind it the value is read.
points_read :
    parse_history_points (
      (b'G' ∷ b'E' ∷ b'T' ∷ b' ' ∷ b'/' ∷ b'h' ∷ b'i' ∷ b's' ∷ b't' ∷ b'o' ∷ b'r' ∷ b'y' ∷ b'?'
        ∷ b'p' ∷ b'o' ∷ b'i' ∷ b'n' ∷ b't' ∷ b's' ∷ b'=' ∷ b'5' ∷ b'0' ∷ b'&' ∷ b'a' ∷ b' ' ∷ b'H'
        ∷ b'T' ∷ b'T' ∷ b'P' ∷ b'/' ∷ b'1' ∷ b'.' ∷ b'1' ∷ 13 ∷ 10 ∷ []))
    ≡ 50
unfolding parse_history_points points_loop window_position starts_with from_utf8 utf8_loop utf8_step
    after split split_rest parse_uint parse_digits
points_read = refl

temperature_read :
    temperature_text (
      (b'P' ∷ b'O' ∷ b'S' ∷ b'T' ∷ b' ' ∷ b'/' ∷ b't' ∷ b'e' ∷ b'm' ∷ b'p' ∷ b'e' ∷ b'r' ∷ b'a'
        ∷ b't' ∷ b'u' ∷ b'r' ∷ b'e' ∷ b' ' ∷ b'H' ∷ b'T' ∷ b'T' ∷ b'P' ∷ b'/' ∷ b'1' ∷ b'.' ∷ b'1'
        ∷ 13 ∷ 10 ∷ 13 ∷ 10 ∷ b'{' ∷ b'"' ∷ b't' ∷ b'e' ∷ b'm' ∷ b'p' ∷ b'e' ∷ b'r' ∷ b'a' ∷ b't'
        ∷ b'u' ∷ b'r' ∷ b'e' ∷ b'_' ∷ b'c' ∷ b'"' ∷ b':' ∷ b' ' ∷ b'1' ∷ b'8' ∷ b'.' ∷ b'5' ∷ b'}'
        ∷ []))
    ≡ some (b'1' ∷ b'8' ∷ b'.' ∷ b'5' ∷ [])
unfolding temperature_text window_position starts_with from_utf8 utf8_loop utf8_step after
temperature_read = refl

name_read :
    parse_request {F = ℕ}
      (λ t. none)
      true
      (b'P' ∷ b'O' ∷ b'S' ∷ b'T' ∷ b' ' ∷ b'/' ∷ b'p' ∷ b'r' ∷ b'o' ∷ b'b' ∷ b'e' ∷ b'-' ∷ b'n'
        ∷ b'a' ∷ b'm' ∷ b'e' ∷ b' ' ∷ b'H' ∷ b'T' ∷ b'T' ∷ b'P' ∷ b'/' ∷ b'1' ∷ b'.' ∷ b'1' ∷ 13
        ∷ 10 ∷ 13 ∷ 10 ∷ b'{' ∷ b'"' ∷ b'n' ∷ b'a' ∷ b'm' ∷ b'e' ∷ b'"' ∷ b':' ∷ b' ' ∷ b'"' ∷ b'a'
        ∷ b'l' ∷ b'e' ∷ b'"' ∷ b'}' ∷ [])
    ≡ post_probe_name (b'a' ∷ b'l' ∷ b'e' ∷ [])
unfolding parse_request parse_probe_name parse_json_string_field before window_position starts_with
    from_utf8 utf8_loop utf8_step after trim trim_start is_whitespace
name_read = refl
