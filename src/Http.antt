-- ===== src/Http.antt =====
-- src/firmware/network/http.rs: the requests that the device answers, and how they are read.
pub mod Serve
pub mod Points
pub mod Config
pub mod Exchange
pub mod Tests
use brewster.Common.{
  ℕ, ◌+◌, ◌-◌, Bool, true, false, ◌&&◌, ◌||◌, Option, none, some, List, [], ◌∷◌, ◌++◌, leb, ◌==◌,
  if◌then◌else◌, ◌>>=◌, length, get_or, take, drop,
}
use brewster.Common.Words.{u32_max}
use brewster.Config.{clamp}
use brewster.Shared.Bytes.{starts_with, window_position, after, before}
use brewster.Shared.Utf8.{from_utf8}
use brewster.Shared.Text.{split, parse_uint}
use brewster.Storage.Probe.{trim, trim_start}

-- `ParsedRequest` over the type of the temperatures.
pub data ParsedRequest (F : Type 0) : Type 0 where
  get_status : ParsedRequest F
  get_history : ℕ → ParsedRequest F
  get_sensor_scan get_config get_metrics : ParsedRequest F
  post_temperature : F → ParsedRequest F
  post_collection : Bool → ParsedRequest F
  post_history_clear : ParsedRequest F
  post_probe_name : List ℕ → ParsedRequest F
  post_config : (http prometheus : Bool) → ParsedRequest F
  bad_request not_found : ParsedRequest F

-- The blank line: `b"\r\n\r\n"`.
abbrev pub header_end : List ℕ
header_end = (13 ∷ 10 ∷ 13 ∷ 10 ∷ [])

-- The bytes behind the blank line.
abbrev pub body_of : List ℕ → Option (List ℕ)
body_of buf = window_position header_end buf >>= λ i. some (drop (i + 4) buf)

-- The same as text, trimmed.
abbrev pub text_of : List ℕ → Option (List ℕ)
text_of buf = body_of buf >>= λ body. from_utf8 body >>= λ text. some (trim text)

-- `"key"`, with its quotes.
abbrev pub quoted : List ℕ → List ℕ
quoted key = b'"' ∷ (key ++ (b'"' ∷ []))

-- What follows the first `"key"`.
abbrev pub after_key : List ℕ → List ℕ → Option (List ℕ)
after_key body key =
    window_position (quoted key) body >>= λ i. some (drop (i + length (quoted key)) body)

abbrev pub read_bool : List ℕ → Option Bool
read_bool value =
    if starts_with (b't' ∷ b'r' ∷ b'u' ∷ b'e' ∷ []) value
    then some true
    else if starts_with (b'f' ∷ b'a' ∷ b'l' ∷ b's' ∷ b'e' ∷ []) value
    then some false
    else none

unfoldable pub parse_json_bool_field : List ℕ → List ℕ → Option Bool
parse_json_bool_field body key =
    after_key body key >>= λ rest. after b':' rest >>= λ value. read_bool (trim_start value)

abbrev pub http_server_key : List ℕ
http_server_key = (b'h' ∷ b't' ∷ b't' ∷ b'p' ∷ b'_' ∷ b's' ∷ b'e' ∷ b'r' ∷ b'v' ∷ b'e' ∷ b'r' ∷ [])

abbrev pub prometheus_key : List ℕ
prometheus_key = (b'p' ∷ b'r' ∷ b'o' ∷ b'm' ∷ b'e' ∷ b't' ∷ b'h' ∷ b'e' ∷ b'u' ∷ b's' ∷ [])

unfoldable pub parse_config_body : List ℕ → Option (Bool × Bool)
parse_config_body buf = text_of buf >>= λ body.
    parse_json_bool_field body http_server_key >>= λ http.
    parse_json_bool_field body prometheus_key >>= λ prometheus. some (http, prometheus)

-- The text from a quote to the next one.
abbrev pub read_string : List ℕ → Option (List ℕ)
read_string [] = none
read_string (c ∷ value) = if c == b'"' then before b'"' value else none

unfoldable pub parse_json_string_field : List ℕ → List ℕ → Option (List ℕ)
parse_json_string_field body key =
    after_key body key >>= λ rest. after b':' rest >>= λ value. read_string (trim_start value)

abbrev or_else : Option (List ℕ) → Option (List ℕ) → Option (List ℕ)
or_else none second = second
or_else (some first) second = some first

-- A JSON object, a quoted text or the bare name.
abbrev pub name_in : List ℕ → Option (List ℕ)
name_in body =
    if length body == 0
    then none
    else if starts_with (b'{' ∷ []) body
    then or_else
        (parse_json_string_field body
          (b'p' ∷ b'r' ∷ b'o' ∷ b'b' ∷ b'e' ∷ b'_' ∷ b'n' ∷ b'a' ∷ b'm' ∷ b'e' ∷ []))
        (parse_json_string_field body (b'n' ∷ b'a' ∷ b'm' ∷ b'e' ∷ []))
    else if starts_with (b'"' ∷ []) body
        && get_or body (length body - 1) 0 == b'"'
        && leb 2 (length body)
    then some (take (length body - 2) (drop 1 body))
    else some body

unfoldable pub parse_probe_name : List ℕ → Option (List ℕ)
parse_probe_name buf = text_of buf >>= name_in

abbrev pub default_points : ℕ
default_points = 400

abbrev pub max_points : ℕ
max_points = 1000

abbrev pub points_key : List ℕ
points_key = (b'p' ∷ b'o' ∷ b'i' ∷ b'n' ∷ b't' ∷ b's' ∷ b'=' ∷ [])

-- `pair.strip_prefix("points=")` and `parse::<usize>`, which has 32 bits.
abbrev pub points_of : List ℕ → Option ℕ
points_of pair = if starts_with points_key pair then parse_uint u32_max (drop 7 pair) else none

abbrev pub or_points : Option ℕ → ℕ → ℕ
or_points (some parsed) rest = clamp 1 max_points parsed
or_points none rest = rest

-- The loop over the parts of the query.
unfoldable pub points_loop : List (List ℕ) → ℕ
points_loop [] = default_points
points_loop (pair ∷ pairs) = or_points (points_of pair) (points_loop pairs)

-- The first line, and what stands behind its question mark.
abbrev pub query_of : List ℕ → Option (List ℕ)
query_of buf =
    window_position (13 ∷ 10 ∷ []) buf >>= λ i. from_utf8 (take i buf) >>= λ line. after b'?' line

abbrev pub points_in : Option (List ℕ) → ℕ
points_in none = default_points
points_in (some query) = points_loop (split b'&' query)

unfoldable pub parse_history_points : List ℕ → ℕ
parse_history_points buf = points_in (query_of buf)

-- `b' ' | b'\t'`
abbrev pub skip_blanks : List ℕ → Option (List ℕ)
skip_blanks [] = none
skip_blanks (b ∷ bs) =
    let rest = skip_blanks bs in if b == b' ' || b == 9 then rest else some (b ∷ bs)

-- Up to a comma, a brace or white space.
abbrev pub value_of : List ℕ → List ℕ
value_of [] = []
value_of (b ∷ bs) =
    let rest = value_of bs in
    if b == b',' || b == b'}' || b == b' ' || b == 9 || b == 13 || b == 10 then [] else b ∷ rest

-- `b"temperature_c"`
abbrev pub temperature_key : List ℕ
temperature_key =
    (b't' ∷ b'e' ∷ b'm' ∷ b'p' ∷ b'e' ∷ b'r' ∷ b'a' ∷ b't' ∷ b'u' ∷ b'r' ∷ b'e' ∷ b'_' ∷ b'c' ∷ [])

-- The text of the number in the body of a temperature request.
unfoldable pub temperature_text : List ℕ → Option (List ℕ)
temperature_text buf = body_of buf >>= λ body. window_position temperature_key body >>= λ i.
    after b':' (drop (i + 13) body) >>= λ after_colon.
    skip_blanks after_colon >>= λ value_bytes. from_utf8 (value_of value_bytes)

-- The request line of a path ends in a blank or at its end, for some also in a query.
abbrev pub asks : List ℕ → List ℕ → Bool
asks path buf = starts_with (path ++ (b' ' ∷ [])) buf || starts_with (path ++ (13 ∷ [])) buf

abbrev pub asks_query : List ℕ → List ℕ → Bool
asks_query path buf =
    starts_with (path ++ (b' ' ∷ [])) buf
    || starts_with (path ++ (b'?' ∷ [])) buf
    || starts_with (path ++ (13 ∷ [])) buf

-- Temperatures are read by `parse::<f32>`; `prometheus_built` is the feature of the build.
module _ {F : Type 0} (parse_f32 : List ℕ → Option F) (prometheus_built : Bool) where
  abbrev temperature_or_bad : Option F → ParsedRequest F
  temperature_or_bad (some v) = post_temperature v
  temperature_or_bad none = bad_request

  abbrev name_or_bad : Option (List ℕ) → ParsedRequest F
  name_or_bad (some name) = post_probe_name name
  name_or_bad none = bad_request

  abbrev pub config_or_bad : Option (Bool × Bool) → ParsedRequest F
  config_or_bad (some (http, prometheus)) = post_config http prometheus
  config_or_bad none = bad_request

  unfoldable pub parse_request : List ℕ → ParsedRequest F
  parse_request buf =
      if asks_query
        (b'G' ∷ b'E' ∷ b'T' ∷ b' ' ∷ b'/' ∷ b's' ∷ b't' ∷ b'a' ∷ b't' ∷ b'u' ∷ b's' ∷ []) buf
      then get_status
      else if asks_query
          (b'G' ∷ b'E' ∷ b'T' ∷ b' ' ∷ b'/' ∷ b'h' ∷ b'i' ∷ b's' ∷ b't' ∷ b'o' ∷ b'r' ∷ b'y' ∷ [])
          buf
      then get_history (parse_history_points buf)
      else if asks_query
          (b'G' ∷ b'E' ∷ b'T' ∷ b' ' ∷ b'/' ∷ b's' ∷ b'e' ∷ b'n' ∷ b's' ∷ b'o' ∷ b'r' ∷ b's' ∷ b'/'
            ∷ b's' ∷ b'c' ∷ b'a' ∷ b'n' ∷ [])
          buf
      then get_sensor_scan
      else if prometheus_built
          && asks_query
              (b'G' ∷ b'E' ∷ b'T' ∷ b' ' ∷ b'/' ∷ b'm' ∷ b'e' ∷ b't' ∷ b'r' ∷ b'i' ∷ b'c' ∷ b's'
                ∷ [])
              buf
      then get_metrics
      else if asks
          (b'P' ∷ b'O' ∷ b'S' ∷ b'T' ∷ b' ' ∷ b'/' ∷ b't' ∷ b'e' ∷ b'm' ∷ b'p' ∷ b'e' ∷ b'r' ∷ b'a'
            ∷ b't' ∷ b'u' ∷ b'r' ∷ b'e' ∷ [])
          buf
      then temperature_or_bad (temperature_text buf >>= parse_f32)
      else if asks
          (b'P' ∷ b'O' ∷ b'S' ∷ b'T' ∷ b' ' ∷ b'/' ∷ b'p' ∷ b'r' ∷ b'o' ∷ b'b' ∷ b'e' ∷ b'-' ∷ b'n'
            ∷ b'a' ∷ b'm' ∷ b'e' ∷ [])
          buf
      then name_or_bad (parse_probe_name buf)
      else if asks
          (b'P' ∷ b'O' ∷ b'S' ∷ b'T' ∷ b' ' ∷ b'/' ∷ b'c' ∷ b'o' ∷ b'l' ∷ b'l' ∷ b'e' ∷ b'c' ∷ b't'
            ∷ b'i' ∷ b'o' ∷ b'n' ∷ b'/' ∷ b's' ∷ b't' ∷ b'a' ∷ b'r' ∷ b't' ∷ [])
          buf
      then post_collection true
      else if asks
          (b'P' ∷ b'O' ∷ b'S' ∷ b'T' ∷ b' ' ∷ b'/' ∷ b'c' ∷ b'o' ∷ b'l' ∷ b'l' ∷ b'e' ∷ b'c' ∷ b't'
            ∷ b'i' ∷ b'o' ∷ b'n' ∷ b'/' ∷ b's' ∷ b't' ∷ b'o' ∷ b'p' ∷ [])
          buf
      then post_collection false
      else if asks
          (b'P' ∷ b'O' ∷ b'S' ∷ b'T' ∷ b' ' ∷ b'/' ∷ b'h' ∷ b'i' ∷ b's' ∷ b't' ∷ b'o' ∷ b'r' ∷ b'y'
            ∷ b'/' ∷ b'c' ∷ b'l' ∷ b'e' ∷ b'a' ∷ b'r' ∷ [])
          buf
      then post_history_clear
      else if asks (b'G' ∷ b'E' ∷ b'T' ∷ b' ' ∷ b'/' ∷ b'c' ∷ b'o' ∷ b'n' ∷ b'f' ∷ b'i' ∷ b'g' ∷ [])
          buf
      then get_config
      else if asks
          (b'P' ∷ b'O' ∷ b'S' ∷ b'T' ∷ b' ' ∷ b'/' ∷ b'c' ∷ b'o' ∷ b'n' ∷ b'f' ∷ b'i' ∷ b'g' ∷ [])
          buf
      then config_or_bad (parse_config_body buf)
      else not_found
