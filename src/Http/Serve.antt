-- ===== src/Http/Serve.antt =====
-- src/firmware/network/http.rs: `http_status_task`, what a request does and what is answered.
use brewster.Common.{
  ℕ, Bool, not, ◌&&◌, Option, none, some, List, [], ◌∷◌, ◌++◌, if◌then◌else◌, ◌>>=◌,
}
use brewster.Common.Int.{pos, negsuc}
use brewster.Common.Float.{Float}
use brewster.Http.{
  ParsedRequest, get_status, get_history, get_sensor_scan, get_config, get_metrics,
  post_temperature, post_collection, post_history_clear, post_probe_name, post_config, bad_request,
  not_found, parse_request,
}
use brewster.Shared.Bytes.{starts_with}
use brewster.Status.{Status}
use brewster.Status.Led.{http_exchange_begin, http_exchange_mark_error, http_exchange_end}
use brewster.Storage.{Flash, Storage, StorageError}
use brewster.Storage.Clear.{clear_history_persistent}
use brewster.Storage.Flags.{set_features_persistent, set_collection_enabled_persistent}
use brewster.Storage.Probe.{
  ProbeNameError, empty, too_long, invalid_char, set_temp_probe_name, temp_probe_name,
}
use brewster.Storage.Target.{set_target_temp_c_persistent}
use brewster.Telemetry.{Telemetry, set_history_clear_pending}

-- `ResponseBody`: a text, or one that is written out from the state or from a number.
pub data ResponseBody (F : Type 0) : Type 0 where
  status_json sensor_scan_json prometheus_text : ResponseBody F
  history_json : ℕ → ResponseBody F
  temperature_ok_json : F → ResponseBody F
  text : List ℕ → ResponseBody F

pub record Response (F : Type 0) : Type 0 where
  pub status_line : List ℕ
  pub content_type : List ℕ
  pub cache_control : List ℕ
  pub body : ResponseBody F

-- What the requests read and change.
pub record Device (Dev : Type 0) : Type 0 where
  pub status : Status
  pub storage : Storage Dev
  pub telemetry : Telemetry

abbrev pub ok_line : List ℕ
ok_line = (b'2' ∷ b'0' ∷ b'0' ∷ b' ' ∷ b'O' ∷ b'K' ∷ [])

abbrev pub bad_request_line : List ℕ
bad_request_line =
    (b'4' ∷ b'0' ∷ b'0' ∷ b' ' ∷ b'B' ∷ b'a' ∷ b'd' ∷ b' ' ∷ b'R' ∷ b'e' ∷ b'q' ∷ b'u' ∷ b'e' ∷ b's'
      ∷ b't' ∷ [])

abbrev pub not_found_line : List ℕ
not_found_line =
    (b'4' ∷ b'0' ∷ b'4' ∷ b' ' ∷ b'N' ∷ b'o' ∷ b't' ∷ b' ' ∷ b'F' ∷ b'o' ∷ b'u' ∷ b'n' ∷ b'd' ∷ [])

abbrev pub internal_error_line : List ℕ
internal_error_line =
    (b'5' ∷ b'0' ∷ b'0' ∷ b' ' ∷ b'I' ∷ b'n' ∷ b't' ∷ b'e' ∷ b'r' ∷ b'n' ∷ b'a' ∷ b'l' ∷ b' ' ∷ b'S'
      ∷ b'e' ∷ b'r' ∷ b'v' ∷ b'e' ∷ b'r' ∷ b' ' ∷ b'E' ∷ b'r' ∷ b'r' ∷ b'o' ∷ b'r' ∷ [])

abbrev json_type : List ℕ
json_type =
    (b'a' ∷ b'p' ∷ b'p' ∷ b'l' ∷ b'i' ∷ b'c' ∷ b'a' ∷ b't' ∷ b'i' ∷ b'o' ∷ b'n' ∷ b'/' ∷ b'j' ∷ b's'
      ∷ b'o' ∷ b'n' ∷ [])

abbrev prometheus_type : List ℕ
prometheus_type =
    (b't' ∷ b'e' ∷ b'x' ∷ b't' ∷ b'/' ∷ b'p' ∷ b'l' ∷ b'a' ∷ b'i' ∷ b'n' ∷ b';' ∷ b' ' ∷ b'v' ∷ b'e'
      ∷ b'r' ∷ b's' ∷ b'i' ∷ b'o' ∷ b'n' ∷ b'=' ∷ b'0' ∷ b'.' ∷ b'0' ∷ b'.' ∷ b'4' ∷ b';' ∷ b' '
      ∷ b'c' ∷ b'h' ∷ b'a' ∷ b'r' ∷ b's' ∷ b'e' ∷ b't' ∷ b'=' ∷ b'u' ∷ b't' ∷ b'f' ∷ b'-' ∷ b'8'
      ∷ [])

abbrev no_store : List ℕ
no_store = (b'n' ∷ b'o' ∷ b'-' ∷ b's' ∷ b't' ∷ b'o' ∷ b'r' ∷ b'e' ∷ [])

abbrev pub bool_text : Bool → List ℕ
bool_text b =
    if b then (b't' ∷ b'r' ∷ b'u' ∷ b'e' ∷ []) else (b'f' ∷ b'a' ∷ b'l' ∷ b's' ∷ b'e' ∷ [])

abbrev pub config_json : Bool → Bool → List ℕ
config_json http prometheus =
    (b'{' ∷ 10 ∷ b' ' ∷ b' ' ∷ b'"' ∷ b'h' ∷ b't' ∷ b't' ∷ b'p' ∷ b'_' ∷ b's' ∷ b'e' ∷ b'r' ∷ b'v'
      ∷ b'e' ∷ b'r' ∷ b'"' ∷ b':' ∷ b' ' ∷ [])
    ++ bool_text http
    ++ (b',' ∷ 10 ∷ b' ' ∷ b' ' ∷ b'"' ∷ b'p' ∷ b'r' ∷ b'o' ∷ b'm' ∷ b'e' ∷ b't' ∷ b'h' ∷ b'e'
        ∷ b'u' ∷ b's' ∷ b'"' ∷ b':' ∷ b' ' ∷ [])
    ++ bool_text prometheus
    ++ (10 ∷ b'}' ∷ 10 ∷ [])

abbrev pub collection_ok_json : Bool → List ℕ
collection_ok_json enabled =
    (b'{' ∷ 10 ∷ b' ' ∷ b' ' ∷ b'"' ∷ b'o' ∷ b'k' ∷ b'"' ∷ b':' ∷ b' ' ∷ b't' ∷ b'r' ∷ b'u' ∷ b'e'
      ∷ b',' ∷ 10 ∷ b' ' ∷ b' ' ∷ b'"' ∷ b'c' ∷ b'o' ∷ b'l' ∷ b'l' ∷ b'e' ∷ b'c' ∷ b't' ∷ b'i'
      ∷ b'n' ∷ b'g' ∷ b'"' ∷ b':' ∷ b' ' ∷ [])
    ++ bool_text enabled
    ++ (10 ∷ b'}' ∷ 10 ∷ [])

abbrev pub probe_name_ok_json : List ℕ → List ℕ
probe_name_ok_json name =
    (b'{' ∷ 10 ∷ b' ' ∷ b' ' ∷ b'"' ∷ b'o' ∷ b'k' ∷ b'"' ∷ b':' ∷ b' ' ∷ b't' ∷ b'r' ∷ b'u' ∷ b'e'
      ∷ b',' ∷ 10 ∷ b' ' ∷ b' ' ∷ b'"' ∷ b'p' ∷ b'r' ∷ b'o' ∷ b'b' ∷ b'e' ∷ b'_' ∷ b'n' ∷ b'a'
      ∷ b'm' ∷ b'e' ∷ b'"' ∷ b':' ∷ b' ' ∷ b'"' ∷ [])
    ++ name
    ++ (b'"' ∷ 10 ∷ b'}' ∷ 10 ∷ [])

-- The text of an error, `{ "error": ... }`.
abbrev pub error_json : List ℕ → List ℕ
error_json name =
    (b'{' ∷ 10 ∷ b' ' ∷ b' ' ∷ b'"' ∷ b'e' ∷ b'r' ∷ b'r' ∷ b'o' ∷ b'r' ∷ b'"' ∷ b':' ∷ b' ' ∷ b'"'
      ∷ [])
    ++ name
    ++ (b'"' ∷ 10 ∷ b'}' ∷ 10 ∷ [])

abbrev pub persist_failed : List ℕ
persist_failed =
    (b'p' ∷ b'e' ∷ b'r' ∷ b's' ∷ b'i' ∷ b's' ∷ b't' ∷ b'_' ∷ b'f' ∷ b'a' ∷ b'i' ∷ b'l' ∷ b'e' ∷ b'd'
      ∷ [])

abbrev pub out_of_range : List ℕ
out_of_range =
    (b'o' ∷ b'u' ∷ b't' ∷ b'_' ∷ b'o' ∷ b'f' ∷ b'_' ∷ b'r' ∷ b'a' ∷ b'n' ∷ b'g' ∷ b'e' ∷ [])

module _ (fl : Flash) (f : Float) where
  open f use {F, of_int, le}

  abbrev pub reply : List ℕ → ResponseBody F → Response F
  reply line body = record {
    status_line = line;
    content_type = json_type;
    cache_control = no_store;
    body = body;
  }

  abbrev pub refusal : List ℕ → List ℕ → Response F
  refusal line name = reply line (text (error_json name))

  -- `Ok` gives the answer, an error of the flash does not.
  abbrev pub saved :
      Option (StorageError fl.Error) → (ok : ResponseBody F) → (name : List ℕ) → Response F
  saved none ok name = reply ok_line ok
  saved (some error) ok name = refusal internal_error_line name

  abbrev pub named : Option ProbeNameError → Storage fl.Dev → Response F
  named none s = reply ok_line (text (probe_name_ok_json (temp_probe_name s)))
  named (some empty) s = refusal bad_request_line (
      b'e' ∷ b'm' ∷ b'p' ∷ b't' ∷ b'y' ∷ b'_' ∷ b'p' ∷ b'r' ∷ b'o' ∷ b'b' ∷ b'e' ∷ b'_' ∷ b'n'
      ∷ b'a' ∷ b'm' ∷ b'e' ∷ [])
  named (some too_long) s = refusal bad_request_line (
      b'p' ∷ b'r' ∷ b'o' ∷ b'b' ∷ b'e' ∷ b'_' ∷ b'n' ∷ b'a' ∷ b'm' ∷ b'e' ∷ b'_' ∷ b't' ∷ b'o'
      ∷ b'o' ∷ b'_' ∷ b'l' ∷ b'o' ∷ b'n' ∷ b'g' ∷ [])
  named (some invalid_char) s = reply bad_request_line (
      text (
        b'{' ∷ 10 ∷ b' ' ∷ b' ' ∷ b'"' ∷ b'e' ∷ b'r' ∷ b'r' ∷ b'o' ∷ b'r' ∷ b'"' ∷ b':' ∷ b' '
        ∷ b'"' ∷ b'i' ∷ b'n' ∷ b'v' ∷ b'a' ∷ b'l' ∷ b'i' ∷ b'd' ∷ b'_' ∷ b'p' ∷ b'r' ∷ b'o' ∷ b'b'
        ∷ b'e' ∷ b'_' ∷ b'n' ∷ b'a' ∷ b'm' ∷ b'e' ∷ b'"' ∷ b',' ∷ b' ' ∷ b'"' ∷ b'a' ∷ b'l' ∷ b'l'
        ∷ b'o' ∷ b'w' ∷ b'e' ∷ b'd' ∷ b'"' ∷ b':' ∷ b' ' ∷ b'"' ∷ b'[' ∷ b'A' ∷ b'-' ∷ b'Z' ∷ b'a'
        ∷ b'-' ∷ b'z' ∷ b'0' ∷ b'-' ∷ b'9' ∷ b' ' ∷ b'.' ∷ b'_' ∷ b'-' ∷ b']' ∷ b'"' ∷ 10 ∷ b'}'
        ∷ 10 ∷ []))

  -- After a clear the telemetry tells the server of it.
  abbrev pub cleared :
      Option (Option (StorageError fl.Error) × Storage fl.Dev)
      → Device fl.Dev
      → Option (Response F × Device fl.Dev)
  cleared none d = none
  cleared (some (none, s)) d = some (
    reply ok_line (
        text (
          b'{' ∷ 10 ∷ b' ' ∷ b' ' ∷ b'"' ∷ b'o' ∷ b'k' ∷ b'"' ∷ b':' ∷ b' ' ∷ b't' ∷ b'r' ∷ b'u'
          ∷ b'e' ∷ 10 ∷ b'}' ∷ 10 ∷ [])),
    record d { storage = s; telemetry = set_history_clear_pending d.telemetry },
  )
  cleared (some (some error, s)) d = some (
    refusal internal_error_line (
        b'h' ∷ b'i' ∷ b's' ∷ b't' ∷ b'o' ∷ b'r' ∷ b'y' ∷ b'_' ∷ b'c' ∷ b'l' ∷ b'e' ∷ b'a' ∷ b'r'
        ∷ b'_' ∷ b'f' ∷ b'a' ∷ b'i' ∷ b'l' ∷ b'e' ∷ b'd' ∷ []),
    record d { storage = s },
  )

  abbrev pub in_range : F → Bool
  in_range temp = le (of_int (negsuc 19)) temp && le temp (of_int (pos 100))

  -- The match over the requests. `none` is a clear that runs out of fuel.
  unfoldable pub serve : ParsedRequest F → Device fl.Dev → Option (Response F × Device fl.Dev)
  serve get_status d = some (reply ok_line status_json, d)
  serve (get_history points) d = some (reply ok_line (history_json points), d)
  serve get_sensor_scan d = some (reply ok_line sensor_scan_json, d)
  serve get_metrics d = some (
    if not d.storage.feature_prometheus_enabled
        then refusal not_found_line
            (b'n' ∷ b'o' ∷ b't' ∷ b'_' ∷ b'f' ∷ b'o' ∷ b'u' ∷ b'n' ∷ b'd' ∷ [])
        else record (reply ok_line prometheus_text) { content_type = prometheus_type },
    d,
  )
  serve get_config d = some (
    reply ok_line
        (text (config_json d.storage.feature_http_enabled d.storage.feature_prometheus_enabled)),
    d,
  )
  serve (post_config http prometheus) d =
      let (error, s) = set_features_persistent fl http prometheus d.storage in
      some (
        saved error (text (config_json http prometheus)) (
            b'p' ∷ b'e' ∷ b'r' ∷ b's' ∷ b'i' ∷ b's' ∷ b't' ∷ b'_' ∷ b'f' ∷ b'a' ∷ b'i' ∷ b'l' ∷ b'e'
            ∷ b'd' ∷ []),
        record d { storage = s },
      )
  serve (post_temperature temp) d =
      let (error, s) = set_target_temp_c_persistent fl f temp d.storage in
      some (
        if not (in_range temp)
        then (refusal bad_request_line out_of_range, d)
        else (saved error (temperature_ok_json temp) persist_failed, record d { storage = s }))
  serve (post_probe_name name) d =
      let (error, s) = set_temp_probe_name name d.storage in
      some (named error s, record d { storage = s })
  serve (post_collection enabled) d = some (
    reply ok_line (text (collection_ok_json enabled)),
    record d {
      status = record (d.status) { collection_enabled = enabled };
      storage = (set_collection_enabled_persistent fl enabled d.storage).1;
    },
  )
  serve post_history_clear d = cleared (clear_history_persistent fl d.storage) d
  serve bad_request d = some (
    refusal bad_request_line
        (b'b' ∷ b'a' ∷ b'd' ∷ b'_' ∷ b'r' ∷ b'e' ∷ b'q' ∷ b'u' ∷ b'e' ∷ b's' ∷ b't' ∷ []),
    d,
  )
  serve not_found d = some (
    refusal not_found_line (b'n' ∷ b'o' ∷ b't' ∷ b'_' ∷ b'f' ∷ b'o' ∷ b'u' ∷ b'n' ∷ b'd' ∷ []),
    d,
  )

  abbrev pub marked : Device fl.Dev → Device fl.Dev
  marked d = record d { status = http_exchange_mark_error (d.status) }

  abbrev pub ended : Device fl.Dev → Device fl.Dev
  ended d = record d { status = http_exchange_end (d.status) }

  -- Any status but 200 marks the exchange, and so does a failed write.
  abbrev pub answered : Bool → Response F × Device fl.Dev → Response F × Device fl.Dev
  answered written (r, d) =
      let d' = if not (starts_with (b'2' ∷ b'0' ∷ b'0' ∷ []) r.status_line) then marked d else d in
      (r, ended (if written then d' else marked d'))

  module _ (parse_f32 : List ℕ → Option F) (prometheus_built : Bool) where
    -- The pass of the task's loop behind `accept`: `received` is what `read_with` gave, nothing
    -- where it failed, and `written` whether the answer could be written.
    unfoldable pub http_exchange :
        (tick_hz now_ticks : ℕ)
        → Option (List ℕ)
        → Bool
        → Device fl.Dev
        → Option (Option (Response F) × Device fl.Dev)
    http_exchange tick_hz now_ticks received written d =
        let d0 = record d { status = http_exchange_begin tick_hz now_ticks (d.status) } in
        elim received [
          | none ↦ some (none, ended (marked d0))
          | some [] ↦ some (none, ended (marked d0))
          | some (b ∷ bs) ↦
              serve (parse_request parse_f32 prometheus_built (b ∷ bs)) d0 >>= λ served.
              (let (r, d') = answered written served in some (some r, d'))
        ]
