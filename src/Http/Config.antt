-- ===== src/Http/Config.antt =====
-- src/firmware/network/http.rs: the settings that `GET /config` shows, sent back by `POST /config`.
use brewster.Common.{
  ℕ, ◌+◌, ◌≡◌, refl, sym, ap, ◌∙◌, Bool, true, false, Option, some, List, [], ◌∷◌, ◌++◌, ◌>>=◌,
  length, drop, length-append,
}
use brewster.Common.Float.{Float}
use brewster.Http.{
  config_or_bad, post_config, get_config, parse_config_body, parse_json_bool_field, parse_request,
  header_end,
}
use brewster.Http.Serve.{Device, config_json, reply, ok_line, text, serve}
use brewster.Dns.Drop.{drop-append}
use brewster.Storage.{Flash}
use brewster.Shared.Bytes.{starts_with, window_position, window_position-append, after}
use brewster.Shared.Utf8.{from_utf8, utf8_loop, utf8_step}
use brewster.Storage.Probe.{trim, trim_start, is_whitespace}
use brewster.Http.{http_server_key}
use brewster.Http.{prometheus_key}

abbrev from_text : List ℕ → Option (Bool × Bool)
from_text bytes = (from_utf8 bytes >>= λ t. some (trim t)) >>= λ body.
    parse_json_bool_field body http_server_key >>= λ http.
    parse_json_bool_field body prometheus_key >>= λ prometheus. some (http, prometheus)

from_text-config_json :
    (http prometheus : Bool) → from_text (config_json http prometheus) ≡ some (http, prometheus)
unfolding from_utf8 utf8_loop utf8_step trim trim_start is_whitespace parse_json_bool_field
    window_position starts_with after
from_text-config_json true true = refl
from_text-config_json true false = refl
from_text-config_json false true = refl
from_text-config_json false false = refl

drop-joined : (xs ys zs : List ℕ) → drop (length xs + length ys) ((xs ++ ys) ++ zs) ≡ zs
drop-joined xs ys zs =
    ap (λ n. drop n ((xs ++ ys) ++ zs)) (sym (length-append xs ys)) ∙ drop-append (xs ++ ys) zs

-- The body behind the first blank line is read.
pub parse_config_body-joined :
    (head bytes : List ℕ)
    → window_position header_end (head ++ header_end) ≡ some (length head)
    → parse_config_body ((head ++ header_end) ++ bytes) ≡ from_text bytes
unfolding parse_config_body
parse_config_body-joined head bytes h =
    rw
      (
        window_position-append header_end (head ++ header_end) bytes h,
        drop-joined head header_end bytes,
      )
      refl

-- `b"POST /config "`
abbrev pub config_target : List ℕ
config_target =
    (b'P' ∷ b'O' ∷ b'S' ∷ b'T' ∷ b' ' ∷ b'/' ∷ b'c' ∷ b'o' ∷ b'n' ∷ b'f' ∷ b'i' ∷ b'g' ∷ b' ' ∷ [])

routed :
    {F : Type 0} (parse_f32 : List ℕ → Option F) (prometheus_built : Bool) (rest : List ℕ)
    → parse_request parse_f32 prometheus_built (config_target ++ rest)
      ≡ config_or_bad parse_f32 prometheus_built (parse_config_body (config_target ++ rest))
unfolding parse_request starts_with
routed parse_f32 true rest = refl
routed parse_f32 false rest = refl

-- What the device shows at `GET /config` is a text that, sent as the body of a `POST /config` whose
-- head has no blank line in it, asks for the settings that the device has.
pub parse_request-get_config :
    (fl : Flash) (f : Float) (parse_f32 : List ℕ → Option f.F) (prometheus_built : Bool)
    (d : Device fl.Dev) (fields : List ℕ)
    → window_position header_end ((config_target ++ fields) ++ header_end)
      ≡ some (length (config_target ++ fields))
    → (body : List ℕ) × (serve fl f get_config d ≡ some (reply fl f ok_line (text body), d))
      × (parse_request parse_f32 prometheus_built
            (((config_target ++ fields) ++ header_end) ++ body)
          ≡ post_config d.storage.feature_http_enabled d.storage.feature_prometheus_enabled)
unfolding serve
parse_request-get_config fl f parse_f32 prometheus_built d fields h =
    let http = d.storage.feature_http_enabled in
    let prometheus = d.storage.feature_prometheus_enabled in
    let back =
      parse_config_body-joined (config_target ++ fields) (config_json http prometheus) h
      ∙ from_text-config_json http prometheus in
    (
      config_json http prometheus,
      refl,
      routed parse_f32 prometheus_built ((fields ++ header_end) ++ config_json http prometheus)
          ∙ ap (config_or_bad parse_f32 prometheus_built) back,
    )
