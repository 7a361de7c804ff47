-- ===== src/Config/Loader.antt =====
-- `ConfigLoader::load` of src/config/config_loader.cpp.
use spout_relay.Base.{
  ℕ, zero, suc, Bool, true, false, not, ◌&&◌, ◌||◌, ◌!=◌, leb, List, [], ◌∷◌, Option, none, some,
  String, pos, leb_ℤ, ltb_ℤ, if◌then◌else◌,
}
use text.Mathlib.Text.{◌==◌ as str_eq, starts_with}
use Prim.Native.String.{◌++◌ as append, len, char_at}
use Prim.Native.Char.{Char, code}
use spout_relay.Common.Types.{Float}
use spout_relay.Common.Backoff.{FloatOps}
use spout_relay.Config.Types.{AppConfig}
use spout_relay.Base.{Outcome, done, fault, uncaught_exception}
use spout_relay.Config.Json.{
  Contents, malformed, threw_other, well_formed, Json, Reading, threw, reads, in_turn, field,
  section,
}

-- `isxdigit` of the "C" locale.
abbrev pub is_xdigit : Char → Bool
is_xdigit c =
    (leb 48 (code c) && leb (code c) 57)
    || ((leb 65 (code c) && leb (code c) 70) || (leb 97 (code c) && leb (code c) 102))

-- `std::all_of` over the `n` bytes from the one at `i` on.
unfoldable pub all_xdigits : ℕ → ℕ → String → Bool
all_xdigits i zero s = true
all_xdigits i (suc n) s = is_xdigit (char_at s i) && all_xdigits (suc i) n s

-- Seven bytes, the first a '#'.
unfoldable pub is_valid_hex_color : String → Bool
unfolding all_xdigits
is_valid_hex_color s = if len s != 7 || code (char_at s 0) != 35 then false else all_xdigits 1 6 s

module _ (J : Json) where
  unfoldable pub app_steps : J.Value → List (AppConfig → Reading)
  app_steps j =
      field J J.get_string "instance_name"
        (λ x c. record c { app = record c.app { instance_name = x } }) j
      ∷ field J J.get_string "log_dir" (λ x c. record c { app = record c.app { log_dir = x } }) j
      ∷ field J J.get_string "metrics_path"
          (λ x c. record c { app = record c.app { metrics_path = x } }) j
      ∷ field J J.get_string "health_path"
          (λ x c. record c { app = record c.app { health_path = x } }) j
      ∷ []

  unfoldable pub spout_steps : J.Value → List (AppConfig → Reading)
  spout_steps j =
      field J J.get_string "sender_name"
        (λ x c. record c { spout = record c.spout { sender_name = x } }) j
      ∷ field J J.get_int "poll_interval_ms"
          (λ x c. record c { spout = record c.spout { poll_interval_ms = x } }) j
      ∷ field J J.get_int "frame_timeout_ms"
          (λ x c. record c { spout = record c.spout { frame_timeout_ms = x } }) j
      ∷ field J J.get_int "sender_missing_timeout_ms"
          (λ x c. record c { spout = record c.spout { sender_missing_timeout_ms = x } }) j
      ∷ field J J.get_bool "prefer_dx11"
          (λ x c. record c { spout = record c.spout { prefer_dx11 = x } }) j
      ∷ field J J.get_int "stalled_recovery_max_attempts"
          (λ x c. record c { spout = record c.spout { stalled_recovery_max_attempts = x } }) j
      ∷ []

  unfoldable pub placeholder_steps : J.Value → List (AppConfig → Reading)
  placeholder_steps j =
      field J J.get_bool "enabled"
        (λ x c. record c { placeholder = record c.placeholder { enabled = x } }) j
      ∷ field J J.get_int "width"
          (λ x c. record c { placeholder = record c.placeholder { width = x } }) j
      ∷ field J J.get_int "height"
          (λ x c. record c { placeholder = record c.placeholder { height = x } }) j
      ∷ field J J.get_string "message"
          (λ x c. record c { placeholder = record c.placeholder { message = x } }) j
      ∷ field J J.get_string "background_hex"
          (λ x c. record c { placeholder = record c.placeholder { background_hex = x } }) j
      ∷ field J J.get_string "text_hex"
          (λ x c. record c { placeholder = record c.placeholder { text_hex = x } }) j
      ∷ field J J.get_bool "show_sender_name"
          (λ x c. record c { placeholder = record c.placeholder { show_sender_name = x } }) j
      ∷ []

  unfoldable pub parse_encoder : J.Value → List (AppConfig → Reading)
  parse_encoder j =
      field J J.get_string "codec" (λ x c. record c { encoder = record c.encoder { codec = x } }) j
      ∷ field J J.get_string "fallback_codec"
          (λ x c. record c { encoder = record c.encoder { fallback_codec = x } }) j
      ∷ field J J.get_int "bitrate_kbps"
          (λ x c. record c { encoder = record c.encoder { bitrate_kbps = x } }) j
      ∷ field J J.get_int "fps" (λ x c. record c { encoder = record c.encoder { fps = x } }) j
      ∷ field J J.get_int "gop_size"
          (λ x c. record c { encoder = record c.encoder { gop_size = x } }) j
      ∷ field J J.get_int "max_b_frames"
          (λ x c. record c { encoder = record c.encoder { max_b_frames = x } }) j
      ∷ field J J.get_string "preset"
          (λ x c. record c { encoder = record c.encoder { preset = x } }) j
      ∷ field J J.get_string "tune" (λ x c. record c { encoder = record c.encoder { tune = x } }) j
      ∷ field J J.get_int "threads" (λ x c. record c { encoder = record c.encoder { threads = x } })
          j
      ∷ []

  unfoldable pub parse_rtsp : J.Value → List (AppConfig → Reading)
  parse_rtsp j =
      field J J.get_string "url" (λ x c. record c { rtsp = record c.rtsp { url = x } }) j
      ∷ field J J.get_int "connect_timeout_ms"
          (λ x c. record c { rtsp = record c.rtsp { connect_timeout_ms = x } }) j
      ∷ field J J.get_int "send_timeout_ms"
          (λ x c. record c { rtsp = record c.rtsp { send_timeout_ms = x } }) j
      ∷ field J J.get_int "max_reconnect_attempts"
          (λ x c. record c { rtsp = record c.rtsp { max_reconnect_attempts = x } }) j
      ∷ field J J.get_int "reconnect_delay_ms"
          (λ x c. record c { rtsp = record c.rtsp { reconnect_delay_ms = x } }) j
      ∷ field J J.get_int "reconnect_max_delay_ms"
          (λ x c. record c { rtsp = record c.rtsp { reconnect_max_delay_ms = x } }) j
      ∷ field J J.get_float "reconnect_backoff_multiplier"
          (λ x c. record c { rtsp = record c.rtsp { reconnect_backoff_multiplier = x } }) j
      ∷ []

  unfoldable pub runtime_steps : J.Value → List (AppConfig → Reading)
  runtime_steps j =
      field J J.get_int "shutdown_grace_ms"
        (λ x c. record c { runtime = record c.runtime { shutdown_grace_ms = x } }) j
      ∷ field J J.get_int "emit_metrics_interval_ms"
          (λ x c. record c { runtime = record c.runtime { emit_metrics_interval_ms = x } }) j
      ∷ field J J.get_int "emit_health_interval_ms"
          (λ x c. record c { runtime = record c.runtime { emit_health_interval_ms = x } }) j
      ∷ []

  -- The sections in their order.
  unfoldable pub read_sections : J.Value → AppConfig → Reading
  read_sections j = in_turn (
      section J "app" app_steps j
      ∷ section J "spout" spout_steps j
      ∷ section J "placeholder" placeholder_steps j
      ∷ section J "encoder" parse_encoder j
      ∷ section J "rtsp" parse_rtsp j
      ∷ section J "runtime" runtime_steps j
      ∷ [])

-- The bit pattern of `1.0f`.
abbrev pub one_float : Float
one_float = 1065353216

-- The first message of the validation, or none where all is well.
unfoldable pub validate : FloatOps → AppConfig → Option String
validate fl c =
    if str_eq c.spout.sender_name ""
    then some "spout.sender_name must not be empty"
    else if str_eq c.rtsp.url "" || not (starts_with c.rtsp.url "rtsp://")
    then some "rtsp.url must start with rtsp://"
    else if leb_ℤ c.encoder.fps (pos 0) || ltb_ℤ (pos 240) c.encoder.fps
    then some "encoder.fps must be between 1 and 240"
    else if leb_ℤ c.encoder.bitrate_kbps (pos 0)
    then some "encoder.bitrate_kbps must be positive"
    else if leb_ℤ c.spout.poll_interval_ms (pos 0)
    then some "spout.poll_interval_ms must be positive"
    else if leb_ℤ c.spout.frame_timeout_ms (pos 0)
    then some "spout.frame_timeout_ms must be positive"
    else if leb_ℤ c.rtsp.connect_timeout_ms (pos 0)
    then some "rtsp.connect_timeout_ms must be positive"
    else if leb_ℤ c.rtsp.send_timeout_ms (pos 0)
    then some "rtsp.send_timeout_ms must be positive"
    else if ltb_ℤ c.rtsp.max_reconnect_attempts (pos 0)
    then some "rtsp.max_reconnect_attempts must be non-negative"
    else if leb_ℤ c.rtsp.reconnect_delay_ms (pos 0)
    then some "rtsp.reconnect_delay_ms must be positive"
    else if leb_ℤ c.rtsp.reconnect_max_delay_ms (pos 0)
    then some "rtsp.reconnect_max_delay_ms must be positive"
    else if ltb_ℤ c.rtsp.reconnect_max_delay_ms c.rtsp.reconnect_delay_ms
    then some "rtsp.reconnect_max_delay_ms must be >= rtsp.reconnect_delay_ms"
    else if fl.lt c.rtsp.reconnect_backoff_multiplier one_float
    then some "rtsp.reconnect_backoff_multiplier must be >= 1.0"
    else if leb_ℤ c.placeholder.width (pos 0) || leb_ℤ c.placeholder.height (pos 0)
    then some "placeholder.width and placeholder.height must be positive"
    else if not (is_valid_hex_color c.placeholder.background_hex)
    then some "placeholder.background_hex must be in #RRGGBB format"
    else if not (is_valid_hex_color c.placeholder.text_hex)
    then some "placeholder.text_hex must be in #RRGGBB format"
    else none

-- The result, the message, and `out` after the call.
abbrev pub Loaded : Type 0
Loaded = Bool × String × AppConfig

unfoldable pub judged : Option String → AppConfig → Loaded
judged none c = (true, "", c)
judged (some what) c = (false, what, c)

unfoldable pub finish : FloatOps → Reading → Loaded
finish fl (threw what c) = (false, append "Config read error: " what, c)
finish fl (reads c) = judged (validate fl c) c

-- The file: none that opens, or what is read from it. Only a parse error is caught there. `error` comes
-- in empty.
unfoldable pub load :
    FloatOps → (J : Json) → String → Option (Contents J.Value) → AppConfig → Outcome Loaded
load fl J path none c = done (false, append "Cannot open config file: " path, c)
load fl J path (some (malformed what)) c = done (false, append "JSON parse error: " what, c)
load fl J path (some threw_other) c = fault uncaught_exception
load fl J path (some (well_formed j)) c = done (finish fl (read_sections J j c))
