-- ===== src/Logging/Sink.antt =====
-- src/logging/log_sink.cpp. spdlog is what the lines are handed to; a line is kept as its level, its
-- event name and its fields, before `build_json` renders them. `std::to_string n` stays `num n`.
use spout_relay.Base.{
  ℕ, suc, Bool, true, false, List, [], ◌∷◌, Option, none, some, String, ℤ, pos, if◌then◌else◌,
}
use text.Mathlib.Text.{◌==◌ as str_eq}
use Prim.Native.String.{◌++◌ as append}

pub data Level : Type 0 where
  debug info warn err critical : Level

pub data Value : Type 0 where
  str : String → Value
  num : ℤ → Value

abbrev pub Fields : Type 0
Fields = List (String × Value)

pub record Line : Type 0 where
  pub level : Level
  pub event : String
  pub fields : Fields

-- `logger` says whether `logger_` is set; `lines` are the lines handed to it, newest first.
pub record LogSink : Type 0 where
  pub logger : Bool
  pub lines : List Line
  pub flushes : ℕ

abbrev pub closed_sink : LogSink
closed_sink = record { logger = false; lines = []; flushes = 0 }

-- `failure` is what an exception of the file system or of spdlog says.
unfoldable pub init : Option String → LogSink → Bool × String × LogSink
init none sink = (true, "", record sink { logger = true })
init (some what) sink = (false, append "Failed to init log sink: " what, sink)

-- `fields[key] = value` of a `std::map`.
unfoldable pub assign : String → Value → Fields → Fields
assign key value [] = (key, value) ∷ []
assign key value ((k, v) ∷ rest) =
    if str_eq k key then (key, value) ∷ rest else (k, v) ∷ assign key value rest

unfoldable pub assign_all : Fields → Fields → Fields
unfolding assign
assign_all [] fields = fields
assign_all ((k, v) ∷ extra) fields = assign_all extra (assign k v fields)

unfoldable pub log_event : Level → String → Fields → LogSink → LogSink
log_event level event fields sink =
    if sink.logger
    then (record sink {
      lines = record { level = level; event = event; fields = fields } ∷ sink.lines;
    })
    else sink

unfoldable pub log_state_changed : String → String → LogSink → LogSink
unfolding log_event
log_state_changed from to =
    log_event info "state_changed" (("from", str from) ∷ ("to", str to) ∷ [])

unfoldable pub log_error : String → String → Fields → LogSink → LogSink
unfolding log_event assign_all
log_error code message extra =
    log_event err "error" (assign_all extra (("code", str code) ∷ ("message", str message) ∷ []))

unfoldable pub log_publish_started : String → ℤ → ℤ → ℤ → LogSink → LogSink
unfolding log_event
log_publish_started url width height fps =
    log_event info "publish_started"
      (("url", str url) ∷ ("width", num width) ∷ ("height", num height) ∷ ("fps", num fps) ∷ [])

unfoldable pub log_publish_stopped : String → LogSink → LogSink
unfolding log_event
log_publish_stopped reason = log_event info "publish_stopped" (("reason", str reason) ∷ [])

unfoldable pub log_reconnect : ℤ → ℤ → LogSink → LogSink
unfolding log_event
log_reconnect attempt delay_ms =
    log_event warn "reconnecting" (("attempt", num attempt) ∷ ("delay_ms", num delay_ms) ∷ [])

unfoldable pub log_frame_received : ℕ → ℕ → ℕ → LogSink → LogSink
unfolding log_event
log_frame_received sequence width height =
    log_event debug "frame_received"
      (("seq", num (pos sequence)) ∷ ("width", num (pos width)) ∷ ("height", num (pos height)) ∷ [])

unfoldable pub log_encoder_initialized : String → ℤ → ℤ → ℤ → ℤ → LogSink → LogSink
unfolding log_event
log_encoder_initialized codec width height fps bitrate_kbps = log_event info "encoder_initialized" (
    ("codec", str codec)
    ∷ ("width", num width)
    ∷ ("height", num height)
    ∷ ("fps", num fps)
    ∷ ("bitrate_kbps", num bitrate_kbps)
    ∷ [])

unfoldable pub flush : LogSink → LogSink
flush sink = if sink.logger then (record sink { flushes = suc sink.flushes }) else sink
