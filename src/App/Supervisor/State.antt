-- ===== src/App/Supervisor/State.antt =====
-- The fields of `Supervisor` (src/app/supervisor.hpp), and `init`.
pub mod Reports
use spout_relay.Base.{
  ℕ, Bool, true, false, not, ◌||◌, List, [], ◌∷◌, Option, none, some, String, ℤ, pos, is_some,
  if◌then◌else◌,
}
use spout_relay.Common.Types.{
  Float, PublisherState, state_name, FrameBuffer, FrameMeta, empty_buffer, empty_meta,
}
use spout_relay.Common.Time.{Stopwatch}
use spout_relay.Common.Backoff.{FloatOps, BackoffState}
use spout_relay.Common.Backoff
use spout_relay.Config.Types.{AppConfig}
use spout_relay.Logging.Sink.{
  LogSink, Level, warn, Fields, str, closed_sink, log_event, log_state_changed, log_error,
}
use spout_relay.Logging.Sink
use spout_relay.Metrics.Store.{
  MetricsStore, empty_store, set_state, set_rtsp_url, mark_session_start,
}
use spout_relay.Spout.Monitor.{SpoutMonitor, new_monitor}
use spout_relay.Spout.Monitor
use spout_relay.Capture.FramePump.{FramePump}
use spout_relay.Encoder.Types.{Encoder}
use spout_relay.Rtsp.Client.{RtspClient}
use spout_relay.App.StateMachine.{StateMachine, initial, transition_to}

-- Floating-point arithmetic: that of the back-off, and the rates `n * 1000.0 / elapsed_ms` and
-- `n * 8.0 / elapsed_ms` that go to the metrics.
pub record Platform : Type 0 where
  pub float : FloatOps
  pub per_second : ℕ → ℕ → Float
  pub kilobits : ℕ → ℕ → Float

pub record Sinks : Type 0 where
  pub log : LogSink
  pub metrics : MetricsStore

-- A joinable `encode_thread_`: the local variables of `encode_publish_thread_func`, and whether the
-- function has returned.
pub record EncodeThread : Type 0 where
  pub returned : Bool
  pub freeze_buf : FrameBuffer
  pub freeze_meta : FrameMeta
  pub has_freeze : Bool
  pub content_changed : Bool
  pub frame_sw : Stopwatch
  pub metrics_sw : Stopwatch
  pub bytes_since_last : ℕ
  pub frames_since_last : ℕ

-- `metrics_thread` says whether `metrics_thread_` is joinable. `spout_monitor_` is set by `init` and never empty in `run`. The counters are `int`s that are
-- counted up from 0 and do not wrap.
pub record Supervisor : Type 0 where
  pub config : AppConfig
  pub state_machine : StateMachine Sinks
  pub sinks : Sinks
  pub spout_monitor : SpoutMonitor
  pub frame_pump : Option FramePump
  pub encoder : Option Encoder
  pub rtsp_client : Option RtspClient
  pub shutdown_requested : Bool
  pub encode_thread : Option EncodeThread
  pub metrics_thread : Bool
  pub encode_stop : Bool
  pub encode_error_flag : Bool
  pub rtsp_error_flag : Bool
  pub resolution_changed_flag : Bool
  pub pending_width : ℕ
  pub pending_height : ℕ
  pub last_frame_time_ms : ℕ
  pub rtsp_backoff : BackoffState
  pub probe_timer : Stopwatch
  pub stall_timer : Stopwatch
  pub current_width : ℕ
  pub current_height : ℕ
  pub reconnect_attempts : ℕ
  pub consecutive_stall_recoveries : ℕ
  pub last_source_width : ℕ
  pub last_source_height : ℕ
  pub placeholder_frame : FrameBuffer
  pub placeholder_meta : FrameMeta
  pub placeholder_active : Bool
  pub placeholder_content_changed : Bool
  pub placeholder_frame_timer : Stopwatch
  pub placeholder_probe_timer : Stopwatch
  pub placeholder_frames_since_last : ℕ
  pub placeholder_bytes_since_last : ℕ
  pub placeholder_metrics_sw : Stopwatch
  pub placeholder_cooldown_timer : Stopwatch
  pub placeholder_cooldown_active : Bool
  pub seamless_handoff : Bool
  pub initial_frame_buf : FrameBuffer
  pub initial_frame_meta : FrameMeta

-- The constructor, at a reading of the clock for its stopwatches.
unfoldable pub new_supervisor : ℕ → AppConfig → Supervisor
new_supervisor now config = record {
  config = config;
  state_machine = initial;
  sinks = record { log = closed_sink; metrics = empty_store };
  spout_monitor = new_monitor;
  frame_pump = none;
  encoder = none;
  rtsp_client = none;
  shutdown_requested = false;
  encode_thread = none;
  metrics_thread = false;
  encode_stop = false;
  encode_error_flag = false;
  rtsp_error_flag = false;
  resolution_changed_flag = false;
  pending_width = 0;
  pending_height = 0;
  last_frame_time_ms = 0;
  rtsp_backoff = record { attempt = pos 0; delay_ms = pos 1000 };
  probe_timer = now;
  stall_timer = now;
  current_width = 0;
  current_height = 0;
  reconnect_attempts = 0;
  consecutive_stall_recoveries = 0;
  last_source_width = 0;
  last_source_height = 0;
  placeholder_frame = empty_buffer;
  placeholder_meta = empty_meta;
  placeholder_active = false;
  placeholder_content_changed = true;
  placeholder_frame_timer = now;
  placeholder_probe_timer = now;
  placeholder_frames_since_last = 0;
  placeholder_bytes_since_last = 0;
  placeholder_metrics_sw = now;
  placeholder_cooldown_timer = now;
  placeholder_cooldown_active = false;
  seamless_handoff = false;
  initial_frame_buf = empty_buffer;
  initial_frame_meta = empty_meta;
}

-- The callback that `init` installs.
unfoldable pub on_transition : PublisherState → PublisherState → Sinks → Sinks
on_transition from to w = record {
  log = log_state_changed (state_name from) (state_name to) w.log;
  metrics = set_state (state_name to) w.metrics;
}

abbrev pub log : (LogSink → LogSink) → Supervisor → Supervisor
log f s = record s { sinks = record s.sinks { log = f s.sinks.log } }

abbrev pub measure : (MetricsStore → MetricsStore) → Supervisor → Supervisor
measure f s = record s { sinks = record s.sinks { metrics = f s.sinks.metrics } }

-- `state_machine_.transition_to(to)`; no caller looks at the result.
unfoldable pub transition : PublisherState → Supervisor → Supervisor
transition to s =
    let (_, m, w) = transition_to s.state_machine to s.sinks in
    record s { state_machine = m; sinks = w }

-- `request_stop()` may come at any time: `stop` says whether it has come by the next load of the flag.
unfoldable pub poll_stop : Bool → Supervisor → Supervisor
poll_stop stop s = record s { shutdown_requested = s.shutdown_requested || stop }

-- What `init` meets: the log's exception, the system clock, and whether Direct3D opens.
pub record InitAnswers : Type 0 where
  pub log_failure : Option String
  pub system_now_ms : ℕ
  pub directx : Bool

unfoldable pub init_monitor : InitAnswers → Supervisor → Bool × String × Supervisor
init_monitor a s =
    let (opened, error, m) = Monitor.init a.directx new_monitor in
    if not opened
    then (false, error, log (log_error "SPOUT_INIT_FAILED" error []) s)
    else let warned =
        if not s.config.spout.prefer_dx11
        then log
            (log_event warn "prefer_dx11_ignored"
              (("note", str "SpoutDX always uses DirectX 11") ∷ []))
            s
        else s in
      (
        true,
        error,
        record warned {
          spout_monitor = m;
          state_machine = record warned.state_machine { callback = some on_transition };
          rtsp_backoff = Backoff.reset s.config.rtsp.reconnect_delay_ms warned.rtsp_backoff;
        },
      )

unfoldable pub init : InitAnswers → AppConfig → Supervisor → Bool × String × Supervisor
init a config s =
    let (ready, error, sink) = Sink.init a.log_failure closed_sink in
    let logging = record s { config = config; sinks = record s.sinks { log = sink } } in
    if not ready
    then (false, error, logging)
    else init_monitor a (record logging {
      sinks = record {
        log = sink;
        metrics = set_rtsp_url config.rtsp.url (mark_session_start a.system_now_ms empty_store);
      };
    })
