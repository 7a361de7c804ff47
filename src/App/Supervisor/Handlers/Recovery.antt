-- ===== src/App/Supervisor/Handlers/Recovery.antt =====
-- `handle_recovering_device`, `handle_reconfiguring`, `handle_reconnecting_output` and
-- `handle_stopping` of src/app/supervisor.cpp.
use spout_relay.Base.{
  ℕ, suc, Bool, not, [], Option, none, some, pos, ltb_ℤ, to_int, to_string, if◌then◌else◌, Outcome,
  done, ◌>>=◌, deref, null_frame_pump, null_encoder,
}
use Prim.Native.String.{◌++◌ as append}
use spout_relay.Common.Types.{stopping, fatal, probing, streaming, idle}
use spout_relay.Common.Time.{to_ms}
use spout_relay.Common.Backoff.{next_delay}
use spout_relay.Common.Backoff
use spout_relay.Logging.Sink.{
  info, warn, log_event, log_error, log_publish_started, log_reconnect, flush,
}
use spout_relay.Metrics.Store.{increment_device_lost_recoveries, increment_reconnect_attempts}
use spout_relay.Spout.Monitor.{reinit_device}
use spout_relay.Spout.Monitor
use spout_relay.Capture.FramePump
use spout_relay.Capture.FramePump.{FramePump}
use spout_relay.Encoder.Types.{Encoder, request_next_idr}
use spout_relay.App.StateMachine.{can_transition}
use spout_relay.App.Supervisor.State.{Platform, Supervisor, log, measure, transition, poll_stop}
use spout_relay.App.Supervisor.EncodeThread.{Round, start_encode_thread}
use spout_relay.App.Supervisor.Resources.{
  OutputAnswers, connect_rtsp, init_encoder_and_rtsp, teardown_encoder, teardown_rtsp,
  teardown_streaming,
}

pub record RecoveringInputs : Type 0 where
  pub stop : Bool
  pub last : Option Round
  pub reopened : Bool

unfoldable pub handle_recovering_device :
    Platform → RecoveringInputs → Supervisor → Outcome Supervisor
handle_recovering_device pf a s =
    let s' = poll_stop a.stop s in
    if s'.shutdown_requested
    then (do t ← teardown_streaming pf a.last s'; done (transition stopping t))
    else (do
      t ← teardown_streaming pf a.last (log (log_event warn "gpu_device_lost" []) s')
      let (reopened, error, m) = reinit_device a.reopened t.spout_monitor
      let u : Supervisor = record t { spout_monitor = m }
      if not reopened
          then done (transition fatal (log (log_error "SPOUT_REINIT_FAILED" error []) u))
          else done (
              transition probing (
                log (log_event info "gpu_device_reinit_ok" [])
                  (measure increment_device_lost_recoveries u))))

pub record ReconfiguringInputs : Type 0 where
  pub stop : Bool
  pub last : Option Round
  pub output : OutputAnswers
  pub now_pump : ℕ
  pub now_streaming : ℕ

-- `if (frame_pump_) frame_pump_->stop();`
unfoldable pub pause_pump : Option FramePump → Option FramePump
pause_pump none = none
pause_pump (some p) = some (FramePump.stop p)

-- The new encoder and session are up.
unfoldable pub resume_streaming : ReconfiguringInputs → Supervisor → Outcome Supervisor
resume_streaming a s = do
  p ← deref null_frame_pump s.frame_pump
  t ← start_encode_thread a.now_streaming (record s {
    last_source_width = s.current_width;
    last_source_height = s.current_height;
    frame_pump = some (FramePump.start a.now_pump s.config.spout.poll_interval_ms p);
    last_frame_time_ms = to_ms a.now_streaming;
  })
  done (
      transition streaming (
        log
          (log_publish_started s.config.rtsp.url (to_int s.current_width) (to_int s.current_height)
            s.config.encoder.fps)
          t))

unfoldable pub handle_reconfiguring :
    Platform → ReconfiguringInputs → Supervisor → Outcome Supervisor
handle_reconfiguring pf a s =
    let s' = poll_stop a.stop s in
    if s'.shutdown_requested
    then (do t ← teardown_streaming pf a.last s'; done (transition stopping t))
    else (let paused : Supervisor = record s' { frame_pump = pause_pump s'.frame_pump } in
        let torn = teardown_encoder (teardown_rtsp paused) in
        let (ready, _, t) =
          init_encoder_and_rtsp a.output torn.current_width torn.current_height torn in
        if not ready
        then done (
            transition probing (
              let u = teardown_encoder (teardown_rtsp t) in
              record u { spout_monitor = Monitor.disconnect u.spout_monitor }))
        else resume_streaming a t)

-- `stop_after` is a request that comes during the back-off sleep.
pub record ReconnectingInputs : Type 0 where
  pub stop : Bool
  pub last : Option Round
  pub stop_after : Bool
  pub output : OutputAnswers
  pub now_streaming : ℕ

-- The RTSP session is up again.
unfoldable pub reconnected : ReconnectingInputs → Encoder → Supervisor → Outcome Supervisor
reconnected a e s = do
  t ← start_encode_thread a.now_streaming (record s {
    rtsp_backoff = Backoff.reset s.config.rtsp.reconnect_delay_ms s.rtsp_backoff;
    reconnect_attempts = 0;
    last_frame_time_ms = to_ms a.now_streaming;
    encoder = some (request_next_idr e);
  })
  done (transition streaming t)

-- Behind the sleep.
unfoldable pub try_reconnect : Platform → ReconnectingInputs → Supervisor → Outcome Supervisor
try_reconnect pf a s =
    let s' = poll_stop a.stop_after s in
    if s'.shutdown_requested
    then (do t ← teardown_streaming pf none s'; done (transition stopping t))
    else (do
      e ← deref null_encoder s'.encoder
      let (connected, _, t) = connect_rtsp a.output e s'
      if not connected then done (teardown_rtsp t) else reconnected a e t)

unfoldable pub handle_reconnecting_output :
    Platform → ReconnectingInputs → Supervisor → Outcome Supervisor
handle_reconnecting_output pf a s =
    let s' = poll_stop a.stop s in
    if s'.shutdown_requested
    then (do t ← teardown_streaming pf a.last s'; done (transition stopping t))
    else (let attempts = suc s'.reconnect_attempts in
        let counted =
          measure increment_reconnect_attempts (record s' { reconnect_attempts = attempts }) in
        if ltb_ℤ s.config.rtsp.max_reconnect_attempts (pos attempts)
        then (do
          t ← teardown_streaming pf a.last (
              log
                (log_error "RTSP_TIMEOUT"
                  (append "Exceeded max reconnect attempts ("
                    (append (to_string s.config.rtsp.max_reconnect_attempts) ")"))
                  [])
                counted)
          done (transition fatal t))
        else (let (delay, backoff) =
              next_delay pf.float s.config.rtsp.reconnect_max_delay_ms
                s.config.rtsp.reconnect_backoff_multiplier counted.rtsp_backoff in
            try_reconnect pf a (
              log (log_reconnect (pos attempts) delay)
                (record counted { rtsp_backoff = backoff }))))

unfoldable pub handle_stopping : Platform → Option Round → Supervisor → Outcome Supervisor
handle_stopping pf last s = do
  t ← teardown_streaming pf last s
  let u = log flush (log (log_event info "stopped" []) t)
  done (if can_transition u.state_machine idle then transition idle u else u)
