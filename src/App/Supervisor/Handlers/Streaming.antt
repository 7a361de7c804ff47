-- ===== src/App/Supervisor/Handlers/Streaming.antt =====
-- `handle_streaming` of src/app/supervisor.cpp.
use spout_relay.Base.{
  ℕ, Bool, false, [], Option, none, some, ltb_ℤ, sub_ℕ, if◌then◌else◌, Outcome, done, ◌>>=◌,
}
use spout_relay.Common.Types.{
  stopping, recovering_device, probing, reconnecting_output, reconfiguring, stalled,
}
use spout_relay.Common.Time.{to_ms}
use spout_relay.Logging.Sink.{warn, log_event}
use spout_relay.Spout.Monitor.{is_device_removed}
use spout_relay.Capture.FramePump.{FramePump}
use spout_relay.App.Supervisor.State.{Platform, Supervisor, log, transition, poll_stop}
use spout_relay.App.Supervisor.EncodeThread.{Round, stop_encode_thread}
use spout_relay.App.Supervisor.Resources.{teardown_rtsp, teardown_streaming}

-- `last` is the round that the encode thread is in, should it be stopped.
pub record StreamingInputs : Type 0 where
  pub stop : Bool
  pub last : Option Round
  pub has_device : Bool
  pub device_removed : Bool
  pub now_alive : ℕ
  pub now_stall : ℕ

-- The last test: the source has not answered for longer than `frame_timeout_ms`.
unfoldable pub watch_source : StreamingInputs → Option FramePump → Supervisor → Supervisor
watch_source a none s = s
watch_source a (some p) s =
    if ltb_ℤ s.config.spout.frame_timeout_ms (sub_ℕ (to_ms a.now_alive) p.last_source_alive_ms)
    then transition stalled (record (log (log_event warn "source_disconnected_detected" []) s) {
      stall_timer = a.now_stall;
    })
    else s

unfoldable pub handle_streaming : Platform → StreamingInputs → Supervisor → Outcome Supervisor
handle_streaming pf a s =
    let s' = poll_stop a.stop s in
    if s'.shutdown_requested
    then (do
      t ← stop_encode_thread pf a.last s'
      u ← teardown_streaming pf none t
      done (transition stopping u))
    else if is_device_removed a.has_device a.device_removed s.spout_monitor
    then (do
      t ← stop_encode_thread pf a.last (record s' { encode_error_flag = false })
      done (transition recovering_device t))
    else if s.encode_error_flag
    then (do
      t ← stop_encode_thread pf a.last (record s' { encode_error_flag = false })
      u ← teardown_streaming pf none t
      done (transition probing u))
    else if s.rtsp_error_flag
    then (do
      t ← stop_encode_thread pf a.last (record s' { rtsp_error_flag = false })
      done (transition reconnecting_output (teardown_rtsp t)))
    else if s.resolution_changed_flag
    then (do
      t ← stop_encode_thread pf a.last (record s' { resolution_changed_flag = false })
      done (
          transition reconfiguring
            (record t { current_width = t.pending_width; current_height = t.pending_height })))
    else done (watch_source a s.frame_pump s')
