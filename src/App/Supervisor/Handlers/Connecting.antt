-- ===== src/App/Supervisor/Handlers/Connecting.antt =====
-- `handle_connecting_output` of src/app/supervisor.cpp.
use spout_relay.Base.{
  ℕ, zero, suc, ◌+◌, ◌*◌, ◌/◌, Bool, true, false, not, [], ◌∷◌, Option, none, some, ℤ, pos,
  pos_part, ◌*ℤ◌, leb_ℤ, to_int, if◌then◌else◌, is_some, Outcome, done, fault, ◌>>=◌, deref,
  null_encoder, unfinished,
}
use spout_relay.Common.Types.{
  stopping, probing, streaming, FrameBuffer, FrameMeta, empty_buffer, empty_meta,
}
use spout_relay.Common.Time.{to_ms}
use spout_relay.Common.Backoff
use spout_relay.Logging.Sink.{info, str, num, log_event, log_error, log_publish_started}
use spout_relay.Metrics.Store.{set_sender_info}
use spout_relay.Spout.Monitor.{SpoutMonitor, Reception, receive_latest_frame}
use spout_relay.Spout.Monitor
use spout_relay.Capture.FramePump
use spout_relay.Capture.FramePump.{new_pump}
use spout_relay.Encoder.Types.{request_next_idr}
use spout_relay.App.Logic.{can_seamless_handoff, should_reset_connect_timer_once}
use spout_relay.App.Supervisor.State.{Platform, Supervisor, log, measure, transition, poll_stop}
use spout_relay.App.Supervisor.EncodeThread.{Round, start_encode_thread}
use spout_relay.App.Supervisor.Resources.{
  OutputAnswers, init_encoder_and_rtsp, teardown_encoder, teardown_rtsp, teardown_streaming,
}
use spout_relay.App.Supervisor.Handlers.Placeholder.{rtsp_up}

-- One round of the wait for the first frame. `took_us` passes while the frame is asked for, and
-- `late_us` on top of the sleep.
pub record Poll : Type 0 where
  pub stop : Bool
  pub reception : Reception
  pub took_us : ℕ
  pub late_us : ℕ

pub record ConnectingInputs : Type 0 where
  pub stop : Bool
  pub last : Option Round
  pub polls : ℕ → Poll
  pub stop_after : Bool
  pub output : OutputAnswers
  pub now_pump : ℕ
  pub now_streaming : ℕ

-- How the wait ends. `given_up` is the end of the rounds that are provided for.
pub data Wait : Type 0 where
  framed : FrameBuffer → FrameMeta → SpoutMonitor → Wait
  stopped : SpoutMonitor → Wait
  timed_out : SpoutMonitor → Wait
  given_up : Wait

-- The local variables of the wait. `waited_us` is what the stopwatch shows.
pub record Waiting : Type 0 where
  pub buf : FrameBuffer
  pub info : FrameMeta
  pub waited_us : ℕ
  pub source_responded : Bool
  pub monitor : SpoutMonitor

-- `sleep_for` lasts at least as long as it says, if that is positive.
abbrev pub sleep_us : ℤ → ℕ
sleep_us ms = pos_part ms * 1000

-- The stopwatch once the frame was asked for: reset by the first answer that is no frame.
unfoldable pub reset_once : Bool → Poll → Waiting → Waiting
reset_once ok p w =
    let waited = w.waited_us + p.took_us in
    if ok
    then (let (again, responded) = should_reset_connect_timer_once w.source_responded in
        record w { waited_us = if again then 0 else waited; source_responded = responded })
    else record w { waited_us = waited }

-- `while (!is_new && !shutdown_requested_)`; every round that goes on is one with `is_new` false.
unfoldable pub wait_for_frame : (ℕ → Poll) → ℤ → ℤ → ℕ → ℕ → Waiting → Wait
wait_for_frame polls timeout_ms interval_ms i zero w = given_up
wait_for_frame polls timeout_ms interval_ms i (suc fuel) w =
    let p = polls i in
    let r = receive_latest_frame p.reception w.buf w.info false w.monitor in
    let w₁ = reset_once r.ok p (record w { buf = r.buf; info = r.info; monitor = r.monitor }) in
    let w₂ : Waiting = record w₁ { waited_us = w₁.waited_us + sleep_us interval_ms + p.late_us } in
    let rest = wait_for_frame polls timeout_ms interval_ms (suc i) fuel w₂ in
    if p.stop
    then stopped w.monitor
    else if r.ok
    then (if r.is_new
        then framed r.buf r.info r.monitor
        else if leb_ℤ (timeout_ms *ℤ pos 5) (pos (w₁.waited_us / 1000))
        then timed_out r.monitor
        else rest)
    else if leb_ℤ (timeout_ms *ℤ pos 5) (pos (w₁.waited_us / 1000))
    then timed_out r.monitor
    else rest

-- Rounds enough for the wait, which may start over once: each lasts a millisecond at least.
abbrev pub wait_rounds : ℤ → ℕ
wait_rounds timeout_ms = suc (suc (suc (pos_part timeout_ms * 10)))

unfoldable pub first_frame : ConnectingInputs → Supervisor → Wait
first_frame a s =
    wait_for_frame a.polls s.config.spout.frame_timeout_ms s.config.spout.poll_interval_ms 0
      (wait_rounds s.config.spout.frame_timeout_ms)
      (record {
        buf = empty_buffer;
        info = empty_meta;
        waited_us = 0;
        source_responded = false;
        monitor = s.spout_monitor;
      })

-- From here on the output is up: the pump and the encode thread start.
unfoldable pub go_streaming : ConnectingInputs → Supervisor → Outcome Supervisor
go_streaming a s = do
  let told =
      measure
        (set_sender_info s.config.spout.sender_name s.current_width s.current_height
          s.spout_monitor.current_info.fps)
        s
  t ← start_encode_thread a.now_streaming (record told {
    frame_pump = some (FramePump.start a.now_pump s.config.spout.poll_interval_ms new_pump);
    last_frame_time_ms = to_ms a.now_streaming;
  })
  done (
      transition streaming (record t {
        rtsp_backoff = Backoff.reset s.config.rtsp.reconnect_delay_ms t.rtsp_backoff;
        reconnect_attempts = 0;
        consecutive_stall_recoveries = 0;
      }))

-- The session that was kept goes on with the source's frames.
unfoldable pub switch_source : ConnectingInputs → Supervisor → Outcome Supervisor
switch_source a s = do
  e ← deref null_encoder s.encoder
  go_streaming a (
      log
        (log_event info "source_seamless_start" (
          ("name", str s.config.spout.sender_name)
          ∷ ("width", num (pos s.current_width))
          ∷ ("height", num (pos s.current_height))
          ∷ []))
        (record s { encoder = some (request_next_idr e) }))

-- The receiver is connected anew, so that the chosen receive path starts clean.
unfoldable pub reconnect_receiver : ConnectingInputs → Supervisor → Outcome Supervisor
reconnect_receiver a s =
    let (connected, error, m) =
      Monitor.connect s.config.spout.sender_name (Monitor.disconnect s.spout_monitor) in
    let s' : Supervisor = record s {
      spout_monitor = m;
      initial_frame_buf = record s.initial_frame_buf { gpu_texture = none };
    } in
    if not connected
    then done (
        transition probing
          (teardown_encoder (teardown_rtsp (log (log_error "SPOUT_RECONNECT_FAILED" error []) s'))))
    else go_streaming a s'

-- What is left of another session is torn down.
unfoldable pub clear_output : Supervisor → Supervisor
clear_output s =
    let closed = if is_some s.encoder then teardown_encoder s else s in
    if is_some s.rtsp_client then teardown_rtsp closed else closed

-- A new encoder and session, at the source's size.
unfoldable pub open_source : ConnectingInputs → Supervisor → Outcome Supervisor
open_source a s =
    let (ready, _, s') =
      init_encoder_and_rtsp a.output s.current_width s.current_height (clear_output s) in
    if not ready
    then done (
        transition probing (
          let torn = teardown_encoder (teardown_rtsp s') in
          record torn { spout_monitor = Monitor.disconnect torn.spout_monitor }))
    else reconnect_receiver a (
        log
          (log_publish_started s.config.rtsp.url (to_int s.current_width) (to_int s.current_height)
            s.config.encoder.fps)
          s')

-- With the first frame: seamless if the session fits the source, or set up anew.
unfoldable pub connect_source :
    ConnectingInputs → FrameBuffer → FrameMeta → Supervisor → Outcome Supervisor
connect_source a buf meta s =
    let seamless =
      can_seamless_handoff s.seamless_handoff (is_some s.encoder) (rtsp_up s.rtsp_client) meta.width
        meta.height s.current_width s.current_height in
    let s' : Supervisor = record s {
      initial_frame_buf = buf;
      initial_frame_meta = meta;
      last_source_width = meta.width;
      last_source_height = meta.height;
      seamless_handoff = false;
      current_width = meta.width;
      current_height = meta.height;
    } in
    if seamless then switch_source a s' else open_source a s'

-- `stop_after` is a request that comes behind the loop's last test.
unfoldable pub after_wait : ConnectingInputs → Wait → Supervisor → Outcome Supervisor
after_wait a given_up s = fault unfinished
after_wait a (timed_out m) s = done (
    transition probing (
      log (log_error "SPOUT_RECEIVE_FAILED" "Timeout waiting for first frame" [])
        (record s { spout_monitor = Monitor.disconnect m })))
after_wait a (stopped m) s =
    done (transition stopping (poll_stop true (record s { spout_monitor = m })))
after_wait a (framed buf meta m) s =
    let s' = poll_stop a.stop_after (record s { spout_monitor = m }) in
    if s'.shutdown_requested then done (transition stopping s') else connect_source a buf meta s'

unfoldable pub handle_connecting_output :
    Platform → ConnectingInputs → Supervisor → Outcome Supervisor
handle_connecting_output pf a s =
    let s' = poll_stop a.stop s in
    if s'.shutdown_requested
    then (do t ← teardown_streaming pf a.last s'; done (transition stopping t))
    else after_wait a (first_frame a s') s'
