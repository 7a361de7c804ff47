-- ===== src/App/Supervisor/Handlers/Stalled.antt =====
-- `handle_stalled` of src/app/supervisor.cpp.
use spout_relay.Base.{
  ℕ, suc, Bool, false, not, ◌&&◌, [], ◌∷◌, Option, none, some, pos, ◌*ℤ◌, ltb_ℤ, sub_ℕ,
  if◌then◌else◌, is_some, Outcome, done, ◌>>=◌,
}
use spout_relay.Common.Types.{
  stopping, recovering_device, probing, reconnecting_output, streaming, placeholder, idle,
}
use spout_relay.Common.Time.{to_ms, expired}
use spout_relay.Logging.Sink.{info, warn, num, log_event}
use spout_relay.Spout.Monitor.{is_device_removed, probe_sender}
use spout_relay.Spout.Monitor
use spout_relay.Capture.FramePump.{FramePump}
use spout_relay.App.Logic.{should_force_spout_recovery}
use spout_relay.App.Supervisor.State.{Platform, Supervisor, log, transition, poll_stop}
use spout_relay.App.Supervisor.EncodeThread.{Round, stop_encode_thread}
use spout_relay.App.Supervisor.Resources.{
  drop_pump, teardown_encoder, teardown_rtsp, teardown_streaming,
}
use spout_relay.App.Supervisor.Handlers.Placeholder.{rtsp_up}

-- `found_missing` and `found_prolonged` are the answers of the two probes.
pub record StalledInputs : Type 0 where
  pub stop : Bool
  pub last : Option Round
  pub has_device : Bool
  pub device_removed : Bool
  pub now_alive : ℕ
  pub now_missing : ℕ
  pub found_missing : Bool
  pub now_prolonged : ℕ
  pub found_prolonged : Bool

-- `elapsed < frame_timeout_ms`, where there is a pump.
unfoldable pub source_is_back : StalledInputs → Option FramePump → Supervisor → Bool
source_is_back a none s = false
source_is_back a (some p) s =
    ltb_ℤ (sub_ℕ (to_ms a.now_alive) p.last_source_alive_ms) s.config.spout.frame_timeout_ms

-- The pump and the receiver are given up; the session is left alone.
unfoldable pub drop_source : Supervisor → Supervisor
drop_source s =
    let s' = drop_pump s in record s' { spout_monitor = Monitor.disconnect s'.spout_monitor }

-- The session is handed to the placeholder, seamlessly if it is up.
unfoldable pub hand_to_placeholder : Supervisor → Supervisor
hand_to_placeholder s =
    let s' = drop_source s in
    transition placeholder (record s' {
      seamless_handoff = is_some s.encoder && rtsp_up s.rtsp_client;
      placeholder_cooldown_active = false;
    })

unfoldable pub sender_disappeared : Supervisor → Supervisor
sender_disappeared s =
    if s.config.placeholder.enabled
    then hand_to_placeholder s
    else transition idle (teardown_encoder (teardown_rtsp (drop_source s)))

-- The sender is alive: reconnect RTSP, or everything once that has failed too often.
unfoldable pub reconnect_or_force : Supervisor → Supervisor
reconnect_or_force s =
    let attempts = suc s.consecutive_stall_recoveries in
    let s' : Supervisor = record s { consecutive_stall_recoveries = attempts } in
    if should_force_spout_recovery (pos attempts) s.config.spout.stalled_recovery_max_attempts
    then transition probing (
        teardown_encoder (
          teardown_rtsp (
            drop_source
              (record (log
                (log_event warn "stalled_recovery_forced" (("attempts", num (pos attempts)) ∷ []))
                s') { consecutive_stall_recoveries = 0 }))))
    else transition reconnecting_output (teardown_rtsp s')

-- The stall has lasted for three reconnect delays, and the encode thread has been joined.
unfoldable pub prolonged_stall : StalledInputs → Supervisor → Supervisor
prolonged_stall a s =
    if s.config.placeholder.enabled && not (probe_sender a.found_prolonged s.spout_monitor)
    then hand_to_placeholder (log (log_event warn "sender_disappeared" []) s)
    else reconnect_or_force s

-- Behind the tests for errors: is the sender gone, has the stall lasted too long?
unfoldable pub stay_stalled : Platform → StalledInputs → Supervisor → Outcome Supervisor
stay_stalled pf a s =
    if expired a.now_missing s.stall_timer s.config.spout.sender_missing_timeout_ms
      && not (probe_sender a.found_missing s.spout_monitor)
    then (do
      t ← stop_encode_thread pf a.last (log (log_event warn "sender_disappeared" []) s)
      done (sender_disappeared t))
    else if expired a.now_prolonged s.stall_timer (s.config.rtsp.reconnect_delay_ms *ℤ pos 3)
    then (do t ← stop_encode_thread pf a.last s; done (prolonged_stall a t))
    else done s

unfoldable pub handle_stalled : Platform → StalledInputs → Supervisor → Outcome Supervisor
handle_stalled pf a s =
    let s' = poll_stop a.stop s in
    if s'.shutdown_requested
    then (do
      t ← stop_encode_thread pf a.last s'
      u ← teardown_streaming pf none t
      done (transition stopping u))
    else if is_device_removed a.has_device a.device_removed s.spout_monitor
    then (do
      t ← stop_encode_thread pf a.last (record s' { encode_error_flag = false })
      done (transition recovering_device t))
    else if source_is_back a s.frame_pump s
    then done (
        transition streaming (record (log (log_event info "stall_recovered" []) s') {
          consecutive_stall_recoveries = 0;
        }))
    else if s.encode_error_flag
    then (do
      t ← stop_encode_thread pf a.last (record s' { encode_error_flag = false })
      u ← teardown_streaming pf none t
      done (transition probing u))
    else if s.rtsp_error_flag
    then (do
      t ← stop_encode_thread pf a.last (record s' { rtsp_error_flag = false })
      done (transition reconnecting_output (teardown_rtsp t)))
    else stay_stalled pf a s'
