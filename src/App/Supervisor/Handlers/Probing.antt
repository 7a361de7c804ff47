-- ===== src/App/Supervisor/Handlers/Probing.antt =====
-- `handle_idle` and `handle_probing` of src/app/supervisor.cpp.
use spout_relay.Base.{Bool, false, not, ◌&&◌, ℕ, [], ◌∷◌, pos, ◌*ℤ◌, if◌then◌else◌}
use spout_relay.Common.Types.{stopping, probing, connecting_output, placeholder}
use spout_relay.Common.Time.{expired}
use spout_relay.Logging.Sink.{info, debug, str, log_event, log_error}
use spout_relay.Spout.Monitor.{probe_sender}
use spout_relay.Spout.Monitor
use spout_relay.App.Supervisor.State.{Supervisor, log, transition, poll_stop}

-- `stop` covers the sleep of 200 ms.
pub record IdleInputs : Type 0 where
  pub stop : Bool
  pub now : ℕ

unfoldable pub handle_idle : IdleInputs → Supervisor → Supervisor
handle_idle a s =
    let s' = poll_stop a.stop s in
    if s'.shutdown_requested
    then transition stopping s'
    else transition probing (record s' { probe_timer = a.now })

pub record ProbingInputs : Type 0 where
  pub stop : Bool
  pub found : Bool
  pub now_expired : ℕ
  pub now_reset : ℕ
  pub now_cooldown : ℕ

-- The periodic message while no sender is there.
unfoldable pub note_searching : ProbingInputs → Supervisor → Supervisor
note_searching a s =
    if expired a.now_expired s.probe_timer (s.config.spout.sender_missing_timeout_ms *ℤ pos 10)
    then log (log_event debug "probe_no_sender" (("name", str s.config.spout.sender_name) ∷ []))
        (record s { probe_timer = a.now_reset })
    else s

-- From the message on: the placeholder, if it is enabled and not held back.
unfoldable pub keep_probing : ProbingInputs → Supervisor → Supervisor
keep_probing a s =
    let s' = note_searching a s in
    if s.config.placeholder.enabled
    then (if s.placeholder_cooldown_active
          && not
              (expired a.now_cooldown s.placeholder_cooldown_timer s.config.rtsp.reconnect_delay_ms)
        then s'
        else transition placeholder (record s' { placeholder_cooldown_active = false }))
    else s'

unfoldable pub handle_probing : ProbingInputs → Supervisor → Supervisor
handle_probing a s =
    let s' = poll_stop a.stop s in
    if s'.shutdown_requested
    then transition stopping s'
    else if probe_sender a.found s'.spout_monitor
    then (let (connected, error, m) = Monitor.connect s.config.spout.sender_name s'.spout_monitor in
        let s'' : Supervisor = record s' { spout_monitor = m } in
        if not connected
        then keep_probing a (log (log_error "SPOUT_CONNECT_FAILED" error []) s'')
        else transition connecting_output (
            log (log_event info "sender_found" (("name", str s.config.spout.sender_name) ∷ []))
              s''))
    else keep_probing a s'
