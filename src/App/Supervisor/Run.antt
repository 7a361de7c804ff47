-- ===== src/App/Supervisor/Run.antt =====
-- `Supervisor::run` of src/app/supervisor.cpp, with what the other threads do between two rounds of
-- its loop.
use spout_relay.Base.{
  false, thread_overwritten, ℕ, Bool, true, List, [], ◌∷◌, Option, none, some, ◌||◌, if◌then◌else◌,
  Outcome, done, fault, thread_untold, ◌>>=◌,
}
use spout_relay.Common.Types.{
  PublisherState, init, idle, probing, placeholder, connecting_output, streaming, stalled,
  reconfiguring, reconnecting_output, recovering_device, stopping, fatal,
}
use spout_relay.Logging.Sink.{critical, log_event, flush}
use spout_relay.Spout.Monitor.{Reception}
use spout_relay.Capture.FramePump.{FramePump, capture}
use spout_relay.App.StateMachine.{same}
use spout_relay.App.Supervisor.State.{
  Platform, Supervisor, EncodeThread, log, transition, poll_stop,
}
use spout_relay.App.Supervisor.EncodeThread.{
  Round, encode_round, exit_loop, finish_round, stop_encode_thread,
}
use spout_relay.App.Supervisor.Resources.{drop_pump, teardown_rtsp, teardown_encoder}
use spout_relay.App.Supervisor.Handlers.Probing.{
  IdleInputs, ProbingInputs, handle_idle, handle_probing,
}
use spout_relay.App.Supervisor.Handlers.Placeholder.{PlaceholderInputs, handle_placeholder}
use spout_relay.App.Supervisor.Handlers.Connecting.{ConnectingInputs, handle_connecting_output}
use spout_relay.App.Supervisor.Handlers.Streaming.{StreamingInputs, handle_streaming}
use spout_relay.App.Supervisor.Handlers.Stalled.{StalledInputs, handle_stalled}
use spout_relay.App.Supervisor.Handlers.Recovery.{
  RecoveringInputs, ReconfiguringInputs, ReconnectingInputs, handle_recovering_device,
  handle_reconfiguring, handle_reconnecting_output, handle_stopping,
}

-- A round of the encode thread, or of the capture thread with the readings behind its time stamps.
pub data Background : Type 0 where
  encodes : Round → Background
  captures : Reception → ℕ → ℕ → Background

unfoldable pub capture_round : Reception → ℕ → ℕ → Option FramePump → Supervisor → Supervisor
capture_round a now_alive now_frame none s = s
capture_round a now_alive now_frame (some p) s =
    let (p', m) = capture a now_alive now_frame p s.spout_monitor in
    record s { frame_pump = some p'; spout_monitor = m }

-- What one round of the loop meets: the threads' rounds before it, whether a request to stop has
-- come, and what the handler of the current state meets.
pub record Inputs : Type 0 where
  pub background : List Background
  pub stop : Bool
  pub last : Option Round
  pub idle : IdleInputs
  pub probing : ProbingInputs
  pub placeholder : PlaceholderInputs
  pub connecting : ConnectingInputs
  pub streaming : StreamingInputs
  pub stalled : StalledInputs
  pub reconfiguring : ReconfiguringInputs
  pub reconnecting : ReconnectingInputs
  pub recovering : RecoveringInputs

module _ (pf : Platform) where
  unfoldable pub background_round : Background → Supervisor → Outcome Supervisor
  background_round (encodes a) s = encode_round pf a s.encode_thread s
  background_round (captures a now_alive now_frame) s =
      done (capture_round a now_alive now_frame s.frame_pump s)

  unfoldable pub run_background : List Background → Supervisor → Outcome Supervisor
  run_background [] s = done s
  run_background (b ∷ bs) s = do t ← background_round b s; run_background bs t

  -- The case FATAL of the loop.
  unfoldable pub handle_fatal : Option Round → Supervisor → Outcome Supervisor
  handle_fatal last s = do
    t ← stop_encode_thread pf last (log flush (log (log_event critical "fatal_exit" []) s))
    done (record (teardown_encoder (teardown_rtsp (drop_pump t))) { shutdown_requested = true })

  -- The `switch` of the loop.
  unfoldable pub dispatch : PublisherState → Inputs → Supervisor → Outcome Supervisor
  dispatch idle a s = done (handle_idle a.idle s)
  dispatch probing a s = done (handle_probing a.probing s)
  dispatch placeholder a s = handle_placeholder pf a.placeholder s
  dispatch connecting_output a s = handle_connecting_output pf a.connecting s
  dispatch streaming a s = handle_streaming pf a.streaming s
  dispatch stalled a s = handle_stalled pf a.stalled s
  dispatch reconfiguring a s = handle_reconfiguring pf a.reconfiguring s
  dispatch reconnecting_output a s = handle_reconnecting_output pf a.reconnecting s
  dispatch recovering_device a s = handle_recovering_device pf a.recovering s
  dispatch stopping a s = handle_stopping pf a.last s
  dispatch fatal a s = handle_fatal a.last s
  dispatch init a s = done s

  -- `while (!shutdown_requested_.load())`, over the rounds that are watched.
  unfoldable pub run_loop : List Inputs → Supervisor → Outcome Supervisor
  run_loop [] s = done s
  run_loop (a ∷ rest) s = do
    t ← run_background a.background s
    let u = poll_stop a.stop t
    if u.shutdown_requested
        then done u
        else (do v ← dispatch u.state_machine.current a u; run_loop rest v)

  -- `metrics_thread_ = std::thread(...)`. App.MetricsWriter has the rounds of that thread.
  unfoldable pub start_metrics_thread : Supervisor → Outcome Supervisor
  start_metrics_thread s =
      if s.metrics_thread
      then fault thread_overwritten
      else done (record s { metrics_thread = true })

  -- Behind the loop. The metrics thread ends because `shutdown_requested_` is set.
  unfoldable pub shut_down : Option Round → Supervisor → Outcome Supervisor
  shut_down last s = do
    t ←
        (if same s.state_machine.current fatal
          then done s
          else handle_stopping pf last (transition stopping s))
    done (log flush (record t { metrics_thread = false }))

  unfoldable pub run : List Inputs → Option Round → Supervisor → Outcome Supervisor
  run rounds last s = do
    t ← start_metrics_thread (transition idle s)
    u ← run_loop rounds t
    shut_down last u

  -- The joins of the destructor, which set `shutdown_requested_` but not `encode_stop_`.
  unfoldable pub join_left : Option Round → Option EncodeThread → Supervisor → Outcome Supervisor
  join_left last none s = done s
  join_left last (some t) s =
      if t.returned || s.encode_stop
      then (do
        u ← finish_round pf last s
        done (record (exit_loop pf u.encode_thread u) { encode_thread = none }))
      else fault thread_untold

  -- `~Supervisor()`
  unfoldable pub destroy : Option Round → Supervisor → Outcome Supervisor
  destroy last s = do
    t ← join_left last s.encode_thread (record s { shutdown_requested = true })
    done (record t { metrics_thread = false })
