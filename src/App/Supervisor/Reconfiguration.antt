-- ===== src/App/Supervisor/Reconfiguration.antt =====
-- A failed change of resolution in src/app/supervisor.cpp.
use spout_relay.Base.{false, none, ◌≡◌, refl, sym, subst, arith, Returns, returns, branch}
use spout_relay.Common.Types.{probing, reconfiguring}
use spout_relay.Spout.Monitor.{SpoutMonitor}
use spout_relay.App.StateMachine.{contains, valid_transitions, same}
use spout_relay.App.Supervisor.State.{Platform, Supervisor, transition, poll_stop}
use spout_relay.App.Supervisor.Resources.{init_encoder_and_rtsp, teardown_encoder, teardown_rtsp}
use spout_relay.App.Supervisor.Handlers.Recovery.{
  ReconfiguringInputs, pause_pump, handle_reconfiguring,
}
use spout_relay.App.Supervisor.Ownership.Helpers.{
  init_encoder_and_rtsp-Opened, teardown_rtsp-RtspDropped, refused,
}

-- The supervisor for which the handler opens the output anew: the pump paused, the old output torn down.
abbrev pub reopened : ReconfiguringInputs → Supervisor → Supervisor
reopened a s =
    let s' = poll_stop a.stop s in
    teardown_encoder (teardown_rtsp (record s' { frame_pump = pause_pump s'.frame_pump }))

-- Without an output, in the state that the change of resolution was handled in.
pub record IsStuck (t : Supervisor) : Type 0 where
  pub place : t.state_machine.current ≡ reconfiguring
  pub no_encoder : t.encoder ≡ none
  pub no_client : t.rtsp_client ≡ none
  pub no_request : t.shutdown_requested ≡ false

closed :
    (s : Supervisor)
    → s.state_machine.current ≡ reconfiguring
    → s.shutdown_requested ≡ false
    → IsStuck (teardown_encoder (teardown_rtsp s))
unfolding teardown_encoder
closed s e go = ground (arith, teardown_rtsp-RtspDropped s)

unbound : (s : Supervisor) (m : SpoutMonitor) → IsStuck s → IsStuck (record s { spout_monitor = m })
unbound s m h = ground arith

stays : (s : Supervisor) → IsStuck s → IsStuck (transition probing s)
unfolding contains valid_transitions same
stays s h = subst IsStuck (sym (refused reconfiguring probing s h.place refl)) h

-- When the output cannot be opened anew for the resolution, at whatever call of FFmpeg or of the RTSP
-- client, and no request to stop has come, the relay does not go back to PROBING, which the table of
-- transitions does not permit from here: it stays in RECONFIGURING with encoder and session torn down,
-- and comes to the same handler again.
pub handle_reconfiguring-IsStuck :
    (pf : Platform) (a : ReconfiguringInputs) (s : Supervisor)
    → s.state_machine.current ≡ reconfiguring
    → s.shutdown_requested ≡ false
    → a.stop ≡ false
    → (init_encoder_and_rtsp a.output
        (reopened a s).current_width
        (reopened a s).current_height
        (reopened a s)).0
      ≡ false
    → Returns IsStuck (handle_reconfiguring pf a s)
unfolding handle_reconfiguring poll_stop
handle_reconfiguring-IsStuck pf a s e go go' failed =
    branch _ (λ stop. (ground arith))
      λ _.
        let paused : Supervisor = record (poll_stop a.stop s) {
          frame_pump = pause_pump s.frame_pump;
        } in
        let torn = teardown_encoder (teardown_rtsp paused) in
        let c = closed paused e (ground arith) in
        let o = init_encoder_and_rtsp-Opened a.output torn.current_width torn.current_height torn in
        branch _ (λ _. returns (stays _ (unbound _ _ (closed _ (ground arith) (ground arith)))))
          (λ ready. (ground arith))
