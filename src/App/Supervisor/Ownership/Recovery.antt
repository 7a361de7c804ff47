-- ===== src/App/Supervisor/Ownership/Recovery.antt =====
-- The handlers of RECOVERING_DEVICE, RECONFIGURING and RECONNECTING_OUTPUT in
-- src/app/supervisor.cpp.
use spout_relay.Base.{
  true, Option, none, some, is_some, ◌≡◌, refl, subst, sym, arith, inl, Returns, returns, bind,
  branch, through,
}
use spout_relay.Common.Types.{
  recovering_device, reconfiguring, reconnecting_output, probing, fatal, streaming,
}
use spout_relay.Encoder.Types.{Encoder}
use spout_relay.Spout.Monitor.{SpoutMonitor}
use spout_relay.Capture.FramePump.{FramePump}
use spout_relay.App.StateMachine.{contains, valid_transitions, same}
use spout_relay.App.Supervisor.State.{Platform, Supervisor, transition, poll_stop}
use spout_relay.App.Supervisor.Resources.{teardown_encoder, teardown_rtsp}
use spout_relay.App.Supervisor.Handlers.Recovery.{
  RecoveringInputs, ReconfiguringInputs, ReconnectingInputs, handle_recovering_device, pause_pump,
  resume_streaming, handle_reconfiguring, reconnected, try_reconnect, handle_reconnecting_output,
}
use spout_relay.App.Supervisor.Ownership.Defs.{
  Inv, IsSound, IsRecovering, IsReconfiguring, IsReconnecting,
}
use spout_relay.App.Supervisor.Ownership.Thread.{start_encode_thread-Started}
use spout_relay.App.Supervisor.Ownership.Helpers.{
  init_encoder_and_rtsp-Opened, connect_rtsp-Opened, connect_rtsp-encoder,
  teardown_rtsp-RtspDropped, teardown_streaming-Torn, Kept-refl, enter, refused, own, stay,
  stop_with_teardown,
}

pub handle_recovering_device-Inv :
    (pf : Platform) (a : RecoveringInputs) (s : Supervisor)
    → s.state_machine.current ≡ recovering_device
    → Inv s
    → Returns Inv (handle_recovering_device pf a s)
unfolding handle_recovering_device poll_stop contains valid_transitions same
handle_recovering_device-Inv pf a s e inv =
    let o : IsRecovering s = own recovering_device e inv in
    branch _
      (λ stop.
        bind
          (stop_with_teardown pf recovering_device a.last _ (poll_stop a.stop s) Kept-refl e refl
            inv.usable stop (inl o.no_thread))
          (λ t i. returns i))
      (λ _. bind (teardown_streaming-Torn pf a.last _ (inl o.no_thread)) λ t torn.
        branch _
          (λ _.
            returns
              (enter recovering_device fatal _ (ground arith) refl (ground arith) (ground arith)))
          (λ _.
            returns (
              enter recovering_device probing _ (ground arith) refl (ground arith) (ground arith))))

-- In RECONFIGURING: the pump is kept, and no thread runs.
record Reconfiguring (s : Supervisor) : Type 0 where
  place : s.state_machine.current ≡ reconfiguring
  usable : IsSound s.config s.state_machine s.sinks.metrics.current_state
  reconfigures : IsReconfiguring s

pause_pump-some : (o : Option FramePump) → is_some o ≡ true → is_some (pause_pump o) ≡ true
unfolding pause_pump
pause_pump-some none h = h
pause_pump-some (some p) h = refl

closed : (s : Supervisor) → Reconfiguring s → Reconfiguring (teardown_encoder (teardown_rtsp s))
unfolding teardown_encoder
closed s c = ground (arith, teardown_rtsp-RtspDropped s)

unbound :
    (s : Supervisor) (m : SpoutMonitor)
    → Reconfiguring s
    → Reconfiguring (record s { spout_monitor = m })
unbound s m c = ground arith

-- The request for PROBING is refused, so the state stays.
stuck : (s : Supervisor) → Reconfiguring s → Inv (transition probing s)
unfolding contains valid_transitions same
stuck s c =
    subst Inv (sym (refused reconfiguring probing s c.place refl))
      (stay reconfiguring Kept-refl c.place c.reconfigures c.usable)

resume_streaming-Inv :
    (a : ReconfiguringInputs) (s : Supervisor)
    → Reconfiguring s
    → is_some s.encoder ≡ true
    → is_some s.rtsp_client ≡ true
    → Returns Inv (resume_streaming a s)
unfolding resume_streaming contains valid_transitions same
resume_streaming-Inv a s c he hc = through _ c.reconfigures.pump λ p _.
    bind (start_encode_thread-Started a.now_streaming _ c.reconfigures.no_thread) λ t st.
      returns (enter reconfiguring streaming _ (ground arith) refl (ground arith) (ground arith))

pub handle_reconfiguring-Inv :
    (pf : Platform) (a : ReconfiguringInputs) (s : Supervisor)
    → s.state_machine.current ≡ reconfiguring
    → Inv s
    → Returns Inv (handle_reconfiguring pf a s)
unfolding handle_reconfiguring poll_stop contains valid_transitions same
handle_reconfiguring-Inv pf a s e inv =
    let o : IsReconfiguring s = own reconfiguring e inv in
    branch _
      (λ stop.
        bind
          (stop_with_teardown pf reconfiguring a.last _ (poll_stop a.stop s) Kept-refl e refl
            inv.usable stop (inl o.no_thread))
          (λ t i. returns i))
      (λ _.
        let paused : Supervisor = record (poll_stop a.stop s) {
          frame_pump = pause_pump s.frame_pump;
        } in
        let torn = teardown_encoder (teardown_rtsp paused) in
        let c = closed paused (ground (arith, pause_pump-some s.frame_pump)) in
        let open_ =
          init_encoder_and_rtsp-Opened a.output torn.current_width torn.current_height torn in
        branch _ (λ _. returns (stuck _ (unbound _ _ (closed _ (ground arith)))))
          (λ ready. resume_streaming-Inv a _ (ground arith) (ground arith) (ground arith)))

-- In RECONNECTING_OUTPUT: encoder and pump are kept, and no thread runs.
record Reconnecting (s : Supervisor) : Type 0 where
  place : s.state_machine.current ≡ reconnecting_output
  usable : IsSound s.config s.state_machine s.sinks.metrics.current_state
  reconnects : IsReconnecting s

reconnected-Inv :
    (a : ReconnectingInputs) (e : Encoder) (s : Supervisor)
    → Reconnecting s
    → is_some s.rtsp_client ≡ true
    → Returns Inv (reconnected a e s)
unfolding reconnected contains valid_transitions same
reconnected-Inv a e s c hc =
    bind (start_encode_thread-Started a.now_streaming _ c.reconnects.no_thread) λ t st.
      returns
        (enter reconnecting_output streaming _ (ground arith) refl (ground arith) (ground arith))

retry : (s : Supervisor) → Reconnecting s → Inv (teardown_rtsp s)
retry s c =
    let d = teardown_rtsp-RtspDropped s in
    stay reconnecting_output d.kept c.place (ground arith) c.usable

try_reconnect-Inv :
    (pf : Platform) (a : ReconnectingInputs) (s : Supervisor)
    → Reconnecting s
    → Returns Inv (try_reconnect pf a s)
unfolding try_reconnect poll_stop contains valid_transitions same
try_reconnect-Inv pf a s c =
    branch _
      (λ stop.
        bind
          (stop_with_teardown pf reconnecting_output none _ (poll_stop a.stop_after s) Kept-refl
            c.place refl c.usable stop (inl c.reconnects.no_thread))
          (λ t i. returns i))
      (λ _. through _ c.reconnects.encoder λ e _.
        let o = connect_rtsp-Opened a.output e (poll_stop a.stop_after s) c.reconnects.encoder in
        branch _
          (λ _.
            returns (
              retry _ (ground (arith, connect_rtsp-encoder a.output e (poll_stop a.stop_after s)))))
          (λ up.
            reconnected-Inv a e _
              (ground (arith, connect_rtsp-encoder a.output e (poll_stop a.stop_after s)))
              (ground arith)))

pub handle_reconnecting_output-Inv :
    (pf : Platform) (a : ReconnectingInputs) (s : Supervisor)
    → s.state_machine.current ≡ reconnecting_output
    → Inv s
    → Returns Inv (handle_reconnecting_output pf a s)
unfolding handle_reconnecting_output poll_stop contains valid_transitions same
handle_reconnecting_output-Inv pf a s e inv =
    let o : IsReconnecting s = own reconnecting_output e inv in
    branch _
      (λ stop.
        bind
          (stop_with_teardown pf reconnecting_output a.last _ (poll_stop a.stop s) Kept-refl e refl
            inv.usable stop (inl o.no_thread))
          (λ t i. returns i))
      (λ _.
        branch _
          (λ _. bind (teardown_streaming-Torn pf a.last _ (inl o.no_thread)) λ t torn.
            returns
              (enter reconnecting_output fatal _ (ground arith) refl (ground arith) (ground arith)))
          (λ _. try_reconnect-Inv pf a _ (ground arith)))
