-- ===== src/App/Supervisor/Ownership/Connecting.antt =====
-- The handler of CONNECTING_OUTPUT in src/app/supervisor.cpp.
use spout_relay.Base.{
  true, false, is_some, ◌≡◌, ◌≢◌, refl, arith, inl, none, Returns, returns, bind, branch, through,
  if◌then◌else◌,
}
use spout_relay.Common.Types.{
  connecting_output, streaming, probing, stopping, FrameBuffer, FrameMeta,
}
use spout_relay.Spout.Monitor.{SpoutMonitor}
use spout_relay.App.StateMachine.{contains, valid_transitions, same}
use spout_relay.App.Supervisor.State.{Platform, Supervisor, transition, poll_stop}
use spout_relay.App.Supervisor.Resources.{teardown_encoder, teardown_rtsp}
use spout_relay.App.Supervisor.Handlers.Connecting.{
  ConnectingInputs, Wait, framed, stopped, timed_out, given_up, go_streaming, switch_source,
  reconnect_receiver, clear_output, open_source, connect_source, after_wait,
  handle_connecting_output,
}
use spout_relay.App.Supervisor.Ownership.Defs.{Inv, IsWaiting, IsSound}
use spout_relay.App.Supervisor.Ownership.Thread.{start_encode_thread-Started}
use spout_relay.App.Supervisor.Ownership.Helpers.{
  init_encoder_and_rtsp-Opened, teardown_rtsp-RtspDropped, Kept-refl, enter, own,
  stop_with_teardown,
}
use spout_relay.App.Supervisor.Ownership.Placeholder.{seamless_alive, rtsp_up_some}
use spout_relay.App.Supervisor.Ownership.FirstFrame.{first_frame-ends}

-- In CONNECTING_OUTPUT, before the thread starts.
record Connecting (s : Supervisor) : Type 0 where
  place : s.state_machine.current ≡ connecting_output
  usable : IsSound s.config s.state_machine s.sinks.metrics.current_state
  no_thread : s.encode_thread ≡ none
  no_pump : s.frame_pump ≡ none
  inactive : s.placeholder_active ≡ false

to_probing : (s : Supervisor) → Connecting s → Inv (transition probing s)
unfolding contains valid_transitions same
to_probing s c = enter connecting_output probing s c.place refl (ground arith) c.usable

closed : (s : Supervisor) → Connecting s → Connecting (teardown_encoder (teardown_rtsp s))
unfolding teardown_encoder
closed s c = ground (arith, teardown_rtsp-RtspDropped s)

unbound :
    (s : Supervisor) (m : SpoutMonitor) → Connecting s → Connecting (record s { spout_monitor = m })
unbound s m c = ground arith

cleared : (s : Supervisor) → Connecting s → Connecting (clear_output s)
unfolding clear_output teardown_encoder if◌then◌else◌
cleared s c =
    ground (arith, teardown_rtsp-RtspDropped s, teardown_rtsp-RtspDropped (teardown_encoder s))

module _ (a : ConnectingInputs) where
  go_streaming-Inv :
      (s : Supervisor)
      → Connecting s
      → is_some s.encoder ≡ true
      → is_some s.rtsp_client ≡ true
      → Returns Inv (go_streaming a s)
  unfolding go_streaming contains valid_transitions same
  go_streaming-Inv s c he hc =
      bind (start_encode_thread-Started a.now_streaming _ c.no_thread) λ t st.
        returns
          (enter connecting_output streaming _ (ground arith) refl (ground arith) (ground arith))

  switch_source-Inv :
      (s : Supervisor)
      → Connecting s
      → is_some s.encoder ≡ true
      → is_some s.rtsp_client ≡ true
      → Returns Inv (switch_source a s)
  unfolding switch_source
  switch_source-Inv s c he hc = through _ he λ e _. go_streaming-Inv _ (ground arith) refl hc

  reconnect_receiver-Inv :
      (s : Supervisor)
      → Connecting s
      → is_some s.encoder ≡ true
      → is_some s.rtsp_client ≡ true
      → Returns Inv (reconnect_receiver a s)
  unfolding reconnect_receiver
  reconnect_receiver-Inv s c he hc =
      branch _ (λ _. returns (to_probing _ (closed _ (ground arith))))
        (λ _. go_streaming-Inv _ (ground arith) he hc)

  open_source-Inv : (s : Supervisor) → Connecting s → Returns Inv (open_source a s)
  unfolding open_source
  open_source-Inv s c =
      let o =
        init_encoder_and_rtsp-Opened a.output s.current_width s.current_height (clear_output s) in
      let c' = cleared s c in
      branch _ (λ _. returns (to_probing _ (unbound _ _ (closed _ (ground arith)))))
        (λ ready. reconnect_receiver-Inv _ (ground arith) (ground arith) (ground arith))

  connect_source-Inv :
      (buf : FrameBuffer) (meta : FrameMeta) (s : Supervisor)
      → Connecting s
      → Returns Inv (connect_source a buf meta s)
  unfolding connect_source
  connect_source-Inv buf meta s c =
      branch _
        (λ h.
          let alive = seamless_alive _ _ _ _ _ _ _ h in
          switch_source-Inv _ (ground arith) alive.0 (rtsp_up_some _ alive.1))
        (λ _. open_source-Inv _ (ground arith))

  to_stopping :
      (s : Supervisor) → Connecting s → s.shutdown_requested ≡ true → Inv (transition stopping s)
  unfolding contains valid_transitions same
  to_stopping s c stop = enter connecting_output stopping s c.place refl (ground arith) c.usable

  after_wait-Inv :
      (w : Wait) (s : Supervisor) → w ≢ given_up → Connecting s → Returns Inv (after_wait a w s)
  unfolding after_wait poll_stop
  after_wait-Inv given_up s ends c = absurd (ends refl)
  after_wait-Inv (timed_out m) s ends c = returns (to_probing _ (ground arith))
  after_wait-Inv (stopped m) s ends c = returns (to_stopping _ (ground arith) (ground arith))
  after_wait-Inv (framed buf meta m) s ends c =
      branch _ (λ stop. returns (to_stopping _ (ground arith) stop))
        (λ _. connect_source-Inv buf meta _ (ground arith))

  pub handle_connecting_output-Inv :
      (pf : Platform) (s : Supervisor)
      → s.state_machine.current ≡ connecting_output
      → Inv s
      → Returns Inv (handle_connecting_output pf a s)
  unfolding handle_connecting_output poll_stop contains valid_transitions same
  handle_connecting_output-Inv pf s e inv =
      let o : IsWaiting s = own connecting_output e inv in
      branch _
        (λ stop.
          bind
            (stop_with_teardown pf connecting_output a.last _ (poll_stop a.stop s) Kept-refl e refl
              inv.usable stop (inl o.no_thread))
            (λ t i. returns i))
        (λ _. after_wait-Inv _ _ (first_frame-ends a _ inv.usable.polls) (ground arith))
