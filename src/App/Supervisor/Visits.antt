-- ===== src/App/Supervisor/Visits.antt =====
-- One visit of RECONNECTING_OUTPUT in src/app/supervisor.cpp.
use spout_relay.Base.{
  suc, true, false, Option, none, some, ◌≡◌, refl, ap, ◌∙◌, arith, pos, ltb_ℤ, ◌⊎◌, inl, inr,
  Returns, returns, bind, branch, through, weaken, if◌then◌else◌, done, ◌>>=◌, is_some,
}
use spout_relay.Common.Types.{reconnecting_output, streaming, stopping, fatal}
use spout_relay.Encoder.Types.{Encoder}
use spout_relay.Rtsp.Client.{RtspClient}
use spout_relay.App.StateMachine.{same, contains, valid_transitions}
use spout_relay.App.Supervisor.State.{Platform, Supervisor, poll_stop, transition}
use spout_relay.App.Supervisor.EncodeThread.{Round}
use spout_relay.App.Supervisor.Resources.{
  OutputAnswers, connect_rtsp, note_stopped, teardown_rtsp, teardown_streaming,
}
use spout_relay.App.Supervisor.Handlers.Recovery.{
  ReconnectingInputs, reconnected, try_reconnect, handle_reconnecting_output,
}
use spout_relay.App.Supervisor.Escalation.{transition-Entered}
use spout_relay.App.Supervisor.Ownership.Defs.{IsReconnecting}
use spout_relay.App.Supervisor.Ownership.Thread.{start_encode_thread-Started}
use spout_relay.App.Supervisor.Ownership.Helpers.{teardown_streaming-Torn, connect_rtsp-Opened}

-- No longer in RECONNECTING_OUTPUT, or asked to stop, which ends the loop.
abbrev pub IsOut : Supervisor → Type 0
IsOut t = (same t.state_machine.current reconnecting_output ≡ false) ⊎ (t.shutdown_requested ≡ true)

-- One more attempt has been made, and it was allowed.
pub record Counted (s t : Supervisor) : Type 0 where
  pub config : t.config ≡ s.config
  pub attempts : t.reconnect_attempts ≡ suc s.reconnect_attempts
  pub allowed : ltb_ℤ s.config.rtsp.max_reconnect_attempts (pos (suc s.reconnect_attempts)) ≡ false

connect_rtsp-attempts :
    (a : OutputAnswers) (e : Encoder) (s : Supervisor)
    → ((connect_rtsp a e s).2.config ≡ s.config)
      × ((connect_rtsp a e s).2.reconnect_attempts ≡ s.reconnect_attempts)
unfolding connect_rtsp if◌then◌else◌
connect_rtsp-attempts a e s = ground arith

note_stopped-attempts :
    (o : Option RtspClient) (s : Supervisor)
    → ((note_stopped o s).config ≡ s.config)
      × ((note_stopped o s).reconnect_attempts ≡ s.reconnect_attempts)
unfolding note_stopped if◌then◌else◌
note_stopped-attempts none s = (refl, refl)
note_stopped-attempts (some c) s = ground arith

reconnected-IsOut :
    (a : ReconnectingInputs) (e : Encoder) (s : Supervisor)
    → s.state_machine.current ≡ reconnecting_output
    → s.encode_thread ≡ none
    → Returns IsOut (reconnected a e s)
unfolding reconnected contains valid_transitions same
reconnected-IsOut a e s place thread =
    bind (start_encode_thread-Started a.now_streaming _ thread) λ t st.
      let n = transition-Entered reconnecting_output streaming t (ground arith) refl in
      returns (inl (ap (λ p. same p reconnecting_output) n.place))

module _ (pf : Platform) where
  stopped-IsOut :
      (last : Option Round) (s : Supervisor)
      → s.state_machine.current ≡ reconnecting_output
      → s.encode_thread ≡ none
      → Returns IsOut (do t ← teardown_streaming pf last s; done (transition stopping t))
  unfolding contains valid_transitions same
  stopped-IsOut last s place thread =
      bind (teardown_streaming-Torn pf last s (inl thread)) λ t torn.
        let n = transition-Entered reconnecting_output stopping t (ground arith) refl in
        returns (inl (ap (λ p. same p reconnecting_output) n.place))

  try_reconnect-Tried :
      (a : ReconnectingInputs) (s : Supervisor)
      → s.state_machine.current ≡ reconnecting_output
      → s.encode_thread ≡ none
      → is_some s.encoder ≡ true
      → Returns
          (λ t. IsOut t ⊎ ((t.config ≡ s.config) × (t.reconnect_attempts ≡ s.reconnect_attempts)))
          (try_reconnect pf a s)
  unfolding try_reconnect poll_stop teardown_rtsp
  try_reconnect-Tried a s place thread encoder =
      branch _ (λ _. weaken (stopped-IsOut none _ place thread) (λ t h. inl h))
        λ _. through _ encoder λ e _.
          let u = poll_stop a.stop_after s in
          let kept = connect_rtsp-attempts a.output e u in
          let o = connect_rtsp-Opened a.output e u encoder in
          branch _
            (λ _.
              let (config, attempts) =
                note_stopped-attempts (connect_rtsp a.output e u).2.rtsp_client
                  (connect_rtsp a.output e u).2 in
              returns (inr (config ∙ kept.0, attempts ∙ kept.1)))
            (λ _. weaken (reconnected-IsOut a e _ (ground arith) (ground arith)) (λ t h. inl h))

  -- A visit of RECONNECTING_OUTPUT leaves it or counts.
  pub handle_reconnecting_output-Counted :
      (a : ReconnectingInputs) (s : Supervisor)
      → s.state_machine.current ≡ reconnecting_output
      → IsReconnecting s
      → Returns (λ t. IsOut t ⊎ Counted s t) (handle_reconnecting_output pf a s)
  unfolding handle_reconnecting_output poll_stop contains valid_transitions same
  handle_reconnecting_output-Counted a s place o =
      branch _ (λ _. weaken (stopped-IsOut a.last _ place o.no_thread) (λ t h. inl h))
        λ _.
          branch _
            (λ _. bind (teardown_streaming-Torn pf a.last _ (inl o.no_thread)) λ t torn.
              let n = transition-Entered reconnecting_output fatal t (ground arith) refl in
              returns (inl (inl (ap (λ p. same p reconnecting_output) n.place))))
            (λ under. weaken (try_reconnect-Tried a _ place o.no_thread o.encoder) λ t h. elim h [
              | inl out ↦ inl out
              | inr (config, attempts) ↦
                  inr (record { config = config; attempts = attempts; allowed = under })
            ])
