-- ===== src/App/Supervisor/Ownership/Placeholder.antt =====
-- The handler of PLACEHOLDER in src/app/supervisor.cpp: what it calls through is there.
use spout_relay.Base.{
  ℕ, Bool, true, false, Option, none, some, is_some, ◌≡◌, refl, arith, pos, ltb_ℤ, inl, Returns,
  returns, bind, branch, through, weaken, if◌then◌else◌, subst, sym, ap, ◌∙◌,
}
use spout_relay.Common.Types.{placeholder, connecting_output}
use spout_relay.Rtsp.Client.{RtspClient}
use spout_relay.App.Logic.{can_seamless_handoff}
use spout_relay.App.StateMachine.{StateMachine, contains, valid_transitions, same}
use spout_relay.App.Supervisor.State.{Platform, Sinks, Supervisor, transition, poll_stop}
use spout_relay.App.Supervisor.Resources.{teardown_encoder, init_encoder_and_rtsp}
use spout_relay.App.Supervisor.Handlers.Placeholder.{
  PlaceholderInputs, rtsp_up, placeholder_started, open_output, take_over_session,
  start_placeholder, keep_session, leave_placeholder, placeholder_failed, count_placeholder,
  send_picture, send_if_due, run_placeholder, handle_placeholder,
}
use spout_relay.App.Supervisor.Ownership.Defs.{Inv, Owned, IsShowing, IsSound}
use spout_relay.App.Supervisor.Ownership.Thread.{frame_interval_us-Returns}
use spout_relay.App.Supervisor.Ownership.Helpers.{
  init_encoder_and_rtsp-Opened, teardown_rtsp-RtspDropped, Kept-refl, enter, own,
  stop_with_teardown,
}

-- Within the handler of PLACEHOLDER: the picture is on the air over an encoder and a session.
-- The state machine and the settings are as before.
record Shifted (r s : Supervisor) : Type 0 where
  machine : s.state_machine ≡ r.state_machine
  config : s.config ≡ r.config
  told : s.sinks.metrics.current_state ≡ r.sinks.metrics.current_state

IsSound-Shifted :
    {r s : Supervisor}
    → Shifted r s
    → IsSound r.config r.state_machine r.sinks.metrics.current_state
    → IsSound s.config s.state_machine s.sinks.metrics.current_state
IsSound-Shifted k u = ground arith

record Airing (r s : Supervisor) : Type 0 where
  kept : Shifted r s
  no_thread : s.encode_thread ≡ none
  no_pump : s.frame_pump ≡ none
  encoder : is_some s.encoder ≡ true
  client : is_some s.rtsp_client ≡ true

-- The handler failed or is not due: it stays in PLACEHOLDER.
record Showing (r s : Supervisor) : Type 0 where
  kept : Shifted r s
  showing : IsShowing s

placeholder_failed-Showing : (r s : Supervisor) → Airing r s → Showing r (placeholder_failed s)
unfolding placeholder_failed teardown_encoder
placeholder_failed-Showing r s h = ground (arith, teardown_rtsp-RtspDropped s)

-- In PLACEHOLDER with nothing on the air.
record Resting (r s : Supervisor) : Type 0 where
  kept : Shifted r s
  no_thread : s.encode_thread ≡ none
  no_pump : s.frame_pump ≡ none
  inactive : s.placeholder_active ≡ false

record KeptSession (s t : Supervisor) : Type 0 where
  kept : Shifted s t
  thread : t.encode_thread ≡ s.encode_thread
  pump : t.frame_pump ≡ s.frame_pump

keep_session-KeptSession : (s : Supervisor) → KeptSession s (keep_session s)
unfolding keep_session teardown_encoder if◌then◌else◌
keep_session-KeptSession s = ground (arith, teardown_rtsp-RtspDropped s)

-- A seamless hand-over is to an encoder and a session.
pub seamless_alive :
    (asked encoder client : Bool) (w h cw ch : ℕ)
    → can_seamless_handoff asked encoder client w h cw ch ≡ true
    → (encoder ≡ true) × (client ≡ true)
unfolding can_seamless_handoff
seamless_alive asked encoder client w h cw ch c = ground arith

pub rtsp_up_some : (o : Option RtspClient) → rtsp_up o ≡ true → is_some o ≡ true
unfolding rtsp_up
rtsp_up_some none h = h
rtsp_up_some (some c) h = refl

recount :
    (r s : Supervisor) (frames bytes sw : ℕ)
    → Showing r s
    → Showing r (record s {
      placeholder_frames_since_last = frames;
      placeholder_bytes_since_last = bytes;
      placeholder_metrics_sw = sw;
    })
recount r s frames bytes sw h = ground arith

module _ (pf : Platform) (a : PlaceholderInputs) (r : Supervisor) where
  count_placeholder-Showing : (s : Supervisor) → Airing r s → Showing r (count_placeholder pf a s)
  unfolding count_placeholder if◌then◌else◌
  count_placeholder-Showing s h = ground arith

  send_picture-Showing : (s : Supervisor) → Airing r s → Returns (Showing r) (send_picture pf a s)
  unfolding send_picture
  send_picture-Showing s h = through _ h.encoder λ e _.
      branch _ (λ _. returns (placeholder_failed-Showing r _ (ground arith)))
        (λ _.
          branch _ (λ _. returns (ground arith))
            (λ _. through _ h.client λ c _.
              branch _
                (λ _. returns (recount r _ _ _ _ (placeholder_failed-Showing r _ (ground arith))))
                (λ _. returns (count_placeholder-Showing _ (ground arith)))))

  send_if_due-Showing :
      (s : Supervisor)
      → ltb_ℤ (pos 0) s.config.encoder.fps ≡ true
      → Airing r s
      → Returns (Showing r) (send_if_due pf a s)
  unfolding send_if_due
  send_if_due-Showing s fps h =
      bind (frame_interval_us-Returns s.config.encoder.fps fps)
        λ interval _. branch _ (λ _. returns (ground arith)) (λ _. send_picture-Showing s h)

  leaving :
      {s k : Supervisor}
      → r.state_machine.current ≡ placeholder
      → IsSound r.config r.state_machine r.sinks.metrics.current_state
      → KeptSession s k
      → Airing r s
      → Inv (
          transition connecting_output (record k {
            placeholder_active = false;
            placeholder_cooldown_timer = a.now_cooldown;
            placeholder_cooldown_active = true;
          }))
  unfolding contains valid_transitions same
  leaving {s} {k} e u c h =
      enter placeholder connecting_output _ (ground arith) refl (ground arith)
        (IsSound-Shifted c.kept (IsSound-Shifted h.kept u))

  leave_placeholder-Inv :
      (s : Supervisor)
      → r.state_machine.current ≡ placeholder
      → IsSound r.config r.state_machine r.sinks.metrics.current_state
      → Airing r s
      → Inv (leave_placeholder a s)
  unfolding leave_placeholder
  leave_placeholder-Inv s e u h = leaving e u (keep_session-KeptSession _) (ground arith)

  -- Behind the start every way on keeps the invariant.
  showing-Inv :
      (s : Supervisor)
      → r.state_machine.current ≡ placeholder
      → IsSound r.config r.state_machine r.sinks.metrics.current_state
      → Showing r s
      → Inv s
  showing-Inv s e u h = record {
    owned =
        subst (λ q. Owned q s) (sym (ap (λ (m : StateMachine Sinks). m.current) h.kept.machine ∙ e))
          h.showing;
    usable = IsSound-Shifted h.kept u;
  }

  send_if_due-Inv :
      (s : Supervisor)
      → r.state_machine.current ≡ placeholder
      → IsSound r.config r.state_machine r.sinks.metrics.current_state
      → Airing r s
      → Returns Inv (send_if_due pf a s)
  send_if_due-Inv s e u h = weaken (send_if_due-Showing s (ground arith) h) (λ t. showing-Inv t e u)

  run_placeholder-Inv :
      (s : Supervisor)
      → r.state_machine.current ≡ placeholder
      → IsSound r.config r.state_machine r.sinks.metrics.current_state
      → Airing r s
      → Returns Inv (run_placeholder pf a s)
  unfolding run_placeholder
  run_placeholder-Inv s e u h =
      branch _
        (λ _.
          branch _
            (λ _.
              branch _ (λ _. returns (leave_placeholder-Inv _ e u (ground arith)))
                (λ _. send_if_due-Inv _ e u (ground arith)))
            (λ _. send_if_due-Inv _ e u (ground arith)))
        (λ _. send_if_due-Inv s e u h)

  -- The start: it stays in PLACEHOLDER with nothing on the air, or goes on with the picture.
  record Begun (go : Bool) (s : Supervisor) : Type 0 where
    airing : go ≡ true → Airing r s
    failed : go ≡ false → Showing r s

  open_output-Begun :
      (w h : ℕ) (s : Supervisor) → Resting r s → let (go, t) = open_output a w h s in Begun go t
  unfolding open_output teardown_encoder placeholder_started if◌then◌else◌
  open_output-Begun w h s rest = ground (
    arith,
    init_encoder_and_rtsp-Opened a.output w h s,
    teardown_rtsp-RtspDropped (init_encoder_and_rtsp a.output w h s).2,
  )

  take_over_session-Begun :
      (w h : ℕ) (s : Supervisor)
      → is_some s.encoder ≡ true
      → is_some s.rtsp_client ≡ true
      → Resting r s
      → Returns (λ p. Begun p.0 p.1) (take_over_session a w h s)
  unfolding take_over_session placeholder_started
  take_over_session-Begun w h s he hc rest = through _ he λ e _. returns (ground arith)

  start_placeholder-Begun :
      (s : Supervisor) → Resting r s → Returns (λ p. Begun p.0 p.1) (start_placeholder a s)
  unfolding start_placeholder
  start_placeholder-Begun s rest =
      branch _ (λ _. returns (ground arith))
        (λ _.
          branch _
            (λ c.
              take_over_session-Begun _ _ _ (seamless_alive _ _ _ _ _ _ _ c).0
                (rtsp_up_some _ (seamless_alive _ _ _ _ _ _ _ c).1) (ground arith))
            (λ _. returns (open_output-Begun _ _ _ (ground arith))))

  pub handle_placeholder-Inv :
      r.state_machine.current ≡ placeholder → Inv r → Returns Inv (handle_placeholder pf a r)
  unfolding handle_placeholder poll_stop contains valid_transitions same
  handle_placeholder-Inv e inv =
      let o : IsShowing r = own placeholder e inv in
      branch _
        (λ stop.
          bind
            (stop_with_teardown pf placeholder a.last _ (poll_stop a.stop r) Kept-refl e refl
              inv.usable stop (inl o.no_thread))
            (λ t i. returns i))
        (λ _.
          branch _
            (λ off. bind (start_placeholder-Begun _ (ground arith)) λ p b.
              branch _ (λ go. run_placeholder-Inv _ e inv.usable (b.airing go))
                (λ rest. returns (showing-Inv _ e inv.usable (b.failed rest))))
            (λ on. run_placeholder-Inv _ e inv.usable (ground arith)))
