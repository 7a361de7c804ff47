-- ===== src/App/Supervisor/Ownership/Shutdown.antt =====
-- The end of `Supervisor::run` in src/app/supervisor.cpp, and a run as a whole.
use spout_relay.Base.{
  ℕ, Bool, true, false, List, Option, some, ◌≡◌, refl, sym, ◌∙◌, ap, subst, arith, inl, inr, ◌⊎◌,
  Returns, returns, bind, branch, choose, if◌then◌else◌,
}
use spout_relay.Common.Types.{
  PublisherState, state_name, init, idle, probing, placeholder, connecting_output, streaming,
  stalled, reconfiguring, reconnecting_output, recovering_device, stopping, fatal,
}
use spout_relay.Config.Types.{AppConfig}
use spout_relay.App.StateMachine.{
  StateMachine, same, contains, valid_transitions, can_transition, initial,
}
use spout_relay.App.Supervisor.State.{
  Platform, Sinks, Supervisor, InitAnswers, init_monitor, new_supervisor, on_transition, transition,
}
use spout_relay.App.Supervisor.State
use spout_relay.App.Supervisor.State.Reports.{notify-on_transition}
use spout_relay.App.Supervisor.EncodeThread.{Round}
use spout_relay.App.Supervisor.Handlers.Recovery.{handle_stopping}
use spout_relay.App.Supervisor.Run.{Inputs, start_metrics_thread, shut_down, run}
use spout_relay.App.Supervisor.Ownership.Defs.{Owned, Inv, IsUsable, IsReleased}
use spout_relay.App.Supervisor.Ownership.Thread.{CanStop}
use spout_relay.App.Supervisor.Ownership.Helpers.{
  teardown_streaming-Torn, transition-eq, begin, refused,
}
use spout_relay.App.Supervisor.Ownership.Run.{Inv-CanStop, run_loop-Inv}

-- Where a transition to STOPPING leads: everywhere but in FATAL to a state from which IDLE may follow.
record Halting (s t : Supervisor) : Type 0 where
  to_idle : contains valid_transitions t.state_machine.current idle ≡ true
  same_thread : t.encode_thread ≡ s.encode_thread
  can_stop : CanStop t
  callback : t.state_machine.callback ≡ s.state_machine.callback

relabelled :
    (s : Supervisor) (m : StateMachine Sinks) (w : Sinks)
    → CanStop s
    → CanStop (record s { state_machine = m; sinks = w })
relabelled s m w (inl e) = inl e
relabelled s m w (inr (h, fps)) = inr (ground arith, fps)

permitted :
    (s : Supervisor)
    → contains valid_transitions s.state_machine.current stopping ≡ true
    → CanStop s
    → Halting s (transition stopping s)
unfolding can_transition contains valid_transitions same
permitted s v c =
    subst (Halting s) (sym (transition-eq stopping s v)) (record {
      to_idle = refl;
      same_thread = refl;
      can_stop = relabelled s _ _ c;
      callback = refl;
    })

stays :
    (p : PublisherState) (s : Supervisor)
    → s.state_machine.current ≡ p
    → contains valid_transitions p stopping ≡ false
    → contains valid_transitions p idle ≡ true
    → CanStop s
    → Halting s (transition stopping s)
stays p s e v i c = subst (Halting s) (sym (refused p stopping s e v)) (record {
  to_idle = ap (λ q. contains valid_transitions q idle) e ∙ i;
  same_thread = refl;
  can_stop = c;
  callback = refl;
})

can_halt :
    (p : PublisherState)
    → same p fatal ≡ false
    → (contains valid_transitions p stopping ≡ true)
      ⊎ ((contains valid_transitions p stopping ≡ false)
          × (contains valid_transitions p idle ≡ true))
unfolding contains valid_transitions same
can_halt init n = inr (refl, refl)
can_halt idle n = inl refl
can_halt probing n = inl refl
can_halt placeholder n = inl refl
can_halt connecting_output n = inl refl
can_halt streaming n = inl refl
can_halt stalled n = inl refl
can_halt reconfiguring n = inl refl
can_halt reconnecting_output n = inl refl
can_halt recovering_device n = inl refl
can_halt stopping n = inr (refl, refl)
can_halt fatal n = cc

halting :
    (s : Supervisor)
    → same s.state_machine.current fatal ≡ false
    → CanStop s
    → Halting s (transition stopping s)
halting s n c = elim (can_halt s.state_machine.current n) [
  | inl v ↦ permitted s v c
  | inr h ↦ stays s.state_machine.current s refl h.0 h.1 c
]

-- In IDLE or in FATAL, with nothing held, and the metrics name that state.
record IsSettled (s : Supervisor) : Type 0 where
  released : IsReleased s
  told : s.sinks.metrics.current_state ≡ state_name s.state_machine.current
  place : (s.state_machine.current ≡ idle) ⊎ (s.state_machine.current ≡ fatal)

-- The same, and the metrics writer's thread is joined.
pub record IsAtRest (s : Supervisor) : Type 0 where
  pub released : IsReleased s
  pub told : s.sinks.metrics.current_state ≡ state_name s.state_machine.current
  pub place : (s.state_machine.current ≡ idle) ⊎ (s.state_machine.current ≡ fatal)
  pub joined : s.metrics_thread ≡ false

apart : {P : Type 0} {b : Bool} → b ≡ true → b ≡ false → P
apart p q = cc

rest_in_fatal :
    (p : PublisherState) (s : Supervisor)
    → s.state_machine.current ≡ p
    → same p fatal ≡ true
    → Owned p s
    → s.sinks.metrics.current_state ≡ state_name s.state_machine.current
    → IsSettled s
unfolding same
rest_in_fatal fatal s e h o told = record { released = o; told = told; place = inr e }
rest_in_fatal _ s e h o told = cc

module _ (pf : Platform) (last : Option Round) where
  idle_after :
      (s : Supervisor)
      → contains valid_transitions s.state_machine.current idle ≡ true
      → IsReleased s
      → s.state_machine.callback ≡ some on_transition
      → IsSettled (transition idle s)
  unfolding can_transition
  idle_after s v h c = subst IsSettled (sym (transition-eq idle s v)) (record {
    released = ground arith;
    told = notify-on_transition s.state_machine.callback s.state_machine.current idle s.sinks c;
    place = inl refl;
  })

  handle_stopping-IsSettled :
      (s : Supervisor)
      → contains valid_transitions s.state_machine.current idle ≡ true
      → CanStop s
      → s.state_machine.callback ≡ some on_transition
      → Returns IsSettled (handle_stopping pf last s)
  unfolding handle_stopping can_transition
  handle_stopping-IsSettled s v c cb = bind (teardown_streaming-Torn pf last s c) λ t torn.
      returns (
        choose IsSettled _
          (λ h.
            idle_after _ h (ground arith)
              (ap (λ (m : StateMachine Sinks). m.callback) torn.kept.machine ∙ cb))
          λ h.
            apart
              (ap (λ (m : StateMachine Sinks). contains valid_transitions m.current idle)
                  torn.kept.machine
                ∙ v)
              h)

  -- However the loop ended, the way out neither faults nor leaves anything behind.
  pub shut_down-IsAtRest : (s : Supervisor) → Inv s → Returns IsAtRest (shut_down pf last s)
  unfolding shut_down
  shut_down-IsAtRest s inv =
      bind
        (branch _
          (λ h. returns (rest_in_fatal s.state_machine.current s refl h inv.owned inv.usable.told))
          λ h.
            let c = halting s h (Inv-CanStop s inv) in
            handle_stopping-IsSettled _ c.to_idle c.can_stop (c.callback ∙ inv.usable.callback))
        λ t h.
          returns
            (record { released = ground arith; told = h.told; place = h.place; joined = refl })

record Ready (c : AppConfig) (s : Supervisor) : Type 0 where
  config : s.config ≡ c
  place : s.state_machine.current ≡ init
  released : IsReleased s
  inactive : s.placeholder_active ≡ false
  no_metrics_thread : s.metrics_thread ≡ false
  callback : s.state_machine.callback ≡ some on_transition

-- Between the constructor and `run`, nothing is held yet.
init-Ready :
    (a : InitAnswers) (c₀ c : AppConfig) (now : ℕ)
    → (State.init a c (new_supervisor now c₀)).0 ≡ true
    → Ready c (State.init a c (new_supervisor now c₀)).2
unfolding State.init new_supervisor initial init_monitor if◌then◌else◌
init-Ready a c₀ c now ok = ground arith

start : {c : AppConfig} (s : Supervisor) → IsUsable c → Ready c s → Inv (transition idle s)
unfolding contains valid_transitions same
start s u h =
    begin init idle s h.place refl (ground arith) (subst IsUsable (sym h.config) u) h.callback

with_thread :
    (p : PublisherState) (s : Supervisor) → Owned p s → Owned p (record s { metrics_thread = true })
with_thread init s o = ground arith
with_thread _ s o = ground arith

start_metrics_thread-Inv :
    (pf : Platform) (s : Supervisor)
    → s.metrics_thread ≡ false
    → Inv s
    → Returns Inv (start_metrics_thread pf s)
unfolding start_metrics_thread
start_metrics_thread-Inv pf s e inv =
    branch _ (λ h. cc)
      λ _.
        returns
          (record { owned = with_thread s.state_machine.current s inv.owned; usable = inv.usable })

-- A relay whose settings have a positive `encoder.fps` and `spout.poll_interval_ms`, constructed,
-- initialised with success and run, never calls through an empty pointer of the supervisor, never
-- overwrites a running thread and never divides by zero, in any number of rounds and whatever the clock,
-- the senders, the encoder, the network, the capture thread and the encode thread do in them; the way
-- out of `run` behind those rounds then ends in IDLE or FATAL, with that state named in the metrics, the
-- encode thread and the metrics writer's thread joined and pump, encoder and RTSP client released.
pub run-IsAtRest :
    (pf : Platform) (a : InitAnswers) (initial_config config : AppConfig) (now : ℕ)
    (rounds : List Inputs) (last : Option Round)
    → IsUsable config
    → (State.init a config (new_supervisor now initial_config)).0 ≡ true
    → Returns IsAtRest
        (run pf rounds last (State.init a config (new_supervisor now initial_config)).2)
unfolding run transition
run-IsAtRest pf a c₀ c now rounds last u ok =
    let ready = init-Ready a c₀ c now ok in
    bind (start_metrics_thread-Inv pf _ ready.no_metrics_thread (start _ u ready))
      λ t inv. bind (run_loop-Inv pf rounds t inv) λ v i. shut_down-IsAtRest pf last v i
