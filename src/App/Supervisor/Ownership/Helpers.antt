-- ===== src/App/Supervisor/Ownership/Helpers.antt =====
-- The helpers of src/app/supervisor.cpp: opening and tearing down, and entering a state.
use spout_relay.Base.{
  ℕ, Bool, true, false, Option, none, some, is_some, ◌≡◌, refl, sym, ◌∙◌, ap, subst, arith, Returns,
  returns, bind, weaken, if◌then◌else◌,
}
use spout_relay.Common.Types.{PublisherState, init, stopping}
use spout_relay.Encoder.Types.{Encoder}
use spout_relay.Rtsp.Client.{RtspClient}
use spout_relay.App.StateMachine.{
  transition_to, can_transition, contains, valid_transitions, StateMachine, notify,
}
use spout_relay.App.Supervisor.State.{Platform, Sinks, Supervisor, on_transition, transition}
use spout_relay.App.Supervisor.State.Reports.{notify-on_transition}
use spout_relay.App.Supervisor.EncodeThread.{Round}
use spout_relay.App.Supervisor.Resources.{
  OutputAnswers, connect_rtsp, choose_path, init_encoder_and_rtsp, drop_pump, teardown_encoder,
  note_stopped, teardown_rtsp, teardown_streaming,
}
use spout_relay.App.Supervisor.Ownership.Defs.{Owned, IsUsable, IsSound, IsReleased, Inv, Kept}
use spout_relay.App.Supervisor.Ownership.Thread.{CanStop, stop_encode_thread-Stopped}

pub Kept-refl : {s : Supervisor} → Kept s s
Kept-refl = record { machine = refl; config = refl; active = refl; requested = refl; told = refl }

-- Opening the output leaves thread and pump alone; on success encoder and session are there.
pub record Opened (s : Supervisor) (ready : Bool) (t : Supervisor) : Type 0 where
  pub kept : Kept s t
  pub thread : t.encode_thread ≡ s.encode_thread
  pub pump : t.frame_pump ≡ s.frame_pump
  pub encoder : ready ≡ true → is_some t.encoder ≡ true
  pub client : ready ≡ true → is_some t.rtsp_client ≡ true

pub connect_rtsp-Opened :
    (a : OutputAnswers) (e : Encoder) (s : Supervisor)
    → is_some s.encoder ≡ true
    → Opened s (connect_rtsp a e s).0 (connect_rtsp a e s).2
unfolding connect_rtsp if◌then◌else◌
connect_rtsp-Opened a e s h = ground arith

-- The encoder is not touched by a new session.
pub connect_rtsp-encoder :
    (a : OutputAnswers) (e : Encoder) (s : Supervisor) → (connect_rtsp a e s).2.encoder ≡ s.encoder
unfolding connect_rtsp if◌then◌else◌
connect_rtsp-encoder a e s = ground arith

pub init_encoder_and_rtsp-Opened :
    (a : OutputAnswers) (w h : ℕ) (s : Supervisor)
    → let (ready, _, t) = init_encoder_and_rtsp a w h s in Opened s ready t
unfolding init_encoder_and_rtsp connect_rtsp choose_path if◌then◌else◌
init_encoder_and_rtsp-Opened a w h s = ground arith

-- Teardown of the session leaves the rest alone.
pub record RtspDropped (s t : Supervisor) : Type 0 where
  pub kept : Kept s t
  pub thread : t.encode_thread ≡ s.encode_thread
  pub pump : t.frame_pump ≡ s.frame_pump
  pub encoder : t.encoder ≡ s.encoder
  pub no_client : t.rtsp_client ≡ none
  pub recoveries : t.consecutive_stall_recoveries ≡ s.consecutive_stall_recoveries
  pub receiver : t.spout_monitor ≡ s.spout_monitor

note_stopped-RtspDropped :
    (o : Option RtspClient) (s : Supervisor)
    → RtspDropped s (record (note_stopped o s) { rtsp_client = none })
unfolding note_stopped if◌then◌else◌
note_stopped-RtspDropped none s = ground arith
note_stopped-RtspDropped (some c) s = ground arith

pub teardown_rtsp-RtspDropped : (s : Supervisor) → RtspDropped s (teardown_rtsp s)
unfolding teardown_rtsp
teardown_rtsp-RtspDropped s = note_stopped-RtspDropped s.rtsp_client s

-- All is released, and the rest is as it was.
pub record Torn (s t : Supervisor) : Type 0 where
  pub kept : Kept s t
  pub released : IsReleased t

pub teardown_streaming-Torn :
    (pf : Platform) (last : Option Round) (s : Supervisor)
    → CanStop s
    → Returns (Torn s) (teardown_streaming pf last s)
unfolding teardown_streaming drop_pump teardown_encoder
teardown_streaming-Torn pf last s h =
    bind (stop_encode_thread-Stopped pf last s h)
      λ t st. returns (ground (arith, teardown_rtsp-RtspDropped (record t { frame_pump = none })))

relabel :
    (p : PublisherState) (s : Supervisor) (m : StateMachine Sinks) (w : Sinks)
    → Owned p s
    → Owned p (record s { state_machine = m; sinks = w })
relabel init s m w o = ground arith
relabel _ s m w o = ground arith

pub transition-eq :
    (to : PublisherState) (s : Supervisor)
    → can_transition s.state_machine to ≡ true
    → transition to s ≡ record s {
      state_machine = record s.state_machine { current = to };
      sinks = notify s.state_machine.callback s.state_machine.current to s.sinks;
    }
unfolding transition transition_to if◌then◌else◌
transition-eq to s h = rw h refl

-- A permitted transition enters its state with what that state owns, and tells the metrics.
pub begin :
    (from to : PublisherState) (s : Supervisor)
    → s.state_machine.current ≡ from
    → contains valid_transitions from to ≡ true
    → Owned to s
    → IsUsable s.config
    → s.state_machine.callback ≡ some on_transition
    → Inv (transition to s)
unfolding can_transition
begin from to s e v o u c = subst Inv (sym (transition-eq to s (rw e v))) (record {
  owned = relabel to s _ _ o;
  usable = record {
    has_fps = u.has_fps;
    polls = u.polls;
    callback = c;
    told = notify-on_transition s.state_machine.callback s.state_machine.current to s.sinks c;
  };
})

pub enter :
    (from to : PublisherState) (s : Supervisor)
    → s.state_machine.current ≡ from
    → contains valid_transitions from to ≡ true
    → Owned to s
    → IsSound s.config s.state_machine s.sinks.metrics.current_state
    → Inv (transition to s)
enter from to s e v o u =
    begin from to s e v o (record { has_fps = u.has_fps; polls = u.polls }) u.callback

-- One that the table does not have changes nothing.
pub refused :
    (from to : PublisherState) (s : Supervisor)
    → s.state_machine.current ≡ from
    → contains valid_transitions from to ≡ false
    → transition to s ≡ s
unfolding can_transition transition transition_to if◌then◌else◌
refused from to s e v = rw (e, v) refl

pub IsSound-Kept :
    {s t : Supervisor}
    → Kept s t
    → IsSound s.config s.state_machine s.sinks.metrics.current_state
    → IsSound t.config t.state_machine t.sinks.metrics.current_state
IsSound-Kept k u = ground arith

-- The same behind a run that kept the state machine.
pub arrive :
    (from to : PublisherState) {s t : Supervisor}
    → Kept s t
    → s.state_machine.current ≡ from
    → contains valid_transitions from to ≡ true
    → Owned to t
    → IsSound s.config s.state_machine s.sinks.metrics.current_state
    → Inv (transition to t)
arrive from to {s} {t} k e v o u =
    enter from to t (ap (λ (m : StateMachine Sinks). m.current) k.machine ∙ e) v o
      (IsSound-Kept k u)

-- What the invariant says in a known state.
pub own : (p : PublisherState) {s : Supervisor} → s.state_machine.current ≡ p → Inv s → Owned p s
own p {s} e inv = subst (λ q. Owned q s) e inv.owned

-- A state that keeps its place in the table.
pub stay :
    (p : PublisherState) {s t : Supervisor}
    → Kept s t
    → s.state_machine.current ≡ p
    → Owned p t
    → IsSound s.config s.state_machine s.sinks.metrics.current_state
    → Inv t
stay p {s} {t} k e o u = record {
  owned = subst (λ q. Owned q t) (sym (ap (λ (m : StateMachine Sinks). m.current) k.machine ∙ e)) o;
  usable = IsSound-Kept k u;
}

-- On a request to stop: all is torn down, and STOPPING entered.
pub stop_with_teardown :
    (pf : Platform) (from : PublisherState) (last : Option Round) (r s : Supervisor)
    → Kept r s
    → r.state_machine.current ≡ from
    → contains valid_transitions from stopping ≡ true
    → IsSound r.config r.state_machine r.sinks.metrics.current_state
    → s.shutdown_requested ≡ true
    → CanStop s
    → Returns (λ t. Inv (transition stopping t)) (teardown_streaming pf last s)
stop_with_teardown pf from last r s k e v u stop can =
    weaken (teardown_streaming-Torn pf last s can)
      λ t torn. arrive from stopping {s = r} {t = t} (ground arith) e v (ground arith) u
