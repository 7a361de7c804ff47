-- ===== src/App/Supervisor/State/Reports.antt =====
-- What the transition callback of `Supervisor::init` in src/app/supervisor.cpp keeps in step.
use spout_relay.Base.{Bool, not, Option, some, ◌≡◌, refl, List, [], ◌∷◌, choose}
use spout_relay.Common.Types.{PublisherState, state_name}
use spout_relay.App.StateMachine.{StateMachine, transition_to, can_transition, notify}
use spout_relay.App.Supervisor.State.{Sinks, Supervisor, on_transition, transition}

-- The callback is installed, and the metrics name the current state.
pub record IsReported (s : Supervisor) : Type 0 where
  pub callback : s.state_machine.callback ≡ some on_transition
  pub name : s.sinks.metrics.current_state ≡ state_name s.state_machine.current

unfoldable pub transitions : List PublisherState → Supervisor → Supervisor
transitions [] s = s
transitions (to ∷ rest) s = transitions rest (transition to s)

pub notify-on_transition :
    (callback : Option (PublisherState → PublisherState → Sinks → Sinks)) (from to : PublisherState)
    (w : Sinks)
    → callback ≡ some on_transition
    → (notify callback from to w).metrics.current_state ≡ state_name to
unfolding notify on_transition
notify-on_transition callback from to w e = rw e refl

transition-IsReported :
    (to : PublisherState) (s : Supervisor) → IsReported s → IsReported (transition to s)
unfolding transition transition_to
transition-IsReported to s h =
    choose
      (λ (r : Bool × StateMachine Sinks × Sinks).
        IsReported (record s { state_machine = r.1; sinks = r.2 }))
      (not (can_transition s.state_machine to))
      (λ _. record { callback = h.callback; name = h.name })
      (λ _. record {
        callback = h.callback;
        name =
            notify-on_transition s.state_machine.callback s.state_machine.current to s.sinks
              h.callback;
      })

-- Once the callback is installed and the metrics name the current state, they do so after any
-- sequence of transitions that is asked for, refused ones included.
pub transitions-IsReported :
    (requests : List PublisherState) (s : Supervisor)
    → IsReported s
    → IsReported (transitions requests s)
unfolding transitions
transitions-IsReported [] s h = h
transitions-IsReported (to ∷ rest) s h =
    transitions-IsReported rest _ (transition-IsReported to s h)
