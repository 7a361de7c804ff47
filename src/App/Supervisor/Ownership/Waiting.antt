-- ===== src/App/Supervisor/Ownership/Waiting.antt =====
-- The handlers of src/app/supervisor.cpp that run without a source: IDLE and PROBING.
use spout_relay.Base.{◌≡◌, refl, arith, choose, if◌then◌else◌}
use spout_relay.Common.Types.{idle, probing, placeholder, connecting_output, stopping}
use spout_relay.App.StateMachine.{contains, valid_transitions, same}
use spout_relay.App.Supervisor.State.{Supervisor, poll_stop}
use spout_relay.App.Supervisor.Handlers.Probing.{
  IdleInputs, ProbingInputs, handle_idle, handle_probing, keep_probing, note_searching,
}
use spout_relay.App.Supervisor.Ownership.Defs.{Inv, Kept, IsWaiting, IsSound}
use spout_relay.App.Supervisor.Ownership.Helpers.{enter, arrive, own, stay}

pub handle_idle-Inv :
    (a : IdleInputs) (s : Supervisor)
    → s.state_machine.current ≡ idle
    → Inv s
    → Inv (handle_idle a s)
unfolding handle_idle poll_stop contains valid_transitions same
handle_idle-Inv a s e inv =
    let o : IsWaiting s = own idle e inv in
    choose Inv _
      (λ stop.
        enter idle stopping _ e refl (record { no_thread = o.no_thread; requested = stop })
          inv.usable)
      (λ _.
        enter idle probing _ e refl
          (record { no_thread = o.no_thread; no_pump = o.no_pump; inactive = o.inactive })
          inv.usable)

-- What PROBING does to a state that waits.
record Searching (s t : Supervisor) : Type 0 where
  kept : Kept s t
  waiting : IsWaiting t

note_searching-Searching :
    (a : ProbingInputs) (s : Supervisor) → IsWaiting s → Searching s (note_searching a s)
unfolding note_searching if◌then◌else◌
note_searching-Searching a s o = ground arith

keep_probing-Inv :
    (a : ProbingInputs) (s : Supervisor)
    → s.state_machine.current ≡ probing
    → IsWaiting s
    → IsSound s.config s.state_machine s.sinks.metrics.current_state
    → Inv (keep_probing a s)
unfolding keep_probing contains valid_transitions same
keep_probing-Inv a s e o u =
    let n = note_searching-Searching a s o in
    choose Inv _
      (λ _.
        choose Inv _ (λ _. stay probing n.kept e n.waiting u)
          (λ _. arrive probing placeholder {s = s} (ground arith) e refl (ground arith) u))
      (λ _. stay probing n.kept e n.waiting u)

pub handle_probing-Inv :
    (a : ProbingInputs) (s : Supervisor)
    → s.state_machine.current ≡ probing
    → Inv s
    → Inv (handle_probing a s)
unfolding handle_probing poll_stop contains valid_transitions same
handle_probing-Inv a s e inv =
    let o : IsWaiting s = own probing e inv in
    choose Inv _
      (λ stop.
        enter probing stopping _ e refl (record { no_thread = o.no_thread; requested = stop })
          inv.usable)
      (λ _.
        choose Inv _
          (λ _.
            choose Inv _ (λ _. keep_probing-Inv a _ e (ground arith) inv.usable)
              (λ _. enter probing connecting_output _ e refl (ground arith) inv.usable))
          (λ _. keep_probing-Inv a _ e (ground arith) inv.usable))
