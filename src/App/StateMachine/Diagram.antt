-- ===== src/App/StateMachine/Diagram.antt =====
-- The transitions of docs/state-machine.md, and the runs of src/app/state_machine.cpp along them.
use spout_relay.Base.{
  Bool, true, false, not, List, [], ◌∷◌, some, ◌≡◌, refl, sym, ap, subst, ◌∙◌, arith, ◌||◌, choose,
}
use spout_relay.Common.Types.{
  PublisherState, init, idle, probing, placeholder, connecting_output, streaming, stalled,
  reconfiguring, reconnecting_output, recovering_device, stopping, fatal,
}
use spout_relay.App.StateMachine.{
  StateMachine, same, contains, valid_transitions, can_transition, notify, transition_to,
}

-- The column "To" of the table for each state of the column "From".
unfoldable pub targets : PublisherState → List PublisherState
targets init = idle ∷ fatal ∷ []
targets idle = probing ∷ stopping ∷ []
targets probing = connecting_output ∷ idle ∷ placeholder ∷ stopping ∷ []
targets placeholder = connecting_output ∷ stopping ∷ []
targets connecting_output = streaming ∷ probing ∷ stopping ∷ fatal ∷ []
targets streaming =
    stalled ∷ reconfiguring ∷ reconnecting_output ∷ stopping ∷ idle ∷ probing ∷ recovering_device
    ∷ []
targets stalled =
    streaming ∷ reconnecting_output ∷ probing ∷ placeholder ∷ idle ∷ stopping ∷ recovering_device
    ∷ []
targets recovering_device = probing ∷ fatal ∷ stopping ∷ []
targets reconfiguring = streaming ∷ stopping ∷ fatal ∷ []
targets reconnecting_output = streaming ∷ fatal ∷ stopping ∷ []
targets stopping = idle ∷ []
targets fatal = []

unfoldable pub is_target : PublisherState → List PublisherState → Bool
is_target to [] = false
is_target to (p ∷ ps) = same p to || is_target to ps

contains-targets :
    (p to : PublisherState) → contains valid_transitions p to ≡ is_target to (targets p)
unfolding contains valid_transitions is_target targets same
contains-targets _ to = ground arith

-- The table of the code permits exactly the transitions of the documented table.
pub can_transition-targets :
    {W : Type 0} (m : StateMachine W) (to : PublisherState)
    → can_transition m to ≡ is_target to (targets m.current)
unfolding can_transition
can_transition-targets m to = contains-targets m.current to

-- Requests made of a machine one after the other.
unfoldable pub request_all :
    {W : Type 0} → List PublisherState → StateMachine W → W → StateMachine W × W
request_all [] m w = (m, w)
request_all (to ∷ rest) m w = let (_, m', w') = transition_to m to w in request_all rest m' w'

-- The transitions that a callback was told of, newest first: a walk in the diagram from `p` to `q`.
pub data Walk (p : PublisherState)
    : PublisherState → List (PublisherState × PublisherState) → Type 0 where
  still : Walk p p []
  then_to :
      {q : PublisherState} {history : List (PublisherState × PublisherState)}
      → Walk p q history
      → (r : PublisherState) → is_target r (targets q) ≡ true
      → Walk p r ((q, r) ∷ history)

abbrev pub History : Type 0
History = List (PublisherState × PublisherState)

-- The machine with a callback that notes what it is told.
abbrev pub noting : PublisherState → StateMachine History
noting p = record { current = p; callback = some (λ from to history. (from, to) ∷ history) }

-- Where a request leads a machine that notes.
record Noted (start : PublisherState) (m : StateMachine History) (history : History) : Type 0 where
  place : PublisherState
  machine : m ≡ noting place
  walk : Walk start place history

transition_to-Noted :
    (start p to : PublisherState) (history : History)
    → Walk start p history
    → let (_, m, history') = transition_to (noting p) to history in Noted start m history'
unfolding transition_to notify
transition_to-Noted start p to history w =
    choose (λ (r : Bool × StateMachine History × History). Noted start r.1 r.2)
      (not (can_transition (noting p) to)) (λ _. record { place = p; machine = refl; walk = w })
      (λ h. record {
        place = to;
        machine = refl;
        walk = then_to w to (sym (can_transition-targets (noting p) to) ∙ permitted h);
      })
  where
    permitted : {b : Bool} → not b ≡ false → b ≡ true
    permitted h = ground arith

request_all-Noted :
    (start : PublisherState) (requests : List PublisherState) (m : StateMachine History)
    (history : History)
    → Noted start m history
    → let (m', history') = request_all requests m history in Noted start m' history'
unfolding request_all
request_all-Noted start [] m history n = n
request_all-Noted start (to ∷ rest) m history n = request_all-Noted start rest _ _ (
    subst (λ k. let (_, m', history') = transition_to k to history in Noted start m' history')
      (sym n.machine) (transition_to-Noted start n.place to history n.walk))

-- Whatever is requested of a state machine, and in whatever order, the transitions that its callback
-- is told of are a walk in the documented diagram from the state it was in to the state it ends
-- in: each starts where the one before it ended, none is left out, and a refused request is neither
-- told of nor changes the state.
pub request_all-Walk :
    (start : PublisherState) (requests : List PublisherState)
    → let (m, history) = request_all requests (noting start) [] in Walk start m.current history
request_all-Walk start requests =
    let n =
      request_all-Noted start requests (noting start) []
        (record { place = start; machine = refl; walk = still }) in
    subst (λ q. Walk start q (request_all requests (noting start) []).1)
      (sym (ap (λ (m : StateMachine History). m.current) n.machine)) n.walk
