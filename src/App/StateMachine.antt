-- ===== src/App/StateMachine.antt =====
-- src/app/state_machine.cpp and state_machine.hpp. `W` is what the transition callback changes.
pub mod Diagram
use spout_relay.Base.{
  ℕ, ◌==◌, ◌&&◌, Bool, true, false, Option, none, some, List, [], ◌∷◌, if◌then◌else◌, ◌||◌, not,
}
use spout_relay.Common.Types.{
  PublisherState, init, idle, probing, placeholder, connecting_output, streaming, stalled,
  reconfiguring, reconnecting_output, recovering_device, stopping, fatal,
}

unfoldable pub valid_transitions : List (PublisherState × PublisherState)
valid_transitions =
    (init, idle)
    ∷ (init, fatal)
    ∷ (idle, probing)
    ∷ (idle, stopping)
    ∷ (probing, idle)
    ∷ (probing, connecting_output)
    ∷ (probing, placeholder)
    ∷ (probing, stopping)
    ∷ (placeholder, connecting_output)
    ∷ (placeholder, stopping)
    ∷ (connecting_output, streaming)
    ∷ (connecting_output, probing)
    ∷ (connecting_output, stopping)
    ∷ (connecting_output, fatal)
    ∷ (streaming, stalled)
    ∷ (streaming, reconfiguring)
    ∷ (streaming, reconnecting_output)
    ∷ (streaming, stopping)
    ∷ (streaming, idle)
    ∷ (streaming, probing)
    ∷ (stalled, streaming)
    ∷ (stalled, reconnecting_output)
    ∷ (stalled, stopping)
    ∷ (stalled, idle)
    ∷ (stalled, probing)
    ∷ (stalled, placeholder)
    ∷ (reconfiguring, streaming)
    ∷ (reconfiguring, stopping)
    ∷ (reconfiguring, fatal)
    ∷ (streaming, recovering_device)
    ∷ (stalled, recovering_device)
    ∷ (recovering_device, probing)
    ∷ (recovering_device, fatal)
    ∷ (recovering_device, stopping)
    ∷ (reconnecting_output, streaming)
    ∷ (reconnecting_output, stopping)
    ∷ (reconnecting_output, fatal)
    ∷ (stopping, idle)
    ∷ []

-- `static_cast<int>` of an enumerator, by which the pairs are compared.
abbrev pub ordinal : PublisherState → ℕ
ordinal init = 0
ordinal idle = 1
ordinal probing = 2
ordinal placeholder = 3
ordinal connecting_output = 4
ordinal streaming = 5
ordinal stalled = 6
ordinal reconfiguring = 7
ordinal reconnecting_output = 8
ordinal recovering_device = 9
ordinal stopping = 10
ordinal fatal = 11

unfoldable pub same : PublisherState → PublisherState → Bool
same a b = ordinal a == ordinal b

-- `valid_transitions_.count({from, to}) > 0`.
unfoldable pub contains :
    List (PublisherState × PublisherState) → PublisherState → PublisherState → Bool
unfolding same
contains [] from to = false
contains ((a, b) ∷ rest) from to = (same a from && same b to) || contains rest from to

pub record StateMachine {ℓ} (W : Type ℓ) : Type ℓ where
  pub current : PublisherState
  pub callback : Option (PublisherState → PublisherState → W → W)

module _ {ℓ} {W : Type ℓ} where
  unfoldable pub can_transition : StateMachine W → PublisherState → Bool
  can_transition m to = contains valid_transitions m.current to

  -- `if (callback_) callback_(from, to)`.
  unfoldable pub notify :
      Option (PublisherState → PublisherState → W → W) → PublisherState → PublisherState → W → W
  notify none from to w = w
  notify (some cb) from to w = cb from to w

  unfoldable pub transition_to : StateMachine W → PublisherState → W → Bool × StateMachine W × W
  transition_to m to w =
      if not (can_transition m to)
      then (false, m, w)
      else (true, record m { current = to }, notify m.callback m.current to w)

unfoldable pub initial {ℓ} : {W : Type ℓ} → StateMachine W
initial = record { current = init; callback = none }
