-- ===== src/Runtime/Table.antt =====
-- What the transition table promises, for every pair of a phase and an event.
use sandcode.Base.{◌≡◌, true, none, arith}
use sandcode.Event.{EventType}
use sandcode.Runtime.Phase.{Phase, is_terminal}
use sandcode.Runtime.Transitions.{lookup_transition, is_observation_only}

-- No entry of the table is keyed by an event that only observes.
pub observation-no_transition :
    (p : Phase) (t : EventType) → is_observation_only t ≡ true → lookup_transition p t ≡ none
unfolding lookup_transition is_observation_only
observation-no_transition p t h = ground arith

-- No entry leaves a terminal phase.
pub terminal-no_transition :
    (p : Phase) (t : EventType) → is_terminal p ≡ true → lookup_transition p t ≡ none
unfolding lookup_transition is_terminal
terminal-no_transition p t h = ground arith
