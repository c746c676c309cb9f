-- ===== src/Runtime/Replay.antt =====
-- internal/runtime/statemachine.go: `Replay`, the loop of `Apply` over a log.
use sandcode.Base.{ℕ, ◌+◌, String, List, [], ◌∷◌, Option, none, some, ◌==◌, str_eq, if◌then◌else◌}
use sandcode.Event.{Event, EventType}
use sandcode.Runtime.StateMachine.{ExecutionState, Clock, ApplyError, new_execution_state, apply}

pub data ReplayError : Type 0 where
  empty_run_id : ReplayError
  -- the index and type of the event that was refused, and why
  step : ℕ → EventType → ApplyError → ReplayError

-- What the loop does with the answer of one `Apply`: stop at an error, go on without.
abbrev pub continue :
    (ℕ → ExecutionState → ExecutionState × Option ReplayError)
    → ℕ
    → EventType
    → ExecutionState × Option ApplyError
    → ExecutionState × Option ReplayError
continue rest i typ (s, none) = rest (i + 1) s
continue rest i typ (s, some e) = (s, some (step i typ e))

-- The loop from step `i` on; the clock may answer anew at each step.
unfoldable pub replay_from :
    (ℕ → Clock) → List Event → ℕ → ExecutionState → ExecutionState × Option ReplayError
replay_from clock [] i s = (s, none)
replay_from clock (ev ∷ events) i s =
    continue (λ j t. replay_from clock events j t) i ev.type (apply (clock i) ev s)

abbrev first_run_id : String → List Event → String
first_run_id run [] = run
first_run_id run (ev ∷ events) = if str_eq ev.run_id "" then run else ev.run_id

-- `CreatedAt` and `UpdatedAt` are anchored to the first event that has a time.
abbrev anchor : List Event → ExecutionState → ExecutionState
anchor [] s = s
anchor (ev ∷ events) s =
    if ev.timestamp == 0
    then s
    else record s { created_at = ev.timestamp; updated_at = ev.timestamp }

abbrev with_state : ExecutionState × Option ReplayError → Option ExecutionState × Option ReplayError
with_state (s, e) = (some s, e)

-- `now` is what `NewExecutionState` reads from the clock.
unfoldable pub replay :
    (ℕ → Clock) → ℕ → String → List Event → Option ExecutionState × Option ReplayError
unfolding replay_from new_execution_state
replay clock now run events =
    let id = first_run_id run events in
    if str_eq id ""
    then (none, some empty_run_id)
    else with_state (replay_from clock events 0 (anchor events (new_execution_state now id)))
