-- ===== src/Runtime/Invariant.antt =====
-- What holds of a run's state between two events.
use sandcode.Base.{ℕ, ◌+◌, ◌≤◌, ◌≡◌, refl, ◌≢◌, String, Option, none, some, arith}
use sandcode.Event.{Event, EventType}
use sandcode.Runtime.Phase.{Phase, reporting, learning, failed}
use sandcode.Runtime.Transitions.{lookup_transition}
use sandcode.Runtime.Step.{
  Step, closed, foreign, unknown, observed, capped, refined, moved, apply-Step,
}
use sandcode.Runtime.StateMachine.{
  ExecutionState, Clock, ApplyError, cap_message, new_execution_state, record_event, mark_terminal,
  capture_error, cap_exceeded, enter, apply,
}

-- The phases that the table can reach, and the bounds on the attempt counter.
pub record IsValid (s : ExecutionState) : Type 0 where
  pub one_attempt : 1 ≤ s.attempt
  pub capped : s.attempt ≤ s.max_attempts
  pub not_reporting : s.phase ≢ reporting
  pub not_learning : s.phase ≢ learning

pub new-IsValid : (now : ℕ) (run : String) → IsValid (new_execution_state now run)
unfolding new_execution_state
new-IsValid now run = ground arith

-- Every entry of the table leads to a phase that some event can leave or that ends the run.
lookup-ne-reporting : (p : Phase) (t : EventType) → lookup_transition p t ≢ some reporting
unfolding lookup_transition
lookup-ne-reporting p t h = ground arith

lookup-ne-learning : (p : Phase) (t : EventType) → lookup_transition p t ≢ some learning
unfolding lookup_transition
lookup-ne-learning p t h = ground arith

-- `enter` and `cap_exceeded` touch the counters in one way each.
module _ (c : Clock) (ev : Event) (s : ExecutionState) where
  pub enter_fields :
      (next : Phase)
      → let t = enter c next ev s in
        (t.phase ≡ next)
        × (t.attempt ≡ s.attempt)
        × (t.max_attempts ≡ s.max_attempts)
        × (t.event_count ≡ s.event_count + 1)
        × (t.last_event_id ≡ ev.id)
        × (t.run_id ≡ s.run_id)
        × (t.created_at ≡ s.created_at)
  unfolding enter capture_error mark_terminal record_event
  enter_fields next = ground arith

  pub cap_fields :
      let t = cap_exceeded c ev s in
      (t.phase ≡ failed)
      × (t.attempt ≡ s.attempt)
      × (t.max_attempts ≡ s.max_attempts)
      × (t.event_count ≡ s.event_count + 1)
      × (t.last_event_id ≡ ev.id)
      × (t.run_id ≡ s.run_id)
      × (t.created_at ≡ s.created_at)
      × (t.last_error ≡ cap_message s.attempt s.max_attempts)
  unfolding cap_exceeded mark_terminal record_event
  cap_fields = ground arith

Step-IsValid :
    {c : Clock} {ev : Event} {s : ExecutionState} {r : ExecutionState × Option ApplyError}
    → Step c ev s r
    → IsValid s
    → IsValid r.0
Step-IsValid (closed t) v = v
Step-IsValid (foreign m) v = v
Step-IsValid (unknown o e) v = v
Step-IsValid (observed t o) v = unfold record_event in ground arith
Step-IsValid {c} {ev} {s} (capped next e q h) v = ground (arith, cap_fields c ev s)
Step-IsValid {c} {ev} {s} (refined next e q h) v = ground (
  arith,
  enter_fields c ev (record s { attempt = s.attempt + 1 }) next,
  lookup-ne-reporting s.phase ev.type,
  lookup-ne-learning s.phase ev.type,
)
Step-IsValid {c} {ev} {s} (moved next e q) v = ground (
  arith,
  enter_fields c ev s next,
  lookup-ne-reporting s.phase ev.type,
  lookup-ne-learning s.phase ev.type,
)

Step-unchanged :
    {c : Clock} {ev : Event} {s : ExecutionState} {r : ExecutionState × Option ApplyError}
    {e : ApplyError}
    → Step c ev s r
    → r.1 ≡ some e
    → r.0 ≡ s
Step-unchanged (closed t) h = refl
Step-unchanged (foreign m) h = refl
Step-unchanged (unknown o e) h = refl
Step-unchanged _ h = cc

-- What an accepted event leaves behind, whichever rule accepts it.
abbrev pub Accepted : Event → ExecutionState → ExecutionState → Type 0
Accepted ev s t =
    (t.event_count ≡ s.event_count + 1)
    × (t.last_event_id ≡ ev.id)
    × (t.run_id ≡ s.run_id)
    × (t.created_at ≡ s.created_at)
    × (t.max_attempts ≡ s.max_attempts)

Step-Accepted :
    {c : Clock} {ev : Event} {s : ExecutionState} {r : ExecutionState × Option ApplyError}
    → Step c ev s r
    → r.1 ≡ none
    → Accepted ev s r.0
Step-Accepted (observed t o) h = unfold record_event in ground arith
Step-Accepted {c} {ev} {s} (capped next e q l) h = ground (arith, cap_fields c ev s)
Step-Accepted {c} {ev} {s} (refined next e q l) h =
    ground (arith, enter_fields c ev (record s { attempt = s.attempt + 1 }) next)
Step-Accepted {c} {ev} {s} (moved next e q) h = ground (arith, enter_fields c ev s next)
Step-Accepted _ h = cc

module _ (c : Clock) (ev : Event) (s : ExecutionState) where
  -- From a state with 1 ≤ attempt ≤ max_attempts in a phase other than reporting and learning, any
  -- event, accepted or not, leads to such a state.
  pub apply-IsValid : IsValid s → IsValid (apply c ev s).0
  apply-IsValid v = Step-IsValid (apply-Step c ev s) v

  -- An event that is refused leaves the state as it was.
  pub apply_error_unchanged : {e : ApplyError} → (apply c ev s).1 ≡ some e → (apply c ev s).0 ≡ s
  apply_error_unchanged h = Step-unchanged (apply-Step c ev s) h

  -- An event that is accepted is counted once and its id is kept; the run's id, its start and its
  -- cap on attempts stay.
  pub apply-Accepted : (apply c ev s).1 ≡ none → Accepted ev s (apply c ev s).0
  apply-Accepted h = Step-Accepted (apply-Step c ev s) h
