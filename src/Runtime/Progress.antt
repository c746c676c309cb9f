-- ===== src/Runtime/Progress.antt =====
-- What `completed` needs: which phases follow the end of an agent.
use mathlib.Core.List.{Memᴰ}
use sandcode.Base.{
  ℕ, ◌+◌, ◌≡◌, sym, ◌⊎◌, inl, inr, List, [], ◌∷◌, map, Option, none, some, Bool, true, false, arith,
  Bool-cases,
}
use sandcode.Event.{Event, EventType}
use sandcode.Runtime.Phase.{
  Phase, submitted, agent_completed, verifying, refining, linting, completed, failed,
}
use sandcode.Runtime.Transitions.{lookup_transition}
use sandcode.Runtime.StateMachine.{ExecutionState, Clock, ApplyError, record_event, apply}
use sandcode.Runtime.Step.{
  Step, closed, foreign, unknown, observed, capped, refined, moved, apply-Step,
}
use sandcode.Runtime.Invariant.{enter_fields, cap_fields}
use sandcode.Runtime.Replay.{continue, replay_from}

-- The phases that follow the end of an agent's execution.
abbrev has_run : Phase → Bool
has_run agent_completed = true
has_run verifying = true
has_run refining = true
has_run linting = true
has_run completed = true
has_run _ = false

has_run-lookup :
    (p q : Phase) (t : EventType)
    → lookup_transition p t ≡ some q
    → has_run q ≡ true
    → (has_run p ≡ true) ⊎ (t ≡ EventType.agent_completed)
unfolding lookup_transition
has_run-lookup p q t e h = ground arith

-- A refine leaves the phases that follow an execution.
has_run-Step :
    {c : Clock} {ev : Event} {s : ExecutionState} {r : ExecutionState × Option ApplyError}
    → Step c ev s r
    → has_run r.0.phase ≡ true
    → (has_run s.phase ≡ true) ⊎ (ev.type ≡ EventType.agent_completed)
has_run-Step (closed t) h = inl h
has_run-Step (foreign m) h = inl h
has_run-Step (unknown o e) h = inl h
has_run-Step (observed t o) h = inl (unfold record_event in h)
has_run-Step {c} {ev} {s} (capped next e q l) h = absurd (no_failed (rw (cap_fields c ev s).0 at h))
  where
    no_failed : has_run failed ≡ true → ⊥
    no_failed e = cc
has_run-Step {c} {ev} {s} (refined next e q l) h =
    has_run-lookup s.phase next ev.type e
      (rw (enter_fields c ev (record s { attempt = s.attempt + 1 }) next).0 at h)
has_run-Step {c} {ev} {s} (moved next e q) h =
    has_run-lookup s.phase next ev.type e (rw (enter_fields c ev s next).0 at h)

abbrev pub types : List Event → List EventType
types = map (λ ev. ev.type)

-- One step of the loop: either the run had passed its agent before, or this event or a later one
-- reports it.
has_run-continue :
    {c : Clock} {ev : Event} {s : ExecutionState} (clock : ℕ → Clock) (events : List Event) (i : ℕ)
    (ih : (u : ExecutionState)
      → has_run u.phase ≡ false
      → has_run (replay_from clock events (i + 1) u).0.phase ≡ true
      → Memᴰ EventType.agent_completed (types events))
    (r : ExecutionState × Option ApplyError)
    → Step c ev s r
    → has_run s.phase ≡ false
    → has_run (continue (λ j t. replay_from clock events j t) i ev.type r).0.phase ≡ true
    → Memᴰ EventType.agent_completed (types (ev ∷ events))
has_run-continue clock events i ih (u, some e) st not_yet done = elim (has_run-Step st done) [
  | inl before ↦ cc
  | inr now ↦ Memᴰ.head (sym now)
]
has_run-continue clock events i ih (u, none) st not_yet done = elim (Bool-cases (has_run u.phase)) [
  | inr later ↦ Memᴰ.tail (ih u later done)
  | inl already ↦ elim (has_run-Step st already) [ inl before ↦ cc | inr now ↦ Memᴰ.head (sym now) ]
]

replay_from-has_run :
    (clock : ℕ → Clock) (events : List Event) (i : ℕ) (s : ExecutionState)
    → has_run s.phase ≡ false
    → has_run (replay_from clock events i s).0.phase ≡ true
    → Memᴰ EventType.agent_completed (types events)
unfolding replay_from
replay_from-has_run clock [] i s not_yet done = cc
replay_from-has_run clock (ev ∷ events) i s not_yet done =
    has_run-continue clock events i (λ u q r. replay_from-has_run clock events (i + 1) u q r)
      (apply (clock i) ev s) (apply-Step (clock i) ev s) not_yet done

-- Whatever the log and wherever its replay stops, a run that began in `submitted` is completed only
-- if the log holds an `agent.completed` event.
pub completed_needs_agent :
    (clock : ℕ → Clock) (events : List Event) (i : ℕ) (s : ExecutionState)
    → s.phase ≡ submitted
    → (replay_from clock events i s).0.phase ≡ completed
    → Memᴰ EventType.agent_completed (types events)
completed_needs_agent clock events i s start done =
    replay_from-has_run clock events i s (rw start) (rw done)
