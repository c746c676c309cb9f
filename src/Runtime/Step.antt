-- ===== src/Runtime/Step.antt =====
-- The transitions of `ExecutionState` as a relation, one rule for each way out of `Apply`.
use sandcode.Base.{
  ℕ, ◌+◌, ◌≤◌, ◌<◌, ◌≡◌, refl, inl, inr, Option, none, some, true, false, arith, leb, Bool-cases,
  leb→le,
}
use sandcode.Event.{Event}
use sandcode.Runtime.Phase.{Phase, is_terminal}
use sandcode.Runtime.Transitions.{lookup_transition, is_observation_only}
use sandcode.Runtime.StateMachine.{
  ExecutionState, Clock, ApplyError, terminal, mismatched_run_id, invalid_transition, record_event,
  cap_exceeded, enter, follow, mismatched, is_refine, apply,
}

pub data Step (c : Clock) (ev : Event) (s : ExecutionState)
    : ExecutionState × Option ApplyError → Type 0 where
  closed : is_terminal s.phase ≡ true → Step c ev s (s, some terminal)
  foreign : mismatched ev.run_id s.run_id ≡ true → Step c ev s (s, some mismatched_run_id)
  unknown :
      is_observation_only ev.type ≡ false
      → lookup_transition s.phase ev.type ≡ none
      → Step c ev s (s, some invalid_transition)
  observed :
      is_terminal s.phase ≡ false
      → is_observation_only ev.type ≡ true
      → Step c ev s (record_event c ev s, none)
  capped :
      (next : Phase)
      → lookup_transition s.phase ev.type ≡ some next
      → is_refine ev.type ≡ true
      → s.max_attempts ≤ s.attempt
      → Step c ev s (cap_exceeded c ev s, none)
  refined :
      (next : Phase)
      → lookup_transition s.phase ev.type ≡ some next
      → is_refine ev.type ≡ true
      → s.attempt < s.max_attempts
      → Step c ev s (enter c next ev (record s { attempt = s.attempt + 1 }), none)
  moved :
      (next : Phase)
      → lookup_transition s.phase ev.type ≡ some next
      → is_refine ev.type ≡ false
      → Step c ev s (enter c next ev s, none)

leb_false→lt : (a b : ℕ) → leb a b ≡ false → b < a
leb_false→lt a b h = ground arith

module _ (c : Clock) (ev : Event) (s : ExecutionState) where
  follow-Step :
      (o : Option Phase)
      → lookup_transition s.phase ev.type ≡ o
      → is_observation_only ev.type ≡ false
      → Step c ev s (follow c ev s o)
  unfolding follow
  follow-Step none e watched = unknown watched e
  follow-Step (some next) e watched = elim (Bool-cases (is_refine ev.type)) [
    | inr q ↦ rw q (moved next e q)
    | inl q ↦ elim (Bool-cases (leb s.max_attempts s.attempt)) [
      | inl r ↦ rw (q, r) (capped next e q (leb→le s.max_attempts s.attempt r))
      | inr r ↦ rw (q, r) (refined next e q (leb_false→lt s.max_attempts s.attempt r))
    ]
  ]

  -- `Apply` takes one of these steps, whatever the event and the state.
  pub apply-Step : Step c ev s (apply c ev s)
  unfolding apply
  apply-Step = elim (Bool-cases (is_terminal s.phase)) [
    | inl t ↦ rw t (closed t)
    | inr t ↦ elim (Bool-cases (mismatched ev.run_id s.run_id)) [
      | inl m ↦ rw (t, m) (foreign m)
      | inr m ↦ elim (Bool-cases (is_observation_only ev.type)) [
        | inl o ↦ rw (t, m, o) (observed t o)
        | inr o ↦ rw (t, m, o) (follow-Step (lookup_transition s.phase ev.type) refl o)
      ]
    ]
  ]
