-- ===== src/Runtime/History.antt =====
-- What holds of `Replay` over every log of events.
use sandcode.Base.{
  ℕ, ◌+◌, ◌≡◌, refl, ◌⊎◌, inl, inr, List, [], ◌∷◌, Option, none, some, true, false, arith, length,
  if◌then◌else◌,
}
use sandcode.Event.{Event, EventType}
use sandcode.Runtime.Phase.{is_terminal}
use sandcode.Runtime.Transitions.{is_observation_only}
use sandcode.Runtime.StateMachine.{
  ExecutionState, Clock, ApplyError, terminal, record_event, is_refine, apply,
}
use sandcode.Runtime.Step.{Step, observed, capped, refined, moved, apply-Step}
use sandcode.Runtime.Invariant.{IsValid, apply-IsValid, apply-Accepted, enter_fields, cap_fields}
use sandcode.Runtime.Replay.{step, continue, replay_from}

-- What one step contributes to a replay that ends without an error.
replay_from-uncons :
    (clock : ℕ → Clock) (ev : Event) (events : List Event) (i : ℕ) (s t : ExecutionState)
    → replay_from clock (ev ∷ events) i s ≡ (t, none)
    → ((apply (clock i) ev s).1 ≡ none)
      × (replay_from clock events (i + 1) (apply (clock i) ev s).0 ≡ (t, none))
unfolding replay_from
replay_from-uncons clock ev events i s t h = ground arith

-- From a valid state, whatever the log and wherever it stops, the state is valid.
pub replay_from-IsValid :
    (clock : ℕ → Clock) (events : List Event) (i : ℕ) (s : ExecutionState)
    → IsValid s
    → IsValid (replay_from clock events i s).0
unfolding replay_from
replay_from-IsValid clock [] i s v = v
replay_from-IsValid clock (ev ∷ events) i s v =
    go (λ u w. replay_from-IsValid clock events (i + 1) u w) (apply (clock i) ev s)
      (apply-IsValid (clock i) ev s v)
  where
    go :
        ((u : ExecutionState) → IsValid u → IsValid (replay_from clock events (i + 1) u).0)
        → (r : ExecutionState × Option ApplyError) → IsValid r.0
        → IsValid (continue (λ j t. replay_from clock events j t) i ev.type r).0
    go ih (u, none) w = ih u w
    go ih (u, some e) w = w

-- A log that is read to its end was counted event by event, and the run's id, its start and its cap
-- on attempts are those of the state that it started from.
pub replay_from-counts :
    (clock : ℕ → Clock) (events : List Event) (i : ℕ) (s t : ExecutionState)
    → replay_from clock events i s ≡ (t, none)
    → (t.event_count ≡ s.event_count + length events)
      × (t.run_id ≡ s.run_id)
      × (t.created_at ≡ s.created_at)
      × (t.max_attempts ≡ s.max_attempts)
unfolding replay_from
replay_from-counts clock [] i s t h = ground arith
replay_from-counts clock (ev ∷ events) i s t h =
    let (ok, rest) = replay_from-uncons clock ev events i s t h in
    let s' = (apply (clock i) ev s).0 in
    ground
      (arith, apply-Accepted (clock i) ev s ok, replay_from-counts clock events (i + 1) s' t rest)

-- A terminal state refuses the next event of any log, and stays as it is.
pub replay_from-terminal :
    (clock : ℕ → Clock) (ev : Event) (events : List Event) (i : ℕ) (s : ExecutionState)
    → is_terminal s.phase ≡ true
    → replay_from clock (ev ∷ events) i s ≡ (s, some (step i ev.type terminal))
unfolding replay_from apply
replay_from-terminal clock ev events i s h = rw h

stays_stopped :
    (clock : ℕ → Clock) (events : List Event) (i : ℕ) (s t : ExecutionState)
    → is_terminal s.phase ≡ true
    → replay_from clock events i s ≡ (t, none)
    → is_terminal t.phase ≡ false
    → ⊥
unfolding replay_from
stays_stopped clock [] i s t stopped h live = ground arith
stays_stopped clock (ev ∷ events) i s t stopped h live =
    cc (replay_from-terminal clock ev events i s stopped)

-- How many of the events are `refine.triggered`.
abbrev pub refines : List Event → ℕ
refines [] = 0
refines (ev ∷ events) = (if is_refine ev.type then 1 else 0) + refines events

observed-not_refine : (t : EventType) → is_observation_only t ≡ true → is_refine t ≡ false
unfolding is_observation_only is_refine
observed-not_refine t h = ground arith

Step-attempt :
    {c : Clock} {ev : Event} {s : ExecutionState} {r : ExecutionState × Option ApplyError}
    → Step c ev s r
    → r.1 ≡ none
    → (is_terminal r.0.phase ≡ true)
      ⊎ (r.0.attempt ≡ s.attempt + (if is_refine ev.type then 1 else 0))
Step-attempt {c} {ev} {s} (observed t o) h =
    inr (unfold record_event in ground (arith, observed-not_refine ev.type o))
Step-attempt {c} {ev} {s} (capped next e q l) h =
    inl (rw (cap_fields c ev s).0 (unfold is_terminal in refl))
Step-attempt {c} {ev} {s} (refined next e q l) h =
    inr (ground (arith, enter_fields c ev (record s { attempt = s.attempt + 1 }) next))
Step-attempt {c} {ev} {s} (moved next e q) h = inr (ground (arith, enter_fields c ev s next))
Step-attempt _ h = cc

-- After a log that is read to its end without stopping in a terminal phase, the attempt counter has
-- risen by exactly the number of `refine.triggered` events.
pub replay_from-attempt :
    (clock : ℕ → Clock) (events : List Event) (i : ℕ) (s t : ExecutionState)
    → replay_from clock events i s ≡ (t, none)
    → is_terminal t.phase ≡ false
    → t.attempt ≡ s.attempt + refines events
unfolding replay_from
replay_from-attempt clock [] i s t h live = ground arith
replay_from-attempt clock (ev ∷ events) i s t h live =
    let (ok, rest) = replay_from-uncons clock ev events i s t h in
    let s' = (apply (clock i) ev s).0 in
    elim (Step-attempt (apply-Step (clock i) ev s) ok) [
      | inl stopped ↦ absurd (stays_stopped (clock) events (i + 1) s' t stopped rest live)
      | inr grown ↦ ground (arith, grown, replay_from-attempt clock events (i + 1) s' t rest live)
    ]
