-- ===== src/Orchestrator/Run/Phases.antt =====
-- internal/orchestrator/run.go against internal/runtime: what the state machine makes of the types of the
-- events of a run, where refused events are passed over, as the cache of the server does.
use sandcode.Base.{
  ℕ, ◌+◌, ◌≡◌, refl, ap, ◌∙◌, sym, subst, inl, inr, List, [], ◌∷◌, ◌++◌, Option, none, some, false,
  leb, if◌then◌else◌, arith, Bool-cases, All,
}
use sandcode.Event.{EventType, Event}
use sandcode.Runtime.Phase.{Phase, failed, is_terminal}
use sandcode.Runtime.Transitions.{lookup_transition, is_observation_only}
use sandcode.Runtime.Table.{observation-no_transition}
use sandcode.Runtime.Invariant.{enter_fields, cap_fields}
use sandcode.Runtime.Step.{
  Step, closed, foreign, unknown, observed, capped, refined, moved, apply-Step,
}
use sandcode.Runtime.StateMachine.{
  ExecutionState, Clock, ApplyError, is_refine, apply, mismatched, record_event,
}

-- A phase with the number of the attempt.
abbrev pub Point : Type 0
Point = Phase × ℕ

abbrev pub followed : ℕ → EventType → Point → Option Phase → Point
followed max t (p, n) none = (p, n)
followed max t (p, n) (some q) =
    if is_refine t then if leb max n then (failed, n) else (q, n + 1) else (q, n)

-- What `Apply` does to the phase and the attempt, given the cap.
unfoldable pub move : ℕ → EventType → Point → Point
move max t (p, n) =
    if is_terminal p
    then (p, n)
    else if is_observation_only t
    then (p, n)
    else followed max t (p, n) (lookup_transition p t)

unfoldable pub moves : ℕ → List EventType → Point → Point
unfolding move is_terminal is_observation_only lookup_transition is_refine
moves max [] x = x
moves max (t ∷ ts) x = moves max ts (move max t x)

pub moves-append :
    (max : ℕ) (ts us : List EventType) (x : Point)
    → moves max (ts ++ us) x ≡ moves max us (moves max ts x)
unfolding moves
moves-append max [] us x = refl
moves-append max (t ∷ ts) us x = moves-append max ts us (move max t x)

-- The state after a log, where a refused event changes nothing.
unfoldable pub project : (ℕ → Clock) → List Event → ℕ → ExecutionState → ExecutionState
project clock [] i s = s
project clock (ev ∷ events) i s = project clock events (i + 1) (apply (clock i) ev s).0

abbrev pub point_of : ExecutionState → Point
point_of s = (s.phase, s.attempt)

-- What a step does to the point, and what it leaves alone.
Moved : ExecutionState → EventType → ExecutionState → Type 0
Moved s t u =
    (point_of u ≡ move s.max_attempts t (point_of s))
    × (u.max_attempts ≡ s.max_attempts)
    × (u.run_id ≡ s.run_id)

watched :
    (p : Phase) (t : EventType) (q : Phase)
    → lookup_transition p t ≡ some q
    → is_observation_only t ≡ false
watched p t q e = elim (Bool-cases (is_observation_only t)) [
  | inl y ↦ absurd (none-ne-some q (sym (observation-no_transition p t y) ∙ e))
  | inr n ↦ n
]
  where
    none-ne-some : (r : Phase) → ¬ (none ≡ some r)
    none-ne-some r h = cc

Step-Moved :
    {c : Clock} {ev : Event} {s : ExecutionState} {r : ExecutionState × Option ApplyError}
    → Step c ev s r
    → mismatched ev.run_id s.run_id ≡ false
    → is_terminal s.phase ≡ false
    → Moved s ev.type r.0
unfolding Moved move
Step-Moved (closed t) own live = absurd cc
Step-Moved (foreign f) own live = absurd cc
Step-Moved {ev = ev} {s = s} (unknown o e) own live = (rw (live, o, e) refl, refl, refl)
Step-Moved {ev = ev} {s = s} (observed t o) own live =
    unfold record_event in (rw (live, o) refl, refl, refl)
Step-Moved {c = c} {ev = ev} {s = s} (capped q e f le) own live =
    ground (arith, watched s.phase ev.type q e, cap_fields c ev s)
Step-Moved {c = c} {ev = ev} {s = s} (refined q e f lt) own live =
    ground (
      arith,
      watched s.phase ev.type q e,
      enter_fields c ev (record s { attempt = s.attempt + 1 }) q,
    )
Step-Moved {c = c} {ev = ev} {s = s} (moved q e f) own live =
    ground (arith, watched s.phase ev.type q e, enter_fields c ev s q)

apply-Moved :
    (c : Clock) (ev : Event) (s : ExecutionState)
    → mismatched ev.run_id s.run_id ≡ false
    → Moved s ev.type (apply c ev s).0
apply-Moved c ev s own = elim (Bool-cases (is_terminal s.phase)) [
  | inl t ↦ unfold Moved move apply in rw t (refl, refl, refl)
  | inr n ↦ Step-Moved (apply-Step c ev s) own n
]

abbrev pub types : List Event → List EventType
types [] = []
types (ev ∷ events) = ev.type ∷ types events

-- The phase and the attempt after a log of the run's own events.
pub project-moves :
    (clock : ℕ → Clock) (events : List Event) (i : ℕ) (s : ExecutionState)
    → All (λ ev. mismatched ev.run_id s.run_id ≡ false) events
    → point_of (project clock events i s) ≡ moves s.max_attempts (types events) (point_of s)
unfolding project moves Moved
project-moves clock [] i s own = refl
project-moves clock (ev ∷ events) i s own =
    let u : ExecutionState = (apply (clock i) ev s).0 in
    let (e, f, g) = apply-Moved (clock i) ev s own.0 in
    project-moves clock events (i + 1) u
      (subst (λ r. All (λ (x : Event). mismatched x.run_id r ≡ false) events) (sym g) own.1)
    ∙ ap (λ k. moves k (types events) (point_of u)) f
    ∙ ap (moves s.max_attempts (types events)) e
