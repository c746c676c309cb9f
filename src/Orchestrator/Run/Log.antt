-- ===== src/Orchestrator/Run/Log.antt =====
-- internal/orchestrator/run.go: the log of a run, as `publish` makes it, and what its commands do not change.
use sandcode.Base.{
  ℕ, ◌+◌, ◌≡◌, refl, ap, ◌∙◌, inl, inr, String, List, [], ◌∷◌, true, false, arith, Bool-cases, All,
  eq_iff,
}
use sandcode.Base.Bytes.{Bytes}
use sandcode.Event.{EventType, Event, new, with_correlation}
use sandcode.Orchestrator.Run.{Payload, Published}
use sandcode.Orchestrator.Run.Loop.{is_command}
use sandcode.Orchestrator.Run.Phases.{Point, move, moves, types}
use sandcode.Orchestrator.Run.Observed.{observed}
use sandcode.Orchestrator.Run.Ways.{kinds}
use sandcode.Runtime.Phase.{is_terminal}
use sandcode.Runtime.StateMachine.{mismatched}
use sandcode.Runtime.Transitions.{is_observation_only}

-- The event that `publish` makes, and the log of a run. The ids and times are those of `event.New`, and
-- encode is `json.Marshal`.
unfoldable pub to_event : String → String → (Payload → Bytes) → String → ℕ → Published → Event
unfolding with_correlation new
to_event run_id parent encode id now p =
    record (with_correlation run_id (new id now p.type run_id (encode p.payload))) {
      parent_run_id = parent;
    }

unfoldable pub log_of :
    String → String → (Payload → Bytes) → (ℕ → String) → (ℕ → ℕ) → ℕ → List Published → List Event
unfolding to_event
log_of run_id parent encode ids times i [] = []
log_of run_id parent encode ids times i (p ∷ ps) =
    to_event run_id parent encode (ids i) (times i) p
    ∷ log_of run_id parent encode ids times (i + 1) ps

-- Commands only observe.
command_still : (max : ℕ) (t : EventType) (x : Point) → is_command t ≡ true → move max t x ≡ x
unfolding move
command_still max t (p, n) h = elim (Bool-cases (is_terminal p)) [
  | inl y ↦ rw y refl
  | inr k ↦ rw (k, only_observes t h) refl
]
  where
    only_observes : (u : EventType) → is_command u ≡ true → is_observation_only u ≡ true
    only_observes u e = unfold is_command is_observation_only in ground arith

pub observed-moves :
    (max : ℕ) (es : List Published) (x : Point)
    → moves max (kinds es) x ≡ moves max (kinds (observed es)) x
unfolding moves observed
observed-moves max [] x = refl
observed-moves max (e ∷ es) x = elim (Bool-cases (is_command e.type)) [
  | inl y ↦
      rw y (ap (moves max (kinds es)) (command_still max e.type x y) ∙ observed-moves max es x)
  | inr n ↦ rw n (observed-moves max es (move max e.type x))
]

pub types-log_of :
    (run_id parent : String) (encode : Payload → Bytes) (ids : ℕ → String) (times : ℕ → ℕ) (i : ℕ)
    (es : List Published)
    → types (log_of run_id parent encode ids times i es) ≡ kinds es
unfolding log_of
types-log_of run_id parent encode ids times i [] = refl
types-log_of run_id parent encode ids times i (e ∷ es) =
    ap (λ l. e.type ∷ l) (types-log_of run_id parent encode ids times (i + 1) es)

pub log_of-own :
    (run_id parent : String) (encode : Payload → Bytes) (ids : ℕ → String) (times : ℕ → ℕ) (i : ℕ)
    (es : List Published)
    → All (λ ev. mismatched ev.run_id run_id ≡ false) (log_of run_id parent encode ids times i es)
unfolding log_of mismatched
log_of-own run_id parent encode ids times i [] = tt
log_of-own run_id parent encode ids times i (e ∷ es) =
    (ground (arith, eq_iff run_id run_id), log_of-own run_id parent encode ids times (i + 1) es)
