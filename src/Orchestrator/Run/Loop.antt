-- ===== src/Orchestrator/Run/Loop.antt =====
-- internal/orchestrator/run.go: the attempt loop, and the reactive cycle that makes the same steps on commands.
use sandcode.Base.{
  ℕ, zero, suc, ◌+◌, ◌*◌, List, [], ◌∷◌, ◌++◌, Option, none, some, Bool, true, false, if◌then◌else◌,
}
use sandcode.Base.Int.{ℤ}
use sandcode.Budget.{Amounts}
use sandcode.Event.{EventType, execute_requested, verify_requested, lint_requested}
use sandcode.Orchestrator.Node.{attempt_cap}
use sandcode.Orchestrator.Refine.{active, effective}
use sandcode.Orchestrator.Run.{
  Check, verify, lint, Published, event, no_payload, Setup, Outside, Cycle, Outcome, proceed,
  reloop, stop,
}
use sandcode.Orchestrator.Run.Steps.{lint_active, Stepped, agent_step, check_step}
use sandcode.Reactor.{Handled, produced}
use sandcode.Reactor.Stateful.{dispatch_in}

abbrev pub command : EventType → Published
command t = event t no_payload

-- `execute.requested`, `verify.requested` and `lint.requested`
unfoldable pub is_command : EventType → Bool
is_command execute_requested = true
is_command verify_requested = true
is_command lint_requested = true
is_command _ = false

-- What the options allow of attempts.
unfoldable pub tries : Setup → ℕ
unfolding attempt_cap effective
tries o = attempt_cap (effective o.refine)

module _ {World Error : Type 0} (m : Amounts ℤ) (out : Outside World Error) (o : Setup) where
  -- A check behind what went before: made if that lets the attempt proceed and the check is on.
  abbrev pub and_then : Bool → Check → Stepped m out o → Stepped m out o
  and_then on check (proceed, c, es) =
      let (x, c', sent) = check_step m out o check c in
      if on then (x, c', es ++ sent) else (proceed, c, es)
  and_then on check (reloop, c, es) = (reloop, c, es)
  and_then on check (stop, c, es) = (stop, c, es)

  -- The body of `attemptLoop`.
  unfoldable pub attempt : Cycle World Error → Stepped m out o
  unfolding agent_step check_step active lint_active
  attempt c =
      and_then (lint_active o) lint (and_then (active o.refine) verify (agent_step m out o c))

  abbrev pub Looped : Type 0
  Looped = Option (Cycle World Error × List Published)

  abbrev pub with_sent : List Published → Looped → Looped
  with_sent es none = none
  with_sent es (some (c, sent)) = some (c, es ++ sent)

  abbrev pub unless_reloop : Stepped m out o → (Cycle World Error → Looped) → Looped
  unless_reloop (reloop, c, es) next = with_sent es (next c)
  unless_reloop (proceed, c, es) next = some (c, es)
  unless_reloop (stop, c, es) next = some (c, es)

  -- `attemptLoop`, on fuel.
  unfoldable pub attempt_loop : ℕ → Cycle World Error → Looped
  unfolding attempt
  attempt_loop zero c = none
  attempt_loop (suc fuel) c = unless_reloop (attempt c) (λ c'. attempt_loop fuel c')

  -- The variables and all that was published, as the handlers of the reactive cycle see them.
  abbrev pub Shared : Type 0
  Shared = Cycle World Error × List Published

  abbrev pub reply :
      Stepped m out o
      → (Outcome → List Published)
      → List Published
      → Handled Published Error × Shared
  reply (x, c, es) commands sent = (produced (commands x), (c, sent ++ es))

  abbrev pub after_execute : Outcome → List Published
  after_execute stop = []
  after_execute _ =
      if active o.refine
      then command verify_requested ∷ []
      else if lint_active o
      then command lint_requested ∷ []
      else []

  abbrev pub after_check : Check → Outcome → List Published
  after_check check stop = []
  after_check check reloop = command execute_requested ∷ []
  after_check verify proceed = if lint_active o then command lint_requested ∷ [] else []
  after_check lint proceed = []

  abbrev pub Handler : Type 0
  Handler = Shared → Handled Published Error × Shared

  -- The three handlers that are registered.
  unfoldable pub handler_of : EventType → Option Handler
  unfolding agent_step check_step active lint_active
  handler_of execute_requested =
      some (λ s. reply (agent_step m out o s.0) (λ x. after_execute x) s.1)
  handler_of verify_requested =
      some (λ s. reply (check_step m out o verify s.0) (after_check verify) s.1)
  handler_of lint_requested = some (λ s. reply (check_step m out o lint s.0) (after_check lint) s.1)
  handler_of _ = none

  abbrev pub publish_command : Published → Shared → Shared
  publish_command ev s = (s.0, s.1 ++ ev ∷ [])

  abbrev pub ended_in : Option (List Published × Shared × Option Error) → Looped
  ended_in none = none
  ended_in (some (log, s, e)) = some s

  unfoldable pub reactive_cycle : ℕ → Cycle World Error → Looped
  unfolding dispatch_in handler_of
  reactive_cycle rounds c = ended_in (
      dispatch_in publish_command (λ ev. handler_of ev.type) rounds (command execute_requested ∷ [])
        [] (c, []))

  -- The cycle of a run: reactive where that is asked for and there is a bus.
  unfoldable pub run_cycle : Bool → Cycle World Error → Looped
  unfolding attempt_loop reactive_cycle tries
  run_cycle true c = reactive_cycle (3 * (tries o + 1)) c
  run_cycle false c = attempt_loop (tries o + 1) c
