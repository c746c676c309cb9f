-- ===== src/Orchestrator/Run/Steps.antt =====
-- internal/orchestrator/run.go: the steps of an attempt: agent, verify and lint.
use sandcode.Base.{
  ℕ, List, [], ◌∷◌, Option, none, some, Bool, true, false, not, ◌&&◌, if◌then◌else◌,
}
use sandcode.Base.Bytes.{Bytes}
use sandcode.Base.Int.{ℤ, negsuc}
use sandcode.Budget.{Amounts}
use sandcode.Event.{
  agent_completed, verify_started, verify_passed, verify_failed, lint_started, lint_passed,
  lint_failed, EventType,
}
use sandcode.Orchestrator.Node.{is_zero_exit, map_error}
use sandcode.Orchestrator.Refine.{active, has_words}
use sandcode.Orchestrator.Run.{
  Check, verify, lint, Published, event, agent_exit, check_started, check_passed, check_failed,
  check_error, VerifyOutput, agent_error, check_exec, Setup, Outside, Cycle, Outcome, proceed,
  reloop, stop,
}
use sandcode.Orchestrator.Run.Gate.{refine_or_exhaust, cmd_verify, failing}

unfoldable pub lint_active : Setup → Bool
lint_active o = o.refine.enabled && has_words o.lint_cmd

-- The events of the two checks.
abbrev pub started_type : Check → EventType
started_type verify = verify_started
started_type lint = lint_started

abbrev pub passed_type : Check → EventType
passed_type verify = verify_passed
passed_type lint = lint_passed

abbrev pub failed_type : Check → EventType
failed_type verify = verify_failed
failed_type lint = lint_failed

-- The command that a check names.
abbrev pub command_of : Setup → Check → List Bytes
command_of o verify = o.refine.verify_cmd
command_of o lint = o.lint_cmd

module _ {World Error : Type 0} (m : Amounts ℤ) (out : Outside World Error) (o : Setup) where
  -- A step: where it leaves the attempt, the variables, and what it publishes.
  abbrev pub Stepped : Type 0
  Stepped = Outcome × Cycle World Error × List Published

  -- `execRes = currentWait()`
  abbrev pub waited : (ℤ × Option Error) × World → Cycle World Error → Cycle World Error
  waited ((code, err), w) c = record c {
    world = w;
    exit_code = code;
    err = map_error agent_error err;
  }

  unfoldable pub agent_step : Cycle World Error → Stepped
  unfolding active lint_active
  agent_step c =
      let c' = waited (out.await_agent c.world) c in
      (
        if out.deadline_exceeded c'.world
            then stop
            else if not (active o.refine) && not (lint_active o)
            then stop
            else if not (is_zero_exit c'.exit_code)
            then stop
            else proceed,
        c',
        event agent_completed (agent_exit c'.exit_code) ∷ [],
      )

  -- What `verifier.Verify` or the linter answers.
  abbrev pub verify_with :
      Option (ℕ → World → (Option Error × VerifyOutput) × World)
      → ℕ
      → World
      → (Option Error × VerifyOutput) × World
  verify_with none attempt w = cmd_verify m out o o.refine.verify_cmd w
  verify_with (some verifier) attempt w = verifier attempt w

  abbrev pub ask : Check → ℕ → World → (Option Error × VerifyOutput) × World
  ask verify attempt w = verify_with out.verifier attempt w
  ask lint attempt w = cmd_verify m out o o.lint_cmd w

  -- `lastVerify` is set by the verify step only.
  abbrev pub remember : Check → VerifyOutput → Cycle World Error → Cycle World Error
  remember verify v c = record c { last_verify = some v }
  remember lint v c = c

  abbrev pub ended : Bool → Outcome
  ended true = stop
  ended false = reloop

  -- After a check that failed.
  abbrev pub retry :
      Check → VerifyOutput → Cycle World Error → Bool × Cycle World Error × List Published → Stepped
  retry check v c (exhausted, c', es) = (
    ended exhausted,
    c',
    event (failed_type check) (check_failed c.attempts v.exit_code v.stdout_tail) ∷ es,
  )

  -- After a check.
  unfoldable pub judged :
      Check → (Option Error × VerifyOutput) × World → Cycle World Error → Stepped
  unfolding refine_or_exhaust
  judged check ((some e, v), w) c = (
    stop,
    failing m out o (negsuc 0) (check_exec check e) (record c { world = w }),
    event (failed_type check) (check_error c.attempts (out.error_text e)) ∷ [],
  )
  judged check ((none, v), w) c =
      let c' = remember check v (record c { world = w }) in
      if v.passed
      then (proceed, c', event (passed_type check) (check_passed c.attempts) ∷ [])
      else retry check v c'
          (refine_or_exhaust m out o (command_of o check) v.stdout_tail v.exit_code check c')

  abbrev pub announced : Check → Cycle World Error → Stepped → Stepped
  announced check c (x, c', es) =
      (x, c', event (started_type check) (check_started (command_of o check) c.attempts) ∷ es)

  -- `verifyStep` and `lintStep`, which differ in their events and in what they run.
  unfoldable pub check_step : Check → Cycle World Error → Stepped
  unfolding judged cmd_verify
  check_step check c = announced check c (judged check (ask check c.attempts c.world) c)
