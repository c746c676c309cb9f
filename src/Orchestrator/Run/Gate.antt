-- ===== src/Orchestrator/Run/Gate.antt =====
-- internal/orchestrator/run.go: `evaluatePolicy` and `refineOrExhaust`, and the default verifier of
-- internal/orchestrator/verifier.go. What a function publishes is the last part of its result.
use sandcode.Base.{
  ℕ, ◌+◌, List, [], ◌∷◌, ◌++◌, Option, none, some, Bool, true, false, not, if◌then◌else◌,
}
use sandcode.Base.Bytes.{Bytes}
use sandcode.Base.Int.{ℤ, pos, negsuc, ltz}
use sandcode.Budget.{Guard, Amounts, record_attempt, report}
use sandcode.Event.{governance_denied, refine_triggered, agent_executing}
use sandcode.Governance.Audit.{action_text, log_decision}
use sandcode.Governance.Engine.{evaluate}
use sandcode.Governance.Policy.{Action, ActionType, refine, Decision, Result, allow, deny}
use sandcode.Orchestrator.Node.{Execution, not_started, finished, text_of, is_zero_exit}
use sandcode.Orchestrator.Refine.{effective, build_refine_prompt, tail_within}
use sandcode.Orchestrator.Run.{
  Check, Published, event, denied_action, executing, next_try, VerifyOutput, RunError,
  check_exhausted, refine_denied, refine_exec, Setup, Outside, Cycle,
}

unfoldable pub is_deny : Result → Bool
is_deny deny = true
is_deny _ = false

unfoldable pub no_roles : {A : Type 0} → List A → Bool
no_roles [] = true
no_roles (x ∷ xs) = false

abbrev pub no_output : VerifyOutput
no_output = record { passed = false; exit_code = pos 0; stdout_tail = [] }

module _ {World Error : Type 0} (m : Amounts ℤ) (out : Outside World Error) (o : Setup) where
  -- The action that the policies are asked about.
  unfoldable pub action_of : ActionType → ℕ → ℕ → Guard ℤ → Action
  unfolding no_roles
  action_of action_type attempt diff_size g =
      let rep = report m o.run_id g in
      record {
        type = action_type;
        run_id = o.run_id;
        agent = o.agent;
        strategy = o.strategy;
        prompt = o.prompt;
        diff_size = pos diff_size;
        files_changed = [];
        tokens_used = if o.has_budget then pos rep.tokens else pos 0;
        cost_usd = if o.has_budget then rep.cost_usd else pos 0;
        attempt = pos attempt;
        tool = "";
        roles = if no_roles o.roles then [] else out.sort o.roles;
      }

  -- The rows that the decision leaves; an error is only logged.
  abbrev pub audited : Action → Decision → World → World
  audited act d w =
      if o.has_audit
      then (log_decision out.append_row (out.context_canceled w) o.run_id act d w).1
      else w

  unfoldable pub evaluate_policy :
      ActionType → ℕ → ℕ → Cycle World Error → Decision × Cycle World Error × List Published
  unfolding action_of is_deny
  evaluate_policy action_type attempt diff_size c = elim o.policies [
    | none ↦ (record { result = allow; reasons = []; per_policy = [] }, c, [])
    | some policies ↦
        let act = action_of action_type attempt diff_size c.budget in
        let d = evaluate policies act in
        (
          d,
          record c { world = audited act d c.world },
          if is_deny d.result
              then event governance_denied
                  (denied_action (action_text action_type) attempt d.reasons)
                ∷ []
              else [],
        )
  ]

  -- `opts.Budget.RecordAttempt` where there is a budget.
  unfoldable pub count_attempt : Cycle World Error → Cycle World Error
  count_attempt c = record c {
    budget = if o.has_budget then (record_attempt m o.run_id c.budget).0 else c.budget;
  }

  -- `execRes` is set to an exit code and an error.
  abbrev pub failing : ℤ → RunError Error → Cycle World Error → Cycle World Error
  failing code e c = record c { exit_code = code; err = some e }

  -- After the agent was started again.
  abbrev pub restarted : Option Error × World → Cycle World Error → Bool × Cycle World Error
  restarted (none, w) c = (false, record c { world = w })
  restarted (some e, w) c = (true, failing (negsuc 0) (refine_exec e) (record c { world = w }))

  -- From `attempts++` on.
  unfoldable pub refine_attempt :
      List Bytes → Bytes → Cycle World Error → Bool × Cycle World Error × List Published
  unfolding count_attempt effective
  refine_attempt fail_cmd fail_tail c =
      let max = (effective o.refine).max_attempts in
      let n = c.attempts + 1 in
      let c' = count_attempt (record c { attempts = n }) in
      let prompt = build_refine_prompt out.trim_space o.enriched fail_tail n max fail_cmd in
      let r = restarted (out.start_agent prompt c'.world) c' in
      (
        r.0,
        r.1,
        event refine_triggered (next_try n max)
            ∷ event agent_executing (executing o.agent o.model)
            ∷ [],
      )

  -- Behind the governance gate of the next attempt.
  abbrev pub unless_denied :
      List Bytes
      → Bytes
      → ℤ
      → Decision × Cycle World Error × List Published
      → Bool × Cycle World Error × List Published
  unless_denied fail_cmd fail_tail fail_exit (d, c, es) =
      if is_deny d.result
      then (true, failing fail_exit (refine_denied d.reasons) c, es)
      else (let (stopped, c', sent) = refine_attempt fail_cmd fail_tail c in
          (stopped, c', es ++ sent))

  -- true: the loop ends; false: the agent was started again.
  unfoldable pub refine_or_exhaust :
      List Bytes → Bytes → ℤ → Check → Cycle World Error → Bool × Cycle World Error × List Published
  unfolding effective ltz evaluate_policy refine_attempt is_deny
  refine_or_exhaust fail_cmd fail_tail fail_exit check c =
      if not (ltz (pos c.attempts) (effective o.refine).max_attempts)
      then (true, failing fail_exit (check_exhausted check c.attempts fail_exit) c, [])
      else unless_denied fail_cmd fail_tail fail_exit (evaluate_policy refine (c.attempts + 1) 0 c)

  -- `cmdVerifier.Verify`: an error if the command does not start, else its verdict.
  abbrev pub read_command : Execution Error × World → (Option Error × VerifyOutput) × World
  read_command (not_started e, w) = ((some e, no_output), w)
  read_command (finished lines code err, w) = (
    (
      none,
      record {
        passed = is_zero_exit code;
        exit_code = code;
        stdout_tail =
            out.redact (tail_within (text_of lines) (effective o.refine).verify_tail_bytes);
      },
    ),
    w,
  )

  unfoldable pub cmd_verify : List Bytes → World → (Option Error × VerifyOutput) × World
  unfolding effective tail_within text_of
  cmd_verify cmd w = read_command (out.run_command cmd w)
