-- ===== src/Orchestrator/Run/Tests.antt =====
-- A run whose first attempt fails its verification and whose second passes, and the theorems at it.
use sandcode.Base.{
  ℕ, ◌+◌, ◌≤◌, ◌≡◌, refl, String, List, [], ◌∷◌, Option, none, some, Bool, true, false, leb, codes,
  arith, if◌then◌else◌,
}
use sandcode.Base.Bytes.{Bytes}
use sandcode.Base.Int.{ℤ, pos}
use sandcode.Budget.{Amounts}
use sandcode.Orchestrator.Node.{finished}
use sandcode.Orchestrator.Run.{Payload, Published, Setup, Outside, Cycle}
use sandcode.Orchestrator.Run.Finish.{succeeded, Closing, Wishes, RunOutcome, ran, run}
use sandcode.Orchestrator.Run.Lifecycle.{phase_after, attempts_after, run_lifecycle}
use sandcode.Orchestrator.Run.Log.{log_of}
use sandcode.Orchestrator.Run.Loop.{run_cycle, tries}
use sandcode.Orchestrator.Run.Phases.{project, point_of}
use sandcode.Orchestrator.Run.Observed.{observed}
use sandcode.Orchestrator.Run.Reactive.{reactive_same}
use sandcode.Orchestrator.Run.Start.{Host}
use sandcode.Runtime.Replay.{step, replay}
use sandcode.Governance.Engine.{evaluate}
use sandcode.Runtime.Phase.{is_terminal}
use sandcode.Runtime.Transitions.{is_observation_only, lookup_transition}
use sandcode.Runtime.StateMachine.{
  apply, mismatched, record_event, follow, is_refine, enter, capture_error, is_failed,
  invalid_transition, Clock, new_execution_state,
}
use sandcode.Event.{agent_executing}

abbrev money : Amounts ℤ
money = record { zero_amount = pos 0; plus = λ a b. a; is_negative = λ a. false }

-- The world counts how often the agent was started; the tests pass from the second time on.
abbrev outside : Outside ℕ String
outside = record {
  start_agent = λ prompt w. (none, w + 1);
  await_agent = λ w. ((pos 0, none), w);
  run_command =
      λ cmd w. (finished (codes "1 failed" ∷ []) (if leb 2 w then pos 0 else pos 1) none, w);
  verifier = none;
  append_row = λ row w. (none, w);
  context_canceled = λ w. none;
  deadline_exceeded = λ w. false;
  sort = λ roles. roles;
  trim_space = λ text. text;
  redact = λ text. text;
  error_text = λ e. codes e;
}

abbrev host : Host ℕ String
host = record {
  create_worktree = λ w. (none, w);
  enabled_servers = none;
  inject_servers = λ w. (none, w);
  apply_auth = none;
  create_sandbox = λ w. (none, w);
  kernel = none;
  brain = none;
  approver = none;
  remove_worktree = λ w. w;
  close_sandbox = λ w. w;
  mark_failed_early = λ e w. w;
  create_run = λ w. w;
  reason_text = λ e. "agent";
  message = λ e. [];
  sandbox_name = "docker";
  cwd = "/repo";
  image = "image";
  work_dir = "/workspace";
}

abbrev closing : Closing ℕ String
closing = record {
  expired = λ w. false;
  remove_servers = λ w. w;
  commit_all = λ w. w;
  diff = λ w. (codes "diff", w);
  merge_to_head = λ w. (none, w);
  update_run = λ s code w. w;
  learn = λ s diff code w. w;
  error_message = λ e. [];
}

abbrev setup : Setup
setup = record {
  run_id = "r1";
  agent = "codex";
  model = "";
  strategy = "merge-to-head";
  prompt = codes "fix it";
  enriched = codes "fix it";
  roles = [];
  policies = some [];
  has_budget = true;
  has_audit = false;
  refine = record {
    enabled = true;
    verify_cmd = codes "make" ∷ [];
    max_attempts = pos 3;
    verify_tail_bytes = pos 0;
  };
  lint_cmd = [];
}

abbrev wishes : Wishes
wishes = record {
  merges = true;
  keep_worktree = false;
  has_mcp = false;
  has_store = false;
  has_brain = false;
  reactive = true;
  has_bus = true;
}

abbrev before : Cycle ℕ String
before = record {
  world = 1;
  budget = [];
  attempts = 1;
  exit_code = pos 0;
  err = none;
  last_verify = none;
}

reactive_same_example :
    (c : Cycle ℕ String) × (es : List Published) × (sent : List Published) × (run_cycle money
        outside setup false before
      ≡ some (c, es))
    × (run_cycle money outside setup true before ≡ some (c, sent))
    × (observed sent ≡ es)
reactive_same_example = reactive_same money outside setup before refl

three_tries : tries setup ≤ 3
unfolding tries
three_tries = omega arith

run_lifecycle_example :
    (r : RunOutcome String) × (w : ℕ) × (es : List Published) × (run money outside host closing
        setup wishes [] 0
      ≡ some (r, w, es))
    × (attempts_after r ≤ tries setup)
    × ((parent : String) (encode : Payload → Bytes) (ids : ℕ → String) (times : ℕ → ℕ)
          (clock : ℕ → Clock) (now : ℕ)
        → point_of (
            project clock
              (log_of "r1" parent encode ids times 0 es)
              0
              (new_execution_state now "r1"))
          ≡ (phase_after r, attempts_after r))
run_lifecycle_example = run_lifecycle money outside host closing setup wishes [] 0 refl three_tries

abbrev published : Option (RunOutcome String × ℕ × List Published) → List Published
published none = []
published (some (r, w, es)) = es

abbrev outcome : Option (RunOutcome String × ℕ × List Published) → Option (RunOutcome String)
outcome none = none
outcome (some (r, w, es)) = some r

abbrev silent : Clock
silent = record { at_record = 1; at_terminal = 1 }

abbrev run_once : Bool → Option (RunOutcome String × ℕ × List Published)
run_once reactive =
    run money outside host closing setup (record wishes { reactive = reactive }) [] 0

second_succeeds :
    outcome (run_once false)
    ≡ some (
        ran (record {
          run_id = "r1";
          diff = codes "diff";
          exit_code = pos 0;
          status = succeeded;
          err = none;
          attempts = 2;
          last_verify =
              some (record { passed = true; exit_code = pos 0; stdout_tail = codes "1 failed\n" });
        }))
unfolding run evaluate
second_succeeds = refl

-- `Replay`, which does not pass over a refused event, stops at the second `agent.executing`.
replay_stops :
    (replay
      (λ i. silent)
      1
      ""
      (log_of "r1" "" (λ p. []) (λ i. "e") (λ i. 5) 0 (published (run_once false)))).1
    ≡ some (step 7 agent_executing invalid_transition)
unfolding replay run log_of evaluate apply is_terminal mismatched is_observation_only record_event
    follow lookup_transition is_refine enter capture_error is_failed
replay_stops = refl
