-- ===== src/Orchestrator/Run/Start.antt =====
-- internal/orchestrator/run.go: `Run` up to the first command of the agent, and the ways in which it gives up.
pub mod Tracks
pub mod Gated
pub mod Lands
use sandcode.Base.{
  ℕ, List, [], ◌∷◌, ◌++◌, Option, none, some, String, Bool, true, false, ◌==◌, length,
  if◌then◌else◌,
}
use sandcode.Base.Bytes.{Bytes}
use sandcode.Base.Int.{ℤ, pos, negsuc}
use sandcode.Budget.{Guard, Amounts}
use sandcode.Event.{
  EventType, run_submitted, run_failed, governance_approval_required, governance_approved,
  mcp_injected, sandbox_created, agent_executing,
}
use sandcode.Governance.Audit.{action_text, log_approval}
use sandcode.Governance.Policy.{
  ActionType, execute, Decision, Result, allow, deny, review, approved,
}
use sandcode.Orchestrator.Run.{
  Payload, Published, event, submitted, review_action, approved_action, injected, created,
  executing, failure, Setup, Outside, Cycle,
}
use sandcode.Orchestrator.Run.Gate.{evaluate_policy}

pub data ApprovalError (Error : Type 0) : Type 0 where
  no_approver : ApprovalError Error
  wait_failed : Error → ApprovalError Error
  rejected : Bytes → ApprovalError Error

pub data StartError (Error : Type 0) : Type 0 where
  empty_prompt empty_cwd empty_image : StartError Error
  denied : List Bytes → StartError Error
  unapproved : ApprovalError Error → StartError Error
  worktree mcp auth sandbox exec : Error → StartError Error

-- What an approver answers.
pub record Approval : Type 0 where
  pub is_approved : Bool
  pub reason : Bytes
  pub approver : String

-- The calls that set a run up, with the world before and after: git, the MCP configuration, the credentials,
-- the sandbox, the kernel (which publishes events of its own), the brain, the store and the approver.
pub record Host (World Error : Type 0) : Type 0 where
  pub create_worktree : World → Option Error × World
  pub enabled_servers : Option (World → List String)
  pub inject_servers : World → Option Error × World
  pub apply_auth : Option (World → Option Error × World)
  pub create_sandbox : World → Option Error × World
  pub kernel : Option (Bytes → World → Bytes × World × List Published)
  pub brain : Option (Bytes → World → Option Bytes × World)
  pub approver : Option (World → (Option Error × Approval) × World)
  pub remove_worktree : World → World
  pub close_sandbox : World → World
  -- the row that `markFailedEarly` writes where there is a store, and that of a run under way
  pub mark_failed_early : StartError Error → World → World
  pub create_run : World → World
  -- the texts that the errors are published with
  pub reason_text : StartError Error → String
  pub message : StartError Error → Bytes
  pub sandbox_name : String
  pub cwd : String
  pub image : String
  pub work_dir : String

-- A step of the setup gives up or goes on.
pub data Reached (Error A : Type 0) : Type 0 where
  halted : StartError Error → Reached Error A
  reached : A → Reached Error A

-- With the world and what was published.
abbrev pub M : Type 0 → Type 0 → Type 0 → Type 0
M World Error A = World → Reached Error A × World × List Published

abbrev pub carry_on :
    {World Error A B : Type 0}
    → Reached Error A × World × List Published
    → (A → M World Error B)
    → Reached Error B × World × List Published
carry_on (halted e, w, es) f = (halted e, w, es)
carry_on (reached a, w, es) f = let (s, w', fs) = f a w in (s, w', es ++ fs)

infixl 5 ◌>>=◌ ◌>>◌
abbrev pub ◌>>=◌ :
    {World Error A B : Type 0} → M World Error A → (A → M World Error B) → M World Error B
◌>>=◌ act f w = carry_on (act w) f

abbrev pub ◌>>◌ :
    {World Error B : Type 0} → M World Error (Unit {0}) → M World Error B → M World Error B
act >> k = act >>= λ _. k

module _ {World Error : Type 0} where
  abbrev pub give : {A : Type 0} → A → M World Error A
  give a w = (reached a, w, [])

  abbrev pub emit : EventType → Payload → M World Error (Unit {0})
  emit t p w = (reached tt, w, event t p ∷ [])

  abbrev pub change : (World → World) → M World Error (Unit {0})
  change f w = (reached tt, f w, [])

  abbrev pub halt : {A : Type 0} → StartError Error → M World Error A
  halt e w = (halted e, w, [])

  abbrev pub answer : {B : Type 0} → (World → B × World) → M World Error B
  answer f w = let (b, w') = f w in (reached b, w', [])

module _ {World Error : Type 0} (m : Amounts ℤ) (out : Outside World Error)
    (host : Host World Error) (o : Setup) (has_store : Bool) where
  -- An early return: the worktree is removed, or the sandbox closed too, the row written, the event sent.
  unfoldable pub fail_early : {A : Type 0} → (World → World) → StartError Error → M World Error A
  fail_early clean e = do
    change clean
    change (λ w. if has_store then host.mark_failed_early e w else w)
    emit run_failed (failure (host.reason_text e) (host.message e))
    halt e

  -- `if err != nil`
  unfoldable pub on_error :
      (World → World) → (Error → StartError Error) → Option Error → M World Error (Unit {0})
  unfolding fail_early
  on_error clean f none = give tt
  on_error clean f (some e) = fail_early clean (f e)

  abbrev pub audit_approval : String → World → World
  audit_approval approver w =
      if o.has_audit then (log_approval out.append_row o.run_id execute approver w).1 else w

  abbrev pub approval_answer :
      Option Error × Approval → M World Error (Option (ApprovalError Error))
  approval_answer (some e, a) = give (some (wait_failed e))
  approval_answer (none, a) =
      if a.is_approved
      then (do
        emit governance_approved (approved_action (action_text execute) a.approver)
        change (audit_approval a.approver)
        give none)
      else give (some (rejected a.reason))

  -- `awaitApproval`: none where the run may go on.
  unfoldable pub await_approval : List Bytes → M World Error (Option (ApprovalError Error))
  await_approval reasons = do
    emit governance_approval_required (review_action (action_text execute) 1 reasons)
    elim host.approver [
      | none ↦ give (some no_approver)
      | some approver ↦ answer approver >>= approval_answer
    ]

  abbrev pub unless_approved : Option (ApprovalError Error) → M World Error (Unit {0})
  unless_approved none = give tt
  unless_approved (some e) = fail_early (λ w. w) (unapproved e)

  abbrev pub enter_gate : Decision → M World Error (Unit {0})
  enter_gate d = elim d.result [
    | deny ↦ fail_early (λ w. w) (denied d.reasons)
    | review ↦ await_approval d.reasons >>= unless_approved
    | allow ↦ give tt
    | approved ↦ give tt
  ]

  -- `evaluatePolicy(ActionExecute, 1, 0)`, before there is anything but the budget.
  abbrev pub asked : Guard ℤ → M World Error Decision
  asked g w =
      let (d, c, es) = evaluate_policy m out o execute 1 0 (record {
        world = w;
        budget = g;
        attempts = 1;
        exit_code = pos 0;
        err = none;
        last_verify = none;
      }) in
      (reached d, c.world, es)

  -- The pre-run gate.
  unfoldable pub gate : Guard ℤ → M World Error (Unit {0})
  unfolding evaluate_policy fail_early await_approval
  gate g = asked g >>= enter_gate

  abbrev pub inject_named : List String → M World Error (Unit {0})
  inject_named [] = give tt
  inject_named (name ∷ names) = do
    failed ← answer host.inject_servers
    on_error host.remove_worktree (λ e. mcp e) failed
    emit mcp_injected (injected (name ∷ names))

  -- The MCP servers, where there are any.
  unfoldable pub inject : M World Error (Unit {0})
  unfolding on_error
  inject = elim host.enabled_servers [
    | none ↦ give tt
    | some enabled ↦ answer (λ w. (enabled w, w)) >>= inject_named
  ]

  abbrev pub unless_unauthorized : Option Error → M World Error (Unit {0})
  unless_unauthorized none = give tt
  unless_unauthorized (some e) = do
    change host.remove_worktree
    change (λ w. if has_store then host.mark_failed_early (auth e) w else w)
    halt (auth e)

  -- The credentials. A failure is marked in the store, and no event is sent.
  unfoldable pub authorize : M World Error (Unit {0})
  authorize = elim host.apply_auth [
    | none ↦ give tt
    | some apply ↦ answer apply >>= unless_unauthorized
  ]

  abbrev pub or_raw : Option Bytes → M World Error Bytes
  or_raw none = give o.prompt
  or_raw (some text) = give text

  -- The prompt that the agent is given.
  unfoldable pub enrich : M World Error Bytes
  enrich = elim host.kernel [
    | some process ↦ (λ w. let (text, w', es) = process o.prompt w in (reached text, w', es))
    | none ↦ elim host.brain [
      | none ↦ give o.prompt
      | some enrich_prompt ↦ answer (enrich_prompt o.prompt) >>= or_raw
    ]
  ]

  -- From `run.submitted` to the first command of the agent; it gives the enriched prompt.
  unfoldable pub start : Guard ℤ → M World Error Bytes
  unfolding gate inject authorize enrich on_error
  start g = do
    emit run_submitted (submitted o.agent host.sandbox_name o.strategy)
    gate g
    no_worktree ← answer host.create_worktree
    on_error (λ w. w) (λ e. worktree e) no_worktree
    inject
    authorize
    no_sandbox ← answer host.create_sandbox
    on_error host.remove_worktree (λ e. sandbox e) no_sandbox
    emit sandbox_created (created host.image host.work_dir)
    enriched ← enrich
    emit agent_executing (executing o.agent o.model)
    not_started ← answer (out.start_agent enriched)
    on_error (λ w. host.remove_worktree (host.close_sandbox w)) (λ e. exec e) not_started
    change (λ w. if has_store then host.create_run w else w)
    give enriched
