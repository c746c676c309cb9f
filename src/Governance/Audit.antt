-- ===== src/Governance/Audit.antt =====
-- internal/governance/audit.go: the rows of the audit log, and what a decision writes there.

use sandcode.Base.{
  ℕ, String, List, [], ◌∷◌, Option, none, some, Bool, false, ◌==◌, length, if◌then◌else◌,
}
use sandcode.Base.Bytes.{Bytes}
use sandcode.Governance.Policy.{
  Result, allow, deny, review, approved, ActionType, execute, refine, merge, Action, PolicyVerdict,
  Decision,
}

-- The wire values of internal/governance/policy.go.
unfoldable pub result_text : Result → String
result_text allow = "allow"
result_text deny = "deny"
result_text review = "review"
result_text approved = "approved"

unfoldable pub action_text : ActionType → String
action_text execute = "execute"
action_text refine = "refine"
action_text merge = "merge"

pub record AuditRow : Type 0 where
  pub id : String
  pub run_id : String
  pub action_type : String
  pub result : String
  pub reasons : List Bytes
  pub policy_name : String
  pub approver : String
  pub created_at : ℕ

-- A row as its callers write it: `Append` fills the id and the time.
abbrev pub row_of : String → ActionType → Result → List Bytes → String → String → AuditRow
row_of run action result reasons policy approver = record {
  id = "";
  run_id = run;
  action_type = action_text action;
  result = result_text result;
  reasons = reasons;
  policy_name = policy;
  approver = approver;
  created_at = 0;
}

-- `pv.Result == Allow && pv.Reason == ""`
unfoldable pub is_noise : PolicyVerdict → Bool
is_noise v = elim v.result [ allow ↦ length v.reason == 0 | _ ↦ false ]

-- The interface `AuditLog` with its state: what `Append` answers, and the log after it.
module _ {Log Error : Type 0} (append : AuditRow → Log → Option Error × Log) where
  abbrev pub then_log : Option Error × Log → (Log → Option Error × Log) → Option Error × Log
  then_log (none, log) rest = rest log
  then_log (some e, log) rest = (some e, log)

  -- The loop over the verdicts of the policies.
  unfoldable pub log_verdicts : String → ActionType → List PolicyVerdict → Log → Option Error × Log
  unfolding is_noise
  log_verdicts run action [] log = (none, log)
  log_verdicts run action (v ∷ vs) log =
      let rest = log_verdicts run action vs in
      if is_noise v
      then rest log
      else then_log (append (row_of run action v.result (v.reason ∷ []) v.policy "") log) rest

  -- `LogDecision`; `canceled` is `ctx.Err()` where it is `context.Canceled`.
  unfoldable pub log_decision : Option Error → String → Action → Decision → Log → Option Error × Log
  unfolding log_verdicts
  log_decision (some e) run action d log = (some e, log)
  log_decision none run action d log =
      then_log (append (row_of run action.type d.result d.reasons "" "") log)
        (log_verdicts run action.type d.per_policy)

  -- `LogApproval`
  unfoldable pub log_approval : String → ActionType → String → Log → Option Error × Log
  log_approval run action approver = append (row_of run action approved [] "" approver)
