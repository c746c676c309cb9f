-- ===== src/Governance/Tests.antt =====
-- Runs of the governance engine at concrete actions and policies.
use sandcode.Base.{
  ◌≡◌, refl, String, List, [], ◌∷◌, map, Bool, false, codes, if◌then◌else◌, ◌↔◌, ◌⊎◌, true, arith,
  eq_iff,
}
use sandcode.Base.Int.{pos, show_int}
use sandcode.Base.Bytes.{Bytes}
use sandcode.Governance.Policy.{allow, deny, review, refine, Action, Policy}
use sandcode.Governance.Engine.{evaluate}
use sandcode.Governance.Engine.Laws.{
  any, denies, reviews, asked, verdict, objections, evaluate-result, evaluate-trail,
}
use sandcode.Governance.Builtin.{retry_limit, diff_size, budget, tool_permission}
use sandcode.Governance.Builtin.Verdicts.{Objection, IsBig, builtin-result}
use sandcode.Governance.Builtin.Permission.{IsGranted, installed_policy}
use mathlib.Core.List.{Memᴰ}
use sandcode.Rbac.Grants.{RoleSet, Principal, permits, permitted_for, allows_tool, resolve}

abbrev fourth_attempt : Action
fourth_attempt = record {
  type = refine;
  run_id = "r1";
  agent = "claude-code";
  strategy = "";
  prompt = codes "fix it";
  diff_size = pos 700;
  files_changed = [];
  tokens_used = pos 10;
  cost_usd = pos 1;
  attempt = pos 4;
  tool = "Bash";
  roles = "dev" ∷ [];
}

abbrev policies : List Policy
policies = diff_size (pos 500) ∷ retry_limit (pos 3) ∷ []

evaluate-result_example : (evaluate policies fourth_attempt).result ≡ (
    if any (denies fourth_attempt) policies
    then deny
    else if any (reviews fourth_attempt) policies
    then review
    else allow)
evaluate-result_example = evaluate-result policies fourth_attempt

evaluate-trail_example :
    ((evaluate policies fourth_attempt).per_policy
      ≡ map (verdict fourth_attempt) (asked fourth_attempt policies))
    × ((evaluate policies fourth_attempt).reasons
        ≡ objections fourth_attempt (asked fourth_attempt policies))
evaluate-trail_example = evaluate-trail policies fourth_attempt

abbrev dev_roles : RoleSet
dev_roles = ("dev", record { tools = "Read" ∷ []; capabilities = []; endpoints = [] }) ∷ []

abbrev denial : List String → String → Bytes
denial roles tool = codes tool

abbrev four : List Policy
four =
    retry_limit (pos 3)
    ∷ diff_size (pos 500)
    ∷ budget show_int (pos 100) (pos 9)
    ∷ tool_permission denial (permits dev_roles)
    ∷ []

builtin-result_example :
    let o = Objection (pos 3) (pos 100) (pos 9) (permits dev_roles) fourth_attempt in
    (((evaluate four fourth_attempt).result ≡ deny) ↔ o)
    × (((evaluate four fourth_attempt).result ≡ review) ↔ ((¬ o) × IsBig (pos 500) fourth_attempt))
    × (((evaluate four fourth_attempt).result ≡ allow)
        ↔ ((¬ o) × (¬ IsBig (pos 500) fourth_attempt)))
builtin-result_example =
    builtin-result (pos 3) (pos 500) (pos 100) (pos 9) (permits dev_roles) fourth_attempt show_int
      denial

abbrev developer : Principal
developer = record { id = "ana"; roles = "dev" ∷ []; admin = false }

abbrev may_use : String → Bool
may_use tool = allows_tool (resolve dev_roles developer) tool

same_roles : (role : String) → Memᴰ role fourth_attempt.roles ↔ Memᴰ role developer.roles
same_roles role = (λ m. m, λ m. m)

some_role : ¬ (fourth_attempt.roles ≡ [])
some_role h = cc

named_tool : ¬ (fourth_attempt.tool ≡ "")
named_tool h = ground (arith, eq_iff "Bash" "", h)

installed_policy_example :
    let r = ((tool_permission denial (permits dev_roles)).evaluate fourth_attempt).result in
    ((r ≡ allow) ↔ IsGranted dev_roles ("dev" ∷ []) "Bash")
    × ((r ≡ deny) ⊎ (r ≡ allow))
    × ((may_use "Bash" ≡ true) ↔ IsGranted dev_roles ("dev" ∷ []) "Bash")
unfolding permitted_for
installed_policy_example =
    installed_policy denial dev_roles developer fourth_attempt may_use refl refl same_roles
      some_role named_tool
