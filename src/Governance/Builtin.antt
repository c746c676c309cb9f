-- ===== src/Governance/Builtin.antt =====
-- internal/governance/builtin: the four policies that come with the program.
pub mod Laws
pub mod Verdicts
pub mod Permission
use sandcode.Base.{
  ◌≡◌, String, List, [], ◌∷◌, ◌++◌, Option, none, some, Bool, true, false, not, ◌&&◌, ◌||◌, codes,
  str_eq, if◌then◌else◌,
}
use sandcode.Base.Int.{ℤ, pos, ltz, show_int}
use sandcode.Base.Bytes.{Bytes}
use sandcode.Governance.Policy.{
  Result, allow, deny, review, ActionType, execute, refine, merge, Action, Answer, Policy,
}

abbrev allowed : Answer
allowed = record { result = allow; reason = []; error = none }

abbrev answer : Result → Bytes → Answer
answer r reason = record { result = r; reason = reason; error = none }

abbrev pub positive : ℤ → Bool
positive z = ltz (pos 0) z

unfoldable pub is_refine : ActionType → Bool
is_refine refine = true
is_refine _ = false

unfoldable pub sees_diff : ActionType → Bool
sees_diff merge = true
sees_diff refine = true
sees_diff execute = false

unfoldable pub retry_limit : ℤ → Policy
retry_limit max_attempts = record {
  name = "retry_limit";
  evaluate = λ a.
      if not (positive max_attempts)
      then allowed
      else if not (is_refine a.type)
      then allowed
      else if ltz max_attempts a.attempt
      then answer deny (
          codes "retry cap exceeded: attempt="
          ++ (show_int a.attempt ++ (codes " max=" ++ show_int max_attempts)))
      else allowed;
}

unfoldable pub diff_size : ℤ → Policy
diff_size review_above = record {
  name = "diff_size";
  evaluate = λ a.
      if not (positive review_above)
      then allowed
      else if not (sees_diff a.type)
      then allowed
      else if ltz review_above a.diff_size
      then answer review (
          codes "diff size "
          ++ (show_int a.diff_size
              ++ (codes " bytes exceeds review threshold " ++ show_int review_above)))
      else allowed;
}

-- `show_usd` is the `%.4f` of an amount.
unfoldable pub budget : (ℤ → Bytes) → ℤ → ℤ → Policy
budget show_usd max_tokens max_cost = record {
  name = "budget";
  evaluate = λ a.
      if positive max_tokens && ltz max_tokens a.tokens_used
      then answer deny (
          codes "tokens used "
          ++ (show_int a.tokens_used ++ (codes " > limit " ++ show_int max_tokens)))
      else if positive max_cost && ltz max_cost a.cost_usd
      then answer deny
          (codes "cost $" ++ (show_usd a.cost_usd ++ (codes " > limit $" ++ show_usd max_cost)))
      else allowed;
}

abbrev pub is_empty : List String → Bool
is_empty [] = true
is_empty (x ∷ xs) = false

-- `show_roles` is the text of the denial, which prints the list of roles and the quoted tool.
unfoldable pub tool_permission :
    (List String → String → Bytes) → (List String → String → Bool) → Policy
tool_permission show_denial permits = record {
  name = "tool_permission";
  evaluate = λ a.
      if str_eq a.tool "" || is_empty a.roles
      then allowed
      else if permits a.roles a.tool
      then allowed
      else answer deny (show_denial a.roles a.tool);
}
