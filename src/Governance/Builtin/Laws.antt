-- ===== src/Governance/Builtin/Laws.antt =====
-- What an engine decides whose policies are the four that come with the program.
use sandcode.Base.{
  ◌≡◌, refl, ◌∙◌, ap, String, List, [], ◌∷◌, ◌++◌, Bool, true, false, not, ◌&&◌, ◌||◌, arith,
  str_eq, if◌then◌else◌,
}
use sandcode.Base.Int.{ℤ, ltz}
use sandcode.Base.Bytes.{Bytes}
use sandcode.Governance.Policy.{Result, allow, deny, review, Action, Policy, refine}
use sandcode.Governance.Engine.{evaluate}
use sandcode.Governance.Engine.Laws.{any, any-append, denies, reviews, evaluate-result}
use sandcode.Governance.Builtin.{
  positive, is_refine, sees_diff, retry_limit, diff_size, budget, is_empty, tool_permission,
}
use sandcode.Rbac.Grants.{permits}

-- The attempt about to start is past a cap that is set.
abbrev pub past_cap : ℤ → Action → Bool
past_cap max a = positive max && (is_refine a.type && ltz max a.attempt)

-- A ceiling that is set is passed.
abbrev pub past_budget : ℤ → ℤ → Action → Bool
past_budget max_tokens max_cost a =
    positive max_tokens && ltz max_tokens a.tokens_used
    || positive max_cost && ltz max_cost a.cost_usd

-- The diff of a refine or merge is above a threshold that is set.
abbrev pub big_diff : ℤ → Action → Bool
big_diff above a = positive above && (sees_diff a.type && ltz above a.diff_size)

-- The action names a tool and roles that do not permit it.
abbrev pub forbidden : (List String → String → Bool) → Action → Bool
forbidden permits a =
    not (str_eq a.tool "") && (not (is_empty a.roles) && not (permits a.roles a.tool))

one_denies : (b : Bool) (y : Result) → (if b || true then deny else y) ≡ deny
one_denies true y = refl
one_denies false y = refl

module _ (a : Action) where
  retry_limit-verdicts :
      (max : ℤ)
      → (denies a (retry_limit max) ≡ past_cap max a) × (reviews a (retry_limit max) ≡ false)
  unfolding retry_limit denies reviews
  retry_limit-verdicts max = (ground arith, ground arith)

  diff_size-verdicts :
      (above : ℤ)
      → (denies a (diff_size above) ≡ false) × (reviews a (diff_size above) ≡ big_diff above a)
  unfolding diff_size denies reviews
  diff_size-verdicts above = (ground arith, ground arith)

  budget-verdicts :
      (show_usd : ℤ → Bytes) (tokens cost : ℤ)
      → (denies a (budget show_usd tokens cost) ≡ past_budget tokens cost a)
        × (reviews a (budget show_usd tokens cost) ≡ false)
  unfolding budget denies reviews
  budget-verdicts show_usd tokens cost = (ground arith, ground arith)

  tool_permission-verdicts :
      (show : List String → String → Bytes) (permits : List String → String → Bool)
      → (denies a (tool_permission show permits) ≡ forbidden permits a)
        × (reviews a (tool_permission show permits) ≡ false)
  unfolding tool_permission denies reviews
  tool_permission-verdicts show permits = (ground arith, ground arith)

  four_verdicts :
      (cap over bad big : Bool)
      → (if cap || (false || (over || (bad || false)))
          then deny
          else if false || (big || (false || (false || false)))
          then review
          else allow)
        ≡ (if cap || (over || bad) then deny else if big then review else allow)
  four_verdicts cap over bad big = ground arith

  -- The verdict of the four policies, by the Boolean tests above.
  pub four_policies-result :
      (max above tokens cost : ℤ) (show_usd : ℤ → Bytes) (show : List String → String → Bytes)
      (permits : List String → String → Bool)
      → (evaluate
          (retry_limit max
            ∷ diff_size above
            ∷ budget show_usd tokens cost
            ∷ tool_permission show permits
            ∷ [])
          a).result
        ≡ (if past_cap max a || (past_budget tokens cost a || forbidden permits a)
            then deny
            else if big_diff above a
            then review
            else allow)
  unfolding any
  four_policies-result max above tokens cost show_usd show permits =
      let r = retry_limit-verdicts max in
      let d = diff_size-verdicts above in
      let b = budget-verdicts show_usd tokens cost in
      let t = tool_permission-verdicts show permits in
      evaluate-result _ a
      ∙ simp (r.0, r.1, d.0, d.1, b.0, b.1, t.0, t.1)
          (four_verdicts (past_cap max a) (past_budget tokens cost a) (forbidden permits a)
            (big_diff above a))

  past_cap-true :
      (max : ℤ)
      → positive max ≡ true
      → a.type ≡ refine
      → ltz max a.attempt ≡ true
      → past_cap max a ≡ true
  unfolding is_refine
  past_cap-true max h r l = ground (arith, ap is_refine r)

  -- A retry cap among the policies of any engine denies every refine whose attempt is past it.
  pub retry_cap_denies :
      (ps qs : List Policy) (max : ℤ)
      → positive max ≡ true
      → a.type ≡ refine
      → ltz max a.attempt ≡ true
      → (evaluate (ps ++ retry_limit max ∷ qs) a).result ≡ deny
  unfolding any
  retry_cap_denies ps qs max h r l =
      evaluate-result (ps ++ retry_limit max ∷ qs) a
      ∙ rw (any-append (denies a) ps (retry_limit max ∷ qs)) (
          rw ((retry_limit-verdicts max).0 ∙ past_cap-true max h r l)
            (one_denies (any (denies a) ps) _))
