-- ===== src/Governance/Builtin/Verdicts.antt =====
-- internal/governance/builtin: what the four policies deny and what they ask to be reviewed.
use sandcode.Base.{
  ◌≡◌, refl, ◌⊎◌, inl, inr, ◌↔◌, String, List, [], ◌∷◌, Bool, true, false, not, ◌&&◌, ◌||◌, arith,
  str_eq, eq_iff, Bool-cases, if◌then◌else◌,
}
use sandcode.Base.Int.{ℤ, pos, ltz}
use sandcode.Base.Bytes.{Bytes}
use sandcode.Governance.Policy.{ActionType, execute, refine, merge, allow, deny, review, Action}
use sandcode.Governance.Engine.{evaluate}
use sandcode.Governance.Builtin.{
  is_refine, sees_diff, is_empty, retry_limit, diff_size, budget, tool_permission,
}
use sandcode.Governance.Builtin.Laws.{
  past_cap, past_budget, big_diff, forbidden, four_policies-result,
}

-- What is against an action: a limit of zero or below is none.
pub data Objection (max tokens cost : ℤ) (permits : List String → String → Bool) (a : Action)
    : Type 0 where
  retries :
      ltz (pos 0) max ≡ true
      → a.type ≡ refine
      → ltz max a.attempt ≡ true
      → Objection max tokens cost permits a
  too_many_tokens :
      ltz (pos 0) tokens ≡ true
      → ltz tokens a.tokens_used ≡ true
      → Objection max tokens cost permits a
  too_dear :
      ltz (pos 0) cost ≡ true → ltz cost a.cost_usd ≡ true → Objection max tokens cost permits a
  no_permission :
      ¬ (a.tool ≡ "")
      → ¬ (a.roles ≡ [])
      → permits a.roles a.tool ≡ false
      → Objection max tokens cost permits a

-- A refine or a merge whose diff is above a threshold that is set.
abbrev pub IsBig : ℤ → Action → Type 0
IsBig above a =
    (ltz (pos 0) above ≡ true)
    × ((a.type ≡ refine) ⊎ (a.type ≡ merge))
    × (ltz above a.diff_size ≡ true)

refine_iff : (t : ActionType) → (is_refine t ≡ true) ↔ (t ≡ refine)
unfolding is_refine
refine_iff refine = (λ h. refl, λ e. refl)
refine_iff merge = (λ h. cc, λ e. cc)
refine_iff execute = (λ h. cc, λ e. cc)

diff_iff : (t : ActionType) → (sees_diff t ≡ true) ↔ ((t ≡ refine) ⊎ (t ≡ merge))
unfolding sees_diff
diff_iff refine = (λ h. inl refl, λ e. refl)
diff_iff merge = (λ h. inr refl, λ e. refl)
diff_iff execute = (λ h. cc, λ e. elim e [ inl x ↦ cc | inr x ↦ cc ])

empty_iff : (xs : List String) → (is_empty xs ≡ true) ↔ (xs ≡ [])
empty_iff [] = (λ h. refl, λ e. refl)
empty_iff (x ∷ xs) = (λ h. cc, λ e. cc)

and_true : (x y : Bool) → (x && y) ≡ true → (x ≡ true) × (y ≡ true)
and_true x y h = ground (arith, h)

or_true : (x y : Bool) → (x || y) ≡ true → (x ≡ true) ⊎ (y ≡ true)
or_true true y h = inl refl
or_true false y h = inr h

not-true : (x : Bool) → not x ≡ true → x ≡ false
not-true x h = ground (arith, h)

module _ (max above tokens cost : ℤ) (permits : List String → String → Bool) (a : Action) where
  abbrev objected : Bool
  objected = past_cap max a || (past_budget tokens cost a || forbidden permits a)

  no_permission-Objection : forbidden permits a ≡ true → Objection max tokens cost permits a
  no_permission-Objection h =
      let (t, q) = and_true (not (str_eq a.tool "")) _ h in
      let (r, n) = and_true (not (is_empty a.roles)) (not (permits a.roles a.tool)) q in
      no_permission (λ e. ground (arith, t, (eq_iff a.tool "").1 e))
        (λ e. ground (arith, r, (empty_iff a.roles).1 e)) (not-true (permits a.roles a.tool) n)

  over_budget-Objection : past_budget tokens cost a ≡ true → Objection max tokens cost permits a
  over_budget-Objection h = elim (or_true (ltz (pos 0) tokens && ltz tokens a.tokens_used) _ h) [
    | inl t ↦
        let (p, n) = and_true (ltz (pos 0) tokens) (ltz tokens a.tokens_used) t in
        too_many_tokens p n
    | inr c ↦ let (p, n) = and_true (ltz (pos 0) cost) (ltz cost a.cost_usd) c in too_dear p n
  ]

  past_cap-Objection : past_cap max a ≡ true → Objection max tokens cost permits a
  past_cap-Objection h =
      let (p, q) = and_true (ltz (pos 0) max) _ h in
      let (t, n) = and_true (is_refine a.type) (ltz max a.attempt) q in
      retries p ((refine_iff a.type).0 t) n

  objected-Objection : objected ≡ true → Objection max tokens cost permits a
  objected-Objection h = elim (or_true (past_cap max a) _ h) [
    | inl x ↦ past_cap-Objection x
    | inr y ↦ elim (or_true (past_budget tokens cost a) (forbidden permits a) y) [
      | inl z ↦ over_budget-Objection z
      | inr f ↦ no_permission-Objection f
    ]
  ]

  Objection-objected : Objection max tokens cost permits a → objected ≡ true
  Objection-objected (retries p t n) = ground (arith, p, (refine_iff a.type).1 t, n)
  Objection-objected (too_many_tokens p n) = ground (arith, p, n)
  Objection-objected (too_dear p n) = ground (arith, p, n)
  Objection-objected (no_permission t r n) =
      ground (arith, eq_iff a.tool "", empty_iff a.roles, t, r, n)

  IsBig-iff : (big_diff above a ≡ true) ↔ IsBig above a
  IsBig-iff = (
    λ h.
        let (p, q) = and_true (ltz (pos 0) above) _ h in
        let (t, n) = and_true (sees_diff a.type) (ltz above a.diff_size) q in
        (p, (diff_iff a.type).0 t, n),
    λ h. ground (arith, h.0, (diff_iff a.type).1 h.1, h.2),
  )

  verdict_iff :
      (x y : Bool)
      → let r = if x then deny else if y then review else allow in
        ((r ≡ deny) ↔ (x ≡ true))
        × ((r ≡ review) ↔ ((x ≡ false) × (y ≡ true)))
        × ((r ≡ allow) ↔ ((x ≡ false) × (y ≡ false)))
  verdict_iff true y = ((λ h. refl, λ e. refl), (λ h. cc, λ e. cc), (λ h. cc, λ e. cc))
  verdict_iff false true = ((λ h. cc, λ e. cc), (λ h. (refl, refl), λ e. refl), (λ h. cc, λ e. cc))
  verdict_iff false false = ((λ h. cc, λ e. cc), (λ h. cc, λ e. cc), (λ h. (refl, refl), λ e. refl))

  unobjected : ¬ Objection max tokens cost permits a → objected ≡ false
  unobjected n = elim (Bool-cases objected) [
    | inl y ↦ absurd (n (objected-Objection y))
    | inr f ↦ f
  ]

  small : ¬ IsBig above a → big_diff above a ≡ false
  small n = elim (Bool-cases (big_diff above a)) [ inl y ↦ absurd (n (IsBig-iff.0 y)) | inr f ↦ f ]

  clear : objected ≡ false → ¬ Objection max tokens cost permits a
  clear e x = let y = Objection-objected x in cc

  -- An engine with the four policies denies exactly an action with an objection: a refine whose attempt is past a
  -- retry cap that is set, tokens or cost past a ceiling that is set, or a tool that its roles, where it has any, do
  -- not permit. Of the others it asks for a review of exactly the refines and merges whose diff is above a threshold
  -- that is set, and it allows exactly the rest.
  pub builtin-result :
      (show_usd : ℤ → Bytes) (show : List String → String → Bytes)
      → let r =
          (evaluate
            (retry_limit max
              ∷ diff_size above
              ∷ budget show_usd tokens cost
              ∷ tool_permission show permits
              ∷ [])
            a).result in
        ((r ≡ deny) ↔ Objection max tokens cost permits a)
        × ((r ≡ review) ↔ ((¬ Objection max tokens cost permits a) × IsBig above a))
        × ((r ≡ allow) ↔ ((¬ Objection max tokens cost permits a) × (¬ IsBig above a)))
  builtin-result show_usd show =
      let (d, v, w) = verdict_iff objected (big_diff above a) in
      rw (four_policies-result a max above tokens cost show_usd show permits) (
        (λ h. objected-Objection (d.0 h), λ x. d.1 (Objection-objected x)),
        (λ h. (clear (v.0 h).0, IsBig-iff.0 (v.0 h).1), λ x. v.1 (unobjected x.0, IsBig-iff.1 x.1)),
        (
          λ h. (clear (w.0 h).0, λ b. let y = IsBig-iff.1 b in let n = (w.0 h).1 in cc),
          λ x. w.1 (unobjected x.0, small x.1),
        ),
      )
