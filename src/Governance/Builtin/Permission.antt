-- ===== src/Governance/Builtin/Permission.antt =====
-- cmd/sandcode/serve.go and internal/governance/builtin/tool_permission.go: the tool policy that the server installs.
use mathlib.Core.List.{Memᴰ}
use sandcode.Base.{
  ◌≡◌, refl, sym, ◌∙◌, ap, ◌⊎◌, inl, inr, ◌↔◌, String, List, [], ◌∷◌, Option, none, some, Bool,
  true, false, ◌||◌, arith, str_eq, eq_iff, Bool-cases, if◌then◌else◌,
}
use mathlib.Core.Option.{some-injective}
use sandcode.Base.Bytes.{Bytes}
use sandcode.Base.Dict.{lookup}
use sandcode.Governance.Policy.{allow, deny, Action}
use sandcode.Governance.Builtin.{is_empty, tool_permission}
use sandcode.Rbac.Grants.{
  RoleSet, Principal, Grant, contains, allows_tool, resolve, permits, permitted_for,
}
use sandcode.Rbac.Grants.Laws.{any_role, role_tool, resolve_union}

-- A role of the list is defined, and its grant names the tool or "*".
abbrev pub IsGranted : RoleSet → List String → String → Type 0
IsGranted rs roles tool =
    (role : String) × Memᴰ role roles
    × (g : Grant) × (lookup role rs ≡ some g)
    × (Memᴰ "*" g.tools ⊎ Memᴰ tool g.tools)

contains-true :
    (set : List String) (want : String) → contains set want ≡ true → Memᴰ "*" set ⊎ Memᴰ want set
unfolding contains
contains-true [] want h = cc
contains-true (s ∷ set) want h = elim (Bool-cases (str_eq s "*")) [
  | inl y ↦ inl (Memᴰ.head (sym ((eq_iff s "*").0 y)))
  | inr n ↦ elim (Bool-cases (str_eq s want)) [
    | inl y ↦ inr (Memᴰ.head (sym ((eq_iff s want).0 y)))
    | inr m ↦ elim (contains-true set want (ground (arith, n, m, h))) [
      | inl z ↦ inl (Memᴰ.tail z)
      | inr z ↦ inr (Memᴰ.tail z)
    ]
  ]
]

contains-star : (set : List String) (want : String) → Memᴰ "*" set → contains set want ≡ true
unfolding contains
contains-star [] want m = elim m [ ]
contains-star (s ∷ set) want (Memᴰ.head e) = ground (arith, (eq_iff s "*").1 (sym e))
contains-star (s ∷ set) want (Memᴰ.tail m) = ground (arith, contains-star set want m)

contains-own : (set : List String) (want : String) → Memᴰ want set → contains set want ≡ true
unfolding contains
contains-own [] want m = elim m [ ]
contains-own (s ∷ set) want (Memᴰ.head e) = ground (arith, (eq_iff s want).1 (sym e))
contains-own (s ∷ set) want (Memᴰ.tail m) = ground (arith, contains-own set want m)

contains-IsGranted :
    (rs : RoleSet) (role : String) (o : Option Grant) (tool : String)
    → lookup role rs ≡ o
    → role_tool o tool ≡ true
    → (g : Grant) × (lookup role rs ≡ some g) × (Memᴰ "*" g.tools ⊎ Memᴰ tool g.tools)
unfolding allows_tool
contains-IsGranted rs role none tool e h = cc
contains-IsGranted rs role (some g) tool e h = (g, e, contains-true g.tools tool h)

any_role-IsGranted :
    (rs : RoleSet) (roles : List String) (tool : String)
    → any_role role_tool rs roles tool ≡ true
    → IsGranted rs roles tool
any_role-IsGranted rs [] tool h = cc
any_role-IsGranted rs (role ∷ roles) tool h = elim (Bool-cases (role_tool (lookup role rs) tool)) [
  | inl y ↦
      let (g, e, m) = contains-IsGranted rs role (lookup role rs) tool refl y in
      (role, Memᴰ.head refl, g, e, m)
  | inr n ↦
      let later : any_role role_tool rs roles tool ≡ true = rw n at h in
      let (r, m, g, e, t) = any_role-IsGranted rs roles tool later in (r, Memᴰ.tail m, g, e, t)
]

grant_allows :
    (g : Grant) (tool : String) → Memᴰ "*" g.tools ⊎ Memᴰ tool g.tools → allows_tool g tool ≡ true
unfolding allows_tool
grant_allows g tool (inl m) = contains-star g.tools tool m
grant_allows g tool (inr m) = contains-own g.tools tool m

or_right : (x : Bool) → (x || true) ≡ true
or_right true = refl
or_right false = refl

granted-any_role :
    (rs : RoleSet) (roles : List String) (tool role : String) (g : Grant)
    → Memᴰ role roles
    → lookup role rs ≡ some g
    → allows_tool g tool ≡ true
    → any_role role_tool rs roles tool ≡ true
granted-any_role rs [] tool role g m e a = elim m [ ]
granted-any_role rs (r ∷ roles) tool role g (Memᴰ.head same) e a =
    let found : lookup r rs ≡ some g = ap (λ k. lookup k rs) (sym same) ∙ e in rw (found, a) refl
granted-any_role rs (r ∷ roles) tool role g (Memᴰ.tail m) e a =
    rw (granted-any_role rs roles tool role g m e a) (or_right (role_tool (lookup r rs) tool))

resolve_iff :
    (rs : RoleSet) (p : Principal) (tool : String)
    → p.admin ≡ false
    → (allows_tool (resolve rs p) tool ≡ true) ↔ IsGranted rs p.roles tool
resolve_iff rs p tool plain = (
  λ h. any_role-IsGranted rs p.roles tool (sym (resolve_union rs p tool plain).0 ∙ h),
  λ x.
      (resolve_union rs p tool plain).0
      ∙ granted-any_role rs p.roles tool x.0 x.2 x.1 x.3 (grant_allows x.2 tool x.4),
)

IsGranted-moved :
    (rs : RoleSet) (xs ys : List String) (tool : String)
    → ((role : String) → Memᴰ role xs → Memᴰ role ys)
    → IsGranted rs xs tool
    → IsGranted rs ys tool
IsGranted-moved rs xs ys tool f (r, m, g, e, t) = (r, f r m, g, e, t)

named_tool : (tool : String) → ¬ (tool ≡ "") → str_eq tool "" ≡ false
named_tool tool n = elim (Bool-cases (str_eq tool "")) [
  | inl y ↦ absurd (n ((eq_iff tool "").0 y))
  | inr f ↦ f
]

some_roles : (roles : List String) → ¬ (roles ≡ []) → is_empty roles ≡ false
some_roles [] n = absurd (n refl)
some_roles (x ∷ xs) n = refl

guarded_verdict :
    (show : List String → String → Bytes) (permit : List String → String → Bool) (a : Action)
    → ¬ (a.tool ≡ "")
    → ¬ (a.roles ≡ [])
    → ((tool_permission show permit).evaluate a).result
      ≡ (if permit a.roles a.tool then allow else deny)
unfolding tool_permission
guarded_verdict show permit a named some_role =
    ground (arith, named_tool a.tool named, some_roles a.roles some_role)

chosen_iff : (b : Bool) → ((if b then allow else deny) ≡ allow) ↔ (b ≡ true)
chosen_iff true = (λ h. refl, λ e. refl)
chosen_iff false = (λ h. cc, λ e. cc)

-- The tool policy that the server installs allows an action with the roles of a principal, in any order, to use a
-- tool exactly when one of these roles is defined with a grant that names the tool or "*", and denies it else; and the
-- filter on the principal's tools lets exactly the same tools through. The action names a tool and a role, and the
-- principal is no administrator.
pub installed_policy :
    (show : List String → String → Bytes) (rs : RoleSet) (p : Principal) (a : Action)
    (f : String → Bool)
    → permitted_for (some rs) p ≡ some f
    → p.admin ≡ false
    → ((role : String) → Memᴰ role a.roles ↔ Memᴰ role p.roles)
    → ¬ (a.roles ≡ [])
    → ¬ (a.tool ≡ "")
    → let r = ((tool_permission show (permits rs)).evaluate a).result in
      ((r ≡ allow) ↔ IsGranted rs p.roles a.tool)
      × ((r ≡ deny) ⊎ (r ≡ allow))
      × ((f a.tool ≡ true) ↔ IsGranted rs p.roles a.tool)
unfolding permitted_for permits
installed_policy show rs p a f e plain same_roles some_role named =
    let asked : Principal = record { id = ""; roles = a.roles; admin = false } in
    let v = guarded_verdict show (permits rs) a named some_role in
    let same : f a.tool ≡ allows_tool (resolve rs p) a.tool =
      sym (ap (λ (g : String → Bool). g a.tool) (some-injective _ f e)) in
    let mine = resolve_iff rs asked a.tool refl in
    let his = resolve_iff rs p a.tool plain in
    (
      (
        λ h.
            IsGranted-moved rs a.roles p.roles a.tool (λ r. (same_roles r).0)
              (mine.0 ((chosen_iff (permits rs a.roles a.tool)).0 (sym v ∙ h))),
        λ x.
            v
            ∙ (chosen_iff (permits rs a.roles a.tool)).1
                (mine.1 (IsGranted-moved rs p.roles a.roles a.tool (λ r. (same_roles r).1) x)),
      ),
      rw v (either (permits rs a.roles a.tool)),
      (λ h. his.0 (sym same ∙ h), λ x. same ∙ his.1 x),
    )
  where
    either :
        (b : Bool) → ((if b then allow else deny) ≡ deny) ⊎ ((if b then allow else deny) ≡ allow)
    either true = inr refl
    either false = inl refl
