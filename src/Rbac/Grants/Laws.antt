-- ===== src/Rbac/Grants/Laws.antt =====
-- A principal may do exactly what one of its known roles allows.
use sandcode.Base.{
  ◌≡◌, refl, ◌∙◌, inl, inr, String, List, [], ◌∷◌, ◌++◌, Option, none, some, Bool, true, false,
  ◌||◌, ◌&&◌, arith, Bool-cases, str_eq, eq_iff,
}
use sandcode.Base.Dict.{lookup}
use sandcode.Rbac.Grants.{
  Principal, Grant, RoleSet, empty_grant, add_role, resolve_from, resolve, contains, allows_tool,
  allows_capability, permitted_tools,
}

pub contains-append :
    (xs ys : List String) (want : String)
    → contains (xs ++ ys) want ≡ (contains xs want || contains ys want)
unfolding contains
contains-append [] ys want = refl
contains-append (x ∷ xs) ys want = ground (arith, contains-append xs ys want)

-- What a role of that name allows; an unknown role allows nothing.
abbrev pub role_tool : Option Grant → String → Bool
role_tool none tool = false
role_tool (some g) tool = allows_tool g tool

abbrev pub role_capability : Option Grant → String → Bool
role_capability none cap = false
role_capability (some g) cap = allows_capability g cap

-- Some role of the list allows it.
abbrev pub any_role : (Option Grant → String → Bool) → RoleSet → List String → String → Bool
any_role allows rs [] want = false
any_role allows rs (role ∷ roles) want =
    allows (lookup role rs) want || any_role allows rs roles want

add_role-tools :
    (o : Option Grant) (out : Grant) (tool : String)
    → allows_tool (add_role o out) tool ≡ (allows_tool out tool || role_tool o tool)
unfolding allows_tool
add_role-tools none out tool = ground arith
add_role-tools (some g) out tool = contains-append out.tools g.tools tool

add_role-capabilities :
    (o : Option Grant) (out : Grant) (cap : String)
    → allows_capability (add_role o out) cap ≡ (allows_capability out cap || role_capability o cap)
unfolding allows_capability
add_role-capabilities none out cap = ground arith
add_role-capabilities (some g) out cap = contains-append out.capabilities g.capabilities cap

or_false : (a : Bool) → a ≡ (a || false)
or_false true = refl
or_false false = refl

or_assoc : (a b c : Bool) → ((a || b) || c) ≡ (a || (b || c))
or_assoc true b c = refl
or_assoc false b c = refl

resolve_from-tools :
    (rs : RoleSet) (roles : List String) (out : Grant) (tool : String)
    → allows_tool (resolve_from rs roles out) tool
      ≡ (allows_tool out tool || any_role role_tool rs roles tool)
unfolding resolve_from
resolve_from-tools rs [] out tool = or_false (allows_tool out tool)
resolve_from-tools rs (role ∷ roles) out tool =
    resolve_from-tools rs roles (add_role (lookup role rs) out) tool
    ∙ rw (add_role-tools (lookup role rs) out tool) (
        or_assoc (allows_tool out tool) (role_tool (lookup role rs) tool)
          (any_role role_tool rs roles tool))

resolve_from-capabilities :
    (rs : RoleSet) (roles : List String) (out : Grant) (cap : String)
    → allows_capability (resolve_from rs roles out) cap
      ≡ (allows_capability out cap || any_role role_capability rs roles cap)
unfolding resolve_from
resolve_from-capabilities rs [] out cap = or_false (allows_capability out cap)
resolve_from-capabilities rs (role ∷ roles) out cap =
    resolve_from-capabilities rs roles (add_role (lookup role rs) out) cap
    ∙ rw (add_role-capabilities (lookup role rs) out cap) (
        or_assoc (allows_capability out cap) (role_capability (lookup role rs) cap)
          (any_role role_capability rs roles cap))

nothing_tool :
    (rs : RoleSet) (roles : List String) (want : String)
    → (allows_tool empty_grant want || any_role role_tool rs roles want)
      ≡ any_role role_tool rs roles want
unfolding allows_tool contains
nothing_tool rs roles want = refl

nothing_capability :
    (rs : RoleSet) (roles : List String) (want : String)
    → (allows_capability empty_grant want || any_role role_capability rs roles want)
      ≡ any_role role_capability rs roles want
unfolding allows_capability contains
nothing_capability rs roles want = refl

-- The union of the grants of a principal who is no administrator allows a tool, or a capability,
-- exactly when the grant of one of its roles does. An unknown role adds nothing.
pub resolve_union :
    (rs : RoleSet) (p : Principal) (want : String)
    → p.admin ≡ false
    → (allows_tool (resolve rs p) want ≡ any_role role_tool rs p.roles want)
      × (allows_capability (resolve rs p) want ≡ any_role role_capability rs p.roles want)
unfolding resolve
resolve_union rs p want h = rw h (
  resolve_from-tools rs p.roles empty_grant want ∙ nothing_tool rs p.roles want,
  resolve_from-capabilities rs p.roles empty_grant want ∙ nothing_capability rs p.roles want,
)

-- An administrator may use every tool and has every capability, whatever the roles that are defined.
pub resolve_admin :
    (rs : RoleSet) (p : Principal) (want : String)
    → p.admin ≡ true
    → (allows_tool (resolve rs p) want ≡ true) × (allows_capability (resolve rs p) want ≡ true)
unfolding resolve allows_tool allows_capability contains
resolve_admin rs p want h = rw h (refl, refl)

pub mem : String → List String → Bool
mem want [] = false
mem want (x ∷ xs) = str_eq x want || mem want xs

pub all_true : (String → Bool) → List String → Bool
all_true f [] = true
all_true f (x ∷ xs) = f x && all_true f xs

module _ (g : Grant) where
  permitted_tools-all_true :
      (cands : List String) → all_true (allows_tool g) (permitted_tools g cands) ≡ true
  unfolding permitted_tools all_true
  permitted_tools-all_true [] = refl
  permitted_tools-all_true (c ∷ cands) = elim (Bool-cases (allows_tool g c)) [
    | inl y ↦ rw y (rw (y, permitted_tools-all_true cands) refl)
    | inr n ↦ rw n (permitted_tools-all_true cands)
  ]

  permitted_tools_idem :
      (cands : List String) → permitted_tools g (permitted_tools g cands) ≡ permitted_tools g cands
  unfolding permitted_tools
  permitted_tools_idem [] = refl
  permitted_tools_idem (c ∷ cands) = elim (Bool-cases (allows_tool g c)) [
    | inl y ↦ simp (y, permitted_tools_idem cands) refl
    | inr n ↦ rw n (permitted_tools_idem cands)
  ]

  permitted_tools-mem :
      (want : String) (cands : List String)
      → mem want (permitted_tools g cands) ≡ (mem want cands && allows_tool g want)
  unfolding permitted_tools mem
  permitted_tools-mem want [] = refl
  permitted_tools-mem want (c ∷ cands) =
      ground (arith, permitted_tools-mem want cands, eq_iff c want)

  -- Exactly the candidates that the grant allows are permitted, and permitting twice is permitting
  -- once.
  pub permitted_tools_exact :
      (cands : List String)
      → (all_true (allows_tool g) (permitted_tools g cands) ≡ true)
        × (permitted_tools g (permitted_tools g cands) ≡ permitted_tools g cands)
        × ((want : String)
            → mem want (permitted_tools g cands) ≡ (mem want cands && allows_tool g want))
  permitted_tools_exact cands = (
    permitted_tools-all_true cands,
    permitted_tools_idem cands,
    λ want. permitted_tools-mem want cands,
  )
