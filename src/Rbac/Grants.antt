-- ===== src/Rbac/Grants.antt =====
-- internal/rbac/rbac.go: grants, their union over a principal's roles, and the permission tests.
pub mod Laws
use sandcode.Base.{
  ◌≡◌, String, List, [], ◌∷◌, ◌++◌, Option, none, some, Bool, true, false, ◌||◌, str_eq,
  if◌then◌else◌,
}
use sandcode.Base.Dict.{Dict, lookup}

abbrev pub cap_wildcard : String
cap_wildcard = "*"

abbrev pub all_capabilities : List String
all_capabilities = "run:create" ∷ "run:read" ∷ "run:cancel" ∷ "approve" ∷ "audit:read" ∷ []

pub record Principal : Type 0 where
  pub id : String
  pub roles : List String
  pub admin : Bool

pub record Grant : Type 0 where
  pub tools : List String
  pub capabilities : List String
  pub endpoints : List String

abbrev pub RoleSet : Type 0
RoleSet = Dict Grant

abbrev pub admin_principal : Principal
admin_principal = record { id = "admin"; roles = []; admin = true }

abbrev pub empty_grant : Grant
empty_grant = record { tools = []; capabilities = []; endpoints = [] }

abbrev pub wildcard_grant : Grant
wildcard_grant = record {
  tools = cap_wildcard ∷ [];
  capabilities = cap_wildcard ∷ [];
  endpoints = cap_wildcard ∷ [];
}

-- One round of the loop over the roles: an unknown role contributes nothing.
abbrev pub add_role : Option Grant → Grant → Grant
add_role none out = out
add_role (some g) out = record {
  tools = out.tools ++ g.tools;
  capabilities = out.capabilities ++ g.capabilities;
  endpoints = out.endpoints ++ g.endpoints;
}

unfoldable pub resolve_from : RoleSet → List String → Grant → Grant
resolve_from rs [] out = out
resolve_from rs (role ∷ roles) out = resolve_from rs roles (add_role (lookup role rs) out)

unfoldable pub resolve : RoleSet → Principal → Grant
resolve rs p = if p.admin then wildcard_grant else resolve_from rs p.roles empty_grant

unfoldable pub contains : List String → String → Bool
contains [] want = false
contains (s ∷ set) want = if str_eq s cap_wildcard || str_eq s want then true else contains set want

unfoldable pub allows_tool : Grant → String → Bool
allows_tool g tool = contains g.tools tool

unfoldable pub allows_capability : Grant → String → Bool
allows_capability g cap = contains g.capabilities cap

unfoldable pub permitted_tools : Grant → List String → List String
permitted_tools g [] = []
permitted_tools g (c ∷ cands) =
    if allows_tool g c then c ∷ permitted_tools g cands else permitted_tools g cands

-- cmd/sandcode/serve.go: the closure `permits` that the tool policy is given, and `permittedFor`,
-- where no role set means that every tool is permitted.
unfoldable pub permits : RoleSet → List String → String → Bool
permits rs roles tool =
    allows_tool (resolve rs (record { id = ""; roles = roles; admin = false })) tool

unfoldable pub permitted_for : Option RoleSet → Principal → Option (String → Bool)
permitted_for none p = none
permitted_for (some rs) p = some (λ tool. allows_tool (resolve rs p) tool)
