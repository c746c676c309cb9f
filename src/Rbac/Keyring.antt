-- ===== src/Rbac/Keyring.antt =====
-- internal/rbac/rbac.go: the bearer-token keyring.
use sandcode.Base.{
  ◌≡◌, refl, ap, ◌∙◌, List, [], ◌∷◌, ◌++◌, Bool, true, false, ◌||◌, codes, if◌then◌else◌,
}
use sandcode.Base.Bytes.{Bytes, bytes_eq, bytes_eq-append}
use sandcode.Rbac.Grants.{Principal, RoleSet}

pub record KeyEntry : Type 0 where
  pub token : Bytes
  pub principal : Principal

-- The entries are never changed after `NewKeyring`, so its copy of the slice is the list itself.
pub record Keyring : Type 0 where
  pub roles : RoleSet
  pub entries : List KeyEntry

abbrev pub zero_principal : Principal
zero_principal = record { id = ""; roles = []; admin = false }

-- The header that presents a token.
unfoldable pub bearer : Bytes → Bytes
bearer token = codes "Bearer " ++ token

pub bytes_eq-bearer : (t u : Bytes) → bytes_eq (bearer t) (bearer u) ≡ bytes_eq t u
unfolding bearer
bytes_eq-bearer t u = bytes_eq-append (codes "Bearer ") t u

-- The loop, which looks at every entry; `matched` is the flag that is or-ed.
unfoldable pub lookup_from : Bytes → List KeyEntry → Principal × Bool → Principal × Bool
lookup_from got [] found = found
lookup_from got (e ∷ entries) found =
    let eq = bytes_eq got (bearer e.token) in
    lookup_from got entries (if eq then e.principal else found.0, found.1 || eq)

unfoldable pub lookup_key : Keyring → Bytes → Principal × Bool
unfolding lookup_from
lookup_key k authz_header = lookup_from authz_header k.entries (zero_principal, false)

module _ (got : Bytes) (e : KeyEntry) (entries : List KeyEntry) (found : Principal × Bool) where
  -- What one round of the loop hands on.
  abbrev round : Bool → Principal × Bool
  round eq = (if eq then e.principal else found.0, found.1 || eq)

  round_true : (b : Bool) → (b || true) ≡ true
  round_true true = refl
  round_true false = refl

  round_false : (b : Bool) → (b || false) ≡ b
  round_false true = refl
  round_false false = refl

  pub lookup_from_match :
      bytes_eq got (bearer e.token) ≡ true
      → lookup_from got (e ∷ entries) found ≡ lookup_from got entries (e.principal, true)
  unfolding lookup_from
  lookup_from_match h =
      ap (λ b. lookup_from got entries (round b)) h
      ∙ ap (λ m. lookup_from got entries (e.principal, m)) (round_true found.1)

  pub lookup_from_skip :
      bytes_eq got (bearer e.token) ≡ false
      → lookup_from got (e ∷ entries) found ≡ lookup_from got entries found
  unfolding lookup_from
  lookup_from_skip h =
      ap (λ b. lookup_from got entries (round b)) h
      ∙ ap (λ m. lookup_from got entries (found.0, m)) (round_false found.1)
