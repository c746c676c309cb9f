-- ===== src/Rbac/Config.antt =====
-- internal/rbac/config.go: `LoadConfig` behind the file and the JSON decoder.
pub mod Laws
pub mod Sound
use sandcode.Base.{
  ◌≡◌, String, List, [], ◌∷◌, ◌++◌, Option, none, some, Bool, true, false, ◌||◌, str_eq,
  if◌then◌else◌,
}
use sandcode.Base.Bytes.{Bytes, bytes_eq}
use sandcode.Base.Dict.{Dict, lookup, put}
use sandcode.Rbac.Grants.{Principal, Grant, RoleSet, all_capabilities, cap_wildcard}
use sandcode.Rbac.Keyring.{KeyEntry, Keyring}

-- `keyEntry` and `fileConfig`; a `roleGrant` has the fields of a grant. The keys of the object
-- `roles` are different from one another, as those of a Go map are.
pub record FileKey : Type 0 where
  pub token : Bytes
  pub id : String
  pub roles : List String

pub record FileConfig : Type 0 where
  pub roles : Dict Grant
  pub keys : List FileKey

pub data ConfigError : Type 0 where
  unknown_capability empty_token empty_id duplicate_token undefined_role : ConfigError

pub data Loaded (A : Type 0) : Type 0 where
  ok : A → Loaded A
  err : ConfigError → Loaded A

infixl 5 ◌>>=◌ ◌>>◌
abbrev pub ◌>>=◌ : {A B : Type 0} → Loaded A → (A → Loaded B) → Loaded B
ok a >>= f = f a
err e >>= f = err e

abbrev pub ◌>>◌ : {B : Type 0} → Loaded (Unit {0}) → Loaded B → Loaded B
m >> k = m >>= λ _. k

abbrev pub guard : Bool → ConfigError → Loaded (Unit {0})
guard true e = ok tt
guard false e = err e

unfoldable pub member : String → List String → Bool
member s [] = false
member s (x ∷ xs) = str_eq x s || member s xs

unfoldable pub known_capability : String → Bool
unfolding member
known_capability c = member c all_capabilities || str_eq cap_wildcard c

unfoldable pub all_known : List String → Bool
unfolding known_capability
all_known [] = true
all_known (c ∷ cs) = if known_capability c then all_known cs else false

-- The loop over the roles.
unfoldable pub validate_roles : Dict Grant → Loaded RoleSet
validate_roles [] = ok []
validate_roles ((name, g) ∷ roles) = do
  guard (all_known g.capabilities) unknown_capability
  rest ← validate_roles roles
  ok ((name, g) ∷ rest)

abbrev pub is_defined : Dict Grant → String → Bool
is_defined roles role = elim (lookup role roles) [ none ↦ false | some _ ↦ true ]

unfoldable pub all_defined : Dict Grant → List String → Bool
all_defined roles [] = true
all_defined roles (r ∷ rs) = if is_defined roles r then all_defined roles rs else false

-- The set `seen`.
unfoldable pub seen_token : Bytes → List Bytes → Bool
seen_token t [] = false
seen_token t (x ∷ xs) = bytes_eq t x || seen_token t xs

abbrev pub is_blank : Bytes → Bool
is_blank [] = true
is_blank (b ∷ bs) = false

-- The loop over the keys, with the tokens seen so far.
unfoldable pub validate_keys : Dict Grant → List Bytes → List FileKey → Loaded (List KeyEntry)
validate_keys roles seen [] = ok []
validate_keys roles seen (k ∷ keys) = do
  guard (if is_blank k.token then false else true) empty_token
  guard (if str_eq k.id "" then false else true) empty_id
  guard (if seen_token k.token seen then false else true) duplicate_token
  guard (all_defined roles k.roles) undefined_role
  rest ← validate_keys roles (k.token ∷ seen) keys
  ok (
      record { token = k.token; principal = record { id = k.id; roles = k.roles; admin = false } }
      ∷ rest)

unfoldable pub load_config : FileConfig → Loaded Keyring
load_config fc = do
  role_set ← validate_roles fc.roles
  entries ← validate_keys fc.roles [] fc.keys
  ok (record { roles = role_set; entries = entries })
