-- ===== src/Rbac/Tests.antt =====
-- Grants and configurations at concrete inputs.
use mathlib.Core.List.{Memᴰ}
use sandcode.Base.{◌≡◌, refl, ◌↔◌, [], ◌∷◌, map, true, false, codes}
use sandcode.Base.Dict.{lookup}
use sandcode.Base.Bytes.{bytes_eq}
use sandcode.Rbac.Grants.{RoleSet, Principal, Grant, resolve, allows_tool, allows_capability}
use sandcode.Rbac.Grants.Laws.{any_role, role_tool, role_capability, resolve_union}
use sandcode.Rbac.Keyring.{Keyring, bearer, lookup_key}
use sandcode.Rbac.Config.{
  FileKey, FileConfig, ok, load_config, validate_roles, validate_keys, all_known, known_capability,
  member, all_defined, seen_token,
}
use sandcode.Rbac.Config.Laws.{principal_of, entry_of, load_config-lookup}
use sandcode.Rbac.Config.Sound.{IsValid, load_config-IsValid}

abbrev reader : Grant
reader = record { tools = "Read" ∷ []; capabilities = "run:read" ∷ []; endpoints = [] }

abbrev writer : Grant
writer = record { tools = "Edit" ∷ "Bash" ∷ []; capabilities = "run:create" ∷ []; endpoints = [] }

abbrev role_set : RoleSet
role_set = ("reader", reader) ∷ ("writer", writer) ∷ []

abbrev ana : Principal
ana = record { id = "ana"; roles = "reader" ∷ "writer" ∷ "ghost" ∷ []; admin = false }

resolve_union_example :
    (allows_tool (resolve role_set ana) "Bash" ≡ any_role role_tool role_set ana.roles "Bash")
    × (allows_capability (resolve role_set ana) "Bash"
        ≡ any_role role_capability role_set ana.roles "Bash")
resolve_union_example = resolve_union role_set ana "Bash" refl

abbrev key_of_ana : FileKey
key_of_ana = record { token = codes "s1"; id = "ana"; roles = "reader" ∷ [] }

abbrev key_of_bo : FileKey
key_of_bo = record { token = codes "s2"; id = "bo"; roles = "writer" ∷ [] }

abbrev config : FileConfig
config = record { roles = role_set; keys = key_of_ana ∷ key_of_bo ∷ [] }

abbrev keyring : Keyring
keyring = record { roles = role_set; entries = entry_of key_of_ana ∷ entry_of key_of_bo ∷ [] }

config_loads : load_config config ≡ ok keyring
unfolding load_config validate_roles validate_keys all_known known_capability member all_defined
    seen_token lookup bytes_eq
config_loads = refl

load_config-lookup_example :
    lookup_key keyring (bearer (codes "s2")) ≡ (principal_of key_of_bo, true)
load_config-lookup_example =
    load_config-lookup config keyring config_loads key_of_bo (Memᴰ.tail (Memᴰ.head refl))

load_config-IsValid_example :
    (load_config config ≡ ok keyring)
    ↔ (IsValid config × (keyring ≡ record { roles = role_set; entries = map entry_of config.keys }))
load_config-IsValid_example = load_config-IsValid config keyring
