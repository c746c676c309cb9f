-- ===== src/Rbac/Config/Laws.antt =====
-- What a configuration that loads promises: each of its tokens authenticates its own principal.
use mathlib.Core.List.{Memᴰ}
use sandcode.Base.{
  ◌≡◌, refl, ◌∙◌, ap, ◌⊎◌, inl, inr, String, List, [], ◌∷◌, map, Bool, true, false, arith, All,
  str_eq, Bool-cases,
}
use sandcode.Base.Bytes.{Bytes, bytes_eq, bytes_eq→eq, bytes_eq_refl}
use sandcode.Base.Dict.{Dict}
use sandcode.Rbac.Grants.{Principal, Grant, RoleSet}
use sandcode.Rbac.Keyring.{
  KeyEntry, Keyring, zero_principal, bearer, bytes_eq-bearer, lookup_from, lookup_from_match,
  lookup_from_skip, lookup_key,
}
use sandcode.Rbac.Config.{
  FileKey, FileConfig, ConfigError, Loaded, ok, err, all_known, validate_roles, all_defined,
  seen_token, is_blank, validate_keys, load_config,
}

abbrev pub principal_of : FileKey → Principal
principal_of k = record { id = k.id; roles = k.roles; admin = false }

abbrev pub entry_of : FileKey → KeyEntry
entry_of k = record { token = k.token; principal = principal_of k }

-- The tokens are different from those seen and from one another.
abbrev pub AreFresh : List Bytes → List FileKey → Type 0
AreFresh seen [] = Unit
AreFresh seen (k ∷ keys) = (seen_token k.token seen ≡ false) × AreFresh (k.token ∷ seen) keys

-- What is checked of one key besides its token's freshness.
abbrev pub IsSound : Dict Grant → FileKey → Type 0
IsSound roles k =
    (is_blank k.token ≡ false) × (str_eq k.id "" ≡ false) × (all_defined roles k.roles ≡ true)

Loaded-cases :
    {A : Type 0} (r : Loaded A) → ((a : A) × (r ≡ ok a)) ⊎ ((e : ConfigError) × (r ≡ err e))
Loaded-cases (ok a) = inl (a, refl)
Loaded-cases (err e) = inr (e, refl)

validate_keys-cons :
    (roles : Dict Grant) (seen : List Bytes) (k : FileKey) (keys : List FileKey)
    (es : List KeyEntry)
    → validate_keys roles seen (k ∷ keys) ≡ ok es
    → (rest : List KeyEntry) × (validate_keys roles (k.token ∷ seen) keys ≡ ok rest)
      × (es ≡ entry_of k ∷ rest)
      × (seen_token k.token seen ≡ false)
      × IsSound roles k
unfolding validate_keys
validate_keys-cons roles seen k keys es h =
    elim (Loaded-cases (validate_keys roles (k.token ∷ seen) keys)) [
      | inl (rest, e) ↦
          (rest, e, ground arith, ground arith, (ground arith, ground arith, ground arith))
      | inr (x, e) ↦ absurd (ground arith)
    ]

validate_keys_ok :
    (roles : Dict Grant) (seen : List Bytes) (keys : List FileKey) (es : List KeyEntry)
    → validate_keys roles seen keys ≡ ok es
    → (es ≡ map entry_of keys) × AreFresh seen keys × All (IsSound roles) keys
unfolding validate_keys
validate_keys_ok roles seen [] es h = (cc, tt, tt)
validate_keys_ok roles seen (k ∷ keys) es h =
    let (rest, e, same, fresh, sound) = validate_keys-cons roles seen k keys es h in
    let ih = validate_keys_ok roles (k.token ∷ seen) keys rest e in
    (same ∙ ap (λ l. entry_of k ∷ l) ih.0, (fresh, ih.1), (sound, ih.2))

validate_roles_ok :
    (roles : Dict Grant) (rs : RoleSet)
    → validate_roles roles ≡ ok rs
    → (rs ≡ roles) × All (λ (e : String × Grant). all_known e.1.capabilities ≡ true) roles
unfolding validate_roles
validate_roles_ok [] rs h = (cc, tt)
validate_roles_ok ((name, g) ∷ roles) rs h = elim (Loaded-cases (validate_roles roles)) [
  | inl (rest, e) ↦
      let ih = validate_roles_ok roles rest e in (ground (arith, ih.0), (ground arith, ih.1))
  | inr (x, e) ↦ absurd (ground arith)
]

-- No key whose token was seen stands among fresh ones, so a pass over them finds nothing.
lookup_from_seen :
    (t : Bytes) (seen : List Bytes) (keys : List FileKey) (found : Principal × Bool)
    → AreFresh seen keys
    → seen_token t seen ≡ true
    → lookup_from (bearer t) (map entry_of keys) found ≡ found
unfolding lookup_from seen_token
lookup_from_seen t seen [] found fresh hit = refl
lookup_from_seen t seen (k ∷ keys) found fresh hit = elim (Bool-cases (bytes_eq t k.token)) [
  | inl same ↦
      let clash : seen_token k.token seen ≡ true = rw (← bytes_eq→eq t k.token same) hit in
      absurd (ground (arith, fresh.0))
  | inr other ↦
      lookup_from_skip (bearer t) (entry_of k) (map entry_of keys) found
        (bytes_eq-bearer t k.token ∙ other)
      ∙ lookup_from_seen t (k.token ∷ seen) keys found fresh.1 (rw other hit)
]

-- A key among fresh ones is found, whatever was found before it.
lookup_from_hit :
    (k : FileKey) (seen : List Bytes) (keys : List FileKey) (found : Principal × Bool)
    → AreFresh seen keys
    → Memᴰ k keys
    → lookup_from (bearer k.token) (map entry_of keys) found ≡ (principal_of k, true)
unfolding lookup_from seen_token
lookup_from_hit k seen [] found fresh m = elim m [ ]
lookup_from_hit k seen (j ∷ keys) found fresh (Memᴰ.head same) = rw same (
    lookup_from_match (bearer j.token) (entry_of j) (map entry_of keys) found
      (bytes_eq_refl (bearer j.token))
    ∙ lookup_from_seen j.token (j.token ∷ seen) keys (principal_of j, true) fresh.1
        (rw (bytes_eq_refl j.token)))
lookup_from_hit k seen (j ∷ keys) found fresh (Memᴰ.tail later) =
    lookup_from_hit k (j.token ∷ seen) keys _ fresh.1 later

-- A header that is no key's finds nothing.
lookup_from_miss :
    (got : Bytes) (keys : List FileKey) (found : Principal × Bool)
    → All (λ (k : FileKey). bytes_eq got (bearer k.token) ≡ false) keys
    → lookup_from got (map entry_of keys) found ≡ found
unfolding lookup_from
lookup_from_miss got [] found h = refl
lookup_from_miss got (k ∷ keys) found h =
    lookup_from_skip got (entry_of k) (map entry_of keys) found h.0
    ∙ lookup_from_miss got keys found h.1

pub load_config-ok :
    (fc : FileConfig) (kr : Keyring)
    → load_config fc ≡ ok kr
    → (kr.roles ≡ fc.roles)
      × (kr.entries ≡ map entry_of fc.keys)
      × AreFresh [] fc.keys
      × All (IsSound fc.roles) fc.keys
      × All (λ (e : String × Grant). all_known e.1.capabilities ≡ true) fc.roles
unfolding load_config
load_config-ok fc kr h = elim (Loaded-cases (validate_roles fc.roles)) [
  | inr (x, e) ↦ absurd (ground arith)
  | inl (rs, e) ↦ elim (Loaded-cases (validate_keys fc.roles [] fc.keys)) [
    | inr (x, e') ↦ absurd (ground arith)
    | inl (es, e') ↦
        let roles_ok = validate_roles_ok fc.roles rs e in
        let keys_ok = validate_keys_ok fc.roles [] fc.keys es e' in
        (ground (arith, roles_ok.0), ground (arith, keys_ok.0), keys_ok.1, keys_ok.2, roles_ok.1)
  ]
]

module _ (fc : FileConfig) (kr : Keyring) (loaded : load_config fc ≡ ok kr) where
  -- In a configuration that loads, the token of each key, presented as a bearer token, finds the
  -- principal of that key, whichever keys stand before and behind it.
  pub load_config-lookup :
      (k : FileKey) → Memᴰ k fc.keys → lookup_key kr (bearer k.token) ≡ (principal_of k, true)
  unfolding lookup_key
  load_config-lookup k m =
      let facts = load_config-ok fc kr loaded in
      rw facts.1 (lookup_from_hit k [] fc.keys (zero_principal, false) facts.2 m)

  -- In a configuration that loads, a header that is the bearer header of no key finds nobody.
  pub lookup_key-stranger :
      (got : Bytes)
      → All (λ (k : FileKey). bytes_eq got (bearer k.token) ≡ false) fc.keys
      → lookup_key kr got ≡ (zero_principal, false)
  unfolding lookup_key
  lookup_key-stranger got h =
      let facts = load_config-ok fc kr loaded in
      rw facts.1 (lookup_from_miss got fc.keys (zero_principal, false) h)
