-- ===== src/Rbac/Config/Sound.antt =====
-- internal/rbac/config.go: which configurations load, and what they load to.
use mathlib.Core.List.{Memᴰ}
use sandcode.Base.{
  ◌≡◌, refl, sym, ◌∙◌, ap, ◌↔◌, inl, inr, String, List, [], ◌∷◌, map, Option, none, some, Bool,
  true, false, arith, All, str_eq, eq_iff, Bool-cases,
}
use sandcode.Base.Bytes.{Bytes, bytes_eq, bytes_eq_iff}
use sandcode.Base.Dict.{Dict, lookup}
use sandcode.Rbac.Grants.{Grant, RoleSet}
use sandcode.Rbac.Keyring.{KeyEntry, Keyring}
use sandcode.Rbac.Config.{
  FileKey, FileConfig, ok, member, known_capability, all_known, validate_roles, is_defined,
  all_defined, seen_token, is_blank, validate_keys, load_config,
}
use sandcode.Rbac.Config.Laws.{entry_of, AreFresh, IsSound, load_config-ok}

-- The capabilities that a role may have.
abbrev pub IsCapability : String → Type 0
IsCapability c =
    Memᴰ c ("run:create" ∷ "run:read" ∷ "run:cancel" ∷ "approve" ∷ "audit:read" ∷ "*" ∷ [])

abbrev pub IsDefined : Dict Grant → String → Type 0
IsDefined roles role = (g : Grant) × (lookup role roles ≡ some g)

abbrev pub IsComplete : Dict Grant → FileKey → Type 0
IsComplete roles k = (¬ (k.token ≡ [])) × (¬ (k.id ≡ "")) × All (IsDefined roles) k.roles

-- No key of the list has the token.
abbrev pub IsUnused : Bytes → List FileKey → Type 0
IsUnused t keys = All (λ (k : FileKey). ¬ (k.token ≡ t)) keys

abbrev pub IsDistinct : List FileKey → Type 0
IsDistinct [] = Unit
IsDistinct (k ∷ keys) = IsUnused k.token keys × IsDistinct keys

pub record IsValid (fc : FileConfig) : Type 0 where
  pub capabilities : All (λ (e : String × Grant). All IsCapability e.1.capabilities) fc.roles
  pub keys : All (IsComplete fc.roles) fc.keys
  pub tokens : IsDistinct fc.keys

All-to :
    {A : Type 0} {P Q : A → Type 0} (f : (x : A) → P x → Q x) (xs : List A) → All P xs → All Q xs
All-to f [] h = tt
All-to f (x ∷ xs) h = (f x h.0, All-to f xs h.1)

member-to_Mem : (s : String) (xs : List String) → member s xs ≡ true → Memᴰ s xs
unfolding member
member-to_Mem s [] h = cc
member-to_Mem s (x ∷ xs) h = elim (Bool-cases (str_eq x s)) [
  | inl y ↦ Memᴰ.head (sym ((eq_iff x s).0 y))
  | inr n ↦ Memᴰ.tail (member-to_Mem s xs (rw n at h))
]

Mem-member : (s : String) (xs : List String) → Memᴰ s xs → member s xs ≡ true
unfolding member
Mem-member s [] m = elim m [ ]
Mem-member s (x ∷ xs) (Memᴰ.head e) = ground (arith, (eq_iff x s).1 (sym e))
Mem-member s (x ∷ xs) (Memᴰ.tail m) = ground (arith, Mem-member s xs m)

same_capabilities :
    (c : String)
    → known_capability c
      ≡ member c ("run:create" ∷ "run:read" ∷ "run:cancel" ∷ "approve" ∷ "audit:read" ∷ "*" ∷ [])
unfolding known_capability member
same_capabilities c = ground arith

known_iff : (c : String) → (known_capability c ≡ true) ↔ IsCapability c
known_iff c = (
  λ h. member-to_Mem c _ (sym (same_capabilities c) ∙ h),
  λ m. same_capabilities c ∙ Mem-member c _ m,
)

all_known_iff : (cs : List String) → (all_known cs ≡ true) ↔ All IsCapability cs
unfolding all_known
all_known_iff [] = (λ h. tt, λ m. refl)
all_known_iff (c ∷ cs) = (
  λ h. elim (Bool-cases (known_capability c)) [
    | inl y ↦ ((known_iff c).0 y, (all_known_iff cs).0 (rw y at h))
    | inr n ↦ absurd (ground (arith, n, h))
  ],
  λ m. ground (arith, (known_iff c).1 m.0, (all_known_iff cs).1 m.1),
)

IsDefined-iff : (roles : Dict Grant) (r : String) → (is_defined roles r ≡ true) ↔ IsDefined roles r
IsDefined-iff roles r = go (lookup r roles)
  where
    go :
        (o : Option Grant)
        → (elim o [ none ↦ false | some _ ↦ true ] ≡ true) ↔ ((g : Grant) × (o ≡ some g))
    go none = (λ h. cc, λ x. let e = x.1 in cc)
    go (some g) = (λ h. (g, refl), λ x. refl)

all_defined_iff :
    (roles : Dict Grant) (rs : List String)
    → (all_defined roles rs ≡ true) ↔ All (IsDefined roles) rs
unfolding all_defined
all_defined_iff roles [] = (λ h. tt, λ m. refl)
all_defined_iff roles (r ∷ rs) = (
  λ h. elim (Bool-cases (is_defined roles r)) [
    | inl y ↦ ((IsDefined-iff roles r).0 y, (all_defined_iff roles rs).0 (rw y at h))
    | inr n ↦ absurd (ground (arith, n, h))
  ],
  λ m. rw ((IsDefined-iff roles r).1 m.0) ((all_defined_iff roles rs).1 m.1),
)

blank_iff : (t : Bytes) → (is_blank t ≡ false) ↔ (¬ (t ≡ []))
blank_iff [] = (λ h. cc, λ n. absurd (n refl))
blank_iff (b ∷ t) = (λ h e. cc, λ n. refl)

false_iff : (x : Bool) (P : Type 0) → (x ≡ true) ↔ P → (x ≡ false) ↔ (¬ P)
false_iff true P h = (λ e. cc, λ n. absurd (n (h.0 refl)))
false_iff false P h = (λ e q. let t = h.1 q in cc, λ n. refl)

IsComplete-iff : (roles : Dict Grant) (k : FileKey) → IsSound roles k ↔ IsComplete roles k
IsComplete-iff roles k = (
  λ h. (
    (blank_iff k.token).0 h.0,
    (false_iff _ _ (eq_iff k.id "")).0 h.1,
    (all_defined_iff roles k.roles).0 h.2,
  ),
  λ h. (
    (blank_iff k.token).1 h.0,
    (false_iff _ _ (eq_iff k.id "")).1 h.1,
    (all_defined_iff roles k.roles).1 h.2,
  ),
)

unseen_iff :
    (t : Bytes) (seen : List Bytes)
    → (seen_token t seen ≡ false) ↔ All (λ (u : Bytes). ¬ (t ≡ u)) seen
unfolding seen_token
unseen_iff t [] = (λ h. tt, λ m. refl)
unseen_iff t (u ∷ seen) = (
  λ h. elim (Bool-cases (bytes_eq t u)) [
    | inl y ↦ absurd (ground (arith, y, h))
    | inr n ↦ ((false_iff _ _ (bytes_eq_iff t u)).0 n, (unseen_iff t seen).0 (rw n at h))
  ],
  λ m. rw ((false_iff _ _ (bytes_eq_iff t u)).1 m.0) ((unseen_iff t seen).1 m.1),
)

-- No token of the keys was seen.
abbrev IsNew : List Bytes → List FileKey → Type 0
IsNew seen keys = All (λ (t : Bytes). IsUnused t keys) seen

IsNew-cons :
    (k : FileKey) (keys : List FileKey) (seen : List Bytes)
    → All (λ (u : Bytes). ¬ (k.token ≡ u)) seen
    → IsNew seen keys
    → IsNew seen (k ∷ keys)
IsNew-cons k keys [] g h = tt
IsNew-cons k keys (u ∷ seen) g h = ((g.0, h.0), IsNew-cons k keys seen g.1 h.1)

IsNew-uncons :
    (k : FileKey) (keys : List FileKey) (seen : List Bytes)
    → IsNew seen (k ∷ keys)
    → All (λ (u : Bytes). ¬ (k.token ≡ u)) seen × IsNew seen keys
IsNew-uncons k keys [] h = (tt, tt)
IsNew-uncons k keys (u ∷ seen) h =
    let (g, r) = IsNew-uncons k keys seen h.1 in ((h.0.0, g), (h.0.1, r))

fresh-IsDistinct :
    (seen : List Bytes) (keys : List FileKey)
    → AreFresh seen keys
    → IsDistinct keys × IsNew seen keys
fresh-IsDistinct seen [] h = (tt, all_new seen)
  where
    all_new : (l : List Bytes) → IsNew l []
    all_new [] = tt
    all_new (t ∷ l) = (tt, all_new l)
fresh-IsDistinct seen (k ∷ keys) h =
    let (d, n) = fresh-IsDistinct (k.token ∷ seen) keys h.1 in
    ((n.0, d), IsNew-cons k keys seen ((unseen_iff k.token seen).0 h.0) n.1)

distinct_fresh :
    (seen : List Bytes) (keys : List FileKey)
    → IsDistinct keys
    → IsNew seen keys
    → AreFresh seen keys
distinct_fresh seen [] d n = tt
distinct_fresh seen (k ∷ keys) d n =
    let (g, r) = IsNew-uncons k keys seen n in
    ((unseen_iff k.token seen).1 g, distinct_fresh (k.token ∷ seen) keys d.1 (d.0, r))

validate_roles-ok :
    (roles : Dict Grant)
    → All (λ (e : String × Grant). all_known e.1.capabilities ≡ true) roles
    → validate_roles roles ≡ ok roles
unfolding validate_roles
validate_roles-ok [] h = refl
validate_roles-ok ((name, g) ∷ roles) h = rw (h.0, validate_roles-ok roles h.1) refl

validate_keys-ok :
    (roles : Dict Grant) (seen : List Bytes) (keys : List FileKey)
    → AreFresh seen keys
    → All (IsSound roles) keys
    → validate_keys roles seen keys ≡ ok (map entry_of keys)
unfolding validate_keys
validate_keys-ok roles seen [] f h = refl
validate_keys-ok roles seen (k ∷ keys) f h =
    let (b, i, d) = h.0 in
    rw (b, i, d, f.0, validate_keys-ok roles (k.token ∷ seen) keys f.1 h.1) refl

-- A configuration loads exactly when every capability of its roles is one of the five that are known or "*", every
-- key has a token and an id that are not empty and names roles that are defined, and no two keys have the same
-- token. It then loads to the roles of the file and to its keys in their order, none of which is an administrator.
pub load_config-IsValid :
    (fc : FileConfig) (kr : Keyring)
    → (load_config fc ≡ ok kr)
      ↔ (IsValid fc × (kr ≡ record { roles = fc.roles; entries = map entry_of fc.keys }))
unfolding load_config
load_config-IsValid fc kr = (
  λ h.
      let (r, e, fresh, sound, known) = load_config-ok fc kr h in
      (
        record {
          capabilities =
              All-to (λ (x : String × Grant) y. (all_known_iff x.1.capabilities).0 y) fc.roles
                known;
          keys = All-to (λ k y. (IsComplete-iff fc.roles k).0 y) fc.keys sound;
          tokens = (fresh-IsDistinct [] fc.keys fresh).0;
        },
        ap (λ (rs : RoleSet). record { roles = rs; entries = kr.entries }) r
            ∙ ap (λ (es : List KeyEntry). record { roles = fc.roles; entries = es }) e,
      ),
  λ x.
      let roles = validate_roles-ok fc.roles (
        All-to (λ (y : String × Grant) m. (all_known_iff y.1.capabilities).1 m) fc.roles
          x.0.capabilities) in
      let keys =
        validate_keys-ok fc.roles [] fc.keys (distinct_fresh [] fc.keys x.0.tokens tt)
          (All-to (λ k y. (IsComplete-iff fc.roles k).1 y) fc.keys x.0.keys) in
      rw (roles, keys) (ap ok (sym x.1)),
)
