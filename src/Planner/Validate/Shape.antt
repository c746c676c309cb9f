-- ===== src/Planner/Validate/Shape.antt =====
-- internal/planner/types.go: what the loops of `TaskDAG.Validate` have checked where they find no error.
use mathlib.Core.List.{Memᴰ}
use mathlib.Core.List.Memᴰ
use sandcode.Base.{
  ◌≡◌, refl, ap, ◌∙◌, sym, subst, ◌≢◌, ◌⊎◌, ◌↔◌, inl, inr, String, List, [], ◌∷◌, none, true,
  str_eq, eq_iff, Bool-cases, arith,
}
use sandcode.Planner.{Node, ids, Distinct}
use sandcode.Planner.Validate.{known, scan_nodes, check_deps, check_nodes}

pub known-mem : (id : String) (seen : List String) → known id seen ≡ true → Memᴰ id seen
unfolding known
known-mem id [] h = absurd cc
known-mem id (x ∷ seen) h = elim (Bool-cases (str_eq x id)) [
  | inl y ↦ Memᴰ.head (sym ((eq_iff x id).0 y))
  | inr n ↦ Memᴰ.tail (known-mem id seen (rw (n, known) at h))
]

pub mem-known : (id : String) (seen : List String) → Memᴰ id seen → known id seen ≡ true
unfolding known
mem-known id [] m = absurd (Memᴰ.not-nil m)
mem-known id (x ∷ seen) (Memᴰ.head e) = ground (arith, eq_iff x id, e)
mem-known id (x ∷ seen) (Memᴰ.tail m) = ground (arith, mem-known id seen m)

pub record IsShaped (ns : List Node) (seen : List String) : Type 0 where
  pub complete : (n : Node) → Memᴰ n ns → (n.id ≢ "") × (n.prompt ≢ "")
  pub distinct : Distinct (ids ns)
  pub fresh : (id : String) → Memᴰ id (ids ns) → ¬ Memᴰ id seen

-- What the first loop tests of a node.
IsNew : Node → List String → Type 0
IsNew n seen = (n.id ≢ "") × (n.prompt ≢ "") × (¬ Memᴰ n.id seen)

IsShaped-cons :
    (n : Node) (ns : List Node) (seen : List String)
    → IsNew n seen
    → IsShaped ns (n.id ∷ seen)
    → IsShaped (n ∷ ns) seen
unfolding IsNew
IsShaped-cons n ns seen (named, prompted, new) h = record {
  complete = whole;
  distinct = (λ m. h.fresh n.id m (Memᴰ.head refl), h.distinct);
  fresh = apart;
}
  where
    whole : (x : Node) → Memᴰ x (n ∷ ns) → (x.id ≢ "") × (x.prompt ≢ "")
    whole x (Memᴰ.head e) =
        subst (λ (y : Node). (y.id ≢ "") × (y.prompt ≢ "")) (sym e) (named, prompted)
    whole x (Memᴰ.tail m) = h.complete x m

    apart : (id : String) → Memᴰ id (n.id ∷ ids ns) → ¬ Memᴰ id seen
    apart id (Memᴰ.head e) = λ k. new (subst (λ x. Memᴰ x seen) e k)
    apart id (Memᴰ.tail m) = λ k. h.fresh id m (Memᴰ.tail k)

IsShaped-uncons :
    (n : Node) (ns : List Node) (seen : List String)
    → IsShaped (n ∷ ns) seen
    → IsNew n seen × IsShaped ns (n.id ∷ seen)
unfolding IsNew
IsShaped-uncons n ns seen h =
    let (named, prompted) = h.complete n (Memᴰ.head refl) in
    (
      (named, prompted, h.fresh n.id (Memᴰ.head refl)),
      record {
        complete = λ x m. h.complete x (Memᴰ.tail m);
        distinct = h.distinct.1;
        fresh = apart;
      },
    )
  where
    apart : (id : String) → Memᴰ id (ids ns) → ¬ Memᴰ id (n.id ∷ seen)
    apart id m = λ k. elim (Memᴰ.cases_cons k) [
      | inl e ↦ h.distinct.0 (subst (λ x. Memᴰ x (ids ns)) e m)
      | inr k' ↦ h.fresh id (Memᴰ.tail m) k'
    ]

scan_nodes-new :
    (n : Node) (ns : List Node) (seen : List String)
    → IsNew n seen
    → scan_nodes (n ∷ ns) seen ≡ scan_nodes ns (n.id ∷ seen)
unfolding IsNew scan_nodes
scan_nodes-new n ns seen (named, prompted, new) =
    ground (arith, eq_iff n.id "", eq_iff n.prompt "", known-mem n.id seen)

scan_nodes-IsNew :
    (n : Node) (ns : List Node) (seen : List String)
    → (scan_nodes (n ∷ ns) seen).0 ≡ none
    → IsNew n seen
unfolding IsNew scan_nodes
scan_nodes-IsNew n ns seen h =
    ground (arith, eq_iff n.id "", eq_iff n.prompt "", mem-known n.id seen)

pub scan_nodes-IsShaped :
    (ns : List Node) (seen : List String) → (scan_nodes ns seen).0 ≡ none → IsShaped ns seen
scan_nodes-IsShaped [] seen h = record {
  complete = λ _ m. absurd (Memᴰ.not-nil m);
  distinct = tt;
  fresh = λ _ m. absurd (Memᴰ.not-nil m);
}
scan_nodes-IsShaped (n ∷ ns) seen h =
    let new = scan_nodes-IsNew n ns seen h in
    IsShaped-cons n ns seen new (
      scan_nodes-IsShaped ns (n.id ∷ seen) (ap (λ r. r.0) (sym (scan_nodes-new n ns seen new)) ∙ h))

pub IsShaped-scan_nodes :
    (ns : List Node) (seen : List String) → IsShaped ns seen → (scan_nodes ns seen).0 ≡ none
IsShaped-scan_nodes [] seen h = unfold scan_nodes in refl
IsShaped-scan_nodes (n ∷ ns) seen h =
    let (new, rest) = IsShaped-uncons n ns seen h in
    ap (λ r. r.0) (scan_nodes-new n ns seen new) ∙ IsShaped-scan_nodes ns (n.id ∷ seen) rest

-- The set that the first loop ends with holds the ids of the nodes and what it started with.
pub scan_nodes-seen :
    (ns : List Node) (seen : List String) (id : String)
    → IsShaped ns seen
    → Memᴰ id (scan_nodes ns seen).1 ↔ (Memᴰ id (ids ns) ⊎ Memᴰ id seen)
scan_nodes-seen [] seen id h =
    unfold scan_nodes in (inr, λ m. elim m [ inl k ↦ absurd (Memᴰ.not-nil k) | inr k ↦ k ])
scan_nodes-seen (n ∷ ns) seen id h =
    let (new, rest) = IsShaped-uncons n ns seen h in
    let (there, back) = scan_nodes-seen ns (n.id ∷ seen) id rest in
    subst (λ r. Memᴰ id r.1 ↔ (Memᴰ id (n.id ∷ ids ns) ⊎ Memᴰ id seen))
      (sym (scan_nodes-new n ns seen new)) (λ m. move (there m), λ m. back (return m))
  where
    move : Memᴰ id (ids ns) ⊎ Memᴰ id (n.id ∷ seen) → Memᴰ id (n.id ∷ ids ns) ⊎ Memᴰ id seen
    move (inl m) = inl (Memᴰ.tail m)
    move (inr (Memᴰ.head e)) = inl (Memᴰ.head e)
    move (inr (Memᴰ.tail m)) = inr m

    return : Memᴰ id (n.id ∷ ids ns) ⊎ Memᴰ id seen → Memᴰ id (ids ns) ⊎ Memᴰ id (n.id ∷ seen)
    return (inl (Memᴰ.head e)) = inr (Memᴰ.head e)
    return (inl (Memᴰ.tail m)) = inl m
    return (inr m) = inr (Memᴰ.tail m)

-- A dependency the second loop passes.
abbrev pub IsResolved : List String → String → String → Type 0
IsResolved seen id dep = (dep ≢ id) × Memᴰ dep seen

check_deps-IsResolved :
    (seen : List String) (id : String) (deps : List String)
    → check_deps seen id deps ≡ none
    → (dep : String) → Memᴰ dep deps
    → IsResolved seen id dep
unfolding check_deps
check_deps-IsResolved seen id [] h dep m = absurd (Memᴰ.not-nil m)
check_deps-IsResolved seen id (x ∷ deps) h dep (Memᴰ.head e) =
    let first : IsResolved seen id x = ground (arith, eq_iff x id, known-mem x seen) in
    subst (IsResolved seen id) (sym e) first
check_deps-IsResolved seen id (x ∷ deps) h dep (Memᴰ.tail m) =
    check_deps-IsResolved seen id deps (ground arith) dep m

IsResolved-check_deps :
    (seen : List String) (id : String) (deps : List String)
    → ((dep : String) → Memᴰ dep deps → IsResolved seen id dep)
    → check_deps seen id deps ≡ none
unfolding check_deps
IsResolved-check_deps seen id [] h = refl
IsResolved-check_deps seen id (x ∷ deps) h = ground (
  arith,
  eq_iff x id,
  h x (Memᴰ.head refl),
  mem-known x seen,
  IsResolved-check_deps seen id deps (λ y m. h y (Memᴰ.tail m)),
)

pub check_nodes-IsResolved :
    (seen : List String) (ns : List Node)
    → check_nodes seen ns ≡ none
    → (n : Node) → Memᴰ n ns
    → (dep : String) → Memᴰ dep n.depends_on
    → IsResolved seen n.id dep
unfolding check_nodes
check_nodes-IsResolved seen [] h n m = absurd (Memᴰ.not-nil m)
check_nodes-IsResolved seen (x ∷ ns) h n (Memᴰ.head e) =
    let first : check_deps seen x.id x.depends_on ≡ none = ground arith in
    subst (λ (y : Node). (dep : String) → Memᴰ dep y.depends_on → IsResolved seen y.id dep) (sym e)
      (check_deps-IsResolved seen x.id x.depends_on first)
check_nodes-IsResolved seen (x ∷ ns) h n (Memᴰ.tail m) =
    check_nodes-IsResolved seen ns (ground arith) n m

pub IsResolved-check_nodes :
    (seen : List String) (ns : List Node)
    → ((n : Node) → Memᴰ n ns → (dep : String) → Memᴰ dep n.depends_on → IsResolved seen n.id dep)
    → check_nodes seen ns ≡ none
unfolding check_nodes
IsResolved-check_nodes seen [] h = refl
IsResolved-check_nodes seen (x ∷ ns) h =
    rw (IsResolved-check_deps seen x.id x.depends_on (h x (Memᴰ.head refl)))
      (IsResolved-check_nodes seen ns (λ n m. h n (Memᴰ.tail m)))
