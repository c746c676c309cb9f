-- ===== src/Planner/Deps.antt =====
-- internal/planner/types.go: chains of dependencies, and the map from an id to its dependencies.
use mathlib.Core.List.{Memᴰ}
use mathlib.Core.List.Memᴰ
use mathlib.Core.WellFounded.{Acc}
use sandcode.Base.{
  length, suc, ◌≡◌, refl, ap, ◌∙◌, sym, subst, ◌≢◌, ◌⊎◌, inl, inr, String, List, [], ◌∷◌, some,
  Bool, true, false, str_eq, eq_iff, Bool-cases, arith, if◌then◌else◌,
}
use sandcode.Base.Dict.{Dict, lookup, put, lookup-put}
use sandcode.Planner.{
  Node, ids, Chain, start, extend, Depends, TaskDag, fill_deps, deps_of, slice_at, or_empty,
  Distinct,
}

pub Chain-map :
    {r s : String → String → Type 0}
    → ((u v : String) → r u v → s u v)
    → {u v : String} → Chain r u v
    → Chain s u v
Chain-map f (start e) = start (f _ _ e)
Chain-map f (extend c e) = extend (Chain-map f c) (f _ _ e)

pub Acc-map :
    {r s : String → String → Type 0}
    → ((u v : String) → r u v → s u v)
    → {u : String} → Acc (λ v w. s w v) u
    → Acc (λ v w. r w v) u
Acc-map f (Acc.intro u smaller) = Acc.intro u λ v e. Acc-map f (smaller v (f u v e))

module _ (r : String → String → Type 0) where
  pub first_step : {u w : String} → Chain r u w → (v : String) × r u v × ((v ≡ w) ⊎ Chain r v w)
  first_step {u} {w} (start e) = (w, e, inl refl)
  first_step {w = w} (extend c e) =
      let (v, f, rest) = first_step c in
      (
        v,
        f,
        inr (elim rest [
          | inl same ↦ start (subst (λ x. r x w) (sym same) e)
          | inr chain ↦ extend chain e
        ]),
      )

  -- A chain that returns to its start can be followed forever.
  pub Acc-no_return : {u : String} → Acc (λ v w. r w v) u → ¬ Chain r u u
  Acc-no_return (Acc.intro u smaller) c =
      let (v, e, rest) = first_step c in
      Acc-no_return (smaller v e) (elim rest [
        | inl same ↦ start (subst (λ x. r x v) (sym same) e)
        | inr chain ↦ extend chain e
      ])

pub slice_at-put :
    (k j : String) (v : List String) (m : Dict (List String))
    → slice_at (put k v m) j ≡ (if str_eq k j then v else slice_at m j)
unfolding slice_at
slice_at-put k j v m = ap or_empty (lookup-put k j v m) ∙ go (str_eq k j)
  where
    go :
        (b : Bool)
        → or_empty (if b then some v else lookup j m) ≡ (if b then v else or_empty (lookup j m))
    go true = refl
    go false = refl

pub slice_at-here :
    (k j : String) (v : List String) (m : Dict (List String))
    → str_eq k j ≡ true
    → slice_at (put k v m) j ≡ v
slice_at-here k j v m e = slice_at-put k j v m ∙ rw e refl

pub slice_at-elsewhere :
    (k j : String) (v : List String) (m : Dict (List String))
    → str_eq k j ≡ false
    → slice_at (put k v m) j ≡ slice_at m j
slice_at-elsewhere k j v m e = slice_at-put k j v m ∙ rw e refl

pub fill_deps-keys :
    (ns : List Node) (m : Dict (List String)) (id : String)
    → (slice_at (fill_deps ns m) id ≡ slice_at m id) ⊎ Memᴰ id (ids ns)
unfolding fill_deps
fill_deps-keys [] m id = inl refl
fill_deps-keys (n ∷ ns) m id = elim (fill_deps-keys ns (put n.id n.depends_on m) id) [
  | inr k ↦ inr (Memᴰ.tail k)
  | inl e ↦ elim (Bool-cases (str_eq n.id id)) [
    | inl y ↦ inr (Memᴰ.head (sym ((eq_iff n.id id).0 y)))
    | inr f ↦ inl (e ∙ slice_at-put n.id id n.depends_on m ∙ rw f refl)
  ]
]

-- What the map of the search lists, where no id stands twice.
pub fill_deps-other :
    (ns : List Node) (m : Dict (List String)) (u : String)
    → ¬ Memᴰ u (ids ns)
    → slice_at (fill_deps ns m) u ≡ slice_at m u
unfolding fill_deps
fill_deps-other [] m u h = refl
fill_deps-other (n ∷ ns) m u h =
    let differ : n.id ≢ u = λ e. h (Memᴰ.head (sym e)) in
    let other : str_eq n.id u ≡ false = ground (arith, eq_iff n.id u, differ) in
    fill_deps-other ns (put n.id n.depends_on m) u (λ k. h (Memᴰ.tail k))
    ∙ slice_at-put n.id u n.depends_on m
    ∙ rw other refl

pub fill_deps-node :
    (ns : List Node) (m : Dict (List String)) (n : Node)
    → Distinct (ids ns)
    → Memᴰ n ns
    → slice_at (fill_deps ns m) n.id ≡ n.depends_on
unfolding fill_deps
fill_deps-node [] m n d k = absurd (Memᴰ.not-nil k)
fill_deps-node (x ∷ ns) m n d (Memᴰ.head e) =
    fill_deps-other ns (put x.id x.depends_on m) n.id
      (subst (λ (y : Node). ¬ Memᴰ y.id (ids ns)) (sym e) d.0)
    ∙ slice_at-put x.id n.id x.depends_on m
    ∙ rw ((eq_iff x.id n.id).1 (ap (λ (y : Node). y.id) (sym e)))
        (ap (λ (y : Node). y.depends_on) (sym e))
fill_deps-node (x ∷ ns) m n d (Memᴰ.tail k) = fill_deps-node ns (put x.id x.depends_on m) n d.1 k

fill_deps-Depends :
    (ns : List Node) (m : Dict (List String)) (u v : String)
    → Memᴰ v (slice_at (fill_deps ns m) u)
    → Depends ns u v ⊎ Memᴰ v (slice_at m u)
unfolding fill_deps
fill_deps-Depends [] m u v k = inr k
fill_deps-Depends (n ∷ ns) m u v k = elim (fill_deps-Depends ns (put n.id n.depends_on m) u v k) [
  | inl d ↦
      inl
        (record { node = d.node; member = Memᴰ.tail d.member; named = d.named; listed = d.listed })
  | inr l ↦ elim (Bool-cases (str_eq n.id u)) [
    | inl y ↦ inl (record {
      node = n;
      member = Memᴰ.head refl;
      named = (eq_iff n.id u).0 y;
      listed = subst (Memᴰ v) (slice_at-put n.id u n.depends_on m ∙ rw y refl) l;
    })
    | inr f ↦ inr (subst (Memᴰ v) (slice_at-put n.id u n.depends_on m ∙ rw f refl) l)
  ]
]

-- The search and the graph agree on what a node depends on.
pub listed-Depends : (d : TaskDag) (u v : String) → Memᴰ v (slice_at (deps_of d) u) → Depends d u v
unfolding deps_of slice_at lookup
listed-Depends d u v k = elim (fill_deps-Depends d [] u v k) [
  | inl e ↦ e
  | inr m ↦ absurd (Memᴰ.not-nil m)
]

pub Depends-listed :
    (d : TaskDag)
    → Distinct (ids d)
    → (u v : String) → Depends d u v
    → Memᴰ v (slice_at (deps_of d) u)
unfolding deps_of
Depends-listed d x u v e =
    subst (λ w. Memᴰ v (slice_at (deps_of d) w)) e.named
      (subst (Memᴰ v) (sym (fill_deps-node d [] e.node x e.member)) e.listed)

pub ids-mem : (ns : List Node) (n : Node) → Memᴰ n ns → Memᴰ n.id (ids ns)
ids-mem [] n m = absurd (Memᴰ.not-nil m)
ids-mem (x ∷ ns) n (Memᴰ.head e) = Memᴰ.head (ap (λ (y : Node). y.id) e)
ids-mem (x ∷ ns) n (Memᴰ.tail m) = Memᴰ.tail (ids-mem ns n m)

pub Depends-id : (d : TaskDag) (u v : String) → Depends d u v → Memᴰ u (ids d)
Depends-id d u v e = subst (λ x. Memᴰ x (ids d)) e.named (ids-mem d e.node e.member)

pub ids-node : (ns : List Node) (x : String) → Memᴰ x (ids ns) → (n : Node) × Memᴰ n ns × (n.id ≡ x)
ids-node [] x m = absurd (Memᴰ.not-nil m)
ids-node (n ∷ ns) x (Memᴰ.head e) = (n, Memᴰ.head refl, sym e)
ids-node (n ∷ ns) x (Memᴰ.tail m) = let (k, l, e) = ids-node ns x m in (k, Memᴰ.tail l, e)

pub length-ids : (ns : List Node) → length (ids ns) ≡ length ns
length-ids [] = refl
length-ids (n ∷ ns) = ap suc (length-ids ns)
