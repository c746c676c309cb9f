-- ===== src/Orchestrator/Chains/Partition.antt =====
-- internal/orchestrator/dag_run.go: the chains of a plan.
use mathlib.Core.List.{Memᴰ, append-nil}
use mathlib.Core.List.Memᴰ
use mathlib.Core.WellFounded.{Acc}
use sandcode.Base.{
  Bool-cases, ℕ, ◌+◌, ◌≤◌, ◌≡◌, refl, ap, ◌∙◌, sym, subst, ◌⊎◌, inl, inr, String, List, [], ◌∷◌,
  ◌++◌, Option, none, some, Bool, true, eq_iff, arith, if◌then◌else◌, length, All,
}
use sandcode.Planner.{Node, TaskDag, ids, Depends, slice_at, deps_of}
use sandcode.Base.Dict.{lookup}
use sandcode.Planner.Validate.Shape.{known-mem, mem-known}
use sandcode.Planner.Deps.{
  length-ids, ids-node, fill_deps-keys, fill_deps-node, Depends-id, Depends-listed, listed-Depends,
}
use sandcode.Planner.Validate.{known}
use sandcode.Planner.Validate.Verdict.{IsValidDag, validate_iff, IsValidDag-Acc}
use sandcode.Planner.Topo.{fill_dependents, roots, no_deps}
use sandcode.Planner.Topo.Count.{count, mem-count, count-mem, count-cons_if, count-Distinct}
use sandcode.Orchestrator.Options.{validate_dag, validate_dag-none}
use sandcode.Orchestrator.Chains.{
  join, ChainSpec, spec_of, add_spec, specs_from, walk, walk_each, fill_nodes, decompose_chains,
}
use sandcode.Orchestrator.Chains.Walks.{
  Walks-append, Follows, Walks, none_left, needs, count-free, count-below, Walks-Follows,
}
use sandcode.Orchestrator.Chains.Returns.{walk_returns, IsPath}

-- The ids of all chains, one chain after the other.
unfoldable pub chain_ids : {Agent : Type 0} → List (ChainSpec Agent) → List String
chain_ids [] = []
chain_ids (s ∷ specs) = ids s.nodes ++ chain_ids specs

only_one : (xs : List String) (v w : String) → length xs ≤ 1 → Memᴰ v xs → Memᴰ w xs → v ≡ w
only_one [] v w h m k = absurd (Memᴰ.not-nil m)
only_one (x ∷ []) v w h m k = Memᴰ.eq_of_singleton m ∙ sym (Memᴰ.eq_of_singleton k)
only_one (x ∷ y ∷ xs) v w h m k = absurd (omega (arith, h))

short-cases : (xs : List String) → length xs ≤ 1 → (xs ≡ []) ⊎ (p : String) × (xs ≡ p ∷ [])
short-cases [] h = inl refl
short-cases (x ∷ []) h = inr (x, refl)
short-cases (x ∷ y ∷ xs) h = absurd (omega (arith, h))

no_deps-nil : (xs : List String) → no_deps xs ≡ true → xs ≡ []
no_deps-nil [] h = refl
no_deps-nil (x ∷ xs) h = absurd cc

join-single : {ns : List Node} (o : Option (List Node)) → join o (some []) ≡ some ns → o ≡ some ns
unfolding join
join-single none h = absurd cc
join-single (some xs) h = ap some (sym (append-nil xs)) ∙ h

-- The two kinds of nodes of a plan without diamonds.
module _ (d : TaskDag) (valid : IsValidDag d) where
  node_needs : (n : Node) → Memᴰ n d → needs d n.id ≡ n.depends_on
  unfolding deps_of
  node_needs n m = fill_deps-node d [] n valid.distinct m

  count-roots :
      (ns : List Node) (x : String)
      → ((n : Node) → Memᴰ n ns → Memᴰ n d)
      → count x (roots ns) ≡ (if no_deps (needs d x) then count x (ids ns) else 0)
  unfolding roots count
  count-roots [] x h = ground arith
  count-roots (n ∷ ns) x h = ground (
    arith,
    count-roots ns x (λ k m. h k (Memᴰ.tail m)),
    ap no_deps (node_needs n (h n (Memᴰ.head refl))),
    count-cons_if x n.id (roots ns) (no_deps n.depends_on),
    eq_iff n.id x,
  )

  -- A root is a node without dependencies.
  root_is : (x : String) → Memᴰ x (roots d) → (needs d x ≡ []) × Memᴰ x (ids d)
  root_is x m =
      let many = count-roots d x (λ _ k. k) in
      let some_roots = mem-count x (roots d) m in
      (
        no_deps-nil (needs d x) (ground (arith, many, some_roots)),
        count-mem x (ids d) (ground (arith, many, some_roots)),
      )

  module _ (straight : (n : Node) → Memᴰ n d → length n.depends_on ≤ 1) where
    short : (x : String) → length (needs d x) ≤ 1
    unfolding deps_of slice_at lookup
    short x = elim (fill_deps-keys d [] x) [
      | inl e ↦ omega (arith, ap length e)
      | inr m ↦
          let (n, k, e) = ids-node d x m in
          omega (arith, straight n k, ap length (ap (needs d) (sym e) ∙ node_needs n k))
    ]

    one_dependency : (x v w : String) → Depends d x v → Depends d x w → v ≡ w
    one_dependency x v w e f =
        only_one (needs d x) v w (short x) (Depends-listed d valid.distinct x v e)
          (Depends-listed d valid.distinct x w f)

    -- The visits from the roots append each node once: as often as the node it depends on.
    each_once :
        (out : List String)
        → Walks d (roots d) out
        → (x : String) → Acc (λ v u. Depends d u v) x
        → count x out ≡ count x (ids d)
    each_once out w x (Acc.intro _ smaller) = elim (short-cases (needs d x) (short x)) [
      | inl e ↦
          count-free d valid.distinct x e w
          ∙ ground (arith, count-roots d x (λ _ k. k), ap no_deps e)
      | inr (p, e) ↦
          let edge = listed-Depends d x p (subst (Memᴰ p) (sym e) (Memᴰ.head refl)) in
          let above = each_once out w p (smaller p edge) in
          ground (
            arith,
            count-below d valid.distinct x p e w,
            count-roots d x (λ _ k. k),
            ap no_deps e,
            above,
            count_node x (Depends-id d x p edge),
            count_node p (valid.resolved x p edge).1,
          )
    ]
      where
        count_node : (y : String) → Memᴰ y (ids d) → count y (ids d) ≡ 1
        count_node y m =
            ground (arith, count-Distinct y (ids d) valid.distinct, mem-known y (ids d) m)

    outside : (x : String) → ¬ Memᴰ x (ids d) → Acc (λ v u. Depends d u v) x
    outside x h = Acc.intro x λ v e. absurd (h (Depends-id d x v e))

    each_once_always :
        (out : List String) → Walks d (roots d) out → (x : String) → count x out ≡ count x (ids d)
    each_once_always out w x = elim (Bool-cases (known x (ids d))) [
      | inl y ↦ each_once out w x (IsValidDag-Acc d valid x (known-mem x (ids d) y))
      | inr n ↦ each_once out w x (outside x (λ m. absurd (cc (sym n ∙ mem-known x (ids d) m))))
    ]

    abbrev walk_root : String → Option (List Node)
    walk_root = walk (fill_dependents d []) (fill_nodes d []) (length d)

    -- One chain: the walk from a root returns, in order.
    walk_root-Walks :
        (root : String)
        → Memᴰ root (roots d)
        → (ns : List Node) × (walk_root root ≡ some ns)
          × Walks d (root ∷ []) (ids ns)
          × Follows d [] (ids ns)
    unfolding walk_each join
    walk_root-Walks root m =
        let (free, node) = root_is root m in
        let path : IsPath d valid [] (root ∷ []) = record {
          apart = tt;
          inside = λ x k. absurd (Memᴰ.not-nil k);
          nodes = λ t k. subst (λ z. Memᴰ z (ids d)) (sym (Memᴰ.eq_of_singleton k)) node;
          above = λ t x _ k. absurd (Memᴰ.not-nil k);
        } in
        let (ns, e, w, _) =
          walk_returns d valid (length d) [] (root ∷ []) path (omega (arith, length-ids d)) in
        (
          ns,
          join-single (walk_root root) e,
          w,
          Walks-Follows d valid.distinct one_dependency [] (no_parent root free) w,
        )
      where
        no_parent :
            (root : String)
            → needs d root ≡ []
            → (x v : String) → Memᴰ x (root ∷ [])
            → Depends d x v
            → Memᴰ v []
        no_parent root free x v m e =
            subst (Memᴰ v) (ap (needs d) (Memᴰ.eq_of_singleton m) ∙ free)
              (Depends-listed d valid.distinct x v e)

-- The chains of a list of roots.
module _ {Agent : Type 0} (d : TaskDag) (walk_root : String → Option (List Node))
    (agents : List Agent) where
  specs_lem :
      (todo : List String) (i : ℕ)
      → ((root : String)
          → Memᴰ root todo
          → (ns : List Node) × (walk_root root ≡ some ns)
            × Walks d (root ∷ []) (ids ns)
            × Follows d [] (ids ns))
      → (specs : List (ChainSpec Agent)) × (specs_from walk_root agents i todo ≡ some specs)
        × Walks d todo (chain_ids specs)
        × All (λ s. Follows d [] (ids s.nodes)) specs
  unfolding specs_from add_spec spec_of chain_ids
  specs_lem [] i h = ([], refl, none_left, tt)
  specs_lem (root ∷ rest) i h =
      let (ns, e, w, f) = h root (Memᴰ.head refl) in
      let (specs, g, v, fs) = specs_lem rest (i + 1) (λ r m. h r (Memᴰ.tail m)) in
      (
        spec_of agents i root ns ∷ specs,
        ap (λ o. add_spec agents i root o (specs_from walk_root agents (i + 1) rest)) e
            ∙ ap (add_spec agents i root (some ns)) g,
        Walks-append d w v,
        (f, fs),
      )

-- A plan that `validateDAG` accepts is split into chains that hold each node of the plan once, in
-- one chain, and in each chain a node stands after the node that it depends on.
pub decompose_chains-partition :
    {Agent : Type 0} (plan : TaskDag) (has_judge : Bool) (agents : List Agent)
    → validate_dag plan has_judge ≡ none
    → (specs : List (ChainSpec Agent)) × (decompose_chains plan agents ≡ some specs)
      × ((id : String) → count id (chain_ids specs) ≡ count id (ids plan))
      × All (λ s. Follows plan [] (ids s.nodes)) specs
unfolding decompose_chains
decompose_chains-partition plan has_judge agents h =
    let (accepted, straight) = validate_dag-none plan has_judge h in
    let valid = (validate_iff plan).0 accepted in
    let (specs, e, w, f) =
      specs_lem plan (walk_root plan valid straight) agents (roots plan) 0
        (walk_root-Walks plan valid straight) in
    (specs, e, each_once_always plan valid straight (chain_ids specs) w, f)
