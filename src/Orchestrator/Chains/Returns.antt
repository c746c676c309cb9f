-- ===== src/Orchestrator/Chains/Returns.antt =====
-- internal/orchestrator/dag_run.go: the visits of `decomposeChains` end.
use mathlib.Core.List.{Memᴰ}
use mathlib.Core.List.Memᴰ
use sandcode.Base.{
  ℕ, zero, suc, Bool-cases, ◌+◌, ◌≤◌, ◌≡◌, refl, ap, ◌∙◌, sym, subst, ◌⊎◌, inl, inr, String, List,
  [], ◌∷◌, ◌++◌, Option, some, Bool, true, false, str_eq, eq_iff, arith, if◌then◌else◌, length,
}
use sandcode.Base.Dict.{Dict, put, lookup, lookup-put}
use sandcode.Planner.{Node, TaskDag, ids, Distinct, Depends, Chain, start, extend}
use sandcode.Planner.Deps.{Depends-id}
use sandcode.Planner.Validate.Verdict.{IsValidDag}
use sandcode.Planner.Topo.{fill_dependents}
use sandcode.Planner.Topo.Count.{count-Distinct, length-le_of_counts, mem-count}
use sandcode.Planner.Validate.{known}
use sandcode.Planner.Validate.Shape.{known-mem}
use sandcode.Orchestrator.Chains.{fill_nodes, node_at, or_no_node, join, walk, walk_each}
use sandcode.Orchestrator.Chains.Walks.{Walks, none_left, visited, children, child-Depends}

node_at-put :
    (k j : String) (v : Node) (m : Dict Node)
    → node_at (put k v m) j ≡ (if str_eq k j then v else node_at m j)
unfolding node_at
node_at-put k j v m = ap or_no_node (lookup-put k j v m) ∙ go (str_eq k j)
  where
    go :
        (b : Bool)
        → or_no_node (if b then some v else lookup j m) ≡ (if b then v else or_no_node (lookup j m))
    go true = refl
    go false = refl

-- `byID` gives a node of the plan with the id that is looked up.
IsNamed : List Node → String → Node → Type 0
IsNamed ns id n = (n.id ≡ id) × Memᴰ n ns

missing :
    (k id : String) (rest : List String)
    → ¬ Memᴰ id rest
    → str_eq k id ≡ false
    → ¬ Memᴰ id (k ∷ rest)
missing k id rest gone f (Memᴰ.head e) = ground (arith, f, eq_iff k id, e)
missing k id rest gone f (Memᴰ.tail m) = gone m

fill_nodes-IsNamed :
    (ns : List Node) (m : Dict Node) (id : String)
    → IsNamed ns id (node_at (fill_nodes ns m) id)
      ⊎ (¬ Memᴰ id (ids ns)) × (node_at (fill_nodes ns m) id ≡ node_at m id)
unfolding fill_nodes IsNamed
fill_nodes-IsNamed [] m id = inr (λ k. Memᴰ.not-nil k, refl)
fill_nodes-IsNamed (n ∷ ns) m id = elim (fill_nodes-IsNamed ns (put n.id n m) id) [
  | inl (e, k) ↦ inl (e, Memᴰ.tail k)
  | inr (gone, e) ↦ elim (Bool-cases (str_eq n.id id)) [
    | inl y ↦
        let found : node_at (fill_nodes ns (put n.id n m)) id ≡ n =
          e ∙ node_at-put n.id id n m ∙ rw y refl in
        inl (subst (IsNamed (n ∷ ns) id) (sym found) ((eq_iff n.id id).0 y, Memᴰ.head refl))
    | inr f ↦ inr (missing n.id id (ids ns) gone f, e ∙ node_at-put n.id id n m ∙ rw f refl)
  ]
]

pub node_at-IsNamed :
    (ns : List Node) (id : String)
    → Memᴰ id (ids ns)
    → (node_at (fill_nodes ns []) id).id ≡ id × Memᴰ (node_at (fill_nodes ns []) id) ns
unfolding IsNamed
node_at-IsNamed ns id m = elim (fill_nodes-IsNamed ns [] id) [
  | inl h ↦ h
  | inr (gone, e) ↦ absurd (gone m)
]

prepend : {r : String → String → Type 0} {u v w : String} → r u v → Chain r v w → Chain r u w
prepend e (start f) = extend (start e) f
prepend e (extend c f) = extend (prepend e c) f

join-some :
    {a b : Option (List Node)} {xs ys : List Node}
    → a ≡ some xs
    → b ≡ some ys
    → join a b ≡ some (xs ++ ys)
unfolding join
join-some {b = b} {xs = xs} e f = ap (λ o. join o b) e ∙ ap (join (some xs)) f

pub ids-append : (xs ys : List Node) → ids (xs ++ ys) ≡ ids xs ++ ids ys
ids-append [] ys = refl
ids-append (x ∷ xs) ys = ap (λ l. x.id ∷ l) (ids-append xs ys)

module _ (d : TaskDag) (valid : IsValidDag d) where
  -- The ids that are being visited: different nodes of the plan, each of which a new id depends on
  -- through a chain.
  pub record IsPath (path todo : List String) : Type 0 where
    pub apart : Distinct path
    pub inside : (x : String) → Memᴰ x path → Memᴰ x (ids d)
    pub nodes : (t : String) → Memᴰ t todo → Memᴰ t (ids d)
    pub above : (t x : String) → Memᴰ t todo → Memᴰ x path → Chain (Depends d) t x

  IsPath-down :
      (path rest : List String) (id : String)
      → IsPath path (id ∷ rest)
      → IsPath (id ∷ path) (children d id)
  IsPath-down path rest id h = record {
    apart = (λ m. valid.acyclic id (h.above id id (Memᴰ.head refl) m), h.apart);
    inside = λ x m. inside_path x m;
    nodes = λ t m. Depends-id d t id (child-Depends d valid.distinct t id m);
    above = λ t x m k. chain t x m k;
  }
    where
      inside_path : (x : String) → Memᴰ x (id ∷ path) → Memᴰ x (ids d)
      inside_path x (Memᴰ.head e) = h.nodes x (Memᴰ.head e)
      inside_path x (Memᴰ.tail m) = h.inside x m

      chain : (t x : String) → Memᴰ t (children d id) → Memᴰ x (id ∷ path) → Chain (Depends d) t x
      chain t x m (Memᴰ.head e) =
          start (subst (Depends d t) (sym e) (child-Depends d valid.distinct t id m))
      chain t x m (Memᴰ.tail k) =
          prepend (child-Depends d valid.distinct t id m) (h.above id x (Memᴰ.head refl) k)

  IsPath-rest : (path rest : List String) (id : String) → IsPath path (id ∷ rest) → IsPath path rest
  IsPath-rest path rest id h = record {
    apart = h.apart;
    inside = h.inside;
    nodes = λ t m. h.nodes t (Memᴰ.tail m);
    above = λ t x m k. h.above t x (Memᴰ.tail m) k;
  }

  path_fits :
      (path : List String)
      → Distinct path
      → ((x : String) → Memᴰ x path → Memᴰ x (ids d))
      → length path ≤ length (ids d)
  path_fits path apart inside = length-le_of_counts path (ids d) λ x.
      elim (Bool-cases (known x path)) [
        | inl y ↦ ground (
          arith,
          y,
          count-Distinct x path apart,
          mem-count x (ids d) (inside x (known-mem x path y)),
        )
        | inr n ↦ ground (arith, n, count-Distinct x path apart)
      ]

  -- The walk over a list of ids, with its fuel and the ids being visited.
  abbrev pub Walked : ℕ → List String → Type 0
  Walked fuel todo =
      (ns : List Node) × (walk_each (walk (fill_dependents d []) (fill_nodes d []) fuel) todo
        ≡ some ns)
      × Walks d todo (ids ns)
      × ((n : Node) → Memᴰ n ns → Memᴰ n d)

  pub walk_returns :
      (fuel : ℕ) (path todo : List String)
      → IsPath path todo
      → length (ids d) ≤ fuel + length path
      → Walked fuel todo
  unfolding walk walk_each
  walk_returns fuel path [] h le = ([], refl, none_left, λ n m. absurd (Memᴰ.not-nil m))
  walk_returns zero path (id ∷ rest) h le =
      let down = IsPath-down path rest id h in
      absurd (omega (arith, le, path_fits (id ∷ path) down.apart down.inside))
  walk_returns (suc fuel) path (id ∷ rest) h le =
      let (below, e, w, from) =
        walk_returns fuel (id ∷ path) (children d id) (IsPath-down path rest id h)
          (omega (arith, le)) in
      let (after, f, v, from') =
        walk_returns (suc fuel) path rest (IsPath-rest path rest id h) le in
      let (named, member) = node_at-IsNamed d id (h.nodes id (Memᴰ.head refl)) in
      let here = node_at (fill_nodes d []) id in
      (
        (here ∷ below) ++ after,
        join-some (join-some {xs = here ∷ []} refl e) f,
        subst (Walks d (id ∷ rest)) (sym (visited_ids here below after named)) (visited w v),
        λ n m. elim (Memᴰ.append_cases (here ∷ below) m) [
          | inl k ↦ within here below member from n k
          | inr k ↦ from' n k
        ],
      )
    where
      visited_ids :
          (here : Node) (below after : List Node)
          → here.id ≡ id
          → ids ((here ∷ below) ++ after) ≡ id ∷ ids below ++ ids after
      visited_ids here below after e =
          ap (λ x. x ∷ ids (below ++ after)) e ∙ ap (λ l. id ∷ l) (ids-append below after)

      within :
          (here : Node) (below : List Node)
          → Memᴰ here d
          → ((n : Node) → Memᴰ n below → Memᴰ n d)
          → (n : Node) → Memᴰ n (here ∷ below)
          → Memᴰ n d
      within here below m f n (Memᴰ.head e) = subst (λ x. Memᴰ x d) (sym e) m
      within here below m f n (Memᴰ.tail k) = f n k
