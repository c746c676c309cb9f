-- ===== src/Planner/Validate/Verdict.antt =====
-- internal/planner/types.go: what `TaskDAG.Validate` accepts.
use mathlib.Core.List.{Memᴰ}
use mathlib.Core.List.Memᴰ
use mathlib.Core.WellFounded.{Acc}
use mathlib.Core.Option.{some-injective}
use sandcode.Base.{
  length, suc, Option-cases, ◌≡◌, refl, ap, ◌∙◌, sym, subst, ◌≢◌, ◌↔◌, inl, inr, String, [], ◌∷◌,
  Option, none, some, str_eq, eq_iff, Bool-cases, arith,
}
use sandcode.Planner.{Node, ids, Chain, Depends, TaskDag, Distinct, deps_of, slice_at}
use sandcode.Planner.Deps.{
  first_step, Depends-id, Acc-map, Chain-map, Acc-no_return, listed-Depends, Depends-listed,
}
use sandcode.Planner.Cycle.{Colors, find_cycle, search, hit_of}
use sandcode.Planner.Cycle.Trace.{Visits, visit_each-Visits}
use sandcode.Planner.Cycle.Returns.{find_cycle_returns}
use sandcode.Planner.Cycle.Acyclic.{Visits-Explored, Safe-start, Listed}
use sandcode.Planner.Cycle.Cyclic.{Visits-Chain, Leads-start}
use sandcode.Planner.Validate.{validate, scan_nodes, check_nodes, check_cycle, or_else, DagError}
use sandcode.Planner.Validate.Shape.{
  IsShaped, scan_nodes-IsShaped, IsShaped-scan_nodes, scan_nodes-seen, IsResolved,
  check_nodes-IsResolved, IsResolved-check_nodes,
}

pub record IsValidDag (d : TaskDag) : Type 0 where
  pub nonempty : d ≢ []
  pub complete : (n : Node) → Memᴰ n d → (n.id ≢ "") × (n.prompt ≢ "")
  pub distinct : Distinct (ids d)
  pub resolved : (u v : String) → Depends d u v → (v ≢ u) × Memᴰ v (ids d)
  pub acyclic : (u : String) → ¬ Chain (Depends d) u u

-- What is known of the search where it returns an id.
find_cycle-Visits :
    (d : TaskDag) (hit : String)
    → find_cycle d ≡ some hit
    → (cs : Colors) × Visits (deps_of d) [] (ids d) cs hit
unfolding find_cycle search
find_cycle-Visits d hit h = elim (Option-cases (search d)) [
  | inl e ↦ absurd (cc (sym (ap hit_of e) ∙ h))
  | inr ((cs, x), e) ↦ (
    cs,
    subst (Visits (deps_of d) [] (ids d) cs) (some-injective x hit (sym (ap hit_of e) ∙ h))
        (visit_each-Visits (deps_of d) (suc (length d)) (ids d) [] cs x e),
  )
]

-- The search that finds nothing: no chain of dependencies of a node goes on forever.
find_cycle-Acc :
    (d : TaskDag)
    → find_cycle d ≡ some ""
    → ((id : String) → Memᴰ id (ids d) → id ≢ "")
    → ((u v : String) → Memᴰ v (slice_at (deps_of d) u) → v ≢ "")
    → (id : String) → Memᴰ id (ids d)
    → Acc (Listed (deps_of d)) id
find_cycle-Acc d h named listed id m =
    let (cs, t) = find_cycle-Visits d "" h in
    let all = Visits-Explored (deps_of d) listed named (Safe-start (deps_of d)) refl t in
    all.safe id (all.covered id m)

-- An id that the search finds depends on itself through a chain.
find_cycle-Chain :
    (d : TaskDag) (hit : String) → find_cycle d ≡ some hit → hit ≢ "" → Chain (Depends d) hit hit
find_cycle-Chain d hit h n =
    let (cs, t) = find_cycle-Visits d hit h in
    Chain-map (listed-Depends d) (Visits-Chain (deps_of d) (Leads-start (deps_of d) (ids d)) n t)

unnamed :
    (d : TaskDag) (id : String) → ((n : Node) → Memᴰ n d → n.id ≢ "") → Memᴰ id (ids d) → id ≢ ""
unnamed [] id h m = absurd (Memᴰ.not-nil m)
unnamed (n ∷ d) id h (Memᴰ.head e) = subst (λ x. x ≢ "") (sym e) (h n (Memᴰ.head refl))
unnamed (n ∷ d) id h (Memᴰ.tail m) = unnamed d id (λ x k. h x (Memᴰ.tail k)) m

-- An acyclic graph.
IsValidDag-no_hit : (d : TaskDag) → IsValidDag d → find_cycle d ≡ some ""
IsValidDag-no_hit d h =
    let (hit, e) = find_cycle_returns d in
    elim (Bool-cases (str_eq hit "")) [
      | inl y ↦ e ∙ ap some ((eq_iff hit "").0 y)
      | inr n ↦ absurd (h.acyclic hit (find_cycle-Chain d hit e (ground (arith, n, eq_iff hit ""))))
    ]

or_else-none : (a b : Option DagError) → or_else a b ≡ none → (a ≡ none) × (b ≡ none)
or_else-none none b h = (refl, h)
or_else-none (some e) b h = absurd cc

none-or_else : {a b : Option DagError} → a ≡ none → b ≡ none → or_else a b ≡ none
none-or_else {b = b} e f = ap (λ o. or_else o b) e ∙ f

check_cycle-none : (o : Option String) → check_cycle o ≡ none → o ≡ some ""
unfolding check_cycle
check_cycle-none none h = absurd cc
check_cycle-none (some hit) h = ground (arith, h, eq_iff hit "")

validate-steps :
    (d : TaskDag)
    → validate d ≡ none
    → (d ≢ [])
      × ((scan_nodes d []).0 ≡ none)
      × (check_nodes (scan_nodes d []).1 d ≡ none)
      × (find_cycle d ≡ some "")
unfolding validate
validate-steps [] h = absurd cc
validate-steps (n ∷ ns) h =
    let (first, later) = or_else-none _ _ h in
    let (second, third) = or_else-none _ _ later in
    (λ e. cc, first, second, check_cycle-none (find_cycle (n ∷ ns)) third)

steps-validate :
    (d : TaskDag)
    → d ≢ []
    → (scan_nodes d []).0 ≡ none
    → check_nodes (scan_nodes d []).1 d ≡ none
    → find_cycle d ≡ some ""
    → validate d ≡ none
unfolding validate
steps-validate [] n a b c = absurd (n refl)
steps-validate (x ∷ ns) n a b c =
    none-or_else a (none-or_else b (ap check_cycle c ∙ unfold check_cycle in refl))

-- Dependencies that are found among the ids have no empty name.
module _ (d : TaskDag) (shaped : IsShaped d []) where
  resolves :
      check_nodes (scan_nodes d []).1 d ≡ none
      → (u v : String) → Depends d u v
      → (v ≢ u) × Memᴰ v (ids d)
  resolves h u v e =
      let (other, seen) =
        check_nodes-IsResolved (scan_nodes d []).1 d h e.node e.member v e.listed in
      (
        subst (λ x. v ≢ x) e.named other,
        elim ((scan_nodes-seen d [] v shaped).0 seen) [
          | inl m ↦ m
          | inr m ↦ absurd (Memᴰ.not-nil m)
        ],
      )

  named : (id : String) → Memᴰ id (ids d) → id ≢ ""
  named id = unnamed d id (λ n m. (shaped.complete n m).0)

  -- Where the search finds nothing, no chain of dependencies of a node goes on forever.
  no_endless :
      ((u v : String) → Depends d u v → (v ≢ u) × Memᴰ v (ids d))
      → find_cycle d ≡ some ""
      → (id : String) → Memᴰ id (ids d)
      → Acc (λ v u. Depends d u v) id
  no_endless resolved h id m =
      Acc-map (Depends-listed d shaped.distinct)
        (find_cycle-Acc d h named (λ u v k. named v (resolved u v (listed-Depends d u v k)).1) id m)

-- `Validate` accepts a graph exactly when it has a node, its ids and prompts are not empty, no id
-- stands twice, every dependency is another node of the graph, and no node depends on itself through
-- a chain.
pub validate_iff : (d : TaskDag) → (validate d ≡ none) ↔ IsValidDag d
validate_iff d = (accepts, accepted)
  where
    accepts : validate d ≡ none → IsValidDag d
    accepts h =
        let (nonempty, first, second, third) = validate-steps d h in
        let shaped = scan_nodes-IsShaped d [] first in
        let resolved = resolves d shaped second in
        record {
          nonempty = nonempty;
          complete = shaped.complete;
          distinct = shaped.distinct;
          resolved = resolved;
          acyclic = λ u c.
              let (v, e, _) = first_step (Depends d) c in
              Acc-no_return (Depends d) (no_endless d shaped resolved third u (Depends-id d u v e))
                c;
        }

    passes :
        IsValidDag d
        → IsShaped d []
        → (n : Node) → Memᴰ n d
        → (v : String) → Memᴰ v n.depends_on
        → IsResolved (scan_nodes d []).1 n.id v
    passes h shaped n m v k =
        let edge : Depends d n.id v = record { node = n; member = m; named = refl; listed = k } in
        let (other, is_id) = h.resolved n.id v edge in
        (other, (scan_nodes-seen d [] v shaped).1 (inl is_id))

    accepted : IsValidDag d → validate d ≡ none
    accepted h =
        let shaped : IsShaped d [] = record {
          complete = h.complete;
          distinct = h.distinct;
          fresh = λ _ _ k. Memᴰ.not-nil k;
        } in
        steps-validate d h.nonempty (IsShaped-scan_nodes d [] shaped)
          (IsResolved-check_nodes (scan_nodes d []).1 d (passes h shaped)) (IsValidDag-no_hit d h)

-- In a graph that satisfies the conditions, no chain of dependencies of a node goes on forever.
pub IsValidDag-Acc :
    (d : TaskDag) → IsValidDag d → (id : String) → Memᴰ id (ids d) → Acc (λ v u. Depends d u v) id
IsValidDag-Acc d h =
    no_endless d
      (record { complete = h.complete; distinct = h.distinct; fresh = λ _ _ k. Memᴰ.not-nil k })
      h.resolved (IsValidDag-no_hit d h)
