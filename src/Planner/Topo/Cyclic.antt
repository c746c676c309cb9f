-- ===== src/Planner/Topo/Cyclic.antt =====
-- internal/planner/types.go: what `TopoSort` returns for a graph with a cycle.
use mathlib.Core.List.{Memᴰ}
use mathlib.Core.List.Memᴰ
use mathlib.Core.WellFounded.{Acc}
use sandcode.Base.{
  suc, ◌≤◌, ◌≡◌, ap, ◌∙◌, sym, subst, inl, inr, String, List, [], ◌∷◌, some, false, eq_iff,
  Bool-cases, arith, length,
}
use sandcode.Base.Int.{ℤ}
use sandcode.Base.Dict.{Dict}
use sandcode.Planner.{TaskDag, ids, Distinct, Depends, Chain}
use sandcode.Planner.Deps.{length-ids, first_step, Acc-no_return, Depends-id}
use sandcode.Planner.Validate.{known}
use sandcode.Planner.Validate.Shape.{known-mem}
use sandcode.Planner.Topo.{fill_degrees, seed, cyclic, topo_sort, verdict}
use sandcode.Planner.Topo.Count.{
  count, count-unknown, count-Distinct, length-le_of_counts, mem-count,
}
use sandcode.Planner.Topo.Sorted.{InOrder, nothing, next, Inv, Inv-start, drain-Inv}

-- Ids in order do not depend on each other without end.
InOrder-Acc :
    (d : TaskDag) (out : List String)
    → InOrder d out
    → (x : String) → Memᴰ x out
    → Acc (λ v u. Depends d u v) x
InOrder-Acc d [] nothing x m = absurd (Memᴰ.not-nil m)
InOrder-Acc d _ (next {out} {id} o earlier) x m = elim (Memᴰ.append_cases out m) [
  | inl k ↦ InOrder-Acc d out o x k
  | inr k ↦
      subst (Acc (λ v u. Depends d u v)) (sym (Memᴰ.eq_of_singleton k))
        (Acc.intro id λ v e. InOrder-Acc d out o v (earlier v e))
]

-- What is missing from the output makes it shorter than the graph.
missing-shorter :
    (d : TaskDag) (distinct : Distinct (ids d)) (last : Dict ℤ) (end : List String) (x : String)
    → Inv d distinct last [] end
    → Memᴰ x (ids d)
    → known x end ≡ false
    → suc (length end) ≤ length (ids d)
unfolding count
missing-shorter d distinct last end x h m n = length-le_of_counts (x ∷ end) (ids d) λ z. ground (
  arith,
  h.placed z,
  count-Distinct z (ids d) distinct,
  count-unknown x end n,
  mem-count x (ids d) m,
  eq_iff x z,
)

-- Of a graph whose ids differ, in which a node depends on itself through a chain, `TopoSort` returns
-- the error of a cycle.
pub topo_sort-cyclic :
    (d : TaskDag) (u : String) → Distinct (ids d) → Chain (Depends d) u u → topo_sort d ≡ cyclic
unfolding topo_sort
topo_sort-cyclic d u distinct c =
    let (end, last, e, h) =
      drain-Inv d distinct (length d) (fill_degrees d []) (seed (fill_degrees d []) d) []
        (Inv-start d distinct) (omega (arith, length-ids d)) in
    let (v, edge, _) = first_step (Depends d) c in
    let m = Depends-id d u v edge in
    elim (Bool-cases (known u end)) [
      | inl y ↦
          absurd (Acc-no_return (Depends d) (InOrder-Acc d end h.ordered u (known-mem u end y)) c)
      | inr n ↦
          let short = missing-shorter d distinct last end u h m n in
          ap (verdict d) e ∙ unequal d end (omega (arith, short, length-ids d))
    ]
  where
    unequal :
        (d : TaskDag) (end : List String)
        → suc (length end) ≤ length d
        → verdict d (some end) ≡ cyclic
    unequal d end le = unfold verdict in ground (arith, le)
