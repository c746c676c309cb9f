-- ===== src/Orchestrator/Options.antt =====
-- internal/orchestrator/dag_validate.go: the plans that can be run.
use mathlib.Core.List.{Memᴰ}
use mathlib.Core.List.Memᴰ
use sandcode.Base.{
  ◌≤◌, ◌≡◌, refl, sym, subst, String, List, [], ◌∷◌, Option, none, some, Bool, not, ltb, length,
  ◌&&◌, arith, if◌then◌else◌,
}
use sandcode.Planner.{Node, TaskDag}
use sandcode.Planner.Validate.{DagError, validate, is_empty}
use sandcode.Planner.Topo.{roots}

pub data OptionsError : Type 0 where
  empty_plan : OptionsError
  invalid_plan : DagError → OptionsError
  diamond_not_supported : String → List String → OptionsError
  judge_required_for_multi_root : OptionsError

-- The loop that looks for a node with two dependencies.
unfoldable pub find_diamond : List Node → Option OptionsError
find_diamond [] = none
find_diamond (n ∷ ns) =
    let rest = find_diamond ns in
    if ltb 1 (length n.depends_on) then some (diamond_not_supported n.id n.depends_on) else rest

-- What follows a check of the plan.
unfoldable pub after_plan : Option DagError → Option OptionsError → Option OptionsError
after_plan none next = next
after_plan (some e) next = some (invalid_plan e)

unfoldable pub after_diamond : Option OptionsError → Option OptionsError → Option OptionsError
after_diamond none next = next
after_diamond (some e) next = some e

-- has_judge: is `opts.Judge` not nil?
unfoldable pub validate_dag : TaskDag → Bool → Option OptionsError
unfolding find_diamond after_plan after_diamond validate roots
validate_dag plan has_judge =
    let no_judge =
      if ltb 1 (length (roots plan)) && not has_judge
      then some judge_required_for_multi_root
      else none in
    if is_empty plan
    then some empty_plan
    else after_plan (validate plan) (after_diamond (find_diamond plan) no_judge)

find_diamond-none :
    (ns : List Node) → find_diamond ns ≡ none → (n : Node) → Memᴰ n ns → length n.depends_on ≤ 1
unfolding find_diamond
find_diamond-none [] h n m = absurd (Memᴰ.not-nil m)
find_diamond-none (x ∷ ns) h n (Memᴰ.head e) =
    let first : length x.depends_on ≤ 1 = ground arith in
    subst (λ (y : Node). length y.depends_on ≤ 1) (sym e) first
find_diamond-none (x ∷ ns) h n (Memᴰ.tail m) = find_diamond-none ns (ground arith) n m

-- A plan that is accepted is a valid graph in which no node has two dependencies.
pub validate_dag-none :
    (plan : TaskDag) (has_judge : Bool)
    → validate_dag plan has_judge ≡ none
    → (validate plan ≡ none) × ((n : Node) → Memᴰ n plan → length n.depends_on ≤ 1)
unfolding validate_dag
validate_dag-none [] has_judge h = absurd cc
validate_dag-none (x ∷ ns) has_judge h = (
  planned (validate (x ∷ ns)) _ h,
  find_diamond-none (x ∷ ns) (straight (validate (x ∷ ns)) (find_diamond (x ∷ ns)) _ h),
)
  where
    planned :
        (o : Option DagError) (next : Option OptionsError) → after_plan o next ≡ none → o ≡ none
    planned none next e = refl
    planned (some x) next e = unfold after_plan in absurd cc

    straight :
        (o : Option DagError) (p : Option OptionsError) (next : Option OptionsError)
        → after_plan o (after_diamond p next) ≡ none
        → p ≡ none
    straight o none next e = refl
    straight none (some x) next e = unfold after_plan after_diamond in absurd cc
    straight (some y) (some x) next e = unfold after_plan in absurd cc
