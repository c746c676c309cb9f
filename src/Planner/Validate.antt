-- ===== src/Planner/Validate.antt =====
-- internal/planner/types.go: `TaskDAG.Validate`, and planner.go: `NoOpPlanner`.
pub mod Shape
pub mod Verdict
use sandcode.Base.{
  ◌≡◌, refl, String, List, [], ◌∷◌, Option, none, some, Bool, true, false, str_eq, ◌||◌,
  if◌then◌else◌,
}
use sandcode.Planner.{Node, TaskDag}
use sandcode.Planner.Cycle.{find_cycle}

-- The sentinel errors with what is printed after them; `out_of_fuel` is no error of the program.
pub data DagError : Type 0 where
  empty_dag : DagError
  empty_id : DagError
  empty_prompt : String → DagError
  duplicate_id : String → DagError
  self_dependency : String → DagError
  unknown_dep : String → String → DagError
  cycle : String → DagError
  out_of_fuel : DagError

-- Is the id a key of the set?
unfoldable pub known : String → List String → Bool
known id [] = false
known id (x ∷ seen) = str_eq x id || known id seen

-- The first loop with the set of the ids it has seen; it ends with an error or with the set.
unfoldable pub scan_nodes : List Node → List String → Option DagError × List String
unfolding known
scan_nodes [] seen = (none, seen)
scan_nodes (n ∷ nodes) seen =
    let rest = scan_nodes nodes (n.id ∷ seen) in
    if str_eq n.id ""
    then (some empty_id, seen)
    else if str_eq n.prompt ""
    then (some (empty_prompt n.id), seen)
    else if known n.id seen
    then (some (duplicate_id n.id), seen)
    else rest

-- The second loop over the dependencies of one node.
unfoldable pub check_deps : List String → String → List String → Option DagError
unfolding known
check_deps seen id [] = none
check_deps seen id (dep ∷ deps) =
    let rest = check_deps seen id deps in
    if str_eq dep id
    then some (self_dependency id)
    else if known dep seen
    then rest
    else some (unknown_dep id dep)

-- The first error, or what follows.
abbrev pub or_else : Option DagError → Option DagError → Option DagError
or_else none next = next
or_else (some e) next = some e

unfoldable pub check_nodes : List String → List Node → Option DagError
unfolding check_deps
check_nodes seen [] = none
check_nodes seen (n ∷ nodes) = or_else (check_deps seen n.id n.depends_on) (check_nodes seen nodes)

unfoldable pub check_cycle : Option String → Option DagError
check_cycle none = some out_of_fuel
check_cycle (some hit) = if str_eq hit "" then none else some (cycle hit)

abbrev pub is_empty : TaskDag → Bool
is_empty [] = true
is_empty (n ∷ nodes) = false

-- `none` for a valid graph.
unfoldable pub validate : TaskDag → Option DagError
unfolding scan_nodes check_nodes check_cycle find_cycle
validate d =
    let scanned = scan_nodes d [] in
    if is_empty d
    then some empty_dag
    else or_else scanned.0 (or_else (check_nodes scanned.1 d) (check_cycle (find_cycle d)))

-- The graph of one node that a planner without a model returns, or the error of its validation.
abbrev pub no_op_node_id : String
no_op_node_id = "root"

abbrev pub no_op_dag : String → TaskDag
no_op_dag prompt =
    record { id = no_op_node_id; prompt = prompt; role = ""; dod = ""; depends_on = [] } ∷ []

unfoldable pub no_op_decompose : String → TaskDag × Option DagError
unfolding validate
no_op_decompose prompt = elim (validate (no_op_dag prompt)) [
  | some e ↦ ([], some e)
  | none ↦ (no_op_dag prompt, none)
]

no_op_test : (no_op_decompose "x").1 ≡ none
unfolding no_op_decompose
no_op_test = refl
