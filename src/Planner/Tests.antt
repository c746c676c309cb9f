-- ===== src/Planner/Tests.antt =====
-- A graph of four nodes, and the planner's theorems at it.
use mathlib.Core.List.{Memᴰ}
use sandcode.Base.{◌≡◌, refl, ◌↔◌, String, List, [], ◌∷◌, none, some}
use sandcode.Planner.{Node, TaskDag, ids, Distinct, Depends, Chain, start, extend}
use sandcode.Planner.Cycle.{find_cycle}
use sandcode.Planner.Cycle.Returns.{find_cycle_returns}
use sandcode.Planner.Validate.{validate, scan_nodes}
use sandcode.Planner.Validate.Shape.{scan_nodes-IsShaped}
use sandcode.Planner.Validate.Verdict.{IsValidDag, validate_iff}
use sandcode.Planner.Topo.{topo_sort, sorted, cyclic}
use sandcode.Planner.Topo.Count.{count}
use sandcode.Planner.Topo.Cyclic.{topo_sort-cyclic}
use sandcode.Planner.Topo.Sorted.{InOrder, topo_sort-InOrder}

abbrev task : String → List String → Node
task id deps = record { id = id; prompt = "do it"; role = ""; dod = ""; depends_on = deps }

abbrev diamond : TaskDag
diamond =
    task "merge" ("left" ∷ "right" ∷ [])
    ∷ task "left" ("base" ∷ [])
    ∷ task "right" ("base" ∷ [])
    ∷ task "base" []
    ∷ []

abbrev ring : TaskDag
ring = task "a" ("b" ∷ []) ∷ task "b" ("c" ∷ []) ∷ task "c" ("a" ∷ []) ∷ []

diamond-accepted : validate diamond ≡ none
unfolding validate
diamond-accepted = refl

validate_iff_example : (validate diamond ≡ none) ↔ IsValidDag diamond
validate_iff_example = validate_iff diamond

diamond-IsValidDag : IsValidDag diamond
diamond-IsValidDag = validate_iff_example.0 diamond-accepted

topo_sort-InOrder_example :
    (out : List String) × (topo_sort diamond ≡ sorted out)
    × ((id : String) → count id out ≡ count id (ids diamond))
    × InOrder diamond out
topo_sort-InOrder_example = topo_sort-InOrder diamond diamond-IsValidDag

find_cycle_returns_example : (hit : String) × (find_cycle ring ≡ some hit)
find_cycle_returns_example = find_cycle_returns ring

ring-hit : find_cycle ring ≡ some "a"
unfolding find_cycle
ring-hit = refl

ring-Distinct : Distinct (ids ring)
unfolding scan_nodes
ring-Distinct = (scan_nodes-IsShaped ring [] refl).distinct

edge : (n : Node) (v : String) → Memᴰ n ring → Memᴰ v n.depends_on → Depends ring n.id v
edge n v m k = record { node = n; member = m; named = refl; listed = k }

ring-Chain : Chain (Depends ring) "a" "a"
ring-Chain =
    extend
      (extend (start (edge (task "a" ("b" ∷ [])) "b" (Memᴰ.head refl) (Memᴰ.head refl)))
        (edge (task "b" ("c" ∷ [])) "c" (Memᴰ.tail (Memᴰ.head refl)) (Memᴰ.head refl)))
      (edge (task "c" ("a" ∷ [])) "a" (Memᴰ.tail (Memᴰ.tail (Memᴰ.head refl))) (Memᴰ.head refl))

topo_sort-cyclic_example : topo_sort ring ≡ cyclic
topo_sort-cyclic_example = topo_sort-cyclic ring "a" ring-Distinct ring-Chain
