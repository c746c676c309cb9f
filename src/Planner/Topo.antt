-- ===== src/Planner/Topo.antt =====
-- internal/planner/types.go: `TaskDAG.TopoSort`, Kahn's algorithm, and `Roots`.
pub mod Count
pub mod Degrees
pub mod Release
pub mod Pending
pub mod Sorted
pub mod Cyclic
use sandcode.Base.{
  ℕ, zero, suc, ◌+◌, ◌≡◌, refl, String, List, [], ◌∷◌, ◌++◌, Option, none, some, Bool, true, false,
  ◌==◌, length, str_eq, if◌then◌else◌,
}
use sandcode.Base.Int.{ℤ, pos, negsuc}
use sandcode.Base.Dict.{Dict, lookup, put}
use sandcode.Planner.{Node, TaskDag, slice_at, Depends}

-- A count that goes down by one, below zero too.
unfoldable pub down : ℤ → ℤ
down (pos zero) = negsuc 0
down (pos (suc n)) = pos n
down (negsuc n) = negsuc (n + 1)

abbrev pub or_zero : Option ℤ → ℤ
or_zero none = pos 0
or_zero (some n) = n

-- `indeg[id]`, whose zero value is 0.
unfoldable pub degree_at : Dict ℤ → String → ℤ
unfolding lookup
degree_at m id = or_zero (lookup id m)

abbrev pub is_zero : ℤ → Bool
is_zero (pos zero) = true
is_zero _ = false

-- `indeg[n.ID] = len(n.DependsOn)` for each node.
unfoldable pub fill_degrees : List Node → Dict ℤ → Dict ℤ
unfolding put
fill_degrees [] m = m
fill_degrees (n ∷ ns) m = fill_degrees ns (put n.id (pos (length n.depends_on)) m)

-- The dependents of each dependency, in the order of the nodes: the loop over one node's list, and
-- the loop over the nodes.
unfoldable pub add_dependent : String → List String → Dict (List String) → Dict (List String)
unfolding put slice_at
add_dependent id [] m = m
add_dependent id (dep ∷ deps) m = add_dependent id deps (put dep (slice_at m dep ++ id ∷ []) m)

unfoldable pub fill_dependents : List Node → Dict (List String) → Dict (List String)
unfolding add_dependent
fill_dependents [] m = m
fill_dependents (n ∷ ns) m = fill_dependents ns (add_dependent n.id n.depends_on m)

-- The seed of the ready queue.
unfoldable pub seed : Dict ℤ → List Node → List String
unfolding degree_at
seed indeg [] = []
seed indeg (n ∷ ns) =
    let rest = seed indeg ns in if is_zero (degree_at indeg n.id) then n.id ∷ rest else rest

-- The degrees and the ready queue.
pub record Front : Type 0 where
  pub indeg : Dict ℤ
  pub ready : List String

-- One round of the loop over the dependents of a node that is put out, and the loop.
unfoldable pub lower : String → Front → Front
unfolding degree_at put down
lower child f =
    let d = down (degree_at f.indeg child) in
    record {
      indeg = put child d f.indeg;
      ready = if is_zero d then f.ready ++ child ∷ [] else f.ready;
    }

unfoldable pub release : List String → Front → Front
unfolding lower
release [] f = f
release (child ∷ children) f = release children (lower child f)

-- The outer loop, with the rounds that are left; `none` where they are spent.
unfoldable pub drain :
    Dict (List String) → ℕ → Dict ℤ → List String → List String → Option (List String)
unfolding release slice_at
drain dependents rounds indeg [] out = some out
drain dependents zero indeg (id ∷ ready) out = none
drain dependents (suc rounds) indeg (id ∷ ready) out =
    let f = release (slice_at dependents id) (record { indeg = indeg; ready = ready }) in
    drain dependents rounds f.indeg f.ready (out ++ id ∷ [])

pub data Sorting : Type 0 where
  sorted : List String → Sorting
  cyclic : Sorting
  spent : Sorting

unfoldable pub verdict : TaskDag → Option (List String) → Sorting
verdict d none = spent
verdict d (some out) = if length out == length d then sorted out else cyclic

-- `spent` is no result of the program: the rounds are as many as the nodes.
unfoldable pub topo_sort : TaskDag → Sorting
unfolding verdict drain fill_dependents fill_degrees seed
topo_sort d =
    let indeg = fill_degrees d [] in
    verdict d (drain (fill_dependents d []) (length d) indeg (seed indeg d) [])

abbrev pub no_deps : List String → Bool
no_deps [] = true
no_deps (dep ∷ deps) = false

unfoldable pub roots : TaskDag → List String
roots [] = []
roots (n ∷ ns) = let rest = roots ns in if no_deps n.depends_on then n.id ∷ rest else rest

node_of : String → List String → Node
node_of id deps = record { id = id; prompt = "p"; role = ""; dod = ""; depends_on = deps }

-- A diamond, and a cycle.
topo_sort_test :
    topo_sort (
      node_of "d" ("b" ∷ "c" ∷ [])
      ∷ node_of "c" ("a" ∷ [])
      ∷ node_of "b" ("a" ∷ [])
      ∷ node_of "a" []
      ∷ [])
    ≡ sorted ("a" ∷ "c" ∷ "b" ∷ "d" ∷ [])
unfolding topo_sort node_of
topo_sort_test = refl

topo_sort_cyclic :
    topo_sort (node_of "a" [] ∷ node_of "b" ("c" ∷ []) ∷ node_of "c" ("b" ∷ []) ∷ []) ≡ cyclic
unfolding topo_sort node_of
topo_sort_cyclic = refl
