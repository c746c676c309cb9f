-- ===== src/Planner.antt =====
-- internal/planner/types.go: the nodes of a task graph, and what a node depends on.
pub mod Deps
pub mod Cycle
pub mod Validate
pub mod Topo
mod Tests
use mathlib.Core.List.{Memᴰ}
use sandcode.Base.{◌≡◌, String, List, [], ◌∷◌, Option, none, some, Bool, false}
use sandcode.Base.Dict.{Dict, lookup, put}

pub record Node : Type 0 where
  pub id : String
  pub prompt : String
  pub role : String
  pub dod : String
  pub depends_on : List String

-- The only field of `TaskDAG`.
abbrev pub TaskDag : Type 0
TaskDag = List Node

abbrev pub ids : List Node → List String
ids [] = []
ids (n ∷ ns) = n.id ∷ ids ns

-- `m[k]` of a map of slices, whose zero value is the empty slice.
abbrev pub or_empty : Option (List String) → List String
or_empty none = []
or_empty (some ds) = ds

unfoldable pub slice_at : Dict (List String) → String → List String
unfolding lookup
slice_at m k = or_empty (lookup k m)

-- The map from a node's id to its dependencies, filled node by node.
unfoldable pub fill_deps : List Node → Dict (List String) → Dict (List String)
unfolding put
fill_deps [] m = m
fill_deps (n ∷ ns) m = fill_deps ns (put n.id n.depends_on m)

unfoldable pub deps_of : List Node → Dict (List String)
unfolding fill_deps
deps_of ns = fill_deps ns []

-- `u` lists `v` under depends_on.
pub record Depends (d : TaskDag) (u v : String) : Type 0 where
  pub node : Node
  pub member : Memᴰ node d
  pub named : node.id ≡ u
  pub listed : Memᴰ v node.depends_on

-- A chain of one or more steps.
pub data Chain (r : String → String → Type 0) : String → String → Type 0 where
  start : {u v : String} → r u v → Chain r u v
  extend : {u v w : String} → Chain r u v → r v w → Chain r u w

-- No id stands twice.
abbrev pub Distinct : List String → Type 0
Distinct [] = Unit
Distinct (x ∷ xs) = (¬ Memᴰ x xs) × Distinct xs
