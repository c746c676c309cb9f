-- ===== src/Orchestrator/Chains.antt =====
-- internal/orchestrator/dag_run.go: `decomposeChains`.
pub mod Walks
pub mod Returns
pub mod Partition
use sandcode.Base.{
  ℕ, zero, suc, ◌+◌, ◌%◌, ◌≡◌, refl, String, List, [], ◌∷◌, ◌++◌, Option, none, some, Bool, true,
  false, length, ltb, codes, if◌then◌else◌,
}
use sandcode.Base.Bytes.{Bytes}
use sandcode.Base.Decimal.{itoa}
use sandcode.Base.Dict.{Dict, lookup, put}
use sandcode.Planner.{Node, TaskDag, slice_at}
use sandcode.Planner.Topo.{fill_dependents, roots}

-- `byID`, filled node by node, and its entry, whose zero value is the empty node.
unfoldable pub fill_nodes : List Node → Dict Node → Dict Node
unfolding put
fill_nodes [] m = m
fill_nodes (n ∷ ns) m = fill_nodes ns (put n.id n m)

abbrev pub or_no_node : Option Node → Node
or_no_node none = record { id = ""; prompt = ""; role = ""; dod = ""; depends_on = [] }
or_no_node (some n) = n

unfoldable pub node_at : Dict Node → String → Node
unfolding lookup
node_at m id = or_no_node (lookup id m)

-- What two visits append, one after the other; `none` when the fuel of one is spent.
unfoldable pub join : Option (List Node) → Option (List Node) → Option (List Node)
join none ys = none
join (some xs) none = none
join (some xs) (some ys) = some (xs ++ ys)

unfoldable pub walk_each : (String → Option (List Node)) → List String → Option (List Node)
unfolding join
walk_each walk [] = some []
walk_each walk (id ∷ rest) = join (walk id) (walk_each walk rest)

-- The nodes that `visit` appends: the node itself, and those below each of its children.
unfoldable pub walk : Dict (List String) → Dict Node → ℕ → String → Option (List Node)
unfolding walk_each node_at slice_at
walk children by_id zero id = none
walk children by_id (suc fuel) id =
    join (some (node_at by_id id ∷ []))
      (walk_each (walk children by_id fuel) (slice_at children id))

pub record ChainSpec (Agent : Type 0) : Type 0 where
  pub chain_id : Bytes
  pub root_node_id : String
  pub nodes : List Node
  pub assigned_agent : Option Agent

abbrev pub nth : {A : Type 0} → List A → ℕ → Option A
nth [] i = none
nth (x ∷ xs) zero = some x
nth (x ∷ xs) (suc i) = nth xs i

module _ {Agent : Type 0} where
  -- The chain of the i-th root, with an agent of its own where there are several.
  unfoldable pub spec_of : List Agent → ℕ → String → List Node → ChainSpec Agent
  spec_of agents i root nodes = record {
    chain_id = codes "chain-" ++ itoa i;
    root_node_id = root;
    nodes = nodes;
    assigned_agent = if ltb 1 (length agents) then nth agents (i % length agents) else none;
  }

  unfoldable pub add_spec :
      List Agent
      → ℕ
      → String
      → Option (List Node)
      → Option (List (ChainSpec Agent))
      → Option (List (ChainSpec Agent))
  unfolding spec_of
  add_spec agents i root none specs = none
  add_spec agents i root (some nodes) none = none
  add_spec agents i root (some nodes) (some specs) = some (spec_of agents i root nodes ∷ specs)

  -- The loop over the roots.
  unfoldable pub specs_from :
      (String → Option (List Node)) → List Agent → ℕ → List String → Option (List (ChainSpec Agent))
  unfolding add_spec
  specs_from walk_root agents i [] = some []
  specs_from walk_root agents i (root ∷ rest) =
      add_spec agents i root (walk_root root) (specs_from walk_root agents (i + 1) rest)

  -- `children` is filled by the loop that `TopoSort` has for its dependents. A walk that goes down more
  -- often than there are nodes is on a cycle.
  unfoldable pub decompose_chains : TaskDag → List Agent → Option (List (ChainSpec Agent))
  unfolding specs_from walk fill_dependents fill_nodes roots
  decompose_chains plan agents =
      specs_from (walk (fill_dependents plan []) (fill_nodes plan []) (length plan)) agents 0
        (roots plan)
