-- ===== src/Orchestrator/Chain.antt =====
-- internal/orchestrator/dag_chain.go: `runChain`, the nodes of one chain in one worktree.
pub mod Outcome
use sandcode.Base.{
  ℕ, ◌≡◌, refl, List, [], ◌∷◌, ◌++◌, Option, none, some, String, Bool, true, false, not,
  if◌then◌else◌,
}
use sandcode.Base.Bytes.{Bytes}
use sandcode.Planner.{Node}
use sandcode.Orchestrator.Refine.{RefineOptions, has_words}
use sandcode.Orchestrator.Node.{Sandbox, NodeResult, NodeEvent, run_node, node_succeeded}

pub record ChainResult (Error : Type 0) : Type 0 where
  pub chain_id : Bytes
  pub root_node_id : String
  pub worktree : String
  pub branch : String
  pub nodes : List (NodeResult Error)
  pub success : Bool
  pub failed_at : String

-- The dag.chain events, the injection of servers, and the events of a node with its id.
pub data ChainEvent : Type 0 where
  chain_started : ChainEvent
  mcp_injected : List Bytes → ChainEvent
  node_event : String → NodeEvent → ChainEvent
  chain_completed : Bool → String → ChainEvent

-- What the chain calls before its nodes: `wtMgr.Create`, with the path and the branch; the names of
-- the enabled servers and `InjectIntoDir`; `au.Apply`; and `sb.Create`. `Bool` says whether it went well.
-- And between its nodes: the redacted `Diff`, if there is one, and the prompt of a node.
pub record ChainCalls (World Error : Type 0) : Type 0 where
  pub create_worktree : World → Option (String × String) × World
  pub enabled_servers : List Bytes
  pub inject : World → Bool × World
  pub apply_auth : Bool
  pub create_box : World → Option (Sandbox World Error) × World
  pub redacted_diff : World → Option Bytes
  pub handoff_prompt : Node → List (NodeResult Error) → Bytes

abbrev pub or_same : Option Bytes → Bytes → Bytes
or_same none d = d
or_same (some d) _ = d

abbrev pub tag_events : String → List NodeEvent → List ChainEvent
tag_events id [] = []
tag_events id (e ∷ es) = node_event id e ∷ tag_events id es

module _ {World Error : Type 0} (calls : ChainCalls World Error) (refine : RefineOptions) where
  -- The results so far, the id of a node that failed, the worktree and the events; `none` where a
  -- node's attempts do not end.
  abbrev pub Nodes : Type 0
  Nodes = Option (List (NodeResult Error) × Option String × World × List ChainEvent)

  abbrev pub after_events : List ChainEvent → Nodes → Nodes
  after_events es none = none
  after_events es (some (rs, failed, w, fs)) = some (rs, failed, w, es ++ fs)

  -- After a node: the chain ends where it failed, and else its result takes the diff.
  unfoldable pub after_node :
      String
      → List (NodeResult Error)
      → (List (NodeResult Error) → World → Nodes)
      → Option (NodeResult Error × World × List NodeEvent)
      → Nodes
  unfolding node_succeeded
  after_node id prev next none = none
  after_node id prev next (some (r, w, es)) =
      let r' : NodeResult Error = record r { diff = or_same (calls.redacted_diff w) r.diff } in
      let rest = after_events (tag_events id es) (next (prev ++ r' ∷ []) w) in
      if node_succeeded r then rest else some (prev ++ r ∷ [], some id, w, tag_events id es)

  unfoldable pub run_nodes :
      Sandbox World Error → List Node → List (NodeResult Error) → World → Nodes
  unfolding after_node run_node
  run_nodes box [] prev w = some (prev, none, w, [])
  run_nodes box (n ∷ ns) prev w =
      after_node n.id prev (run_nodes box ns)
        (run_node box refine (calls.handoff_prompt n prev) n.id w)

  -- What the chain returns: the result, the worktree, the events, and whether it has an error.
  abbrev pub Chained : Type 0
  Chained = Option (ChainResult Error × World × List ChainEvent × Bool)

  abbrev pub with_events : List ChainEvent → Chained → Chained
  with_events es none = none
  with_events es (some (r, w, fs, failed)) = some (r, w, es ++ fs, failed)

  module _ (chain_id : Bytes) (root : String) (nodes : List Node) where
    abbrev pub result_of :
        String × String → List (NodeResult Error) → Option String → ChainResult Error
    result_of (worktree, branch) rs none = record {
      chain_id = chain_id;
      root_node_id = root;
      worktree = worktree;
      branch = branch;
      nodes = rs;
      success = true;
      failed_at = "";
    }
    result_of (worktree, branch) rs (some id) = record {
      chain_id = chain_id;
      root_node_id = root;
      worktree = worktree;
      branch = branch;
      nodes = rs;
      success = false;
      failed_at = id;
    }

    abbrev pub completed : Option String → ChainEvent
    completed none = chain_completed true ""
    completed (some id) = chain_completed false id

    -- A chain that cannot start, which is an error.
    unfoldable pub fail : String × String → World → Chained
    fail place w = some (result_of place [] (some root), w, completed (some root) ∷ [], true)

    abbrev pub finish : String × String → Nodes → Chained
    finish place none = none
    finish place (some (rs, failed, w, es)) =
        some (result_of place rs failed, w, es ++ completed failed ∷ [], false)

    unfoldable pub in_box : String × String → Option (Sandbox World Error) × World → Chained
    unfolding fail run_nodes
    in_box place (none, w) = fail place w
    in_box place (some box, w) = finish place (run_nodes box nodes [] w)

    unfoldable pub with_auth : String × String → World → Chained
    unfolding in_box fail
    with_auth place w = if calls.apply_auth then in_box place (calls.create_box w) else fail place w

    unfoldable pub injected : String × String → Bool × World → Chained
    unfolding with_auth fail
    injected place (false, w) = fail place w
    injected place (true, w) =
        with_events (mcp_injected calls.enabled_servers ∷ []) (with_auth place w)

    unfoldable pub in_worktree : String × String → World → Chained
    unfolding with_auth injected
    in_worktree place w =
        if has_words calls.enabled_servers
        then injected place (calls.inject w)
        else with_auth place w

    unfoldable pub provisioned : Option (String × String) × World → Chained
    unfolding in_worktree fail
    provisioned (none, w) = with_events (chain_started ∷ []) (fail ("", "") w)
    provisioned (some place, w) = with_events (chain_started ∷ []) (in_worktree place w)

    unfoldable pub run_chain : World → Chained
    unfolding provisioned
    run_chain w = provisioned (calls.create_worktree w)
