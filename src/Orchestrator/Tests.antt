-- ===== src/Orchestrator/Tests.antt =====
-- A plan of three nodes in two chains, a node that is tried twice, and the theorems at them.
use mathlib.Core.List.{Memᴰ}
use sandcode.Base.{
  ℕ, suc, ◌-◌, ◌≤◌, ◌≡◌, ap, subst, ◌⊎◌, inl, inr, refl, List, [], ◌∷◌, ◌++◌, Option, none, some,
  String, Bool, true, false, codes, All,
}
use sandcode.Base.Bytes.{Bytes}
use sandcode.Base.Int.{ℤ, pos}
use sandcode.Planner.{Node, TaskDag, ids}
use sandcode.Planner.Topo.Count.{count}
use sandcode.Orchestrator.Options.{validate_dag}
use sandcode.Orchestrator.Chains.{ChainSpec, decompose_chains}
use sandcode.Orchestrator.Chains.Walks.{Follows}
use sandcode.Orchestrator.Chains.Partition.{chain_ids, decompose_chains-partition}
use sandcode.Orchestrator.Refine.{RefineOptions, active}
use sandcode.Orchestrator.Node.{
  finished, Sandbox, NodeResult, NodeEvent, node_completed, run_node, node_succeeded, attempt_cap,
}
use sandcode.Orchestrator.Node.Attempts.{starts, IsVerified, run_node-attempts}
use sandcode.Orchestrator.Chain.{ChainResult, ChainEvent, ChainCalls, run_chain}
use sandcode.Orchestrator.Chain.Outcome.{Ended, run_chain_ends}
use sandcode.Orchestrator.Coordinator.{Candidate, Rank, ranked, rank_failed, coordinate}
use sandcode.Orchestrator.Coordinator.Winner.{NamesCandidate, Concluded, coordinate-Concluded}

abbrev task : String → List String → Node
task id deps = record { id = id; prompt = "do it"; role = ""; dod = ""; depends_on = deps }

abbrev plan : TaskDag
plan = task "a" [] ∷ task "c" ("b" ∷ []) ∷ task "b" ("a" ∷ []) ∷ task "z" [] ∷ []

plan-accepted : validate_dag plan true ≡ none
unfolding validate_dag
plan-accepted = refl

decompose_chains-partition_example :
    (specs : List (ChainSpec String)) × (decompose_chains plan ("x" ∷ "y" ∷ []) ≡ some specs)
    × ((id : String) → count id (chain_ids specs) ≡ count id (ids plan))
    × All (λ s. Follows plan [] (ids s.nodes)) specs
decompose_chains-partition_example =
    decompose_chains-partition plan true ("x" ∷ "y" ∷ []) plan-accepted

-- The worktree counts the agent's runs, and the verify command passes after the second.
abbrev verify : ℕ → ℤ
verify (suc (suc n)) = pos 0
verify n = pos 1

abbrev box : Sandbox ℕ String
box = record {
  run_agent = λ prompt w. (finished (codes "done" ∷ []) (pos 0) none, suc w);
  run_command = λ cmd w. (finished [] (verify w) none, w);
  trim_space = λ s. s;
}

abbrev twice : RefineOptions
twice = record {
  enabled = true;
  verify_cmd = codes "make" ∷ [];
  max_attempts = pos 3;
  verify_tail_bytes = pos 0;
}

run_node-attempts_example :
    (r : NodeResult String) × (u : ℕ) × (es : List NodeEvent) × (run_node box twice
        (codes "do it")
        "a"
        0
      ≡ some (r, u, es))
    × (r.node_id ≡ "a")
    × (1 ≤ r.attempts)
    × (r.attempts ≤ attempt_cap twice)
    × (es ≡ starts 0 r.attempts ++ node_completed (r.attempts - 1) (node_succeeded r) ∷ [])
    × (node_succeeded r ≡ true → active twice ≡ true → IsVerified box twice (codes "do it") u)
run_node-attempts_example = run_node-attempts box twice (codes "do it") "a" 0

abbrev calls : ChainCalls ℕ String
calls = record {
  create_worktree = λ w. (some ("/tmp/wt", "branch"), w);
  enabled_servers = [];
  inject = λ w. (true, w);
  apply_auth = true;
  create_box = λ w. (some box, w);
  redacted_diff = λ w. none;
  handoff_prompt = λ n prev. codes "do it";
}

run_chain_ends_example :
    (r : ChainResult String) × (u : ℕ) × (es : List ChainEvent) × (failed : Bool) × (run_chain calls
        twice
        (codes "chain-0")
        "a"
        plan
        0
      ≡ some (r, u, es, failed))
    × Ended calls twice "a" (ids plan) r failed
run_chain_ends_example = run_chain_ends calls twice (codes "chain-0") "a" plan 0

abbrev chain : String → Bytes → Bool → ChainResult String
chain worktree id success = record {
  chain_id = id;
  root_node_id = "a";
  worktree = worktree;
  branch = "";
  nodes = [];
  success = success;
  failed_at = "";
}

abbrev finished_chains : List (ChainResult String)
finished_chains =
    chain "/w0" (codes "chain-0") true
    ∷ chain "/w1" (codes "chain-1") false
    ∷ chain "/w2" (codes "chain-2") true
    ∷ []

-- A judge that names the last candidate.
abbrev last_id : List Candidate → Bytes
last_id [] = []
last_id (c ∷ []) = c.run_id
last_id (c ∷ d ∷ cs) = last_id (d ∷ cs)

abbrev last_judge : Option (List Candidate → Rank String)
last_judge = some (λ cands. ranked (last_id cands) [])

last_id-mem :
    (cs : List Candidate)
    → (last_id cs ≡ []) ⊎ (c : Candidate) × Memᴰ c cs × (c.run_id ≡ last_id cs)
last_id-mem [] = inl refl
last_id-mem (c ∷ []) = inr (c, Memᴰ.head refl, refl)
last_id-mem (c ∷ d ∷ cs) = elim (last_id-mem (d ∷ cs)) [
  | inl e ↦ inl e
  | inr (k, m, e) ↦ inr (k, Memᴰ.tail m, e)
]

abbrev rank_id : Rank String → Bytes
rank_id (ranked winner rationale) = winner
rank_id (rank_failed e) = []

last_judge-NamesCandidate : NamesCandidate last_judge
last_judge-NamesCandidate cands winner rationale e =
    subst (λ w. (w ≡ []) ⊎ (c : Candidate) × Memᴰ c cands × (c.run_id ≡ w)) (ap rank_id e)
      (last_id-mem cands)

coordinate-Concluded_example :
    let (res, event) = coordinate last_judge false finished_chains in
    Concluded finished_chains false res × (event.winner_chain_id ≡ res.winner)
coordinate-Concluded_example =
    coordinate-Concluded last_judge false finished_chains last_judge-NamesCandidate

coordinate-test : (coordinate last_judge false finished_chains).0.winner ≡ codes "chain-2"
unfolding coordinate
coordinate-test = refl
