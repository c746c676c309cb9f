-- ===== src/Orchestrator/Coordinator.antt =====
-- internal/orchestrator/dag_run.go: what `DAGRun` does when its chains have ended.
pub mod Winner
use sandcode.Base.{
  ℕ, zero, suc, ◌+◌, ◌-◌, ◌≡◌, refl, List, [], ◌∷◌, ◌++◌, Option, none, some, String, Bool, true,
  false, not, length, if◌then◌else◌,
}
use sandcode.Base.Bytes.{Bytes, bytes_eq}
use sandcode.Base.Int.{ℤ, pos}
use sandcode.Orchestrator.Refine.{tail_within}
use sandcode.Orchestrator.Node.{NodeResult, InvocationResult}
use sandcode.Orchestrator.Chain.{ChainResult}

-- internal/judge/judge.go. Agent and Status have one value here, and Duration is not modelled.
pub record Candidate : Type 0 where
  pub run_id : Bytes
  pub exit_code : ℤ
  pub diff : Bytes
  pub stdout : Bytes

-- A ranking without its scores, or the error.
pub data Rank (Error : Type 0) : Type 0 where
  ranked : Bytes → Bytes → Rank Error
  rank_failed : Error → Rank Error

pub data Rationale (Error : Type 0) : Type 0 where
  no_judge : Rationale Error
  judge_failed : Error → Rationale Error
  empty_winner : Rationale Error
  of_judge : Bytes → Rationale Error

abbrev pub is_empty_id : Bytes → Bool
is_empty_id [] = true
is_empty_id (b ∷ bs) = false

-- What the synthesizer is started with: the worktree it works in, the winner, the survivors and the
-- rationale.
pub record SynthesizerArgs (Error : Type 0) : Type 0 where
  pub winner_worktree : String
  pub winner : ChainResult Error
  pub all_chains : List (ChainResult Error)
  pub judge_rationale : Rationale Error

-- all_failed: is the error ErrAllChainsFailed? The times and costs are not modelled.
pub record DagResult (Error : Type 0) : Type 0 where
  pub chains : List (ChainResult Error)
  pub all_failed : Bool
  pub winner : Bytes
  pub judge_rationale : Option (Rationale Error)
  pub synthesizer : Option (SynthesizerArgs Error)

pub record DagCompleted : Type 0 where
  pub total_attempts : ℕ
  pub failed_chain_count : ℕ
  pub winner_chain_id : Bytes

module _ {Error : Type 0} where
  -- The fields of the last node, or the zero values of a chain without nodes.
  unfoldable pub candidate_of : Bytes → List (NodeResult Error) → Candidate
  unfolding tail_within
  candidate_of id [] = record { run_id = id; exit_code = pos 0; diff = []; stdout = [] }
  candidate_of id (n ∷ []) = record {
    run_id = id;
    exit_code = n.result.exit_code;
    diff = n.diff;
    stdout = tail_within n.result.completion (pos 1500);
  }
  candidate_of id (n ∷ m ∷ ns) = candidate_of id (m ∷ ns)

  unfoldable pub candidates : List (ChainResult Error) → List Candidate
  unfolding candidate_of
  candidates [] = []
  candidates (c ∷ cs) = candidate_of c.chain_id c.nodes ∷ candidates cs

  -- The winner and the rationale; `first` is chains[0].
  unfoldable pub winner_of : ChainResult Error → Rank Error → Bytes × Rationale Error
  winner_of first (rank_failed e) = (first.chain_id, judge_failed e)
  winner_of first (ranked winner rationale) =
      if is_empty_id winner then (first.chain_id, empty_winner) else (winner, of_judge rationale)

  unfoldable pub run_judge_over_chains :
      Option (List Candidate → Rank Error)
      → ChainResult Error
      → List (ChainResult Error)
      → Bytes × Rationale Error
  unfolding winner_of candidates
  run_judge_over_chains none first rest = (first.chain_id, no_judge)
  run_judge_over_chains (some rank) first rest = winner_of first (rank (candidates (first ∷ rest)))

  abbrev pub zero_chain : ChainResult Error
  zero_chain = record {
    chain_id = [];
    root_node_id = "";
    worktree = "";
    branch = "";
    nodes = [];
    success = false;
    failed_at = "";
  }

  unfoldable pub find_chain : List (ChainResult Error) → Bytes → ChainResult Error
  unfolding bytes_eq
  find_chain [] id = zero_chain
  find_chain (c ∷ cs) id = let rest = find_chain cs id in if bytes_eq c.chain_id id then c else rest

  unfoldable pub node_attempts : List (NodeResult Error) → ℕ
  node_attempts [] = 0
  node_attempts (n ∷ ns) = n.attempts + node_attempts ns

  unfoldable pub sum_attempts : List (ChainResult Error) → ℕ
  unfolding node_attempts
  sum_attempts [] = 0
  sum_attempts (c ∷ cs) = node_attempts c.nodes + sum_attempts cs

  unfoldable pub survivors : List (ChainResult Error) → List (ChainResult Error)
  survivors [] = []
  survivors (c ∷ cs) = let rest = survivors cs in if c.success then c ∷ rest else rest

  module _ (judge : Option (List Candidate → Rank Error)) (disabled : Bool)
      (results : List (ChainResult Error)) where
    abbrev pub judged : List (ChainResult Error) → Bytes × Rationale Error → DagResult Error
    judged succ (winner, rationale) =
        let best = find_chain succ winner in
        record {
          chains = results;
          all_failed = false;
          winner = winner;
          judge_rationale = some rationale;
          synthesizer =
              if disabled
              then none
              else some (record {
                winner_worktree = best.worktree;
                winner = best;
                all_chains = succ;
                judge_rationale = rationale;
              });
        }

    -- The switch on the number of survivors.
    unfoldable pub conclude : List (ChainResult Error) → DagResult Error
    unfolding run_judge_over_chains find_chain
    conclude [] = record {
      chains = results;
      all_failed = true;
      winner = [];
      judge_rationale = none;
      synthesizer = none;
    }
    conclude (c ∷ []) = record {
      chains = results;
      all_failed = false;
      winner = c.chain_id;
      judge_rationale = none;
      synthesizer = none;
    }
    conclude (c ∷ d ∷ rest) = judged (c ∷ d ∷ rest) (run_judge_over_chains judge c (d ∷ rest))

    -- The result and the event dag.completed.
    unfoldable pub coordinate : DagResult Error × DagCompleted
    unfolding conclude survivors sum_attempts
    coordinate =
        let res = conclude (survivors results) in
        (
          res,
          record {
            total_attempts = sum_attempts results;
            failed_chain_count = length results - length (survivors results);
            winner_chain_id = res.winner;
          },
        )
