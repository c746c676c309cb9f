-- ===== src/Orchestrator/Execute/Tests.antt =====
-- A request with two agents, and the dispatch of a plan with two roots.
use sandcode.Base.{
  ◌≡◌, refl, ◌⊎◌, String, [], ◌∷◌, none, some, true, false, ◌&&◌, ltb, length, if◌then◌else◌, codes,
}
use sandcode.Base.Int.{pos}
use sandcode.Orchestrator.Execute.{
  ExecuteError, ExecuteOptions, ProcessResult, Forwarded, to_parallel, rejected, forwarded, execute,
  dispatch_kind, dispatch_dag, dispatch_refine, dispatch_single,
}
use sandcode.Orchestrator.Execute.Faults.{IsFault}
use sandcode.Orchestrator.Execute.Fits.{Fits, execute-Fits, select-dispatch_kind}
use sandcode.Orchestrator.Strategy.{parallel, Classification, convergent, high, is_high, select}
use sandcode.Planner.Topo.{roots}
use sandcode.Planner.{TaskDag}

abbrev hard : Classification
hard = record { type = convergent; complexity = high }

abbrev two_roots : TaskDag
two_roots =
    record { id = "a"; prompt = "do a"; role = ""; dod = ""; depends_on = [] }
    ∷ record { id = "b"; prompt = "do b"; role = ""; dod = ""; depends_on = [] }
    ∷ []

abbrev request : ExecuteOptions String
request = record {
  prompt = codes "do it";
  cwd = "/repo";
  sandbox_image = "image";
  agent = none;
  agents = "codex" ∷ "cursor" ∷ [];
  parallel_n = pos 0;
  has_judge = false;
  refine_options = record {
    enabled = false;
    verify_cmd = [];
    max_attempts = pos 0;
    verify_tail_bytes = pos 0;
  };
}

abbrev processed : ProcessResult
processed = record { strategy = parallel; plan = two_roots; enriched_prompt = []; model = "" }

execute-Fits_example :
    ((e : ExecuteError) × (execute request (some processed) none ≡ rejected e) × IsFault request e)
    ⊎ ((f : Forwarded String) × (reason : String) × (execute request (some processed) none
          ≡ forwarded f reason)
        × ((e : ExecuteError) → ¬ IsFault request e)
        × Fits request f)
execute-Fits_example = execute-Fits request (some processed) none

-- Without a judge the graph is not run, and both agents are.
falls_back :
    execute request (some processed) none
    ≡ forwarded
        (to_parallel ("codex" ∷ "cursor" ∷ []) (codes "do it"))
        "dag requires judge; falling back to parallel"
unfolding execute
falls_back = refl

-- One agent in the list and a wish for three copies: it is run once.
not_replicated :
    execute
      (record request { agents = "codex" ∷ []; parallel_n = pos 3 })
      (some (record processed { plan = [] }))
      none
    ≡ forwarded
        (to_parallel ("codex" ∷ []) (codes "do it"))
        "kernel selected parallel; --parallel replication"
unfolding execute
not_replicated = refl

select-dispatch_kind_example :
    (dispatch_kind (select hard two_roots).0 two_roots 1 (pos 0) true true).0 ≡ (
      if ltb 1 (length (roots two_roots))
      then dispatch_dag
      else if is_high high && true
      then dispatch_refine
      else dispatch_single)
select-dispatch_kind_example = select-dispatch_kind hard two_roots 1 (pos 0) true
