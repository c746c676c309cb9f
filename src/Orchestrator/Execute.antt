-- ===== src/Orchestrator/Execute.antt =====
-- internal/orchestrator/execute.go: what a request is dispatched to, and with which agents.
pub mod Faults
pub mod Fits
mod Tests
use sandcode.Base.{
  ℕ, zero, suc, ◌+◌, String, List, [], ◌∷◌, Option, none, some, Bool, true, false, ◌&&◌, ◌||◌, ltb,
  leb, ◌==◌, length, str_eq, if◌then◌else◌,
}
use sandcode.Base.Bytes.{Bytes}
use sandcode.Base.Int.{ℤ, pos, negsuc, ltz}
use sandcode.Orchestrator.Refine.{RefineOptions, active}
use sandcode.Orchestrator.Strategy.{Strategy, single, refine, parallel, unknown}
use sandcode.Planner.{TaskDag}
use sandcode.Planner.Topo.{roots}

pub data DispatchKind : Type 0 where
  dispatch_single dispatch_refine dispatch_parallel dispatch_dag : DispatchKind

unfoldable pub kind_text : DispatchKind → String
kind_text dispatch_single = "single"
kind_text dispatch_refine = "refine"
kind_text dispatch_parallel = "parallel"
kind_text dispatch_dag = "dag"

pub data ExecuteError : Type 0 where
  empty_prompt empty_cwd empty_sandbox_image no_agent parallel_and_agents : ExecuteError

-- The options that the dispatch reads.
pub record ExecuteOptions (Agent : Type 0) : Type 0 where
  pub prompt : Bytes
  pub cwd : String
  pub sandbox_image : String
  pub agent : Option Agent
  pub agents : List Agent
  pub parallel_n : ℤ
  pub has_judge : Bool
  pub refine_options : RefineOptions

-- What `kernel.Process` gives of it.
pub record ProcessResult : Type 0 where
  pub strategy : Strategy
  pub plan : TaskDag
  pub enriched_prompt : Bytes
  pub model : String

-- The table of the dispatch, with its reasons.
unfoldable pub dispatch_kind : Strategy → TaskDag → ℕ → ℤ → Bool → Bool → DispatchKind × String
unfolding roots ltz
dispatch_kind refine plan agent_count parallel_n has_judge refine_active =
    if refine_active
    then (dispatch_refine, "kernel selected refine")
    else (dispatch_single, "refine suggested but RefineOptions disabled; falling back to single")
dispatch_kind parallel plan agent_count parallel_n has_judge refine_active =
    if ltb 1 (length (roots plan))
    then if has_judge
      then (dispatch_dag, "kernel selected parallel + plan multi-root")
      else if ltb 1 agent_count
      then (dispatch_parallel, "dag requires judge; falling back to parallel")
      else (
        dispatch_single, "dag requires judge and parallel needs >1 agent; falling back to single",
      )
    else if ltb 1 agent_count
    then (dispatch_parallel, "kernel selected parallel; multi-agent fan-out")
    else if ltz (pos 1) parallel_n
    then (dispatch_parallel, "kernel selected parallel; --parallel replication")
    else (dispatch_single, "parallel suggested but no agents; falling back to single")
dispatch_kind single plan agent_count parallel_n has_judge refine_active =
    (dispatch_single, "kernel selected single")
dispatch_kind unknown plan agent_count parallel_n has_judge refine_active =
    (dispatch_single, "no strategy from kernel; defaulting to single")

abbrev pub replicate {ℓ} : {A : Type ℓ} → ℕ → A → List A
replicate zero x = []
replicate (suc n) x = x ∷ replicate n x

abbrev pub or_plan : Option TaskDag → TaskDag → TaskDag
or_plan none plan = plan
or_plan (some forced) plan = forced

-- A plan is forced where the strategy is parallel and the kernel gave none.
unfoldable pub resolve_plan : ProcessResult → Option TaskDag → TaskDag
resolve_plan pr forced = elim pr.strategy [
  | parallel ↦ if length pr.plan == 0 then or_plan forced pr.plan else pr.plan
  | single ↦ pr.plan
  | refine ↦ pr.plan
  | unknown ↦ pr.plan
]

-- What is called: `Run` under one of two labels, `ParallelRun` or `DAGRun`, with the enriched prompt.
pub data Forwarded (Agent : Type 0) : Type 0 where
  to_run : DispatchKind → Option Agent → Bytes → Forwarded Agent
  to_parallel : List Agent → Bytes → Forwarded Agent
  to_dag : Option Agent → TaskDag → Bytes → Forwarded Agent

abbrev pub or_prompt : Bytes → Bytes → Bytes
or_prompt enriched prompt = if length enriched == 0 then prompt else enriched

pub data Executed (Agent : Type 0) : Type 0 where
  rejected : ExecuteError → Executed Agent
  forwarded : Forwarded Agent → String → Executed Agent

-- The routed model overrides the one that was asked for.
unfoldable pub apply_routed_model : String → String → String
apply_routed_model model routed = if str_eq routed "" then model else routed

module _ {Agent : Type 0} where
  abbrev pub has_agent : Option Agent → Bool
  has_agent none = false
  has_agent (some a) = true

  unfoldable pub validate_execute : ExecuteOptions Agent → Option ExecuteError
  unfolding ltz
  validate_execute o =
      if length o.prompt == 0
      then some empty_prompt
      else if str_eq o.cwd ""
      then some empty_cwd
      else if str_eq o.sandbox_image ""
      then some empty_sandbox_image
      else if if has_agent o.agent then false else length o.agents == 0
      then some no_agent
      else if ltz (pos 1) o.parallel_n && ltb 1 (length o.agents)
      then some parallel_and_agents
      else none

  abbrev pub first_of : List Agent → Option Agent
  first_of [] = none
  first_of (a ∷ agents) = some a

  -- The agent of a single run.
  unfoldable pub the_agent : ExecuteOptions Agent → Option Agent
  the_agent o = if has_agent o.agent then o.agent else first_of o.agents

  unfoldable pub agent_count : ExecuteOptions Agent → ℕ
  agent_count o =
      if length o.agents == 0 then if has_agent o.agent then 1 else 0 else length o.agents

  abbrev pub copies : ℤ → Option Agent → List Agent → List Agent
  copies (pos n) (some a) agents = replicate n a
  copies (negsuc n) (some a) agents = []
  copies n none agents = agents

  -- The agents of `ParallelRun`.
  unfoldable pub parallel_agents : ExecuteOptions Agent → List Agent
  unfolding ltz
  parallel_agents o =
      if leb (length o.agents) 1 && ltz (pos 1) o.parallel_n
      then copies o.parallel_n o.agent o.agents
      else o.agents

  unfoldable pub forward : ExecuteOptions Agent → DispatchKind → Bytes → TaskDag → Forwarded Agent
  unfolding the_agent parallel_agents
  forward o dispatch_single enriched plan = to_run dispatch_single (the_agent o) enriched
  forward o dispatch_refine enriched plan = to_run dispatch_refine (the_agent o) enriched
  forward o dispatch_parallel enriched plan = to_parallel (parallel_agents o) enriched
  forward o dispatch_dag enriched plan = to_dag (the_agent o) plan enriched

  -- `Execute`, up to the call of its destination; `none` is a nil kernel, and `forced` what `ForcePlan` gives.
  unfoldable pub dispatch :
      ExecuteOptions Agent → Option ProcessResult → Option TaskDag → Forwarded Agent × String
  unfolding forward dispatch_kind agent_count active resolve_plan the_agent
  dispatch o none forced = (to_run dispatch_single (the_agent o) o.prompt, "no kernel configured")
  dispatch o (some pr) forced =
      let plan = resolve_plan pr forced in
      let (kind, reason) =
        dispatch_kind pr.strategy plan (agent_count o) o.parallel_n o.has_judge
          (active o.refine_options) in
      (forward o kind (or_prompt pr.enriched_prompt o.prompt) plan, reason)

  unfoldable pub execute :
      ExecuteOptions Agent → Option ProcessResult → Option TaskDag → Executed Agent
  unfolding validate_execute dispatch
  execute o process forced = elim (validate_execute o) [
    | some e ↦ rejected e
    | none ↦ let (f, reason) = dispatch o process forced in forwarded f reason
  ]
