-- ===== src/Orchestrator/Execute/Fits.antt =====
-- internal/orchestrator/execute.go: which requests are dispatched, and what each destination is given.
use sandcode.Base.{
  ℕ, zero, suc, ◌<◌, ◌≡◌, refl, sym, subst, ◌⊎◌, inl, inr, String, List, [], ◌∷◌, Option, none,
  some, Bool, true, false, ◌&&◌, ◌||◌, ◌==◌, ltb, leb, length, arith, Bool-cases, Option-cases,
  if◌then◌else◌,
}
use sandcode.Base.Bytes.{Bytes}
use sandcode.Base.Int.{ℤ, pos, negsuc, ltz}
use sandcode.Orchestrator.Execute.{
  DispatchKind, ExecuteError, dispatch_single, dispatch_refine, dispatch_parallel, dispatch_dag,
  ExecuteOptions, ProcessResult, dispatch_kind, validate_execute, Forwarded, to_run, to_parallel,
  to_dag, has_agent, first_of, the_agent, agent_count, copies, parallel_agents, forward, dispatch,
  rejected, forwarded, execute, or_prompt, replicate, resolve_plan,
}
use sandcode.Orchestrator.Execute.Faults.{IsFault, validate_execute-IsFault, validate_execute-clear}
use sandcode.Orchestrator.Refine.{active}
use sandcode.Orchestrator.Strategy.{
  Strategy, single, refine, parallel, unknown, Classification, select, is_high,
}
use sandcode.Planner.{TaskDag}
use sandcode.Planner.Topo.{roots}

kind_dag :
    (s : Strategy) (plan : TaskDag) (n : ℕ) (k : ℤ) (judge act : Bool)
    → (dispatch_kind s plan n k judge act).0 ≡ dispatch_dag
    → (1 < length (roots plan)) × (judge ≡ true)
unfolding dispatch_kind
kind_dag single plan n k judge act h = absurd (ground (arith, h))
kind_dag refine plan n k judge act h = absurd (ground (arith, h))
kind_dag unknown plan n k judge act h = absurd (ground (arith, h))
kind_dag parallel plan n k judge act h = ground (arith, h)

kind_refine :
    (s : Strategy) (plan : TaskDag) (n : ℕ) (k : ℤ) (judge act : Bool)
    → (dispatch_kind s plan n k judge act).0 ≡ dispatch_refine
    → act ≡ true
unfolding dispatch_kind
kind_refine single plan n k judge act h = absurd (ground (arith, h))
kind_refine refine plan n k judge act h = ground (arith, h)
kind_refine unknown plan n k judge act h = absurd (ground (arith, h))
kind_refine parallel plan n k judge act h = absurd (ground (arith, h))

kind_parallel :
    (s : Strategy) (plan : TaskDag) (n : ℕ) (k : ℤ) (judge act : Bool)
    → (dispatch_kind s plan n k judge act).0 ≡ dispatch_parallel
    → (ltb 1 n || ltz (pos 1) k) ≡ true
unfolding dispatch_kind
kind_parallel single plan n k judge act h = absurd (ground (arith, h))
kind_parallel refine plan n k judge act h = absurd (ground (arith, h))
kind_parallel unknown plan n k judge act h = absurd (ground (arith, h))
kind_parallel parallel plan n k judge act h = ground (arith, h)

module _ {Agent : Type 0} where
  -- What `Execute` makes sure of for each destination.
  pub data Fits (o : ExecuteOptions Agent) : Forwarded Agent → Type 0 where
    single_run : {a : Agent} {p : Bytes} → Fits o (to_run dispatch_single (some a) p)
    refine_run :
        {a : Agent} {p : Bytes}
        → active o.refine_options ≡ true
        → Fits o (to_run dispatch_refine (some a) p)
    fan_out : {a : Agent} {rest : List Agent} {p : Bytes} → Fits o (to_parallel (a ∷ rest) p)
    graph :
        {a : Agent} {plan : TaskDag} {p : Bytes}
        → 1 < length (roots plan)
        → o.has_judge ≡ true
        → Fits o (to_dag (some a) plan p)

  -- The two tests of `validateExecute` that the agents pass.
  tests_passed :
      (o : ExecuteOptions Agent)
      → validate_execute o ≡ none
      → (if has_agent o.agent then false else length o.agents == 0) ≡ false
  unfolding validate_execute
  tests_passed o h = elim (Bool-cases (if has_agent o.agent then false else length o.agents == 0)) [
    | inl y ↦ absurd (ground (arith, h, y))
    | inr n ↦ n
  ]

  some_agent :
      (x : Option Agent) (xs : List Agent)
      → (if has_agent x then false else length xs == 0) ≡ false
      → (a : Agent) × ((if has_agent x then x else first_of xs) ≡ some a)
  some_agent (some a) xs h = (a, refl)
  some_agent none [] h = absurd cc
  some_agent none (a ∷ xs) h = (a, refl)

  some-copies :
      (k : ℤ) (a : Agent) (xs : List Agent)
      → ltz (pos 1) k ≡ true
      → (b : Agent) × (rest : List Agent) × (copies k (some a) xs ≡ b ∷ rest)
  unfolding ltz
  some-copies (pos zero) a xs h = absurd cc
  some-copies (pos (suc n)) a xs h = (a, replicate n a, refl)
  some-copies (negsuc n) a xs h = absurd cc

  copies-none : (k : ℤ) (xs : List Agent) → copies k none xs ≡ xs
  copies-none (pos n) xs = refl
  copies-none (negsuc n) xs = refl

  some_agents :
      (x : Option Agent) (xs : List Agent) (k : ℤ)
      → (if has_agent x then false else length xs == 0) ≡ false
      → (ltb 1 (if length xs == 0 then (if has_agent x then 1 else 0) else length xs)
          || ltz (pos 1) k)
        ≡ true
      → (b : Agent) × (rest : List Agent) × ((if leb (length xs) 1 && ltz (pos 1) k
            then copies k x xs
            else xs)
          ≡ b ∷ rest)
  some_agents none [] k h g = absurd cc
  some_agents (some a) [] k h g = rw g (some-copies k a [] g)
  some_agents x (b ∷ xs) k h g = elim (Bool-cases (leb (length (b ∷ xs)) 1 && ltz (pos 1) k)) [
    | inl y ↦ rw y (many x (ground (arith, y)))
    | inr n ↦ rw n (b, xs, refl)
  ]
    where
      many :
          (z : Option Agent)
          → ltz (pos 1) k ≡ true
          → (c : Agent) × (rest : List Agent) × (copies k z (b ∷ xs) ≡ c ∷ rest)
      many none e = (b, xs, copies-none k (b ∷ xs))
      many (some a) e = some-copies k a (b ∷ xs) e

  dispatch-Fits :
      (o : ExecuteOptions Agent) (process : Option ProcessResult) (forced : Option TaskDag)
      → validate_execute o ≡ none
      → Fits o (dispatch o process forced).0
  unfolding dispatch the_agent agent_count parallel_agents
  dispatch-Fits o none forced h =
      let (a, e) = some_agent o.agent o.agents (tests_passed o h) in rw e single_run
  dispatch-Fits o (some pr) forced h =
      go (dispatch_kind pr.strategy plan (agent_count o) o.parallel_n o.has_judge act).0
        (λ e. kind_dag pr.strategy plan (agent_count o) o.parallel_n o.has_judge act e)
        (λ e. kind_refine pr.strategy plan (agent_count o) o.parallel_n o.has_judge act e)
        (λ e. kind_parallel pr.strategy plan (agent_count o) o.parallel_n o.has_judge act e)
    where
      plan : TaskDag
      plan = resolve_plan pr forced

      act : Bool
      act = active o.refine_options

      text : Bytes
      text = or_prompt pr.enriched_prompt o.prompt

      go :
          (kind : DispatchKind)
          → (kind ≡ dispatch_dag → (1 < length (roots plan)) × (o.has_judge ≡ true))
          → (kind ≡ dispatch_refine → active o.refine_options ≡ true)
          → (kind ≡ dispatch_parallel → (ltb 1 (agent_count o) || ltz (pos 1) o.parallel_n) ≡ true)
          → Fits o (forward o kind (or_prompt pr.enriched_prompt o.prompt) plan)
      go dispatch_single d r p =
          let (a, e) = some_agent o.agent o.agents (tests_passed o h) in
          subst (λ x. Fits o (to_run dispatch_single x text)) (sym e) single_run
      go dispatch_refine d r p =
          let (a, e) = some_agent o.agent o.agents (tests_passed o h) in
          subst (λ x. Fits o (to_run dispatch_refine x text)) (sym e) (refine_run (r refl))
      go dispatch_parallel d r p =
          let (a, rest, e) =
            some_agents o.agent o.agents o.parallel_n (tests_passed o h) (p refl) in
          subst (λ xs. Fits o (to_parallel xs text)) (sym e) fan_out
      go dispatch_dag d r p =
          let (a, e) = some_agent o.agent o.agents (tests_passed o h) in
          subst (λ x. Fits o (to_dag x plan text)) (sym e) (graph (d refl).0 (d refl).1)

-- `Execute` rejects a request exactly where something is wrong with it: its prompt, its directory or its image is
-- empty, it has no agent, or it has several and asks for copies of one; the error names one of these faults. It
-- forwards every other: to a single run with an agent, labelled `refine` only with the refine loop on; to a fan-out
-- over one agent at least; or, with a judge and a plan of several roots, to the run of that graph with an agent,
-- which makes tests of its own on the plan.
pub execute-Fits :
    {Agent : Type 0} (o : ExecuteOptions Agent) (process : Option ProcessResult)
    (forced : Option TaskDag)
    → ((e : ExecuteError) × (execute o process forced ≡ rejected e) × IsFault o e)
      ⊎ ((f : Forwarded Agent) × (reason : String) × (execute o process forced ≡ forwarded f reason)
          × ((e : ExecuteError) → ¬ IsFault o e)
          × Fits o f)
unfolding execute dispatch
execute-Fits o process forced = elim (Option-cases (validate_execute o)) [
  | inl e ↦ inr (
    (dispatch o process forced).0,
    (dispatch o process forced).1,
    rw (e, execute) refl,
    (λ x. validate_execute-clear o x e),
    dispatch-Fits o process forced e,
  )
  | inr (x, e) ↦ inl (x, rw (e, execute) refl, validate_execute-IsFault o x e)
]

-- What the rules of the selector choose for a plan is what is dispatched, where there is a judge: a graph run for
-- several roots; else the refine loop for a task of high complexity, if it is on; else a single run. Neither the
-- number of agents nor the replication matters.
pub select-dispatch_kind :
    (c : Classification) (plan : TaskDag) (agents : ℕ) (copies : ℤ) (refine_active : Bool)
    → (dispatch_kind (select c plan).0 plan agents copies true refine_active).0 ≡ (
        if ltb 1 (length (roots plan))
        then dispatch_dag
        else if is_high c.complexity && refine_active
        then dispatch_refine
        else dispatch_single)
unfolding dispatch_kind select
select-dispatch_kind c plan agents copies refine_active = ground arith
