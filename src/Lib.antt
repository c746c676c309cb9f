-- ===== src/Lib.antt =====
-- sandcode runs coding agents in sandboxes. This library models the parts of it that decide: which state
-- a run is in, whether an action is allowed, who a caller is, and which run is started next.
--
-- The parts and their files:
--   * Event: internal/event/event.go. An event is the record that all parts exchange. Its type is a data
--     type with a constructor for each constant, and `other` for any other text; a moment is a number of
--     nanoseconds, 0 being Go's zero time; a payload is a list of bytes.
--   * Bus: internal/event/local.go, the in-process bus, whose handlers are of any type. `Log` compares it
--     with a plain list of subscriptions; `Delivery` is a client that keeps what `Subscribe` gave it.
--   * Runtime: internal/runtime. `ExecutionState` is a record; `Transitions` is the closed table and the
--     list of events that only observe; `StateMachine` is `Apply`, a function from the state and an event
--     to the new state and an error; `Replay` is the loop over a log; `Scan` is `indexOf` and the search
--     for an error text. The clock is read in two places of `Apply`, and what it answers is an argument.
--     `Step` has one rule for each way out of `Apply`, and the other modules are about what holds of one
--     step and of a log: Table, Invariant, History, Progress, Gate.
--   * Governance: internal/governance and its builtin. A policy is a name and a function of an action;
--     `Engine` asks the policies in order and records what they answer; `Builtin` has the four policies
--     that come with the program; `Audit` writes the rows of a decision
--     to a log, and `Table` is that log over a database that is a parameter.
--   * Rbac: internal/rbac, and the two closures of cmd/sandcode/serve.go which hand it to the governance
--     policy on tools and to the filter on the tools of an agent. `Config` is `LoadConfig` behind the JSON
--     decoder, `Keyring` looks a bearer token up, `Grants` joins the grants of a principal's roles.
--   * Scheduler: internal/scheduler. `Queue` is the order of the waiting runs, `Pool` the scheduler. Each
--     critical section under the mutex is one function on the state, and a step is one of these, in any
--     order: the calls of the interface, a worker that takes a run, one that is done, one that returns.
--   * Server: internal/server/state_cache.go, the cache of the states of the runs that were seen last, which
--     is a client of `Apply`. `StateCache` is the cache and its eviction, with a panic as a value.
--   * Budget: internal/budget/guard.go, what each run has consumed. Counters are kept modulo 2^64; amounts
--     of money are of any type that has a zero, a sum and a test for negative.
--   * Metrics: internal/metrics/starts.go, the start times of the runs in flight.
--   * Planner: internal/planner, the task graph. `Validate` is its validation and the planner without a model,
--     `Cycle` the depth-first search for a cycle, `Topo` the topological sort. `Deps` relates the maps that
--     both fill to what a node of the graph depends on.
--   * Orchestrator: internal/orchestrator, the run of a task graph. `Options` is `validateDAG`, `Chains` is
--     `decomposeChains`, `Refine` the options of the refine loop, `Node` the attempts of one node, `Chain`
--     the nodes of one chain, `Coordinator` what is done when all chains have ended. The sandbox, the agent
--     and git are functions on a state of the worktree that the definitions take as arguments.
--   * Orchestrator.Run: internal/orchestrator/run.go and verifier.go, the run of one agent. `Gate` is
--     `evaluatePolicy` and `refineOrExhaust`, `Steps` the agent, verify and lint steps, `Loop` the attempt loop
--     and the reactive cycle, `Start` what is set up before, `Finish` the finalization and `Run` itself. The
--     variables that the closures of `Run` share are a record, `Cycle`; what they call is a function on a world;
--     what they publish is a list. `Log` is the log that the bus sees, `Phases` how the state machine reads it.
--   * Orchestrator.Execute: internal/orchestrator/execute.go, the choice of what a request is run by, with the
--     rules of internal/strategy and internal/costopt in `Orchestrator.Strategy`.
--   * Memory: internal/memory, the recall from several tiers and the two helpers of the enricher of prompts.
--   * Approval: internal/approval, where a run waits for a decision. Each critical section, send and receive
--     is one step, and the steps of all calls come in any order.
--   * Reactor: internal/reactor/reactor.go, the loop that hands events to handlers and queues what they produce;
--     `Stateful` is the same loop with handlers that share variables.
--   * Base: helpers on numbers, lists, bytes, association lists and decimal text.
--
-- How they interact: the bus hands events to their subscribers; a log of events is replayed by Runtime; the
-- policy on tools that Governance asks is made from Rbac (Governance.Builtin.Permission joins the two); Scheduler
-- starts the runs whose events Runtime reads; Orchestrator runs the graphs that Planner accepts; the cache of
-- Server holds a state of Runtime for each run whose events it sees. A run asks Governance before it starts and
-- before each further attempt, writes what was decided to the audit log, counts its attempts in Budget, and
-- publishes events that Runtime projects; its reactive form is a client of Reactor.
--
-- Bounds and fuel: counters are natural numbers, as no run comes near 2^63 events, attempts or calls; a
-- duration is cut at int64 as Go cuts it. `indexOf` has as many rounds as there are places where the text
-- fits; `positionOf` and the loop of `Stop` have a round for each item of the queue, and each round takes
-- one item; a decimal number has fewer digits than its fuel. The search for a cycle and the walk of a chain go
-- down at most once for each node, the sort has a round for each node, and a node has as many attempts as its
-- cap, or one. The attempt loop of a run has a round more than its options allow attempts, and the reactive cycle
-- three commands for each of these rounds. The loop of the reactor ends only if its handlers come to an end. An
-- exit code and a cap are integers with a sign.
--
-- Not modelled: the wire texts of types, the texts that wrap an error, floating-point amounts of money
-- (in Governance they are integers of some unit), the launch of a run, the deadline of `Stop`, the signals that
-- wake an idle worker, the file and
-- the JSON decoder of the configuration, and the parts of the program that call models, databases, containers,
-- processes and the network. Of container/heap the queue relies on `Pop` taking the item which `Less`
-- puts before the others. Of the run of a graph the following are left out: the prompt that hands the work of a
-- node to the next one and the synthesizer itself, the run of a graph of one node, the deferred clean-up
-- of sandboxes and worktrees, spans, times and costs. Of a single run these are left out: the
-- stream of an agent's output, the JSON of the payloads, times, deadlines as such (whether one has passed is an
-- answer of the world), the choice of a default strategy, work directory and run id, and the events of the kernel.
-- Of `Execute`, the copy of the options to its destination. The parallel run (parallel.go) is not modelled, nor
-- the text of an enriched prompt, the rate limit and the compliance report.
pub mod Base
pub mod Event
pub mod Bus
pub mod Runtime
pub mod Governance
pub mod Rbac
pub mod Scheduler
pub mod Server
pub mod Metrics
pub mod Budget
pub mod Planner
pub mod Orchestrator
pub mod Approval
pub mod Reactor
pub mod Memory
