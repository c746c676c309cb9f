-- ===== src/Runtime/Transitions.antt =====
-- internal/runtime/transitions.go: the closed transition table, and the events that only observe.
use sandcode.Base.{Bool, true, false, Option, none, some}
use sandcode.Event.{
  EventType, agent_completed, agent_executing, agent_tool_called, architect_requested,
  brain_lesson_extracted, brain_lesson_recalled, budget_exceeded, budget_threshold_reached,
  classify_requested, dag_chain_completed, dag_chain_started, dag_completed, dag_node_completed,
  dag_node_started, dag_started, dag_synthesis_completed, dag_synthesis_started, enrich_requested,
  execute_requested, governance_approval_required, governance_approved, governance_denied,
  lint_failed, lint_passed, lint_requested, lint_started, performance_reviewed, plan_requested,
  refactoring_reviewed, refine_triggered, report_generated, review_generated, run_architected,
  run_cancelled, run_classified, run_completed, run_dequeued, run_enriched, run_failed, run_planned,
  run_scheduled, run_strategy_selected, run_submitted, sandbox_created, sandbox_destroyed,
  security_reviewed, strategy_requested, verify_failed, verify_passed, verify_requested,
  verify_started,
}
use sandcode.Runtime.Phase.{
  Phase, submitted, classified, planned, enriched, sandbox_ready, executing, agent_completed,
  verifying, refining, linting, awaiting_approval, completed, failed, cancelled,
}

-- `transitionTable` as a function: one clause for each entry, and `none` for a missing key.
unfoldable pub lookup_transition : Phase → EventType → Option Phase
lookup_transition submitted run_classified = some classified
lookup_transition classified run_planned = some planned
lookup_transition classified run_enriched = some enriched
lookup_transition planned run_enriched = some enriched
lookup_transition enriched sandbox_created = some sandbox_ready
lookup_transition sandbox_ready agent_executing = some executing
lookup_transition submitted sandbox_created = some sandbox_ready
lookup_transition executing agent_completed = some agent_completed
lookup_transition agent_completed verify_started = some verifying
lookup_transition verifying verify_passed = some agent_completed
lookup_transition verifying verify_failed = some refining
lookup_transition refining refine_triggered = some executing
lookup_transition agent_completed lint_started = some linting
lookup_transition linting lint_passed = some agent_completed
lookup_transition linting lint_failed = some refining
lookup_transition agent_completed run_completed = some completed
lookup_transition submitted governance_approval_required = some awaiting_approval
lookup_transition awaiting_approval governance_approved = some submitted
lookup_transition awaiting_approval run_failed = some failed
lookup_transition awaiting_approval run_cancelled = some cancelled
lookup_transition submitted run_cancelled = some cancelled
lookup_transition classified run_cancelled = some cancelled
lookup_transition planned run_cancelled = some cancelled
lookup_transition enriched run_cancelled = some cancelled
lookup_transition sandbox_ready run_cancelled = some cancelled
lookup_transition executing run_cancelled = some cancelled
lookup_transition agent_completed run_cancelled = some cancelled
lookup_transition verifying run_cancelled = some cancelled
lookup_transition linting run_cancelled = some cancelled
lookup_transition refining run_cancelled = some cancelled
lookup_transition submitted run_failed = some failed
lookup_transition classified run_failed = some failed
lookup_transition planned run_failed = some failed
lookup_transition enriched run_failed = some failed
lookup_transition sandbox_ready run_failed = some failed
lookup_transition executing run_failed = some failed
lookup_transition agent_completed run_failed = some failed
lookup_transition verifying run_failed = some failed
lookup_transition linting run_failed = some failed
lookup_transition refining run_failed = some failed
lookup_transition _ _ = none

unfoldable pub is_observation_only : EventType → Bool
is_observation_only run_submitted = true
is_observation_only sandbox_destroyed = true
is_observation_only agent_tool_called = true
is_observation_only brain_lesson_recalled = true
is_observation_only brain_lesson_extracted = true
is_observation_only governance_denied = true
is_observation_only budget_threshold_reached = true
is_observation_only budget_exceeded = true
is_observation_only run_scheduled = true
is_observation_only run_dequeued = true
is_observation_only run_strategy_selected = true
is_observation_only dag_started = true
is_observation_only dag_chain_started = true
is_observation_only dag_node_started = true
is_observation_only dag_node_completed = true
is_observation_only dag_chain_completed = true
is_observation_only dag_synthesis_started = true
is_observation_only dag_synthesis_completed = true
is_observation_only dag_completed = true
is_observation_only report_generated = true
is_observation_only review_generated = true
is_observation_only run_architected = true
is_observation_only security_reviewed = true
is_observation_only performance_reviewed = true
is_observation_only refactoring_reviewed = true
is_observation_only classify_requested = true
is_observation_only architect_requested = true
is_observation_only plan_requested = true
is_observation_only strategy_requested = true
is_observation_only enrich_requested = true
is_observation_only execute_requested = true
is_observation_only verify_requested = true
is_observation_only lint_requested = true
is_observation_only _ = false
