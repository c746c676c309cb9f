-- ===== src/Event.antt =====
-- internal/event/event.go: the event taxonomy and the immutable event record.
use sandcode.Base.{ℕ, String, List}

-- The constants of type `Type`; the wire strings are not modelled, only that they differ.
pub data EventType : Type 0 where
  run_submitted run_classified run_planned run_strategy_selected run_enriched run_scheduled :
      EventType
  run_dequeued run_completed run_failed run_cancelled agent_executing agent_tool_called : EventType
  agent_completed sandbox_created sandbox_destroyed verify_started verify_passed : EventType
  verify_failed refine_triggered lint_started lint_passed lint_failed classify_requested : EventType
  architect_requested step_back_requested plan_requested strategy_requested : EventType
  model_route_requested enrich_requested execute_requested verify_requested lint_requested :
      EventType
  dag_started dag_chain_started dag_node_started dag_node_completed dag_chain_completed : EventType
  dag_synthesis_started dag_synthesis_completed dag_completed report_generated : EventType
  review_generated run_architected run_stepped_back run_model_routed security_reviewed : EventType
  performance_reviewed refactoring_reviewed mcp_injected brain_lesson_extracted : EventType
  brain_lesson_recalled governance_approval_required governance_approved governance_denied :
      EventType
  budget_threshold_reached budget_exceeded : EventType
  -- a type string that is no constant of the package
  other : String → EventType

-- A moment is a number of nanoseconds, and 0 is Go's zero time. A payload is its bytes.
pub record Event : Type 0 where
  pub id : String
  pub run_id : String
  pub parent_run_id : String
  pub type : EventType
  pub payload : List ℕ
  pub timestamp : ℕ
  pub correlation_id : String
  pub causation_id : String
  pub trace_id : String

-- `uuid.New()` and `time.Now()` are the arguments `id` and `now`.
unfoldable pub new : String → ℕ → EventType → String → List ℕ → Event
new id now typ run payload = record {
  id = id;
  run_id = run;
  parent_run_id = "";
  type = typ;
  payload = payload;
  timestamp = now;
  correlation_id = "";
  causation_id = "";
  trace_id = "";
}

unfoldable pub with_correlation : String → Event → Event
with_correlation id e = record e { correlation_id = id }

unfoldable pub with_causation : String → Event → Event
with_causation id e = record e { causation_id = id }

unfoldable pub with_trace : String → Event → Event
with_trace id e = record e { trace_id = id }
