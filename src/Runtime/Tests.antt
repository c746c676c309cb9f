-- ===== src/Runtime/Tests.antt =====
-- Runs at concrete inputs of the execution state machine.
use mathlib.Core.List.{Memᴰ}
use sandcode.Base.{ℕ, ◌+◌, ◌≡◌, refl, ◌≢◌, inr, List, [], ◌∷◌, none, codes, arith}
use sandcode.Base.Int.{pos}
use sandcode.Event.{Event, EventType}
use sandcode.Runtime.Phase.{Phase, is_terminal}
use sandcode.Runtime.Transitions.{lookup_transition, is_observation_only}
use sandcode.Runtime.Scan.{index_of, extract_error_message}
use sandcode.Runtime.Scan.Laws.{extract_error_message-first}
use sandcode.Runtime.StateMachine.{
  ExecutionState, Clock, mismatched, apply, follow, enter, record_event, mark_terminal,
  capture_error, is_refine, is_failed,
}
use sandcode.Runtime.Replay.{replay_from}
use sandcode.Runtime.Invariant.{IsValid}
use sandcode.Runtime.History.{replay_from-IsValid, replay_from-attempt, refines}
use sandcode.Runtime.Progress.{completed_needs_agent, types}
use sandcode.Runtime.Gate.{stop_accepted, refine_gate, Gated}

abbrev clock : Clock
clock = record { at_record = 900; at_terminal = 901 }

abbrev ticks : ℕ → Clock
ticks i = clock

abbrev ev : ℕ → EventType → Event
ev at typ = record {
  id = "e";
  run_id = "r1";
  parent_run_id = "";
  type = typ;
  payload = [];
  timestamp = at;
  correlation_id = "";
  causation_id = "";
  trace_id = "";
}

abbrev state : Phase → ℕ → ExecutionState
state phase attempt = record {
  run_id = "r1";
  phase = phase;
  attempt = attempt;
  max_attempts = 3;
  event_count = 4;
  created_at = 10;
  updated_at = 20;
  last_event_id = "d";
  last_error = [];
  duration = pos 0;
}

state-IsValid :
    (phase : Phase) → phase ≢ Phase.reporting → phase ≢ Phase.learning → IsValid (state phase 2)
state-IsValid phase r l = record {
  one_attempt = omega arith;
  capped = omega arith;
  not_reporting = r;
  not_learning = l;
}

executing-IsValid : IsValid (state Phase.executing 2)
executing-IsValid = state-IsValid Phase.executing (λ e. cc) (λ e. cc)

-- The third refine of a run whose cap is three.
refine_gate_example :
    ((apply clock (ev 30 EventType.refine_triggered) (state Phase.refining 3)).1 ≡ none)
    × Gated clock
        (ev 30 EventType.refine_triggered)
        (state Phase.refining 3)
        (apply clock (ev 30 EventType.refine_triggered) (state Phase.refining 3)).0
unfolding mismatched
refine_gate_example =
    refine_gate clock (ev 30 EventType.refine_triggered) (state Phase.refining 3) refl refl refl

stop_accepted_example :
    ((apply clock (ev 30 EventType.run_cancelled) (state Phase.executing 2)).1 ≡ none)
    × ((apply clock (ev 30 EventType.run_cancelled) (state Phase.executing 2)).0.phase
        ≡ Phase.cancelled)
unfolding is_terminal mismatched
stop_accepted_example =
    stop_accepted clock (ev 30 EventType.run_cancelled) (state Phase.executing 2) Phase.cancelled
      executing-IsValid refl refl (inr (refl, refl))

-- A log of two events, and the one that comes after it.
abbrev log : List Event
log = ev 30 EventType.agent_tool_called ∷ ev 40 EventType.agent_completed ∷ []

abbrev after : ExecutionState
after = (replay_from ticks log 0 (state Phase.executing 2)).0

log_is_read : replay_from ticks log 0 (state Phase.executing 2) ≡ (after, none)
unfolding replay_from apply follow lookup_transition is_observation_only is_terminal mismatched
    is_refine record_event
log_is_read = refl

replay_from-IsValid_example : IsValid (replay_from ticks log 0 (state Phase.executing 2)).0
replay_from-IsValid_example =
    replay_from-IsValid ticks log 0 (state Phase.executing 2) executing-IsValid

abbrev refined_log : List Event
refined_log = ev 30 EventType.refine_triggered ∷ ev 40 EventType.agent_completed ∷ []

abbrev refined_state : ExecutionState
refined_state = (replay_from ticks refined_log 0 (state Phase.refining 1)).0

replay_from-attempt_example : refined_state.attempt ≡ 1 + refines refined_log
unfolding replay_from apply follow lookup_transition is_observation_only is_terminal mismatched
    is_refine enter capture_error is_failed record_event
replay_from-attempt_example =
    replay_from-attempt ticks refined_log 0 (state Phase.refining 1) refined_state refl refl

abbrev whole_log : List Event
whole_log =
    ev 30 EventType.sandbox_created
    ∷ ev 40 EventType.agent_executing
    ∷ ev 50 EventType.agent_completed
    ∷ ev 60 EventType.run_completed
    ∷ []

completed_needs_agent_example : Memᴰ EventType.agent_completed (types whole_log)
unfolding replay_from apply follow lookup_transition is_observation_only is_terminal mismatched
    is_refine enter capture_error is_failed record_event mark_terminal
completed_needs_agent_example =
    completed_needs_agent ticks whole_log 0 (state Phase.submitted 1) refl refl

extract_error_message-first_example :
    extract_error_message (codes "{\"error\":\"boom\",\"x\":1}") ≡ codes "boom"
unfolding index_of
extract_error_message-first_example =
    extract_error_message-first (codes "{\"error\":\"boom\",\"x\":1}") (codes "boom")
      (codes ",\"x\":1}") 1 refl refl (omega arith, (omega arith, (omega arith, (omega arith, tt))))
