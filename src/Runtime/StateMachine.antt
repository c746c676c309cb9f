-- ===== src/Runtime/StateMachine.antt =====
-- internal/runtime/statemachine.go: `ExecutionState` and its only mutator.
use sandcode.Base.{
  ℕ, ◌+◌, String, List, [], ◌++◌, Option, none, some, Bool, true, false, not, ◌&&◌, ◌==◌, leb,
  str_eq, length, codes, if◌then◌else◌,
}
use sandcode.Base.Int.{ℤ, pos, sub_time}
use sandcode.Base.Decimal.{itoa}
use sandcode.Event.{Event, EventType, refine_triggered}
use sandcode.Runtime.Phase.{Phase, submitted, failed, is_terminal}
use sandcode.Runtime.Transitions.{lookup_transition, is_observation_only}
use sandcode.Runtime.Scan.{extract_error_message}

pub data ApplyError : Type 0 where
  terminal mismatched_run_id invalid_transition : ApplyError

pub record ExecutionState : Type 0 where
  pub run_id : String
  pub phase : Phase
  pub attempt : ℕ
  pub max_attempts : ℕ
  pub event_count : ℕ
  pub created_at : ℕ
  pub updated_at : ℕ
  pub last_event_id : String
  pub last_error : List ℕ
  pub duration : ℤ

-- What `time.Now()` answers where a call of `Apply` asks it.
pub record Clock : Type 0 where
  pub at_record : ℕ
  pub at_terminal : ℕ

unfoldable pub new_execution_state : ℕ → String → ExecutionState
new_execution_state now run = record {
  run_id = run;
  phase = submitted;
  attempt = 1;
  max_attempts = 3;
  event_count = 0;
  created_at = now;
  updated_at = now;
  last_event_id = "";
  last_error = [];
  duration = pos 0;
}

unfoldable pub record_event : Clock → Event → ExecutionState → ExecutionState
record_event c ev s = record s {
  event_count = s.event_count + 1;
  last_event_id = ev.id;
  updated_at = if ev.timestamp == 0 then c.at_record else ev.timestamp;
}

unfoldable pub mark_terminal : Clock → ℕ → ExecutionState → ExecutionState
mark_terminal c event_at s =
    let end = (if event_at == 0 then c.at_terminal else event_at) in
    if s.created_at == 0 then s else record s { duration = sub_time end s.created_at }

-- The text that `fmt.Sprintf` makes when the refine cap stops a run.
abbrev pub cap_message : ℕ → ℕ → List ℕ
cap_message attempt max =
    codes "refine cap exceeded: attempt=" ++ (itoa attempt ++ (codes " max=" ++ itoa max))

unfoldable pub is_refine : EventType → Bool
is_refine refine_triggered = true
is_refine _ = false

unfoldable pub is_failed : Phase → Bool
is_failed failed = true
is_failed _ = false

-- `s.Phase = PhaseFailed` and what follows in the branch of the refine cap.
unfoldable pub cap_exceeded : Clock → Event → ExecutionState → ExecutionState
cap_exceeded c ev s = record_event c ev (
    mark_terminal c ev.timestamp
      (record s { phase = failed; last_error = cap_message s.attempt s.max_attempts }))

-- The error text of a `run.failed` event, where it carries one.
unfoldable pub capture_error : Phase → Event → ExecutionState → ExecutionState
capture_error next ev s =
    let msg = extract_error_message ev.payload in
    if is_failed next && not (length msg == 0) then record s { last_error = msg } else s

-- From `s.Phase = next` to the end of `Apply`.
unfoldable pub enter : Clock → Phase → Event → ExecutionState → ExecutionState
enter c next ev s =
    let s' = capture_error next ev (record_event c ev (record s { phase = next })) in
    if is_terminal next then mark_terminal c ev.timestamp s' else s'

-- `Apply` behind the table lookup.
unfoldable pub follow :
    Clock → Event → ExecutionState → Option Phase → ExecutionState × Option ApplyError
follow c ev s none = (s, some invalid_transition)
follow c ev s (some next) =
    if is_refine ev.type
    then if leb s.max_attempts s.attempt
      then (cap_exceeded c ev s, none)
      else (enter c next ev (record s { attempt = s.attempt + 1 }), none)
    else (enter c next ev s, none)

unfoldable pub mismatched : String → String → Bool
mismatched event_run state_run =
    not (str_eq event_run "") && (not (str_eq state_run "") && not (str_eq event_run state_run))

-- The new state, and the error if the event is refused.
unfoldable pub apply : Clock → Event → ExecutionState → ExecutionState × Option ApplyError
apply c ev s =
    if is_terminal s.phase
    then (s, some terminal)
    else if mismatched ev.run_id s.run_id
    then (s, some mismatched_run_id)
    else if is_observation_only ev.type
    then (record_event c ev s, none)
    else follow c ev s (lookup_transition s.phase ev.type)
