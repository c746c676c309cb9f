-- ===== src/Server/Tests.antt =====
-- Runs of the state cache at concrete events.
use sandcode.Base.{◌≡◌, refl, [], ◌∷◌, some, arith}
use sandcode.Base.Int.{pos}
use sandcode.Event.{Event, EventType}
use sandcode.Runtime.Phase.{Phase}
use sandcode.Runtime.StateMachine.{ExecutionState, Clock}
use sandcode.Runtime.StateMachine
use sandcode.Server.StateCache.{StateCache, apply, get}
use sandcode.Server.StateCache.Counts.{entries, places}
use sandcode.Server.StateCache.Invariant.{IsBounded}
use sandcode.Server.StateCache.Laws.{apply-IsBounded, state_before}

abbrev clock : Clock
clock = record { at_record = 900; at_terminal = 901 }

abbrev second_run : Event
second_run = record {
  id = "e";
  run_id = "r2";
  parent_run_id = "";
  type = EventType.run_submitted;
  payload = [];
  timestamp = 70;
  correlation_id = "";
  causation_id = "";
  trace_id = "";
}

abbrev first_state : ExecutionState
first_state = record {
  run_id = "r1";
  phase = Phase.executing;
  attempt = 1;
  max_attempts = 3;
  event_count = 4;
  created_at = 10;
  updated_at = 20;
  last_event_id = "d";
  last_error = [];
  duration = pos 0;
}

-- A cache that has room for one run, and holds one.
abbrev full_cache : StateCache
full_cache = record { states = ("r1", first_state) ∷ []; order = "r1" ∷ []; capacity = 1 }

full_cache-IsBounded : IsBounded full_cache
unfolding entries places
full_cache-IsBounded = record {
  listed = record { matches = λ id. refl; single = λ id. ground arith; sized = refl };
  fits = omega arith;
  roomy = omega arith;
}

apply-IsBounded_example :
    (after : StateCache) × (apply clock 60 second_run full_cache ≡ some after)
    × IsBounded after
    × (get "r2" after
        ≡ some
            (StateMachine.apply clock second_run
              (state_before 60 second_run (get "r2" full_cache))).0)
apply-IsBounded_example = apply-IsBounded clock 60 second_run full_cache full_cache-IsBounded
