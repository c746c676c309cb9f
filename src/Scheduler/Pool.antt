-- ===== src/Scheduler/Pool.antt =====
-- internal/scheduler/pool.go: the scheduler. Each critical section under its mutex is one function on
-- the state; what it emits after it released the mutex is returned beside. The items of `queue` and
-- `runs` are the same objects in the source: the only field that is written after `Submit` is
-- `running`, and it is written to the item that has just left the queue.
pub mod Invariant
pub mod Work
pub mod Halt
pub mod Calls
pub mod Runs
pub mod Laws
pub mod Shutdown
use sandcode.Base.{
  ℕ, zero, suc, ◌+◌, ◌-◌, ◌≡◌, refl, ◌≢◌, String, List, [], ◌∷◌, ◌++◌, map, Option, none, some,
  Bool, true, false, leb, ltb, ◌==◌, length, if◌then◌else◌,
}
use mathlib.Core.List.{Memᴰ}
use sandcode.Base.Dict.{Dict, lookup, put, delete}
use sandcode.Scheduler.Queue.{Priority, Entry, push, pop, remove, position_of}

pub data SubmitError : Type 0 where
  stopped duplicate queue_full : SubmitError

-- The events; a position of `none` is -1.
pub data Emission : Type 0 where
  run_scheduled : String → Priority → Option ℕ → Emission
  run_dequeued : String → Emission
  run_cancelled : String → Emission

pub data RunState : Type 0 where
  queued running : RunState

pub record RunStatus : Type 0 where
  pub state : RunState
  pub priority : Priority
  pub position : Option ℕ
  pub enqueued : ℕ

-- `active` are the runs that a worker has taken and not yet deleted; `idle` and `exited` count the
-- workers that wait for work and that have returned.
pub record Sched : Type 0 where
  pub pool_size : ℕ
  pub queue_cap : ℕ
  pub queue : List Entry
  pub runs : Dict Entry
  pub seq : ℕ
  pub is_stopped : Bool
  pub active : List Entry
  pub idle : ℕ
  pub exited : ℕ

-- `New` and `Start`, which starts the workers.
unfoldable pub start : ℕ → ℕ → Sched
start pool_size queue_cap = record {
  pool_size = pool_size;
  queue_cap = queue_cap;
  queue = [];
  runs = [];
  seq = 0;
  is_stopped = false;
  active = [];
  idle = pool_size;
  exited = 0;
}

abbrev pub new_entry : ℕ → String → Priority → Sched → Entry
new_entry now id p s = record {
  run_id = id;
  priority = p;
  submit_seq = s.seq + 1;
  enqueued = now;
  running = false;
}

unfoldable pub admit : Entry → Sched → Sched
admit e s = record s { seq = s.seq + 1; runs = put e.run_id e s.runs; queue = push e s.queue }

abbrev known : Option Entry → Bool
known none = false
known (some e) = true

unfoldable pub submit : ℕ → String → Priority → Sched → Sched × Option SubmitError × List Emission
submit now id p s =
    if s.is_stopped
    then (s, some stopped, [])
    else if known (lookup id s.runs)
    then (s, some duplicate, [])
    else if leb s.queue_cap (length s.queue)
    then (s, some queue_full, [])
    else (let s' = admit (new_entry now id p s) s in
        (s', none, run_scheduled id p (position_of id s'.queue) ∷ []))

unfoldable pub withdraw : String → Sched → Sched
withdraw id s = record s { queue = remove id s.queue; runs = delete id s.runs }

unfoldable pub cancel : String → Sched → Sched × Bool × List Emission
cancel id s = elim (lookup id s.runs) [
  | none ↦ (s, false, [])
  | some e ↦ if e.running then (s, false, []) else (withdraw id s, true, run_cancelled id ∷ [])
]

unfoldable pub status : String → Sched → Option RunStatus
status id s = elim (lookup id s.runs) [
  | none ↦ none
  | some e ↦ some (record {
    state = if e.running then running else queued;
    priority = e.priority;
    position = if e.running then some 0 else position_of id s.queue;
    enqueued = e.enqueued;
  })
]

-- The loop of `Stop`, which makes a round for each item.
unfoldable pub drain : ℕ → List Entry → Dict Entry → List String → Dict Entry × List String
drain zero q runs cancelled = (runs, cancelled)
drain (suc rounds) q runs cancelled = elim (pop q) [
  | none ↦ (runs, cancelled)
  | some (m, rest) ↦ drain rounds rest (delete m.run_id runs) (cancelled ++ m.run_id ∷ [])
]

-- `Stop` up to the wait for the workers.
unfoldable pub stop : Sched → Sched × List Emission
stop s =
    if s.is_stopped
    then (s, [])
    else (let (runs, cancelled) = drain (length s.queue) s.queue s.runs [] in
        (record s { is_stopped = true; queue = []; runs = runs }, map run_cancelled cancelled))

-- `e.running = true`, seen through the map too.
abbrev pub mark_running : Entry → Entry
mark_running e = record e { running = true }

abbrev pub take : Entry → List Entry → Sched → Sched
take m rest s = record s {
  queue = rest;
  runs = put m.run_id (mark_running m) s.runs;
  active = mark_running m ∷ s.active;
  idle = s.idle - 1;
}

-- The first critical section of `worker`, for a worker that found the queue not empty.
unfoldable pub dequeue : Sched → Sched × List Emission
dequeue s = elim (pop s.queue) [
  | none ↦ (s, [])
  | some (m, rest) ↦ (take m rest s, run_dequeued m.run_id ∷ [])
]

-- The second one, after `runOne`, whether the launch returned or panicked.
unfoldable pub finish : String → Sched → Sched
finish id s = record s { runs = delete id s.runs; active = remove id s.active; idle = s.idle + 1 }

-- What can happen next, in any order: a call of the interface, or a move of one worker.
pub data Step : Sched → Sched → Type 0 where
  submitted : (now : ℕ) (id : String) (p : Priority) (s : Sched) → Step s (submit now id p s).0
  cancelled : (id : String) (s : Sched) → Step s (cancel id s).0
  halted : (s : Sched) → Step s (stop s).0
  dequeued : (s : Sched) → s.idle ≢ 0 → s.queue ≢ [] → Step s (dequeue s).0
  finished : (e : Entry) (s : Sched) → Memᴰ e s.active → Step s (finish e.run_id s)
  returned :
      (s : Sched)
      → s.idle ≢ 0
      → s.is_stopped ≡ true
      → s.queue ≡ []
      → Step s (record s { idle = s.idle - 1; exited = s.exited + 1 })

pub data Reach (s : Sched) : Sched → Type 0 where
  here : Reach s s
  next : {t u : Sched} → Reach s t → Step t u → Reach s u
