-- ===== src/Scheduler/Tests.antt =====
-- Runs of the scheduler at concrete calls.
use mathlib.Core.List.{Memᴰ}
use sandcode.Base.{
  ℕ, suc, ◌≡◌, refl, ◌≢◌, ◌⊎◌, List, [], ◌∷◌, none, some, true, false, ltb, if◌then◌else◌, arith,
}
use sandcode.Base.Dict.{lookup, put, delete}
use sandcode.Scheduler.Queue.{normal, high, Entry, rank, less, push, select, pop, position_of}
use sandcode.Scheduler.Queue.Order.{precedes}
use sandcode.Scheduler.Queue.Position.{ahead}
use sandcode.Scheduler.Queue.Members.{occurrences}
use sandcode.Scheduler.Pool.{
  Sched, queued, run_dequeued, start, new_entry, admit, submit, cancel, status, drain, stop, take,
  mark_running, dequeue, finish, submitted, halted, dequeued, finished, Reach, here, next,
}
use sandcode.Scheduler.Pool.Invariant.{Inv}
use sandcode.Scheduler.Pool.Runs.{Reach-Inv}
use sandcode.Scheduler.Pool.Laws.{submit-status, dequeue-first, cancel-exact}
use sandcode.Scheduler.Pool.Shutdown.{remaining, Stopped-Step, stop-status}

-- Two runs wait for one worker.
abbrev one_waits : Sched
one_waits = (submit 100 "a" normal (start 1 8)).0

abbrev two_wait : Sched
two_wait = (submit 200 "b" high one_waits).0

-- The worker has taken one of them.
abbrev one_works : Sched
one_works = (dequeue two_wait).0

abbrev stopping : Sched
stopping = (stop one_works).0

two_wait-Reach : Reach (start 1 8) two_wait
two_wait-Reach =
    next (next here (submitted 100 "a" normal (start 1 8))) (submitted 200 "b" high one_waits)

one_ne_zero : ◌≢◌ {A = ℕ} 1 0
one_ne_zero e = absurd (omega (arith, e))

one_works-Reach : Reach (start 1 8) one_works
unfolding start submit admit push lookup put position_of
one_works-Reach = next two_wait-Reach (dequeued two_wait one_ne_zero (λ e. cc))

stopping-Reach : Reach (start 1 8) stopping
stopping-Reach = next one_works-Reach (halted one_works)

Reach-Inv_example : Inv stopping
Reach-Inv_example = Reach-Inv 1 8 stopping stopping-Reach

two_wait-Inv : Inv two_wait
two_wait-Inv = Reach-Inv 1 8 two_wait two_wait-Reach

stopping-Inv : Inv stopping
stopping-Inv = Reach-Inv 1 8 stopping stopping-Reach

abbrev first_entry : Entry
first_entry = record {
  run_id = "a";
  priority = normal;
  submit_seq = 1;
  enqueued = 100;
  running = false;
}

submit-status_example :
    let r = submit 300 "a" high two_wait in
    (r.1 ≡ none)
      × (status "a" r.0
          ≡ some (record {
            state = queued;
            priority = high;
            position = some (ahead (new_entry 300 "a" high two_wait) r.0.queue);
            enqueued = 300;
          }))
    ⊎ (r.1 ≢ none) × (r.0 ≡ two_wait) × (r.2 ≡ [])
submit-status_example = submit-status 300 "a" high two_wait two_wait-Inv

dequeue-first_example :
    (m : Entry) × (rest : List Entry) × (dequeue two_wait
      ≡ (take m rest two_wait, run_dequeued m.run_id ∷ []))
    × ((first_entry ≡ m) ⊎ (Memᴰ first_entry rest × (precedes m first_entry ≡ true)))
unfolding start submit admit push lookup put
dequeue-first_example = dequeue-first two_wait first_entry two_wait-Inv (Memᴰ.head refl)

stop-status_example :
    status "a" (stop two_wait).0
    ≡ (if ltb 0 (occurrences "a" two_wait.queue) then none else status "a" two_wait)
unfolding start submit admit push lookup put
stop-status_example = stop-status two_wait "a" two_wait-Inv refl

abbrev worker_done : Sched
worker_done = finish "b" stopping

Stopped-Step_example :
    (worker_done.is_stopped ≡ true)
    × ((worker_done ≡ stopping) ⊎ (suc (remaining worker_done) ≡ remaining stopping))
unfolding start submit admit push lookup dequeue pop select less rank put delete stop drain
Stopped-Step_example = Stopped-Step stopping worker_done stopping-Inv refl (
    finished
      (mark_running
        (record { run_id = "b"; priority = high; submit_seq = 2; enqueued = 200; running = false }))
      stopping (Memᴰ.head refl))

cancel-exact_example :
    let r = cancel "a" two_wait in
    (r.1 ≡ ltb 0 (occurrences "a" two_wait.queue))
    × ((r.1 ≡ true) × (status "a" r.0 ≡ none) ⊎ (r.1 ≡ false) × (r.0 ≡ two_wait))
cancel-exact_example = cancel-exact "a" two_wait two_wait-Inv
