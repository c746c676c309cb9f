-- ===== src/Scheduler/Pool/Shutdown.antt =====
-- What `Stop` does to the runs, and that the workers of a stopped scheduler return.
use sandcode.Base.{
  ℕ, suc, ◌+◌, ◌≡◌, refl, sym, ap, ◌∙◌, ◌⊎◌, inl, inr, String, List, [], Option, none, Bool, true,
  false, ltb, arith, length, if◌then◌else◌, Bool-cases, Option-cases,
}
use sandcode.Base.Dict.{lookup}
use sandcode.Scheduler.Queue.Members.{nothing_in, remove-one, occurrences, occurrences-mem}
use sandcode.Scheduler.Pool.{
  Sched, finish, stop, status, Step, submitted, cancelled, halted, dequeued, finished, returned,
  SubmitError, Emission,
}
use sandcode.Scheduler.Pool.Invariant.{Inv}
use sandcode.Scheduler.Pool.Calls.{
  Submission, submit-Submission, refused_stopped, refused_duplicate, refused_full, accepted,
  Cancellation, cancel-Cancellation, unknown, at_work, withdrawn,
}
use sandcode.Scheduler.Pool.Halt.{drained_by, stop_first, stop_again, drain-lookup}
use sandcode.Scheduler.Pool.Laws.{status-none, status-running, executing-absent}

-- What is left of the work when the scheduler has stopped: a run that executes has still to end and its
-- worker to return.
pub remaining : Sched → ℕ
remaining s = length s.active + length s.active + s.idle

-- From a stopped scheduler every step leads to a stopped scheduler, and it either changes nothing or
-- leaves exactly one move of a worker less to do.
pub Stopped-Step :
    (s t : Sched)
    → Inv s
    → s.is_stopped ≡ true
    → Step s t
    → (t.is_stopped ≡ true) × ((t ≡ s) ⊎ (suc (remaining t) ≡ remaining s))
Stopped-Step s t h e (submitted now id p _) = go (submit-Submission now id p s)
  where
    go :
        {r : Sched × Option SubmitError × List Emission}
        → Submission now id p s r
        → (r.0.is_stopped ≡ true) × ((r.0 ≡ s) ⊎ (suc (remaining r.0) ≡ remaining s))
    go (refused_stopped _) = (e, inl refl)
    go (refused_duplicate _ _) = (e, inl refl)
    go (refused_full _ _ _) = (e, inl refl)
    go (accepted e' _ _) = absurd (ground (arith, e, e'))
Stopped-Step s t h e (cancelled id _) = go (cancel-Cancellation id s)
  where
    go :
        {r : Sched × Bool × List Emission}
        → Cancellation id s r
        → (r.0.is_stopped ≡ true) × ((r.0 ≡ s) ⊎ (suc (remaining r.0) ≡ remaining s))
    go (unknown _) = (e, inl refl)
    go (at_work _ _ _) = (e, inl refl)
    go (withdrawn x f g) = nothing_in (h.halt e) (h.waiting id x f g)
Stopped-Step s t h e (halted _) =
    (ap (λ (x : Sched). x.is_stopped) (stop_again s h e) ∙ e, inl (stop_again s h e))
Stopped-Step s t h e (dequeued _ free some') = absurd (some' (h.halt e))
Stopped-Step s t h e (finished x _ busy) =
    unfold finish remaining in (e, inr (omega (arith, remove-one x s.active busy)))
Stopped-Step s t h e (returned _ free _ _) = unfold remaining in (e, inr (omega arith))

-- `Stop` cancels the runs that wait and no other: the status of every run is what it was, but that a run
-- which waited has none.
pub stop-status :
    (s : Sched) (id : String)
    → Inv s
    → s.is_stopped ≡ false
    → status id (stop s).0 ≡ (if ltb 0 (occurrences id s.queue) then none else status id s)
stop-status s id h going = ap (status id) (stop_first s h going) ∙ go
  where
    left :
        lookup id (drained_by s).runs
        ≡ (if ltb 0 (occurrences id s.queue) then none else lookup id s.runs)
    left = drain-lookup (length s.queue) s.queue s.runs [] id (omega arith)

    go : status id (drained_by s) ≡ (if ltb 0 (occurrences id s.queue) then none else status id s)
    go = elim (Option-cases (lookup id s.runs)) [
      | inl f ↦
          status-none id (drained_by s) (ground (arith, left, f))
          ∙ ground (arith, status-none id s f)
      | inr (e, f) ↦ elim (Bool-cases e.running) [
        | inl g ↦
            let absent = executing-absent id s e h f g in
            status-running id (drained_by s) e (ground (arith, left, f, absent)) g
            ∙ sym (status-running id s e f g)
            ∙ ground (arith, absent)
        | inr g ↦
            let there : ltb 0 (occurrences id s.queue) ≡ true =
              ground (arith, occurrences-mem id s.queue e (h.waiting id e f g) (h.keyed id e f)) in
            status-none id (drained_by s) (ground (arith, left, there)) ∙ ground (arith, there)
      ]
    ]
