-- ===== src/Scheduler/Pool/Runs.antt =====
-- Every state that the steps of the scheduler reach satisfies its invariant.
use sandcode.Base.{
  inl, inr, Bool, Bool-cases, ℕ, ◌<◌, ◌≡◌, refl, sym, ap, subst, ◌∙◌, ◌≢◌, String, List, [], ◌∷◌,
  Option, some, Bool, arith, length,
}
use sandcode.Base.Dict.{lookup}
use sandcode.Scheduler.Queue.{Priority, Entry}
use sandcode.Scheduler.Queue.Order.{count, pop-Popped, pop-nonempty}
use sandcode.Scheduler.Queue.Members.{occurrences}
use sandcode.Scheduler.Pool.{
  stop, finish, admit, withdraw, Sched, withdraw, start, Step, Reach, submitted, cancelled, halted,
  dequeued, finished, returned, here, next, SubmitError, Emission,
}
use sandcode.Scheduler.Pool.Invariant.{Inv, admit-Inv, withdraw-Inv}
use sandcode.Scheduler.Pool.Work.{take-Inv, finish-Inv}
use sandcode.Scheduler.Pool.Halt.{stop-Inv, return-Inv}
use sandcode.Scheduler.Pool.Calls.{
  Submission, submit-Submission, refused_stopped, refused_duplicate, refused_full, accepted,
  Cancellation, cancel-Cancellation, unknown, at_work, withdrawn, dequeue-take,
}

no_run : (id : String) (e : Entry) {A : Type 0} → lookup id [] ≡ some e → A
unfolding lookup
no_run id e q = cc

pub has_items : (q : List Entry) → q ≢ [] → 0 < length q
has_items [] h = absurd (h refl)
has_items (x ∷ q) h = omega arith

start-Inv : (pool_size queue_cap : ℕ) → Inv (start pool_size queue_cap)
unfolding start
start-Inv pool_size queue_cap = record {
  fits = omega arith;
  queued = λ e k. elim k [ ];
  seqs = λ a b k. elim k [ ];
  once = record { at_most = λ id. unfold occurrences count in omega arith };
  keyed = λ id e q. no_run id e q;
  waiting = λ id e q. no_run id e q;
  executing = λ e k. elim k [ ];
  at_work = record { at_most = λ id. unfold occurrences count in omega arith };
  staffed = omega arith;
  halt = λ q. refl;
}

pub Submission-Inv :
    {now : ℕ} {id : String} {p : Priority} {s : Sched}
    {r : Sched × Option SubmitError × List Emission}
    → Inv s
    → Submission now id p s r
    → Inv r.0
Submission-Inv h (refused_stopped e) = h
Submission-Inv h (refused_duplicate e f) = h
Submission-Inv h (refused_full e f g) = h
Submission-Inv {now} {id} {p} {s} h (accepted e f g) = admit-Inv s h now id p f g e

pub Cancellation-Inv :
    {id : String} {s : Sched} {r : Sched × Bool × List Emission}
    → Inv s
    → Cancellation id s r
    → Inv r.0
Cancellation-Inv h (unknown e) = h
Cancellation-Inv h (at_work e f g) = h
Cancellation-Inv {id} {s} h (withdrawn e f g) =
    let named = h.keyed id e f in
    subst (λ i. Inv (withdraw i s)) named
      (withdraw-Inv s h e (ap (λ i. lookup i s.runs) named ∙ f) g)

pub Step-Inv : {s t : Sched} → Inv s → Step s t → Inv t
Step-Inv h (submitted now id p s) = Submission-Inv h (submit-Submission now id p s)
Step-Inv h (cancelled id s) = Cancellation-Inv h (cancel-Cancellation id s)
Step-Inv h (halted s) = stop-Inv s h
Step-Inv h (dequeued s free some') =
    let (m, rest, e) = pop-nonempty s.queue (has_items s.queue some') in
    subst (λ (r : Sched × List Emission). Inv r.0) (sym (dequeue-take s e))
      (take-Inv s h m rest (pop-Popped s.queue e) free)
Step-Inv h (finished e s busy) = finish-Inv s h e busy
Step-Inv h (returned s free stop' none') = return-Inv s h free

-- Whatever calls and moves of workers follow the start, in any order, the state satisfies the invariant:
-- the queue fits its cap and holds each run once, with different sequence numbers; what waits and what
-- executes is what the map holds for its run; each worker is busy, idle or gone; and the queue of a
-- stopped scheduler is empty.
pub Reach-Inv : (pool_size queue_cap : ℕ) (s : Sched) → Reach (start pool_size queue_cap) s → Inv s
Reach-Inv pool_size queue_cap s here = start-Inv pool_size queue_cap
Reach-Inv pool_size queue_cap s (next r step) = Step-Inv (Reach-Inv pool_size queue_cap _ r) step

-- What no step changes.
abbrev SameLimits : Sched → Sched → Type 0
SameLimits s t = (t.pool_size ≡ s.pool_size) × (t.queue_cap ≡ s.queue_cap)

Submission-SameLimits :
    {now : ℕ} {id : String} {p : Priority} {s : Sched}
    {r : Sched × Option SubmitError × List Emission}
    → Submission now id p s r
    → SameLimits s r.0
Submission-SameLimits (refused_stopped e) = (refl, refl)
Submission-SameLimits (refused_duplicate e f) = (refl, refl)
Submission-SameLimits (refused_full e f g) = (refl, refl)
Submission-SameLimits (accepted e f g) = unfold admit in (refl, refl)

Cancellation-SameLimits :
    {id : String} {s : Sched} {r : Sched × Bool × List Emission}
    → Cancellation id s r
    → SameLimits s r.0
Cancellation-SameLimits (unknown e) = (refl, refl)
Cancellation-SameLimits (at_work e f g) = (refl, refl)
Cancellation-SameLimits (withdrawn e f g) = unfold withdraw in (refl, refl)

stop-SameLimits : (s : Sched) → SameLimits s (stop s).0
unfolding stop
stop-SameLimits s = elim (Bool-cases s.is_stopped) [
  | inl e ↦ (simp (e), simp (e))
  | inr e ↦ (simp (e), simp (e))
]

Step-SameLimits : {s t : Sched} → Step s t → SameLimits s t
Step-SameLimits (submitted now id p s) = Submission-SameLimits (submit-Submission now id p s)
Step-SameLimits (cancelled id s) = Cancellation-SameLimits (cancel-Cancellation id s)
Step-SameLimits (halted s) = stop-SameLimits s
Step-SameLimits (dequeued s free some') =
    let (m, rest, e) = pop-nonempty s.queue (has_items s.queue some') in
    subst (λ (r : Sched × List Emission). SameLimits s r.0) (sym (dequeue-take s e)) (refl, refl)
Step-SameLimits (finished e s busy) = unfold finish in (refl, refl)
Step-SameLimits (returned s free stop' none') = (refl, refl)

pub Reach-SameLimits :
    (pool_size queue_cap : ℕ) (s : Sched)
    → Reach (start pool_size queue_cap) s
    → (s.pool_size ≡ pool_size) × (s.queue_cap ≡ queue_cap)
Reach-SameLimits pool_size queue_cap s here = unfold start in (refl, refl)
Reach-SameLimits pool_size queue_cap s (next r step) =
    let (p, q) = Step-SameLimits step in
    let (p', q') = Reach-SameLimits pool_size queue_cap _ r in (p ∙ p', q ∙ q')
