-- ===== src/Scheduler/Pool/Laws.antt =====
-- What the scheduler promises its callers.
use mathlib.Core.List.{Memᴰ}
use mathlib.Core.Option.{some-injective}
use sandcode.Base.{
  ℕ, ◌≤◌, ◌≡◌, refl, sym, ap, ◌∙◌, ◌≢◌, ◌⊎◌, inl, inr, String, List, [], ◌∷◌, Option, none, some,
  Bool, true, false, ltb, arith, length, eq_iff,
}
use sandcode.Base.Dict.{lookup, lookup-delete}
use sandcode.Scheduler.Queue.{Priority, Entry, position_of}
use sandcode.Scheduler.Queue.Order.{precedes, less-precedes, pop-Popped, pop-nonempty}
use sandcode.Scheduler.Queue.Members.{
  HoldsOnce, push-last, pop-HoldsOnce, nothing_in, occurrences, occurrences-mem, no_occurrence,
}
use sandcode.Scheduler.Pool.{
  Sched, new_entry, admit, withdraw, take, start, status, queued, running, submit, cancel, dequeue,
  Reach, SubmitError, Emission, run_dequeued,
}
use sandcode.Scheduler.Pool.Invariant.{Inv, admit-Inv}
use sandcode.Scheduler.Pool.Calls.{
  Submission, submit-Submission, refused_stopped, refused_duplicate, refused_full, accepted,
  Cancellation, cancel-Cancellation, unknown, at_work, withdrawn, dequeue-take,
}
use sandcode.Scheduler.Pool.Invariant.{Inv-AreDistinct, unknown_run}
use sandcode.Scheduler.Queue.Order.{precedes, less-precedes, less_total}
use sandcode.Scheduler.Queue.Position.{ahead, position_of-ahead}
use sandcode.Scheduler.Pool.Runs.{Reach-SameLimits, Reach-Inv, has_items}

-- Whatever the calls and the moves of the workers, no more runs execute at a time than the pool has
-- workers, no more wait than the queue has room for, and no run executes or waits twice.
pub workers_bounded :
    (pool_size queue_cap : ℕ) (s : Sched)
    → Reach (start pool_size queue_cap) s
    → (length s.active ≤ pool_size)
      × (length s.queue ≤ queue_cap)
      × HoldsOnce s.active
      × HoldsOnce s.queue
workers_bounded pool_size queue_cap s r =
    let h = Reach-Inv pool_size queue_cap s r in
    let (same_size, same_cap) = Reach-SameLimits pool_size queue_cap s r in
    (omega (arith, h.staffed, same_size), omega (arith, h.fits, same_cap), h.at_work, h.once)

status-some :
    (id : String) (s : Sched) (e : Entry)
    → lookup id s.runs ≡ some e
    → e.running ≡ false
    → status id s
      ≡ some (record {
        state = queued;
        priority = e.priority;
        position = position_of id s.queue;
        enqueued = e.enqueued;
      })
unfolding status
status-some id s e f g = rw (f, status) (simp (g))

pub status-none : (id : String) (s : Sched) → lookup id s.runs ≡ none → status id s ≡ none
unfolding status
status-none id s f = rw (f, status) refl

pub status-running :
    (id : String) (s : Sched) (e : Entry)
    → lookup id s.runs ≡ some e
    → e.running ≡ true
    → status id s
      ≡ some (record {
        state = running;
        priority = e.priority;
        position = some 0;
        enqueued = e.enqueued;
      })
unfolding status
status-running id s e f g = rw (f, status) (simp (g))

-- Where the state satisfies the invariant, `Status` of a run that waits reports the number of items
-- that go before it in the queue as its position.
pub status-queued :
    (s : Sched) (e : Entry)
    → Inv s
    → Memᴰ e s.queue
    → status e.run_id s
      ≡ some (record {
        state = queued;
        priority = e.priority;
        position = some (ahead e s.queue);
        enqueued = e.enqueued;
      })
status-queued s e h k =
    let (f, g, _) = h.queued e k in
    status-some e.run_id s e f g
    ∙ ap
        (λ p.
          some
            (record { state = queued; priority = e.priority; position = p; enqueued = e.enqueued }))
        (position_of-ahead s.queue e (Inv-AreDistinct h) k)

-- A `Submit` that returns no error leaves the run waiting with the priority it was given, and its
-- `Status` reports the number of items that go before it; one that returns an error changes nothing
-- and emits nothing.
pub submit-status :
    (now : ℕ) (id : String) (p : Priority) (s : Sched)
    → Inv s
    → let r = submit now id p s in
      (r.1 ≡ none)
        × (status id r.0
            ≡ some (record {
              state = queued;
              priority = p;
              position = some (ahead (new_entry now id p s) r.0.queue);
              enqueued = now;
            }))
      ⊎ (r.1 ≢ none) × (r.0 ≡ s) × (r.2 ≡ [])
submit-status now id p s h = go (submit-Submission now id p s)
  where
    go :
        {r : Sched × Option SubmitError × List Emission}
        → Submission now id p s r
        → (r.1 ≡ none)
            × (status id r.0
                ≡ some (record {
                  state = queued;
                  priority = p;
                  position = some (ahead (new_entry now id p s) r.0.queue);
                  enqueued = now;
                }))
          ⊎ (r.1 ≢ none) × (r.0 ≡ s) × (r.2 ≡ [])
    go (refused_stopped e) = inr (λ x. cc, refl, refl)
    go (refused_duplicate e f) = inr (λ x. cc, refl, refl)
    go (refused_full e f g) = inr (λ x. cc, refl, refl)
    go (accepted e f g) =
        let x = new_entry now id p s in
        inl (
          refl,
          status-queued (admit x s) x (admit-Inv s h now id p f g e)
              (unfold admit in push-last x s.queue),
        )

-- A worker that finds runs waiting takes the one of the highest priority and, among those, the one
-- submitted first: each run that waits is the one it takes, or stays and comes after that one.
pub dequeue-first :
    (s : Sched) (t : Entry)
    → Inv s
    → Memᴰ t s.queue
    → (m : Entry) × (rest : List Entry) × (dequeue s ≡ (take m rest s, run_dequeued m.run_id ∷ []))
      × ((t ≡ m) ⊎ (Memᴰ t rest × (precedes m t ≡ true)))
dequeue-first s t h k =
    let (m, rest, e) = pop-nonempty s.queue (has_items s.queue (λ q. nothing_in q k)) in
    let p = pop-Popped s.queue e in
    let d = Inv-AreDistinct h in
    (
      m,
      rest,
      dequeue-take s e,
      elim (p.split t k) [
        | inl same ↦ inl same
        | inr r ↦ inr (
          r,
          sym (less-precedes m t)
              ∙ less_total t m (p.first t k) (λ q.
                (pop-HoldsOnce p h.once).1 t r
                  (ap (λ (x : Entry). x.run_id) (d.by_seq t m k p.taken q))),
        )
      ],
    )

-- A run that executes does not wait.
pub executing-absent :
    (id : String) (s : Sched) (e : Entry)
    → Inv s
    → lookup id s.runs ≡ some e
    → e.running ≡ true
    → occurrences id s.queue ≡ 0
executing-absent id s e h f g = no_occurrence id s.queue (λ t k same.
    let other = h.queued t k in
    let both : t ≡ e = some-injective t e (sym other.0 ∙ ap (λ i. lookup i s.runs) same ∙ f) in
    ground (arith, g, other.1, ap (λ (x : Entry). x.running) both))

-- `Cancel` answers true for the runs that wait and for no other; when it answers true the run has no
-- status any more, and when it answers false nothing has changed.
pub cancel-exact :
    (id : String) (s : Sched)
    → Inv s
    → let r = cancel id s in
      (r.1 ≡ ltb 0 (occurrences id s.queue))
      × ((r.1 ≡ true) × (status id r.0 ≡ none) ⊎ (r.1 ≡ false) × (r.0 ≡ s))
cancel-exact id s h = go (cancel-Cancellation id s)
  where
    go :
        {r : Sched × Bool × List Emission}
        → Cancellation id s r
        → (r.1 ≡ ltb 0 (occurrences id s.queue))
          × ((r.1 ≡ true) × (status id r.0 ≡ none) ⊎ (r.1 ≡ false) × (r.0 ≡ s))
    go (unknown f) = (
      ground (arith, no_occurrence id s.queue (λ t k. unknown_run s h id t f (h.queued t k).0)),
      inr (refl, refl),
    )
    go (at_work e f g) = (ground (arith, executing-absent id s e h f g), inr (refl, refl))
    go (withdrawn e f g) = (
      ground (arith, occurrences-mem id s.queue e (h.waiting id e f g) (h.keyed id e f)),
      inl (
        refl,
        status-none id (withdraw id s)
            (unfold withdraw in ground (arith, lookup-delete id id s.runs, eq_iff id id)),
      ),
    )
