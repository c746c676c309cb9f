-- ===== src/Scheduler/Pool/Halt.antt =====
-- What `Stop` does keeps the invariant of the scheduler, and so does every step.
use mathlib.Core.List.{Memᴰ}
use mathlib.Core.Option.{some-injective}
use sandcode.Base.{
  ℕ, zero, suc, ◌+◌, ◌-◌, ◌≤◌, ◌≡◌, refl, sym, ap, subst, ◌∙◌, ◌≢◌, inl, inr, String, List, [], ◌∷◌,
  ◌++◌, none, some, true, false, ltb, arith, length, str_eq, if◌then◌else◌, Bool-cases,
}
use sandcode.Base.Dict.{Dict, lookup, delete, lookup-delete}
use sandcode.Scheduler.Queue.{Entry, pop}
use sandcode.Scheduler.Queue.Order.{count, pop-Popped, pop-nonempty}
use sandcode.Scheduler.Queue.Members.{occurrences, occurrences-mem, no_occurrence}
use sandcode.Scheduler.Pool.{Sched, drain, stop}
use sandcode.Scheduler.Pool.Invariant.{Inv}

-- The loop of `Stop` deletes the runs of the queue, and no other.
pub drain-lookup :
    (rounds : ℕ) (q : List Entry) (runs : Dict Entry) (acc : List String) (id : String)
    → length q ≤ rounds
    → lookup id (drain rounds q runs acc).0
      ≡ (if ltb 0 (occurrences id q) then none else lookup id runs)
unfolding drain occurrences count
drain-lookup zero [] runs acc id fits = refl
drain-lookup zero (x ∷ q) runs acc id fits = absurd (omega arith)
drain-lookup (suc rounds) [] runs acc id fits = unfold pop in refl
drain-lookup (suc rounds) (x ∷ q) runs acc id fits =
    let (m, rest, e) = pop-nonempty (x ∷ q) (omega arith) in
    let p = pop-Popped (x ∷ q) e in
    rw (e, drain)
      (drain-lookup rounds rest (delete m.run_id runs) (acc ++ m.run_id ∷ []) id
          (omega (arith, p.shorter))
        ∙ ground (arith, lookup-delete m.run_id id runs, p.counted (λ y. str_eq y.run_id id)))

-- The scheduler when the loop of its first `Stop` has ended.
abbrev pub drained_by : Sched → Sched
drained_by s = record s {
  is_stopped = true;
  queue = [];
  runs = (drain (length s.queue) s.queue s.runs []).0;
}

module _ (s : Sched) (h : Inv s) where
  -- A run that a worker has is not in the queue.
  pub active_not_queued : (t : Entry) → Memᴰ t s.active → occurrences t.run_id s.queue ≡ 0
  active_not_queued t k = no_occurrence t.run_id s.queue (λ e m same.
      let (at, waits, _) = h.queued e m in
      let (at', works) = h.executing t k in
      let both : e ≡ t = some-injective e t (sym at ∙ ap (λ i. lookup i s.runs) same ∙ at') in
      ground (arith, waits, works, ap (λ (x : Entry). x.running) both))

  pub stop_again : s.is_stopped ≡ true → (stop s).0 ≡ s
  unfolding stop
  stop_again e = simp (e)

  pub stop_first : s.is_stopped ≡ false → (stop s).0 ≡ drained_by s
  unfolding stop
  stop_first e = simp (e)

  kept :
      (id : String) (e : Entry)
      → lookup id (drained_by s).runs ≡ some e
      → (lookup id s.runs ≡ some e) × (occurrences id s.queue ≡ 0)
  kept id e q = ground (arith, q, drain-lookup (length s.queue) s.queue s.runs [] id (omega arith))

  drained-Inv : Inv (drained_by s)
  drained-Inv = record {
    fits = omega arith;
    queued = λ e k. elim k [ ];
    seqs = λ a b k. elim k [ ];
    once = record { at_most = λ id. unfold occurrences count in omega arith };
    keyed = λ id e q. h.keyed id e (kept id e q).0;
    waiting = λ id e q r.
        let (was, absent) = kept id e q in
        absurd (
          omega (
            arith,
            absent,
            occurrences-mem id s.queue e (h.waiting id e was r) (h.keyed id e was),
          ));
    executing = λ e k.
        let (was, works) = h.executing e k in
        (
          drain-lookup (length s.queue) s.queue s.runs [] e.run_id (omega arith)
              ∙ ground (arith, active_not_queued e k, was),
          works,
        );
    at_work = h.at_work;
    staffed = h.staffed;
    halt = λ _. refl;
  }

  pub stop-Inv : Inv (stop s).0
  stop-Inv = elim (Bool-cases s.is_stopped) [
    | inl halted' ↦ subst Inv (sym (stop_again halted')) h
    | inr going ↦ subst Inv (sym (stop_first going)) drained-Inv
  ]

  pub return-Inv : s.idle ≢ 0 → Inv (record s { idle = s.idle - 1; exited = s.exited + 1 })
  return-Inv free = record {
    fits = h.fits;
    queued = h.queued;
    seqs = h.seqs;
    once = h.once;
    keyed = h.keyed;
    waiting = h.waiting;
    executing = h.executing;
    at_work = h.at_work;
    staffed = omega (arith, h.staffed);
    halt = h.halt;
  }
