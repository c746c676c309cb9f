-- ===== src/Scheduler/Pool/Work.antt =====
-- What the workers do keeps the invariant of the scheduler.
use mathlib.Core.List.{Memᴰ}
use mathlib.Core.Option.{some-injective}
use sandcode.Base.{
  ◌≡◌, refl, sym, ap, ◌∙◌, ◌≢◌, inl, inr, List, ◌∷◌, some, true, arith, str_eq, eq_iff, Bool-cases,
}
use sandcode.Base.Dict.{lookup, put, lookup-put, lookup-delete}
use sandcode.Scheduler.Queue.{Entry, remove}
use sandcode.Scheduler.Queue.Order.{Popped}
use sandcode.Scheduler.Queue.Members.{
  remove-within, remove-absent, remove-HoldsOnce, pop-HoldsOnce, cons-HoldsOnce, nothing_in,
  remove-one,
}
use sandcode.Scheduler.Pool.{Sched, take, mark_running, finish}
use sandcode.Scheduler.Pool.Invariant.{Inv}

module _ (s : Sched) (h : Inv s) where
  -- A worker takes the first item.
  module _ (m : Entry) (rest : List Entry) (popped : Popped s.queue m rest)
      (free : s.idle ≢ 0) where
    pub take-Inv : Inv (take m rest s)
    take-Inv =
        let id = m.run_id in
        let (rest_once, apart) = pop-HoldsOnce popped h.once in
        let first = h.queued m popped.taken in
        let elsewhere : (t : Entry) → Memᴰ t s.active → t.run_id ≢ m.run_id = (λ t k e'.
          let other = h.executing t k in
          let same : t ≡ m =
            some-injective t m (sym other.0 ∙ ap (λ i. lookup i s.runs) e' ∙ first.0) in
          ground (arith, other.1, first.1, ap (λ (x : Entry). x.running) same)) in
        record {
          fits = omega (arith, h.fits, popped.shorter);
          queued = λ t k.
              let old = h.queued t (popped.others t k) in
              (
                ground (
                  arith,
                  lookup-put id t.run_id (mark_running m) s.runs,
                  eq_iff id t.run_id,
                  apart t k,
                  old.0,
                ),
                old.1,
                old.2,
              );
          seqs = λ a b x y. h.seqs a b (popped.others a x) (popped.others b y);
          once = rest_once;
          keyed = λ j t q.
              ground (arith, lookup-put id j (mark_running m) s.runs, eq_iff id j, h.keyed j t);
          waiting = λ j t q r. elim (Bool-cases (str_eq id j)) [
            | inl here ↦
                let same : mark_running m ≡ t =
                  some-injective _ _
                    (ground (arith, lookup-put id j (mark_running m) s.runs, q, here)) in
                absurd (ground (arith, r, ap (λ (x : Entry). x.running) same))
            | inr other ↦
                let old : lookup j s.runs ≡ some t =
                  ground (arith, lookup-put id j (mark_running m) s.runs, q, other) in
                elim (popped.split t (h.waiting j t old r)) [
                  | inl same ↦ absurd (
                      ground (
                        arith,
                        eq_iff id j,
                        other,
                        h.keyed j t old,
                        ap (λ (x : Entry). x.run_id) same,
                      ))
                  | inr k ↦ k
                ]
          ];
          executing = λ t k. at_work_status t (h.executing t) (elsewhere t) k;
          at_work = cons-HoldsOnce (mark_running m) s.active h.at_work elsewhere;
          staffed = omega (arith, h.staffed);
          halt = λ q. absurd (nothing_in (h.halt q) popped.taken);
        }
      where
        at_work_status :
            (t : Entry)
            → (Memᴰ t s.active → (lookup t.run_id s.runs ≡ some t) × (t.running ≡ true))
            → (Memᴰ t s.active → t.run_id ≢ m.run_id)
            → Memᴰ t (mark_running m ∷ s.active)
            → (lookup t.run_id (put m.run_id (mark_running m) s.runs) ≡ some t) × (t.running ≡ true)
        at_work_status t old apart' (Memᴰ.head same) = rw same (
          ground (
            arith,
            lookup-put m.run_id m.run_id (mark_running m) s.runs,
            eq_iff m.run_id m.run_id,
          ),
          refl,
        )
        at_work_status t old apart' (Memᴰ.tail k) = (
          ground (
            arith,
            lookup-put m.run_id t.run_id (mark_running m) s.runs,
            eq_iff m.run_id t.run_id,
            apart' k,
            (old k).0,
          ),
          (old k).1,
        )

  -- A worker is done with a run.
  module _ (e : Entry) (busy : Memᴰ e s.active) where
    pub finish-Inv : Inv (finish e.run_id s)
    unfolding finish
    finish-Inv =
        let id = e.run_id in
        let mine = h.executing e busy in
        let absent = λ (t : Entry) (k : Memᴰ t (remove id s.active)).
          remove-absent id s.active t h.at_work k in
        record {
          fits = h.fits;
          queued = λ t k.
              let old = h.queued t k in
              (
                ground (
                  arith,
                  lookup-delete id t.run_id s.runs,
                  eq_iff id t.run_id,
                  old.0,
                  old.1,
                  mine.0,
                  mine.1,
                  ap (λ i. lookup i s.runs),
                ),
                old.1,
                old.2,
              );
          seqs = h.seqs;
          once = h.once;
          keyed = λ j t q. ground (arith, lookup-delete id j s.runs, h.keyed j t);
          waiting = λ j t q r. h.waiting j t (ground (arith, lookup-delete id j s.runs)) r;
          executing = λ t k.
              let old = h.executing t (remove-within id s.active t k) in
              (
                ground (
                  arith,
                  lookup-delete id t.run_id s.runs,
                  eq_iff id t.run_id,
                  absent t k,
                  old.0,
                ),
                old.1,
              );
          at_work = remove-HoldsOnce id s.active h.at_work;
          staffed = omega (arith, h.staffed, remove-one e s.active busy);
          halt = h.halt;
        }
