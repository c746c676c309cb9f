-- ===== src/Scheduler/Pool/Invariant.antt =====
-- The invariant of the scheduler, and that every step keeps it.
use mathlib.Core.List.{Memᴰ}
use mathlib.Core.Option.{some-injective}
use sandcode.Base.{
  ℕ, ◌+◌, ◌≤◌, ◌<◌, ◌≡◌, refl, sym, ap, subst, ◌∙◌, ◌≢◌, inl, inr, String, [], none, some, true,
  false, arith, length, str_eq, eq_iff, Bool-cases,
}
use sandcode.Base.Dict.{lookup, lookup-put, lookup-delete}
use sandcode.Scheduler.Queue.{Priority, Entry, push, remove}
use sandcode.Scheduler.Queue.Position.{AreDistinct}
use sandcode.Scheduler.Queue.Members.{
  HoldsOnce, remove-within, remove-keeps, remove-absent, remove-HoldsOnce, remove-length,
  push-split, push-keeps, push-last, push-length, push-HoldsOnce,
}
use sandcode.Scheduler.Pool.{Sched, new_entry, admit, withdraw}

pub record Inv (s : Sched) : Type 0 where
  pub fits : length s.queue ≤ s.queue_cap
  pub queued :
      (e : Entry)
      → Memᴰ e s.queue
      → (lookup e.run_id s.runs ≡ some e) × (e.running ≡ false) × (e.submit_seq ≤ s.seq)
  pub seqs : (a b : Entry) → Memᴰ a s.queue → Memᴰ b s.queue → a.submit_seq ≡ b.submit_seq → a ≡ b
  pub once : HoldsOnce s.queue
  pub keyed : (id : String) (e : Entry) → lookup id s.runs ≡ some e → e.run_id ≡ id
  pub waiting :
      (id : String) (e : Entry) → lookup id s.runs ≡ some e → e.running ≡ false → Memᴰ e s.queue
  pub executing :
      (e : Entry) → Memᴰ e s.active → (lookup e.run_id s.runs ≡ some e) × (e.running ≡ true)
  pub at_work : HoldsOnce s.active
  pub staffed : length s.active + s.idle + s.exited ≡ s.pool_size
  pub halt : s.is_stopped ≡ true → s.queue ≡ []

pub Inv-AreDistinct : {s : Sched} → Inv s → AreDistinct s.queue
Inv-AreDistinct {s} h = record {
  by_run = λ a b x y e.
      some-injective a b (sym (h.queued a x).0 ∙ ap (λ i. lookup i s.runs) e ∙ (h.queued b y).0);
  by_seq = h.seqs;
}

module _ (s : Sched) (h : Inv s) where
  -- An item of the queue or of a worker has another run than one that the map does not know.
  pub unknown_run :
      (id : String) (t : Entry)
      → lookup id s.runs ≡ none
      → lookup t.run_id s.runs ≡ some t
      → t.run_id ≢ id
  unknown_run id t missing found e = cc (ap (λ i. lookup i s.runs) e)

  module _ (now : ℕ) (id : String) (p : Priority) (missing : lookup id s.runs ≡ none)
      (room : length s.queue < s.queue_cap) (open' : s.is_stopped ≡ false) where
    pub admit-Inv : Inv (admit (new_entry now id p s) s)
    unfolding admit
    admit-Inv =
        let e = new_entry now id p s in
        let apart = λ (t : Entry) (k : Memᴰ t s.queue). unknown_run id t missing (h.queued t k).0 in
        record {
          fits = omega (arith, push-length e s.queue);
          queued = λ t k. elim (push-split e s.queue t k) [
            | inl same ↦
                rw same (ground (arith, lookup-put id id e s.runs, eq_iff id id), refl, omega arith)
            | inr old ↦ (
              ground (
                arith,
                lookup-put id t.run_id e s.runs,
                eq_iff id t.run_id,
                apart t old,
                (h.queued t old).0,
              ),
              (h.queued t old).1,
              omega (arith, (h.queued t old).2),
            )
          ];
          seqs = λ a b x y q. elim (push-split e s.queue a x) [
            | inl ax ↦ elim (push-split e s.queue b y) [
              | inl bx ↦ ax ∙ sym bx
              | inr by ↦ absurd (ground (arith, ax, q, (h.queued b by).2))
            ]
            | inr ay ↦ elim (push-split e s.queue b y) [
              | inl bx ↦ absurd (ground (arith, bx, q, (h.queued a ay).2))
              | inr by ↦ h.seqs a b ay by q
            ]
          ];
          once = push-HoldsOnce e s.queue h.once apart;
          keyed = λ j t q. ground (arith, lookup-put id j e s.runs, eq_iff id j, h.keyed j t);
          waiting = λ j t q r. elim (Bool-cases (str_eq id j)) [
            | inl here ↦
                let same : e ≡ t =
                  some-injective e t (ground (arith, lookup-put id j e s.runs, q, here)) in
                subst (λ (x : Entry). Memᴰ x (push e s.queue)) same (push-last e s.queue)
            | inr other ↦
                push-keeps e s.queue t
                  (h.waiting j t (ground (arith, lookup-put id j e s.runs, q, other)) r)
          ];
          executing = λ t k. (
            ground (
              arith,
              lookup-put id t.run_id e s.runs,
              eq_iff id t.run_id,
              unknown_run id t missing (h.executing t k).0,
              (h.executing t k).0,
            ),
            (h.executing t k).1,
          );
          at_work = h.at_work;
          staffed = h.staffed;
          halt = λ q. cc;
        }

  -- Taking a queued run out, by `Cancel`.
  module _ (e : Entry) (found : lookup e.run_id s.runs ≡ some e) (idle' : e.running ≡ false) where
    pub withdraw-Inv : Inv (withdraw e.run_id s)
    unfolding withdraw
    withdraw-Inv =
        let id = e.run_id in
        let absent =
          λ (t : Entry) (k : Memᴰ t (remove id s.queue)). remove-absent id s.queue t h.once k in
        record {
          fits = omega (arith, h.fits, remove-length id s.queue);
          queued = λ t k.
              let old = h.queued t (remove-within id s.queue t k) in
              (
                ground (
                  arith,
                  lookup-delete id t.run_id s.runs,
                  eq_iff id t.run_id,
                  absent t k,
                  old.0,
                ),
                old.1,
                old.2,
              );
          seqs =
              λ a b x y. h.seqs a b (remove-within id s.queue a x) (remove-within id s.queue b y);
          once = remove-HoldsOnce id s.queue h.once;
          keyed = λ j t q. ground (arith, lookup-delete id j s.runs, h.keyed j t);
          waiting = λ j t q r.
              let kept : (lookup j s.runs ≡ some t) × (str_eq id j ≡ false) =
                ground (arith, lookup-delete id j s.runs) in
              remove-keeps id s.queue t (h.waiting j t kept.0 r)
                (ground (arith, eq_iff id j, h.keyed j t));
          executing = λ t k.
              let old = h.executing t k in
              (
                ground (
                  arith,
                  lookup-delete id t.run_id s.runs,
                  eq_iff id t.run_id,
                  old.0,
                  old.1,
                  found,
                  idle',
                  ap (λ i. lookup i s.runs),
                ),
                old.1,
              );
          at_work = h.at_work;
          staffed = h.staffed;
          halt = λ q. rw (h.halt q) (unfold remove in refl);
        }
