-- ===== src/Scheduler/Queue/Position.antt =====
-- The position that `positionOf` reports is the number of items that precede.
use mathlib.Core.List.{Memᴰ}
use sandcode.Base.{
  ℕ, zero, suc, ◌+◌, ◌≤◌, ◌≡◌, refl, sym, ◌∙◌, ap, ◌≢◌, inl, inr, List, [], ◌∷◌, some, Bool, true,
  false, arith, length, str_eq, eq_iff, Bool-cases,
}
use sandcode.Scheduler.Queue.{Entry, less, drain_to, position_of}
use sandcode.Scheduler.Queue.Order.{
  precedes, less-precedes, count, Popped, pop-Popped, pop-nonempty, less_total,
}

-- No two items of a queue share a run or a sequence number.
pub record AreDistinct (q : List Entry) : Type 0 where
  pub by_run : (a b : Entry) → Memᴰ a q → Memᴰ b q → a.run_id ≡ b.run_id → a ≡ b
  pub by_seq : (a b : Entry) → Memᴰ a q → Memᴰ b q → a.submit_seq ≡ b.submit_seq → a ≡ b

-- How many items go before `t`.
earlier : Entry → List Entry → ℕ
earlier t q = count (λ x. less x t) q

count-none :
    (f : Entry → Bool) (q : List Entry) → ((x : Entry) → Memᴰ x q → f x ≡ false) → count f q ≡ 0
unfolding count
count-none f [] h = refl
count-none f (x ∷ q) h =
    rw (h x (Memᴰ.head refl)) (omega (arith, count-none f q (λ y k. h y (Memᴰ.tail k))))

module _ {q : List Entry} {m : Entry} {rest : List Entry} (p : Popped q m rest)
    (d : AreDistinct q) where
  rest-AreDistinct : AreDistinct rest
  rest-AreDistinct = record {
    by_run = λ a b x y. d.by_run a b (p.others a x) (p.others b y);
    by_seq = λ a b x y. d.by_seq a b (p.others a x) (p.others b y);
  }

  -- Nothing goes before the item that is taken.
  ahead_first : earlier m q ≡ 0
  unfolding earlier
  ahead_first = count-none (λ x. less x m) q p.first

  -- The item that is taken goes before each other.
  ahead_later : (t : Entry) → Memᴰ t q → m ≢ t → earlier t q ≡ suc (earlier t rest)
  unfolding earlier count
  ahead_later t k other =
      let before : less m t ≡ true =
        less_total t m (p.first t k) (λ e. other (sym (d.by_seq t m k p.taken e))) in
      sym (p.counted (λ x. less x t)) ∙ rw before (omega arith)

stays :
    {q : List Entry} {m : Entry} {rest : List Entry}
    → Popped q m rest
    → (t : Entry) → Memᴰ t q
    → m ≢ t
    → Memᴰ t rest
stays p t k apart = elim (p.split t k) [ inl same ↦ absurd (apart (sym same)) | inr r ↦ r ]

drain_to-earlier :
    (rounds : ℕ) (t : Entry) (q : List Entry) (pos : ℕ)
    → length q ≤ rounds
    → AreDistinct q
    → Memᴰ t q
    → drain_to rounds t.run_id q pos ≡ some (pos + earlier t q)
unfolding drain_to
drain_to-earlier zero t [] pos fits d k = elim k [ ]
drain_to-earlier zero t (x ∷ q) pos fits d k = absurd (omega arith)
drain_to-earlier (suc rounds) t [] pos fits d k = elim k [ ]
drain_to-earlier (suc rounds) t (x ∷ q) pos fits d k =
    let (m, rest, e) = pop-nonempty (x ∷ q) (omega arith) in
    let p = pop-Popped (x ∷ q) e in
    rw (e, drain_to)
      (elim (Bool-cases (str_eq m.run_id t.run_id)) [
        | inl same ↦
            let at : m ≡ t = d.by_run m t p.taken k ((eq_iff m.run_id t.run_id).0 same) in
            rw same (rw (← at) (ap some (omega (arith, ahead_first p d))))
        | inr other ↦
            let apart : m ≢ t = (λ e'. ground (arith, eq_iff m.run_id t.run_id, other, e')) in
            rw other (
              drain_to-earlier rounds t rest (pos + 1) (omega (arith, p.shorter))
                (rest-AreDistinct p d) (stays p t k apart)
              ∙ ap some (omega (arith, ahead_later p d t k apart)))
      ])

-- How many items of a queue go before `t`.
pub ahead : Entry → List Entry → ℕ
ahead t q = count (λ x. precedes x t) q

earlier-ahead : (t : Entry) (q : List Entry) → earlier t q ≡ ahead t q
unfolding earlier ahead count
earlier-ahead t [] = refl
earlier-ahead t (x ∷ q) = ground (arith, less-precedes x t, earlier-ahead t q)

-- In a queue whose items differ by run and by sequence number, the position of an item's run is the
-- number of items that go before it: of a higher priority, or of its own and submitted earlier.
pub position_of-ahead :
    (q : List Entry) (t : Entry)
    → AreDistinct q
    → Memᴰ t q
    → position_of t.run_id q ≡ some (ahead t q)
unfolding position_of
position_of-ahead q t d k =
    drain_to-earlier (length q) t q 0 (omega arith) d k ∙ ap some (omega (arith, earlier-ahead t q))
