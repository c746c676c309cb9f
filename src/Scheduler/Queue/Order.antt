-- ===== src/Scheduler/Queue/Order.antt =====
-- `Less` orders the queue, and `pop` takes its first item.
use mathlib.Core.List.{Memᴰ}
use mathlib.Core.Option.{some-injective}
use sandcode.Base.{
  ℕ, suc, ◌+◌, ◌≡◌, refl, subst, ◌<◌, ◌≢◌, ◌⊎◌, inl, inr, List, [], ◌∷◌, some, Bool, true, false,
  arith, length, if◌then◌else◌, Bool-cases, ltb, ◌==◌, ◌||◌, ◌&&◌,
}
use sandcode.Scheduler.Queue.{Priority, rank, Entry, less, select, pop}

rank-injective : (p q : Priority) → rank p ≡ rank q → p ≡ q
unfolding rank
rank-injective p q h = ground arith

pub less_irrefl : (a : Entry) → less a a ≡ false
unfolding less
less_irrefl a = ground arith

-- Not being preceded passes on.
pub not_less_trans : (a b c : Entry) → less a b ≡ false → less b c ≡ false → less a c ≡ false
unfolding less
not_less_trans a b c h k = ground arith

pub less_asym : (a b : Entry) → less a b ≡ true → less b a ≡ false
unfolding less
less_asym a b h = ground arith

-- Of two items with different sequence numbers one precedes the other.
pub less_total : (a b : Entry) → less a b ≡ false → a.submit_seq ≢ b.submit_seq → less b a ≡ true
unfolding less
less_total a b h d = ground arith

-- An item goes before another when its priority is higher, or the same and it was submitted earlier.
unfoldable pub precedes : Entry → Entry → Bool
precedes a b =
    ltb (rank b.priority) (rank a.priority)
    || (rank a.priority == rank b.priority) && ltb a.submit_seq b.submit_seq

pub less-precedes : (a b : Entry) → less a b ≡ precedes a b
unfolding less precedes
less-precedes a b = ground arith

-- How many items have a property.
unfoldable pub count : (Entry → Bool) → List Entry → ℕ
count f [] = 0
count f (x ∷ xs) = (if f x then 1 else 0) + count f xs

pub select-count :
    (f : Entry → Bool) (e : Entry) (items : List Entry)
    → let (m, rest) = select e items in count f (m ∷ rest) ≡ count f (e ∷ items)
unfolding select count
select-count f e [] = refl
select-count f e (x ∷ items) = elim (Bool-cases (less x e)) [
  | inl y ↦ rw y (omega (arith, select-count f x items))
  | inr n ↦ rw n (omega (arith, select-count f e items))
]

pub select-length : (e : Entry) (items : List Entry) → length (select e items).1 ≡ length items
unfolding select
select-length e [] = refl
select-length e (x ∷ items) = omega (arith, select-length (if less x e then x else e) items)

-- A member of the longer list is its first item, its second, or one of the others.
Memᴰ-two :
    {t e x : Entry} {items : List Entry} → Memᴰ t (e ∷ x ∷ items) → (t ≡ e) ⊎ (t ≡ x) ⊎ Memᴰ t items
Memᴰ-two (Memᴰ.head same) = inl same
Memᴰ-two (Memᴰ.tail (Memᴰ.head same)) = inr (inl same)
Memᴰ-two (Memᴰ.tail (Memᴰ.tail m)) = inr (inr m)

pub select-first :
    (e : Entry) (items : List Entry) (t : Entry)
    → Memᴰ t (e ∷ items)
    → less t (select e items).0 ≡ false
unfolding select
select-first e [] t (Memᴰ.head same) = rw same (less_irrefl e)
select-first e [] t (Memᴰ.tail m) = elim m [ ]
select-first e (x ∷ items) t m = elim (Bool-cases (less x e)) [
  | inl y ↦ rw y (
      let best = (select x items).0 in
      let first = select-first x items x (Memᴰ.head refl) in
      elim (Memᴰ-two m) [
        | inl at_e ↦ rw at_e (not_less_trans e x best (less_asym x e y) first)
        | inr (inl at_x) ↦ rw at_x first
        | inr (inr later) ↦ select-first x items t (Memᴰ.tail later)
      ])
  | inr n ↦ rw n (
      let best = (select e items).0 in
      let first = select-first e items e (Memᴰ.head refl) in
      elim (Memᴰ-two m) [
        | inl at_e ↦ rw at_e first
        | inr (inl at_x) ↦ rw at_x (not_less_trans x e best n first)
        | inr (inr later) ↦ select-first e items t (Memᴰ.tail later)
      ])
]

-- The items are the one that was taken and the others.
pub select-split :
    (e : Entry) (items : List Entry) (t : Entry)
    → Memᴰ t (e ∷ items)
    → (t ≡ (select e items).0) ⊎ Memᴰ t (select e items).1
unfolding select
select-split e [] t (Memᴰ.head same) = inl same
select-split e [] t (Memᴰ.tail m) = elim m [ ]
select-split e (x ∷ items) t m = elim (Bool-cases (less x e)) [
  | inl y ↦ rw y (elim (Memᴰ-two m) [
    | inl at_e ↦ inr (Memᴰ.head at_e)
    | inr (inl at_x) ↦ later (select-split x items t (Memᴰ.head at_x))
    | inr (inr rest) ↦ later (select-split x items t (Memᴰ.tail rest))
  ])
  | inr n ↦ rw n (elim (Memᴰ-two m) [
    | inl at_e ↦ later (select-split e items t (Memᴰ.head at_e))
    | inr (inl at_x) ↦ inr (Memᴰ.head at_x)
    | inr (inr rest) ↦ later (select-split e items t (Memᴰ.tail rest))
  ])
]
  where
    later : {m k : Entry} {rest : List Entry} → (t ≡ m) ⊎ Memᴰ t rest → (t ≡ m) ⊎ Memᴰ t (k ∷ rest)
    later (inl same) = inl same
    later (inr r) = inr (Memᴰ.tail r)

pub select-within :
    (e : Entry) (items : List Entry) (t : Entry)
    → (t ≡ (select e items).0) ⊎ Memᴰ t (select e items).1
    → Memᴰ t (e ∷ items)
unfolding select
select-within e [] t (inl same) = Memᴰ.head same
select-within e [] t (inr m) = elim m [ ]
select-within e (x ∷ items) t m = elim (Bool-cases (less x e)) [
  | inl y ↦ skip (go (select-within x items t) (rw y at m))
  | inr n ↦ over (go (select-within e items t) (rw n at m))
]
  where
    -- What was taken from the shorter list, or stands behind the item put aside.
    go :
        {m k : Entry} {rest items' : List Entry}
        → ((t ≡ m) ⊎ Memᴰ t rest → Memᴰ t items')
        → (t ≡ m) ⊎ Memᴰ t (k ∷ rest)
        → (t ≡ k) ⊎ Memᴰ t items'
    go ih (inl same) = inr (ih (inl same))
    go ih (inr (Memᴰ.head same)) = inl same
    go ih (inr (Memᴰ.tail k)) = inr (ih (inr k))

    skip : (t ≡ e) ⊎ Memᴰ t (x ∷ items) → Memᴰ t (e ∷ x ∷ items)
    skip (inl same) = Memᴰ.head same
    skip (inr k) = Memᴰ.tail k

    over : (t ≡ x) ⊎ Memᴰ t (e ∷ items) → Memᴰ t (e ∷ x ∷ items)
    over (inl same) = Memᴰ.tail (Memᴰ.head same)
    over (inr (Memᴰ.head same)) = Memᴰ.head same
    over (inr (Memᴰ.tail k)) = Memᴰ.tail (Memᴰ.tail k)

-- What `pop` answers on a queue that is not empty: the item that no other precedes, and the others.
pub record Popped (q : List Entry) (m : Entry) (rest : List Entry) : Type 0 where
  pub first : (t : Entry) → Memᴰ t q → less t m ≡ false
  pub split : (t : Entry) → Memᴰ t q → (t ≡ m) ⊎ Memᴰ t rest
  pub taken : Memᴰ m q
  pub others : (t : Entry) → Memᴰ t rest → Memᴰ t q
  pub counted : (f : Entry → Bool) → count f (m ∷ rest) ≡ count f q
  pub shorter : length q ≡ suc (length rest)

pub pop-Popped :
    (q : List Entry) {m : Entry} {rest : List Entry} → pop q ≡ some (m, rest) → Popped q m rest
unfolding pop
pop-Popped [] h = cc
pop-Popped (e ∷ items) {m} {rest} h =
    let same : select e items ≡ (m, rest) = some-injective _ _ h in
    subst (λ (r : Entry × List Entry). Popped (e ∷ items) r.0 r.1) same
      (record {
        first = select-first e items;
        split = select-split e items;
        taken = select-within e items (select e items).0 (inl refl);
        others = λ t k. select-within e items t (inr k);
        counted = λ f. select-count f e items;
        shorter = omega (arith, select-length e items);
      })

pub pop-nonempty :
    (q : List Entry) → 0 < length q → (m : Entry) × (rest : List Entry) × (pop q ≡ some (m, rest))
unfolding pop
pop-nonempty [] h = absurd (omega arith)
pop-nonempty (e ∷ items) h = ((select e items).0, (select e items).1, refl)
