-- ===== src/Scheduler/Queue/Members.antt =====
-- Which items a queue holds after a push or a removal, where it holds each run once.
use mathlib.Core.List.{Memᴰ}
use sandcode.Base.{
  ℕ, suc, ◌+◌, ◌≤◌, ◌≡◌, refl, ap, subst, ◌≢◌, ◌⊎◌, inl, inr, String, List, [], ◌∷◌, Bool, false,
  arith, length, str_eq, eq_iff, if◌then◌else◌, Bool-cases,
}
use sandcode.Scheduler.Queue.{Entry, push, remove}
use sandcode.Scheduler.Queue.Order.{count, Popped}

unfoldable pub occurrences : String → List Entry → ℕ
unfolding count
occurrences id = count (λ x. str_eq x.run_id id)

pub record HoldsOnce (q : List Entry) : Type 0 where
  pub at_most : (id : String) → occurrences id q ≤ 1

pub occurrences-mem :
    (id : String) (q : List Entry) (t : Entry) → Memᴰ t q → t.run_id ≡ id → 1 ≤ occurrences id q
unfolding occurrences
occurrences-mem id [] t k h = elim k [ ]
occurrences-mem id (x ∷ q) t (Memᴰ.head same) h =
    ground (arith, eq_iff x.run_id id, ap (λ (e : Entry). e.run_id) same)
occurrences-mem id (x ∷ q) t (Memᴰ.tail k) h = omega (arith, occurrences-mem id q t k h)

HoldsOnce-tail : {x : Entry} {q : List Entry} → HoldsOnce (x ∷ q) → HoldsOnce q
unfolding occurrences
HoldsOnce-tail h = record { at_most = λ id. omega (arith, h.at_most id) }

-- What stays when the item of a run is removed, and that nothing else goes.
pub remove-within : (id : String) (q : List Entry) (t : Entry) → Memᴰ t (remove id q) → Memᴰ t q
unfolding remove
remove-within id [] t k = elim k [ ]
remove-within id (x ∷ q) t k = elim (Bool-cases (str_eq x.run_id id)) [
  | inl y ↦ Memᴰ.tail (rw y at k)
  | inr n ↦ go (remove-within id q t) (rw n at k)
]
  where
    go : (Memᴰ t (remove id q) → Memᴰ t q) → Memᴰ t (x ∷ remove id q) → Memᴰ t (x ∷ q)
    go ih (Memᴰ.head same) = Memᴰ.head same
    go ih (Memᴰ.tail r) = Memᴰ.tail (ih r)

pub remove-keeps :
    (id : String) (q : List Entry) (t : Entry) → Memᴰ t q → t.run_id ≢ id → Memᴰ t (remove id q)
unfolding remove
remove-keeps id [] t k h = elim k [ ]
remove-keeps id (x ∷ q) t (Memᴰ.head same) h =
    let n : str_eq x.run_id id ≡ false =
      ground (arith, eq_iff x.run_id id, ap (λ (e : Entry). e.run_id) same) in
    rw n (Memᴰ.head same)
remove-keeps id (x ∷ q) t (Memᴰ.tail k) h = elim (Bool-cases (str_eq x.run_id id)) [
  | inl y ↦ rw y k
  | inr n ↦ rw n (Memᴰ.tail (remove-keeps id q t k h))
]

pub remove-absent :
    (id : String) (q : List Entry) (t : Entry) → HoldsOnce q → Memᴰ t (remove id q) → t.run_id ≢ id
unfolding remove occurrences
remove-absent id [] t h k = elim k [ ]
remove-absent id (x ∷ q) t h k = elim (Bool-cases (str_eq x.run_id id)) [
  | inl y ↦ λ e. absurd (ground (arith, y, h.at_most id, occurrences-mem id q t (rw y at k) e))
  | inr n ↦ go (remove-absent id q t (HoldsOnce-tail h)) n (rw n at k)
]
  where
    go :
        (Memᴰ t (remove id q) → t.run_id ≢ id)
        → str_eq x.run_id id ≡ false
        → Memᴰ t (x ∷ remove id q)
        → t.run_id ≢ id
    go ih n (Memᴰ.head same) =
        λ e. ground (arith, n, eq_iff x.run_id id, ap (λ (y : Entry). y.run_id) same)
    go ih n (Memᴰ.tail r) = ih r

remove-count : (f : Entry → Bool) (id : String) (q : List Entry) → count f (remove id q) ≤ count f q
unfolding remove count
remove-count f id [] = omega arith
remove-count f id (x ∷ q) = ground (arith, remove-count f id q)

pub remove-HoldsOnce : (id : String) (q : List Entry) → HoldsOnce q → HoldsOnce (remove id q)
unfolding occurrences
remove-HoldsOnce id q h = record {
  at_most = λ j. omega (arith, h.at_most j, remove-count (λ x. str_eq x.run_id j) id q);
}

pub remove-length : (id : String) (q : List Entry) → length (remove id q) ≤ length q
unfolding remove
remove-length id [] = omega arith
remove-length id (x ∷ q) = ground (arith, remove-length id q)

pub push-split : (e : Entry) (q : List Entry) (t : Entry) → Memᴰ t (push e q) → (t ≡ e) ⊎ Memᴰ t q
unfolding push
push-split e [] t (Memᴰ.head same) = inl same
push-split e [] t (Memᴰ.tail k) = elim k [ ]
push-split e (x ∷ q) t (Memᴰ.head same) = inr (Memᴰ.head same)
push-split e (x ∷ q) t (Memᴰ.tail k) = elim (push-split e q t k) [
  | inl same ↦ inl same
  | inr r ↦ inr (Memᴰ.tail r)
]

pub push-keeps : (e : Entry) (q : List Entry) (t : Entry) → Memᴰ t q → Memᴰ t (push e q)
unfolding push
push-keeps e [] t k = elim k [ ]
push-keeps e (x ∷ q) t (Memᴰ.head same) = Memᴰ.head same
push-keeps e (x ∷ q) t (Memᴰ.tail k) = Memᴰ.tail (push-keeps e q t k)

pub push-last : (e : Entry) (q : List Entry) → Memᴰ e (push e q)
unfolding push
push-last e [] = Memᴰ.head refl
push-last e (x ∷ q) = Memᴰ.tail (push-last e q)

push-count :
    (f : Entry → Bool) (e : Entry) (q : List Entry)
    → count f (push e q) ≡ count f q + (if f e then 1 else 0)
unfolding push count
push-count f e [] = omega arith
push-count f e (x ∷ q) = omega (arith, push-count f e q)

pub push-length : (e : Entry) (q : List Entry) → length (push e q) ≡ suc (length q)
unfolding push
push-length e [] = refl
push-length e (x ∷ q) = omega (arith, push-length e q)

pub no_occurrence :
    (id : String) (q : List Entry) → ((t : Entry) → Memᴰ t q → t.run_id ≢ id) → occurrences id q ≡ 0
unfolding occurrences
no_occurrence id [] h = refl
no_occurrence id (x ∷ q) h =
    ground (
      arith,
      eq_iff x.run_id id,
      h x (Memᴰ.head refl),
      no_occurrence id q (λ t k. h t (Memᴰ.tail k)),
    )

pub push-HoldsOnce :
    (e : Entry) (q : List Entry)
    → HoldsOnce q
    → ((t : Entry) → Memᴰ t q → t.run_id ≢ e.run_id)
    → HoldsOnce (push e q)
unfolding occurrences
push-HoldsOnce e q h fresh = record {
  at_most = λ id. ground (
    arith,
    push-count (λ x. str_eq x.run_id id) e q,
    h.at_most id,
    eq_iff e.run_id id,
    no_occurrence e.run_id q fresh,
  );
}

pub pop-HoldsOnce :
    {q : List Entry} {m : Entry} {rest : List Entry}
    → Popped q m rest
    → HoldsOnce q
    → HoldsOnce rest × ((t : Entry) → Memᴰ t rest → t.run_id ≢ m.run_id)
unfolding occurrences
pop-HoldsOnce {q} {m} {rest} p h = (
  record { at_most = λ id. omega (arith, h.at_most id, p.counted (λ x. str_eq x.run_id id)) },
  λ t k e. ground (
    arith,
    h.at_most m.run_id,
    p.counted (λ x. str_eq x.run_id m.run_id),
    occurrences-mem m.run_id rest t k e,
    eq_iff m.run_id m.run_id,
  ),
)

pub cons-HoldsOnce :
    (e : Entry) (q : List Entry)
    → HoldsOnce q
    → ((t : Entry) → Memᴰ t q → t.run_id ≢ e.run_id)
    → HoldsOnce (e ∷ q)
unfolding occurrences count
cons-HoldsOnce e q h fresh = record {
  at_most = λ id. ground (arith, h.at_most id, eq_iff e.run_id id, no_occurrence e.run_id q fresh);
}

pub nothing_in : {A : Type 0} {q : List Entry} {t : Entry} → q ≡ [] → Memᴰ t q → A
nothing_in {A} {q} {t} h k = elim (subst (λ (l : List Entry). Memᴰ t l) h k) [ ]

-- Removing the run of a member makes the list one shorter.
pub remove-one :
    (t : Entry) (q : List Entry) → Memᴰ t q → length q ≡ suc (length (remove t.run_id q))
unfolding remove
remove-one t [] k = elim k [ ]
remove-one t (x ∷ q) k = elim (Bool-cases (str_eq x.run_id t.run_id)) [
  | inl y ↦ rw y refl
  | inr n ↦ rw n (go n (remove-one t q) k)
]
  where
    go :
        str_eq x.run_id t.run_id ≡ false
        → (Memᴰ t q → length q ≡ suc (length (remove t.run_id q)))
        → Memᴰ t (x ∷ q)
        → length (x ∷ q) ≡ suc (length (x ∷ remove t.run_id q))
    go n ih (Memᴰ.head same) =
        absurd (ground (arith, n, eq_iff x.run_id t.run_id, ap (λ (e : Entry). e.run_id) same))
    go n ih (Memᴰ.tail r) = omega (arith, ih r)
