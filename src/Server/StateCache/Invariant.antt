-- ===== src/Server/StateCache/Invariant.antt =====
-- The cache lists each run it holds once, and never holds more runs than its capacity.
use mathlib.Core.Option.{some-injective}
use sandcode.Base.{
  leb→le, suc, ◌+◌, ◌≤◌, ◌<◌, ◌≡◌, refl, sym, ap, subst, ◌∙◌, inl, inr, String, List, [], ◌∷◌,
  Option, none, some, true, arith, leb, length, str_eq, eq_iff, if◌then◌else◌, Bool-cases,
  Option-cases, length-append,
}
use sandcode.Base.Dict.{Dict, lookup, put, delete}
use sandcode.Runtime.StateMachine.{ExecutionState}
use sandcode.Server.StateCache.{
  StateCache, has_ended, first_terminal, remove_first, drop_run, drop_oldest, evict_if_full, write,
  insert,
}
use sandcode.Server.StateCache.Counts.{
  entries, places, entries-delete, length-delete, entries-none, entries-some, places-snoc,
  places-remove, length-remove_first,
}

-- What holds even while the new entry stands beside a full cache.
pub record IsListed (c : StateCache) : Type 0 where
  pub matches : (id : String) → entries id c.states ≡ places id c.order
  pub single : (id : String) → entries id c.states ≤ 1
  pub sized : length c.states ≡ length c.order

pub record IsBounded (c : StateCache) : Type 0 where
  pub listed : IsListed c
  pub fits : length c.states ≤ c.capacity
  pub roomy : 1 ≤ c.capacity

entries-put :
    (id k : String) (st : ExecutionState) (m : Dict ExecutionState)
    → entries id (put k st m) ≡ (if str_eq k id then 1 else entries id m)
unfolding put entries
entries-put id k st m = ground (arith, entries-delete id k m)

pub length-put :
    (k : String) (st : ExecutionState) (m : Dict ExecutionState)
    → length (put k st m) + entries k m ≡ suc (length m)
unfolding put
length-put k st m = omega (arith, length-delete k m)

module _ (c : StateCache) (h : IsListed c) where
  pub insert-IsListed :
      (id : String) (st : ExecutionState) → lookup id c.states ≡ none → IsListed (insert id st c)
  insert-IsListed id st missing =
      let absent = entries-none id c.states missing in
      record {
        matches = λ j. ground (
          arith,
          entries-put j id st c.states,
          places-snoc j id c.order,
          h.matches j,
          absent,
          eq_iff id j,
        );
        single = λ j. ground (arith, entries-put j id st c.states, h.single j);
        sized = omega (
          arith,
          length-put id st c.states,
          absent,
          h.sized,
          length-append {0} c.order (id ∷ []),
        );
      }

  pub drop_run-IsListed : (id : String) → 1 ≤ places id c.order → IsListed (drop_run id c)
  unfolding drop_run
  drop_run-IsListed id there = record {
    matches = λ j. ground (
      arith,
      entries-delete j id c.states,
      places-remove j id c.order,
      h.matches j,
      h.matches id,
      h.single id,
      there,
      eq_iff id j,
    );
    single = λ j. ground (arith, entries-delete j id c.states, h.single j);
    sized = omega (
      arith,
      length-delete id c.states,
      length-remove_first id c.order there,
      h.sized,
      h.single id,
      h.matches id,
      there,
    );
  }

  pub drop_run-length :
      (id : String) → 1 ≤ places id c.order → suc (length (drop_run id c).states) ≡ length c.states
  unfolding drop_run
  drop_run-length id there =
      omega (arith, length-delete id c.states, h.single id, h.matches id, there)

  pub write-IsListed : (id : String) (st : ExecutionState) → IsListed (write id st c)
  unfolding write
  write-IsListed id st = elim (Option-cases (lookup id c.states)) [
    | inl missing ↦ rw (missing, write) h
    | inr (old, found) ↦
        let there = entries-some id c.states old found in
        rw (found, write)
          (record {
            matches = λ j.
                ground (
                  arith,
                  entries-put j id st c.states,
                  h.matches j,
                  h.single id,
                  there,
                  eq_iff id j,
                );
            single = λ j. ground (arith, entries-put j id st c.states, h.single j);
            sized = omega (arith, length-put id st c.states, h.sized, h.single id, there);
          })
  ]

  pub write-length :
      (id : String) (st : ExecutionState)
      → (length (write id st c).states ≡ length c.states) × ((write id st c).capacity ≡ c.capacity)
  unfolding write
  write-length id st = elim (Option-cases (lookup id c.states)) [
    | inl missing ↦ rw (missing, write) (refl, refl)
    | inr (old, found) ↦
        let there = entries-some id c.states old found in
        rw (found, write) (omega (arith, length-put id st c.states, h.single id, there), refl)
  ]

-- The run that the first pass finds stands in the order and has ended.
first_terminal-places :
    (states : Dict ExecutionState) (order : List String) (id : String)
    → first_terminal states order ≡ some id
    → (1 ≤ places id order) × (has_ended (lookup id states) ≡ true)
unfolding first_terminal places
first_terminal-places states [] id h = cc
first_terminal-places states (x ∷ order) id h = elim (Bool-cases (has_ended (lookup x states))) [
  | inl y ↦
      let same : x ≡ id = some-injective x id (rw y at h) in
      (ground (arith, eq_iff x id, same), subst (λ k. has_ended (lookup k states) ≡ true) same y)
  | inr n ↦
      let (there, ended) = first_terminal-places states order id (rw n at h) in
      (omega (arith, there), ended)
]

remove_first-head : (x : String) (order : List String) → remove_first x (x ∷ order) ≡ order
unfolding remove_first
remove_first-head x order = ground (arith, eq_iff x x)

abbrev with_order : String → StateCache → List String → Option StateCache
with_order x c order = some (record c { states = delete x c.states; order = order })

drop_oldest-drop_run :
    (x : String) (order : List String) (c : StateCache)
    → c.order ≡ x ∷ order
    → drop_oldest c.order c ≡ some (drop_run x c)
unfolding drop_oldest drop_run
drop_oldest-drop_run x order c h =
    ap (λ q. drop_oldest q c) h
    ∙ ap (with_order x c) (sym (ap (remove_first x) h ∙ remove_first-head x order))

-- What an eviction does to a cache: nothing, or it drops a run that has ended, or the oldest one.
pub data Eviction (c : StateCache) : Option StateCache → Type 0 where
  spared : length c.states ≤ c.capacity → Eviction c (some c)
  ended :
      (id : String)
      → c.capacity < length c.states
      → 1 ≤ places id c.order
      → has_ended (lookup id c.states) ≡ true
      → Eviction c (some (drop_run id c))
  oldest :
      (id : String) (order : List String)
      → c.capacity < length c.states
      → c.order ≡ id ∷ order
      → Eviction c (some (drop_run id c))

pub evict-Eviction : (c : StateCache) → IsListed c → Eviction c (evict_if_full c)
unfolding evict_if_full
evict-Eviction c h = elim (Bool-cases (leb (length c.states) c.capacity)) [
  | inl y ↦ subst (Eviction c) (sym (simp (y))) (spared (leb→le (length c.states) c.capacity y))
  | inr n ↦
      let over : c.capacity < length c.states = ground (arith, n) in
      elim (Option-cases (first_terminal c.states c.order)) [
        | inr (id, e) ↦
            let (there, done) = first_terminal-places c.states c.order id e in
            rw (n, e, evict_if_full) (ended id over there done)
        | inl e ↦
            let (x, order, split) = uncons c.order (omega (arith, h.sized)) in
            rw (n, e, evict_if_full)
              (subst (Eviction c) (sym (drop_oldest-drop_run x order c split))
                (oldest x order over split))
      ]
]
  where
    uncons :
        (q : List String) → 0 < length q → (x : String) × (order : List String) × (q ≡ x ∷ order)
    uncons [] l = absurd (omega (arith, l))
    uncons (x ∷ order) l = (x, order, refl)
