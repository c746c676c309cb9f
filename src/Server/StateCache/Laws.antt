-- ===== src/Server/StateCache/Laws.antt =====
-- What the cache answers after an event: it never panics, and it holds the state of the event's run.
use sandcode.Base.{
  ℕ, zero, suc, ◌≤◌, ◌<◌, ◌≡◌, refl, sym, ap, subst, ◌∙◌, ◌≢◌, inl, inr, String, List, [], ◌∷◌,
  ◌++◌, Option, none, some, true, false, arith, length, eq_iff, Option-cases,
}
use sandcode.Base.Int.{ℤ, pos, negsuc}
use sandcode.Base.Dict.{lookup, put, lookup-put, lookup-delete}
use sandcode.Event.{Event}
use sandcode.Runtime.Phase.{is_terminal}
use sandcode.Runtime.StateMachine.{ExecutionState, Clock, new_execution_state}
use sandcode.Runtime.StateMachine
use sandcode.Server.StateCache.{
  StateCache, new_state_cache, has_ended, drop_run, evict_if_full, write, insert, apply, forget,
  get,
}
use sandcode.Server.StateCache.Counts.{entries, places, entries-none, entries-some}
use sandcode.Server.StateCache.Invariant.{
  IsBounded, Eviction, spared, ended, oldest, evict-Eviction, insert-IsListed, drop_run-IsListed,
  drop_run-length, write-IsListed, write-length, length-put,
}

write-get :
    (id : String) (old st : ExecutionState) (c : StateCache)
    → lookup id c.states ≡ some old
    → get id (write id st c) ≡ some st
unfolding write get
write-get id old st c found =
    rw (found, write) (ground (arith, lookup-put id id st c.states, eq_iff id id))

write-IsBounded :
    (id : String) (st : ExecutionState) (c : StateCache) → IsBounded c → IsBounded (write id st c)
write-IsBounded id st c h = record {
  listed = write-IsListed c h.listed id st;
  fits = omega (arith, h.fits, write-length c h.listed id st);
  roomy = omega (arith, h.roomy, write-length c h.listed id st);
}

places-head : (x : String) (order : List String) → 1 ≤ places x (x ∷ order)
unfolding places
places-head x order = ground (arith, eq_iff x x)

places_first :
    (q : List String) (id x : String) (order : List String)
    → q ++ id ∷ [] ≡ x ∷ order
    → 0 < length q
    → 1 ≤ places x q
unfolding places
places_first [] id x order h l = absurd (omega (arith, l))
places_first (y ∷ q) id x order h l = let same : y ≡ x = cc in ground (arith, eq_iff y x, same)

-- A new run that is not over survives the eviction that it causes.
module _ (c : StateCache) (h : IsBounded c) (id : String) (st : ExecutionState)
    (missing : lookup id c.states ≡ none) (live : is_terminal st.phase ≡ false) where
  grown : length (insert id st c).states ≡ suc (length c.states)
  grown = omega (arith, length-put id st c.states, entries-none id c.states missing)

  drop-IsBounded :
      (x : String) → 1 ≤ places x (insert id st c).order → IsBounded (drop_run x (insert id st c))
  unfolding drop_run
  drop-IsBounded x there =
      let l = insert-IsListed c h.listed id st missing in
      record {
        listed = drop_run-IsListed (insert id st c) l x there;
        fits = omega (arith, drop_run-length (insert id st c) l x there, grown, h.fits);
        roomy = h.roomy;
      }

  survives : (x : String) → x ≢ id → lookup id (drop_run x (insert id st c)).states ≡ some st
  unfolding drop_run
  survives x other = ground (
    arith,
    lookup-delete x id (put id st c.states),
    lookup-put id id st c.states,
    eq_iff x id,
    eq_iff id id,
    other,
  )

  not_ended : (x : String) → has_ended (lookup x (put id st c.states)) ≡ true → x ≢ id
  not_ended x done e =
      let at_id : has_ended (lookup id (put id st c.states)) ≡ true =
        subst (λ k. has_ended (lookup k (put id st c.states)) ≡ true) e done in
      let found : lookup id (put id st c.states) ≡ some st =
        ground (arith, lookup-put id id st c.states, eq_iff id id) in
      ground (arith, live, sym (ap has_ended found) ∙ at_id)

  not_oldest :
      (x : String) (order : List String)
      → c.capacity < length (put id st c.states)
      → c.order ++ id ∷ [] ≡ x ∷ order
      → x ≢ id
  not_oldest x order over split e =
      let there =
        places_first c.order id x order split
          (omega (arith, over, grown, h.roomy, h.listed.sized)) in
      let there' : 1 ≤ places id c.order = subst (λ k. 1 ≤ places k c.order) e there in
      omega (arith, there', entries-none id c.states missing, h.listed.matches id)

  evicted :
      {o : Option StateCache}
      → Eviction (insert id st c) o
      → (kept : StateCache) × (o ≡ some kept) × IsBounded kept × (lookup id kept.states ≡ some st)
  evicted (spared room) = (
    insert id st c,
    refl,
    record { listed = insert-IsListed c h.listed id st missing; fits = room; roomy = h.roomy },
    ground (arith, lookup-put id id st c.states, eq_iff id id),
  )
  evicted (ended x over there done) =
      (drop_run x (insert id st c), refl, drop-IsBounded x there, survives x (not_ended x done))
  evicted (oldest x order over split) = (
    drop_run x (insert id st c),
    refl,
    drop-IsBounded x (subst (λ q. 1 ≤ places x q) (sym split) (places-head x order)),
    survives x (not_oldest x order over split),
  )

-- The state of the run of an event as it is before: the one that the cache holds, or a fresh one.
abbrev pub state_before : ℕ → Event → Option ExecutionState → ExecutionState
state_before now ev none = new_execution_state now ev.run_id
state_before now ev (some st) = st

new_live : (now : ℕ) (id : String) → is_terminal (new_execution_state now id).phase ≡ false
unfolding new_execution_state is_terminal
new_live now id = refl

get-lookup : (id : String) (c : StateCache) → get id c ≡ lookup id c.states
unfolding get
get-lookup id c = refl

module _ (clock : Clock) (now : ℕ) (ev : Event) (c : StateCache) where
  apply-known :
      (st : ExecutionState)
      → lookup ev.run_id c.states ≡ some st
      → apply clock now ev c ≡ some (write ev.run_id (StateMachine.apply clock ev st).0 c)
  unfolding apply
  apply-known st found = rw (found, apply) refl

  apply-new :
      (kept : StateCache)
      → lookup ev.run_id c.states ≡ none
      → evict_if_full (insert ev.run_id (new_execution_state now ev.run_id) c) ≡ some kept
      → apply clock now ev c
        ≡ some (
            write ev.run_id
              (StateMachine.apply clock ev (new_execution_state now ev.run_id)).0
              kept)
  unfolding apply
  apply-new kept missing e = rw (missing, apply) (rw (e, apply) refl)

-- In a cache that holds each of its runs once and no more than its capacity, which is positive, an event
-- is taken without a panic, the cache stays so, and it then answers for the event's run the state that
-- `Apply` makes of the one before, whatever was evicted.
pub apply-IsBounded :
    (clock : Clock) (now : ℕ) (ev : Event) (c : StateCache)
    → IsBounded c
    → (after : StateCache) × (apply clock now ev c ≡ some after)
      × IsBounded after
      × (get ev.run_id after
          ≡ some (StateMachine.apply clock ev (state_before now ev (get ev.run_id c))).0)
apply-IsBounded clock now ev c h = elim (Option-cases (lookup ev.run_id c.states)) [
  | inr (st, found) ↦
      let next = (StateMachine.apply clock ev st).0 in
      (
        write ev.run_id next c,
        apply-known clock now ev c st found,
        write-IsBounded ev.run_id next c h,
        write-get ev.run_id st next c found
            ∙ ap (λ o. some (StateMachine.apply clock ev (state_before now ev o)).0)
                (sym (get-lookup ev.run_id c ∙ found)),
      )
  | inl missing ↦
      let st = new_execution_state now ev.run_id in
      let next = (StateMachine.apply clock ev st).0 in
      let listed = insert-IsListed c h.listed ev.run_id st missing in
      let (kept, e, bounded, there) =
        evicted c h ev.run_id st missing (new_live now ev.run_id)
          (evict-Eviction (insert ev.run_id st c) listed) in
      (
        write ev.run_id next kept,
        apply-new clock now ev c kept missing e,
        write-IsBounded ev.run_id next kept bounded,
        write-get ev.run_id st next kept there
            ∙ ap (λ o. some (StateMachine.apply clock ev (state_before now ev o)).0)
                (sym (get-lookup ev.run_id c ∙ missing)),
      )
]

-- A fresh cache has a positive capacity, the default where none is given, and holds nothing.
pub new-IsBounded : (capacity : ℤ) → IsBounded (new_state_cache capacity)
unfolding new_state_cache entries places
new-IsBounded capacity = record {
  listed = record { matches = λ id. refl; single = λ id. omega arith; sized = refl };
  fits = omega arith;
  roomy = roomy_capacity capacity;
}
  where
    roomy_capacity : (z : ℤ) → 1 ≤ (new_state_cache z).capacity
    roomy_capacity (pos zero) = omega arith
    roomy_capacity (pos (suc n)) = omega arith
    roomy_capacity (negsuc n) = omega arith

-- `Forget` keeps a cache bounded, with each run listed once, and the run is unknown from then on.
pub forget-IsBounded :
    (id : String) (c : StateCache)
    → IsBounded c
    → IsBounded (forget id c) × (get id (forget id c) ≡ none)
unfolding forget get drop_run
forget-IsBounded id c h = elim (Option-cases (lookup id c.states)) [
  | inl missing ↦ rw (missing, forget) (h, missing)
  | inr (st, found) ↦
      let there : 1 ≤ places id c.order =
        omega (arith, entries-some id c.states st found, h.listed.matches id) in
      rw (found, forget)
        (
          record {
            listed = drop_run-IsListed c h.listed id there;
            fits = omega (arith, drop_run-length c h.listed id there, h.fits);
            roomy = h.roomy;
          },
          ground (arith, lookup-delete id id c.states, eq_iff id id),
        )
]
