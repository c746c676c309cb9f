-- ===== src/Server/StateCache.antt =====
-- internal/server/state_cache.go: the states of the runs that were seen last. The entries of the map are
-- pointers: `apply` keeps the pointer of the entry while it evicts another, and writes through it.
pub mod Counts
pub mod Invariant
pub mod Laws
use sandcode.Base.{
  ℕ, zero, suc, ◌+◌, ◌≡◌, refl, String, List, [], ◌∷◌, ◌++◌, Option, none, some, Bool, true, false,
  leb, length, str_eq, if◌then◌else◌,
}
use sandcode.Base.Int.{ℤ, pos, negsuc}
use sandcode.Base.Dict.{Dict, lookup, put, delete}
use sandcode.Event.{Event}
use sandcode.Runtime.Phase.{is_terminal}
use sandcode.Runtime.StateMachine.{ExecutionState, Clock, new_execution_state}
use sandcode.Runtime.StateMachine

abbrev pub default_capacity : ℕ
default_capacity = 1024

pub record StateCache : Type 0 where
  pub states : Dict ExecutionState
  pub order : List String
  pub capacity : ℕ

abbrev capacity_or_default : ℤ → ℕ
capacity_or_default (pos zero) = default_capacity
capacity_or_default (pos (suc n)) = suc n
capacity_or_default (negsuc n) = default_capacity

unfoldable pub new_state_cache : ℤ → StateCache
new_state_cache capacity = record {
  states = [];
  order = [];
  capacity = capacity_or_default capacity;
}

abbrev has_ended : Option ExecutionState → Bool
has_ended none = false
has_ended (some st) = is_terminal st.phase

-- The first pass of `evictIfFull`: the first run in the order whose state is terminal.
unfoldable pub first_terminal : Dict ExecutionState → List String → Option String
first_terminal states [] = none
first_terminal states (id ∷ order) =
    let later = first_terminal states order in
    if has_ended (lookup id states) then some id else later

-- The order without the place where a run stands first.
unfoldable pub remove_first : String → List String → List String
remove_first id [] = []
remove_first id (x ∷ order) =
    let rest = remove_first id order in if str_eq x id then order else x ∷ rest

unfoldable pub drop_run : String → StateCache → StateCache
drop_run id c = record c { states = delete id c.states; order = remove_first id c.order }

-- `c.order[0]`, which panics where the order is empty.
unfoldable pub drop_oldest : List String → StateCache → Option StateCache
drop_oldest [] c = none
drop_oldest (oldest ∷ order) c = some (record c { states = delete oldest c.states; order = order })

unfoldable pub evict_if_full : StateCache → Option StateCache
evict_if_full c =
    if leb (length c.states) c.capacity then some c else elim (first_terminal c.states c.order) [
      | some id ↦ some (drop_run id c)
      | none ↦ drop_oldest c.order c
    ]

-- The write through the pointer of a run's entry, which the map may have lost.
unfoldable pub write : String → ExecutionState → StateCache → StateCache
write id st c = elim (lookup id c.states) [
  | none ↦ c
  | some _ ↦ record c { states = put id st c.states }
]

abbrev pub insert : String → ExecutionState → StateCache → StateCache
insert id st c = record c { states = put id st c.states; order = c.order ++ id ∷ [] }

-- `none` stands for a panic; `now` is what `NewExecutionState` reads from the clock.
unfoldable pub apply : Clock → ℕ → Event → StateCache → Option StateCache
apply clock now ev c = elim (lookup ev.run_id c.states) [
  | some st ↦ some (write ev.run_id (StateMachine.apply clock ev st).0 c)
  | none ↦
      let st = new_execution_state now ev.run_id in
      elim (evict_if_full (insert ev.run_id st c)) [
        | none ↦ none
        | some kept ↦ some (write ev.run_id (StateMachine.apply clock ev st).0 kept)
      ]
]

-- The handler of `Attach`.
unfoldable pub handle : Clock → ℕ → Event → StateCache → Option StateCache
handle clock now ev c = if str_eq ev.run_id "" then some c else apply clock now ev c

unfoldable pub get : String → StateCache → Option ExecutionState
get id c = lookup id c.states

unfoldable pub list : Dict ExecutionState → List String → List ExecutionState
list states [] = []
list states (id ∷ order) =
    let rest = list states order in elim (lookup id states) [ none ↦ rest | some st ↦ st ∷ rest ]

unfoldable pub forget : String → StateCache → StateCache
forget id c = elim (lookup id c.states) [ none ↦ c | some _ ↦ drop_run id c ]
