-- ===== src/Server/StateCache/Counts.antt =====
-- How often a run stands in the map and in the order of the cache.
use sandcode.Base.{
  ℕ, suc, ◌+◌, ◌≤◌, ◌≡◌, refl, String, List, [], ◌∷◌, ◌++◌, none, some, arith, length, str_eq,
  eq_iff, if◌then◌else◌,
}
use sandcode.Base.Dict.{Dict, lookup, delete}
use sandcode.Runtime.StateMachine.{ExecutionState}
use sandcode.Server.StateCache.{remove_first}

unfoldable pub entries : String → Dict ExecutionState → ℕ
entries id [] = 0
entries id ((k, st) ∷ m) = (if str_eq k id then 1 else 0) + entries id m

unfoldable pub places : String → List String → ℕ
places id [] = 0
places id (x ∷ order) = (if str_eq x id then 1 else 0) + places id order

pub entries-delete :
    (id k : String) (m : Dict ExecutionState)
    → entries id (delete k m) ≡ (if str_eq k id then 0 else entries id m)
unfolding entries delete
entries-delete id k [] = ground arith
entries-delete id k ((j, st) ∷ m) =
    ground (arith, entries-delete id k m, eq_iff j k, eq_iff k id, eq_iff j id)

pub length-delete :
    (k : String) (m : Dict ExecutionState) → length (delete k m) + entries k m ≡ length m
unfolding entries delete
length-delete k [] = refl
length-delete k ((j, st) ∷ m) = ground (arith, length-delete k m)

pub entries-none : (k : String) (m : Dict ExecutionState) → lookup k m ≡ none → entries k m ≡ 0
unfolding entries lookup
entries-none k [] h = refl
entries-none k ((j, st) ∷ m) h = ground (arith, entries-none k m)

pub entries-some :
    (k : String) (m : Dict ExecutionState) (st : ExecutionState)
    → lookup k m ≡ some st
    → 1 ≤ entries k m
unfolding entries lookup
entries-some k [] st h = cc
entries-some k ((j, x) ∷ m) st h = ground (arith, entries-some k m st)

pub places-snoc :
    (id x : String) (order : List String)
    → places id (order ++ x ∷ []) ≡ places id order + (if str_eq x id then 1 else 0)
unfolding places
places-snoc id x [] = omega arith
places-snoc id x (y ∷ order) = omega (arith, places-snoc id x order)

pub places-remove :
    (id x : String) (order : List String)
    → 1 ≤ places x order
    → places id (remove_first x order) + (if str_eq x id then 1 else 0) ≡ places id order
unfolding places remove_first
places-remove id x [] h = absurd (omega arith)
places-remove id x (y ∷ order) h =
    ground (arith, places-remove id x order, eq_iff y x, eq_iff x id, eq_iff y id)

pub length-remove_first :
    (x : String) (order : List String)
    → 1 ≤ places x order
    → suc (length (remove_first x order)) ≡ length order
unfolding places remove_first
length-remove_first x [] h = absurd (omega arith)
length-remove_first x (y ∷ order) h = ground (arith, length-remove_first x order)
