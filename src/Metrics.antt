-- ===== src/Metrics.antt =====
-- internal/metrics/starts.go: the start times of the runs in flight.
mod Tests
pub mod Laws
use sandcode.Base.{
  ℕ, String, List, [], ◌∷◌, ◌++◌, Option, none, some, ltb, length, str_eq, if◌then◌else◌,
}
use sandcode.Base.Dict.{Dict, lookup, put, delete}

pub record StartTracker : Type 0 where
  pub starts : Dict ℕ
  pub order : List String
  pub capacity : ℕ

unfoldable pub new_start_tracker : StartTracker
new_start_tracker = record { starts = []; order = []; capacity = 4096 }

-- `t.order[0]` and the cut; the order is not empty where this is called, behind an append.
unfoldable pub drop_first : List String → StartTracker → StartTracker
drop_first [] t = t
drop_first (old ∷ order) t = record t { order = order; starts = delete old t.starts }

unfoldable pub trim : StartTracker → StartTracker
trim t = if ltb t.capacity (length t.order) then drop_first t.order t else t

unfoldable pub enlist : String → StartTracker → StartTracker
unfolding trim
enlist id t = trim (record t { order = t.order ++ id ∷ [] })

abbrev ensure_listed : Option ℕ → String → StartTracker → StartTracker
ensure_listed (some _) id t = t
ensure_listed none id t = enlist id t

unfoldable pub set : String → ℕ → StartTracker → StartTracker
set id ts t =
    let t' = ensure_listed (lookup id t.starts) id t in record t' { starts = put id ts t'.starts }

unfoldable pub cut : String → List String → List String
cut id [] = []
cut id (x ∷ order) = let rest = cut id order in if str_eq x id then order else x ∷ rest

unfoldable pub take : String → StartTracker → StartTracker × Option ℕ
take id t = elim (lookup id t.starts) [
  | none ↦ (t, none)
  | some ts ↦ (record t { starts = delete id t.starts; order = cut id t.order }, some ts)
]
