-- ===== src/Metrics/Tests.antt =====
-- The tracker of start times at concrete runs.
use sandcode.Base.{◌≤◌, ◌≡◌, [], ◌∷◌, none, some, arith, length}
use sandcode.Metrics.{StartTracker, set, take}
use sandcode.Metrics.Laws.{set-take}

abbrev full_tracker : StartTracker
full_tracker = record { starts = ("r1", 5) ∷ []; order = "r1" ∷ []; capacity = 1 }

set-take_example :
    let u = set "r2" 9 full_tracker in
    ((take "r2" u).1 ≡ some 9)
    × ((take "r2" (take "r2" u).0).1 ≡ none)
    × (length u.order ≤ u.capacity)
    × (u.capacity ≡ 1)
set-take_example = set-take "r2" 9 full_tracker (omega arith)
