-- ===== src/Planner/Cycle.antt =====
-- internal/planner/types.go: `findCycle`, the depth-first search with three colours.
pub mod Trace
pub mod Returns
pub mod Acyclic
pub mod Cyclic
use sandcode.Base.{
  ℕ, zero, suc, String, List, [], ◌∷◌, Option, none, some, Bool, true, false, length, str_eq,
}
use sandcode.Base.Dict.{Dict, lookup, put}
use sandcode.Planner.{Node, ids, slice_at, deps_of}

pub data Color : Type 0 where
  white : Color
  gray : Color
  black : Color

abbrev pub Colors : Type 0
Colors = Dict Color

abbrev pub or_white : Option Color → Color
or_white none = white
or_white (some c) = c

-- `color[id]`, whose zero value is white.
unfoldable pub color_of : String → Colors → Color
unfolding lookup
color_of id cs = or_white (lookup id cs)

-- The colours after a call and the id it returns; `none` when the fuel is spent.
abbrev pub Outcome : Type 0
Outcome = Option (Colors × String)

-- A loop that ends early on an id that is not empty.
unfoldable pub go_on : (Colors → Outcome) → Outcome → Outcome
go_on rest none = none
go_on rest (some (cs, hit)) = elim (str_eq hit "") [ true ↦ rest cs | false ↦ some (cs, hit) ]

-- The `for` loops over a list of ids that visit each.
unfoldable pub visit_each : (String → Colors → Outcome) → List String → Colors → Outcome
unfolding go_on
visit_each visit [] cs = some (cs, "")
visit_each visit (id ∷ rest) cs = go_on (visit_each visit rest) (visit id cs)

-- `color[id] = black` and the empty result, after a loop that found nothing.
abbrev pub finish : String → Colors → Outcome
finish id cs = some (put id black cs, "")

-- The three cases of `visit`.
unfoldable pub visit_colored : (Colors → Outcome) → String → Colors → Color → Outcome
unfolding go_on put
visit_colored loop id cs gray = some (cs, id)
visit_colored loop id cs black = some (cs, "")
visit_colored loop id cs white = go_on (finish id) (loop (put id gray cs))

unfoldable pub visit : Dict (List String) → ℕ → String → Colors → Outcome
unfolding visit_each visit_colored color_of slice_at
visit deps zero id cs = none
visit deps (suc fuel) id cs =
    visit_colored (visit_each (visit deps fuel) (slice_at deps id)) id cs (color_of id cs)

-- Every call of `visit` below another one makes a white id gray.
unfoldable pub search : List Node → Outcome
unfolding visit visit_each deps_of
search nodes = visit_each (visit (deps_of nodes) (suc (length nodes))) (ids nodes) []

abbrev pub hit_of : Outcome → Option String
hit_of none = none
hit_of (some (cs, hit)) = some hit

-- The id that is returned; `none` when the fuel is spent.
unfoldable pub find_cycle : List Node → Option String
unfolding search
find_cycle nodes = hit_of (search nodes)
