-- ===== src/Planner/Cycle/Returns.antt =====
-- internal/planner/types.go: `findCycle` returns.
use mathlib.Core.List.{Memᴰ}
use sandcode.Base.{
  ℕ, zero, suc, ◌+◌, ◌≤◌, ◌<◌, ◌≡◌, refl, ap, ◌∙◌, sym, ◌≢◌, ◌⊎◌, inl, inr, String, List, [], ◌∷◌,
  some, Bool, true, false, str_eq, eq_iff, arith, Bool-cases, length, if◌then◌else◌,
}
use sandcode.Base.Dict.{Dict, lookup, put, lookup-put}
use sandcode.Planner.{Node, ids, slice_at, deps_of}
use sandcode.Planner.Deps.{fill_deps-keys, length-ids}
use sandcode.Planner.Cycle.{
  Color, white, gray, black, Colors, Outcome, or_white, color_of, go_on, visit_each, visit_colored,
  visit, finish, search, hit_of, find_cycle,
}

pub color_of-put :
    (k j : String) (c : Color) (cs : Colors)
    → color_of j (put k c cs) ≡ (if str_eq k j then c else color_of j cs)
unfolding color_of
color_of-put k j c cs = ap or_white (lookup-put k j c cs) ∙ go (str_eq k j)
  where
    go :
        (b : Bool) → or_white (if b then some c else lookup j cs) ≡ (if b then c else color_of j cs)
    go true = refl
    go false = refl

pub color_of-mark : (k j : String) (c : Color) (cs : Colors) → k ≡ j → color_of j (put k c cs) ≡ c
color_of-mark k j c cs e =
    let same : str_eq k j ≡ true = (eq_iff k j).1 e in color_of-put k j c cs ∙ rw same refl

pub color_of-other :
    (k j : String) (c : Color) (cs : Colors) → k ≢ j → color_of j (put k c cs) ≡ color_of j cs
color_of-other k j c cs n =
    let other : str_eq k j ≡ false = ground (arith, n, eq_iff k j) in
    color_of-put k j c cs ∙ rw other refl

-- Ids of two colours are two ids.
pub colors_differ :
    {k j : String} {c d : Color} (cs : Colors)
    → c ≢ d
    → color_of k cs ≡ c
    → color_of j cs ≡ d
    → k ≢ j
colors_differ cs n h g e = n (sym h ∙ ap (λ x. color_of x cs) e ∙ g)

pub white-differs-black : white ≢ black
white-differs-black e = cc

is_white : Color → ℕ
is_white white = 1
is_white gray = 0
is_white black = 0

whites : List String → Colors → ℕ
whites [] cs = 0
whites (id ∷ rest) cs = is_white (color_of id cs) + whites rest cs

is_white-if : (b : Bool) (c d : Color) → is_white c ≡ 0 → is_white (if b then c else d) ≤ is_white d
unfolding is_white
is_white-if true c d h = omega (arith, h)
is_white-if false c d h = omega arith

whites-put :
    (known : List String) (k : String) (c : Color) (cs : Colors)
    → is_white c ≡ 0
    → whites known (put k c cs) ≤ whites known cs
unfolding whites
whites-put [] k c cs h = omega arith
whites-put (id ∷ rest) k c cs h = omega (
  arith,
  whites-put rest k c cs h,
  ap is_white (color_of-put k id c cs),
  is_white-if (str_eq k id) c (color_of id cs) h,
)

whites-mark :
    (known : List String) (k : String) (cs : Colors)
    → Memᴰ k known
    → color_of k cs ≡ white
    → whites known (put k gray cs) < whites known cs
unfolding whites is_white
whites-mark [] k cs m w = elim m [ ]
whites-mark (id ∷ rest) k cs (Memᴰ.head e) w = omega (
  arith,
  whites-put rest k gray cs refl,
  ap is_white (color_of-mark k id gray cs e),
  ap is_white (ap (λ j. color_of j cs) (sym e) ∙ w),
)
whites-mark (id ∷ rest) k cs (Memᴰ.tail m) w = omega (
  arith,
  whites-mark rest k cs m w,
  ap is_white (color_of-put k id gray cs),
  is_white-if (str_eq k id) gray (color_of id cs) refl,
)

module _ (known : List String) where
  -- A call that starts with the colours cs gives a result, and no id is white again.
  Returns : Outcome → Colors → Type 0
  Returns o cs =
      (ds : Colors) × (hit : String) × (o ≡ some (ds, hit)) × (whites known ds ≤ whites known cs)

  Returns-go_on :
      (rest : Colors → Outcome) (o : Outcome) (cs : Colors)
      → Returns o cs
      → ((ds : Colors) → whites known ds ≤ whites known cs → Returns (rest ds) ds)
      → Returns (go_on rest o) cs
  unfolding Returns go_on
  Returns-go_on rest o cs (ds, hit, e, le) next = elim (Bool-cases (str_eq hit "")) [
    | inl y ↦
        let (es, x, f, le') = next ds le in
        (es, x, rw (e, go_on) (rw (y, go_on) f), omega (arith, le, le'))
    | inr n ↦ (ds, hit, rw (e, go_on) (rw (n, go_on) refl), le)
  ]

  Returns-finish : (id : String) (cs : Colors) → Returns (finish id cs) cs
  unfolding Returns is_white
  Returns-finish id cs = (put id black cs, "", refl, whites-put known id black cs refl)

  Returns-visit_colored :
      (loop : Colors → Outcome) (id : String) (cs : Colors) (c : Color)
      → (c ≡ white → Returns (loop (put id gray cs)) (put id gray cs))
      → Returns (visit_colored loop id cs c) cs
  unfolding visit_colored Returns is_white
  Returns-visit_colored loop id cs gray inner = (cs, id, refl, omega arith)
  Returns-visit_colored loop id cs black inner = (cs, "", refl, omega arith)
  Returns-visit_colored loop id cs white inner =
      let (es, x, e, le) =
        Returns-go_on (finish id) (loop (put id gray cs)) (put id gray cs) (inner refl)
          (λ ds _. Returns-finish id ds) in
      (es, x, e, omega (arith, le, whites-put known id gray cs refl))

  module _ (deps : Dict (List String))
      (keys : (id : String) → (slice_at deps id ≡ []) ⊎ Memᴰ id known) where
    -- A loop returns where the fuel is more than the ids that are white.
    visit_each-Returns :
        (fuel : ℕ) (todo : List String) (cs : Colors)
        → whites known cs < fuel
        → Returns (visit_each (visit deps fuel) todo cs) cs
    unfolding visit_each visit
    visit_each-Returns zero todo cs h = absurd (omega (arith, h))
    visit_each-Returns (suc fuel) [] cs h = unfold Returns in (cs, "", refl, omega arith)
    visit_each-Returns (suc fuel) (id ∷ rest) cs h =
        Returns-go_on (visit_each (visit deps (suc fuel)) rest) _ cs
          (Returns-visit_colored (visit_each (visit deps fuel) (slice_at deps id)) id cs
            (color_of id cs)
            (λ w. elim (keys id) [
              | inl none_listed ↦
                  unfold Returns visit_each in
                  rw (none_listed, visit_each) (put id gray cs, "", refl, omega arith)
              | inr m ↦
                  visit_each-Returns fuel (slice_at deps id) (put id gray cs)
                    (omega (arith, h, whites-mark known id cs m w))
            ]))
          (λ ds le. visit_each-Returns (suc fuel) rest ds (omega (arith, h, le)))

whites-length : (known : List String) (cs : Colors) → whites known cs ≤ length known
unfolding whites
whites-length [] cs = omega arith
whites-length (id ∷ rest) cs = omega (arith, whites-length rest cs, at_most_one (color_of id cs))
  where
    at_most_one : (c : Color) → is_white c ≤ 1
    at_most_one white = unfold is_white in omega arith
    at_most_one gray = unfold is_white in omega arith
    at_most_one black = unfold is_white in omega arith

search-Returns : (ns : List Node) → Returns (ids ns) (search ns) []
unfolding search deps_of slice_at
search-Returns ns =
    visit_each-Returns (ids ns) (deps_of ns) (fill_deps-keys ns []) (suc (length ns)) (ids ns) []
      (omega (arith, whites-length (ids ns) [], length-ids ns))

-- The search of any graph ends within the fuel it is given: `visit` is not entered below itself more
-- often than there are nodes.
pub find_cycle_returns : (ns : List Node) → (hit : String) × (find_cycle ns ≡ some hit)
unfolding find_cycle Returns
find_cycle_returns ns = let (ds, hit, e, _) = search-Returns ns in (hit, ap hit_of e)
