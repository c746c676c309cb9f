-- ===== src/Planner/Cycle/Cyclic.antt =====
-- internal/planner/types.go: what `findCycle` has found where it returns an id.
use mathlib.Core.List.{Memᴰ}
use sandcode.Planner.{Chain, start, extend}
use sandcode.Base.{
  ◌≡◌, refl, ◌∙◌, sym, subst, ◌≢◌, inl, inr, String, List, [], ◌∷◌, str_eq, eq_iff, Bool-cases,
}
use sandcode.Base.Dict.{Dict, lookup, put}
use sandcode.Planner.{slice_at}
use sandcode.Planner.Cycle.{gray, black, Colors, color_of}
use sandcode.Planner.Cycle.Trace.{Visits, done, back_edge, blank, skip, found, explored}
use sandcode.Planner.Cycle.Returns.{color_of-put, color_of-mark, color_of-other}

module _ (deps : Dict (List String)) where
  -- u lists v in the map.
  abbrev pub Lists : String → String → Type 0
  Lists u v = Memᴰ v (slice_at deps u)

  gray-put :
      (k id : String) (cs : Colors) → color_of id (put k black cs) ≡ gray → color_of id cs ≡ gray
  gray-put k id cs h = elim (Bool-cases (str_eq k id)) [
    | inl y ↦ absurd (cc (sym (color_of-mark k id black cs ((eq_iff k id).0 y)) ∙ h))
    | inr n ↦ sym (color_of-put k id black cs ∙ rw n refl) ∙ h
  ]

  not_black : (k id : String) (cs : Colors) → color_of id (put k black cs) ≡ gray → k ≢ id
  not_black k id cs h e = cc (sym (color_of-mark k id black cs e) ∙ h)

  -- A loop that finds nothing leaves no id gray that was not.
  grays_restored :
      {cs ds : Colors} {todo : List String} {hit : String}
      → hit ≡ ""
      → Visits deps cs todo ds hit
      → (id : String) → color_of id ds ≡ gray
      → color_of id cs ≡ gray
  grays_restored e done j g = g
  grays_restored e (back_edge h n) j g = absurd (n e)
  grays_restored e (blank b t) j g = grays_restored e t j g
  grays_restored e (skip b t) j g = grays_restored e t j g
  grays_restored e (found w n t) j g = absurd (n e)
  grays_restored e (explored {cs} {ds} {es} {id} w t u) j g =
      let before : color_of j (put id gray cs) ≡ gray =
        grays_restored refl t j (gray-put id j ds (grays_restored e u j g)) in
      sym (color_of-other id j gray cs (not_black id j ds (grays_restored e u j g))) ∙ before

  -- Every gray id leads to every id that the loop has before it.
  pub Leads : Colors → List String → Type 0
  Leads cs todo = (u v : String) → color_of u cs ≡ gray → Memᴰ v todo → Chain Lists u v

  pub Leads-start : (todo : List String) → Leads [] todo
  unfolding Leads color_of lookup
  Leads-start = λ todo u v g m. absurd cc

  Leads-below :
      (id : String) (rest : List String) (cs : Colors)
      → Leads cs (id ∷ rest)
      → Leads (put id gray cs) (slice_at deps id)
  unfolding Leads
  Leads-below id rest cs h u v g m = elim (Bool-cases (str_eq id u)) [
    | inl y ↦ start (subst (λ x. Lists x v) ((eq_iff id u).0 y) m)
    | inr n ↦ extend (h u id (sym (color_of-put id u gray cs ∙ rw n refl) ∙ g) (Memᴰ.head refl)) m
  ]

  Leads-after :
      (id : String) (rest : List String) (cs ds : Colors)
      → Visits deps (put id gray cs) (slice_at deps id) ds ""
      → Leads cs (id ∷ rest)
      → Leads (put id black ds) rest
  unfolding Leads
  Leads-after id rest cs ds t h u v g m =
      let before = grays_restored refl t u (gray-put id u ds g) in
      h u v (sym (color_of-other id u gray cs (not_black id u ds g)) ∙ before) (Memᴰ.tail m)

  Leads-rest :
      (id : String) (rest : List String) (cs : Colors) → Leads cs (id ∷ rest) → Leads cs rest
  unfolding Leads
  Leads-rest id rest cs h u v g m = h u v g (Memᴰ.tail m)

  pub Visits-Chain :
      {cs ds : Colors} {todo : List String} {hit : String}
      → Leads cs todo
      → hit ≢ ""
      → Visits deps cs todo ds hit
      → Chain Lists hit hit
  Visits-Chain h n done = absurd (n refl)
  Visits-Chain h n (back_edge g _) = unfold Leads in h _ _ g (Memᴰ.head refl)
  Visits-Chain h n (blank b t) = Visits-Chain (Leads-rest _ _ _ h) n t
  Visits-Chain h n (skip b t) = Visits-Chain (Leads-rest _ _ _ h) n t
  Visits-Chain h n (found w _ t) = Visits-Chain (Leads-below _ _ _ h) n t
  Visits-Chain h n (explored w t u) = Visits-Chain (Leads-after _ _ _ _ t h) n u
