-- ===== src/Planner/Cycle/Acyclic.antt =====
-- internal/planner/types.go: what `findCycle` has found where it returns the empty string.
use mathlib.Core.List.{Memᴰ}
use mathlib.Core.List.Memᴰ
use mathlib.Core.WellFounded.{Acc}
use sandcode.Base.{
  ◌≡◌, refl, ap, ◌∙◌, sym, ◌≢◌, String, List, [], ◌∷◌, str_eq, eq_iff, subst, inl, inr, Bool-cases,
}
use sandcode.Base.Dict.{Dict, lookup, put}
use sandcode.Planner.{slice_at}
use sandcode.Planner.Cycle.{white, gray, black, Colors, color_of}
use sandcode.Planner.Cycle.Trace.{Visits, done, back_edge, blank, skip, found, explored}
use sandcode.Planner.Cycle.Returns.{
  color_of-put, color_of-mark, color_of-other, colors_differ, white-differs-black,
}

module _ (deps : Dict (List String)) where
  -- v is listed for u in the map.
  abbrev pub Listed : String → String → Type 0
  Listed v u = Memᴰ v (slice_at deps u)

  -- No chain of dependencies from a black id goes on forever.
  abbrev pub Safe : Colors → Type 0
  Safe cs = (id : String) → color_of id cs ≡ black → Acc Listed id

  pub Safe-start : Safe []
  unfolding color_of lookup
  Safe-start = λ id b. absurd cc

  -- What a loop that finds nothing has done.
  pub record Explored (cs : Colors) (todo : List String) (ds : Colors) : Type 0 where
    pub safe : Safe ds
    kept : (id : String) → color_of id cs ≡ black → color_of id ds ≡ black
    pub covered : (id : String) → Memᴰ id todo → color_of id ds ≡ black

  black-put :
      (k id : String) (cs : Colors) → color_of id cs ≡ black → color_of id (put k black cs) ≡ black
  black-put k id cs h = elim (Bool-cases (str_eq k id)) [
    | inl y ↦ color_of-mark k id black cs ((eq_iff k id).0 y)
    | inr n ↦ color_of-put k id black cs ∙ rw n h
  ]

  black-gray :
      (k id : String) (cs : Colors)
      → color_of k cs ≡ white
      → color_of id cs ≡ black
      → color_of id (put k gray cs) ≡ black
  black-gray k id cs w h =
      color_of-other k id gray cs (colors_differ cs white-differs-black w h) ∙ h

  Safe-gray : (k : String) (cs : Colors) → Safe cs → Safe (put k gray cs)
  Safe-gray k cs h id b = elim (Bool-cases (str_eq k id)) [
    | inl y ↦ absurd (cc (sym (color_of-mark k id gray cs ((eq_iff k id).0 y)) ∙ b))
    | inr n ↦ h id (sym (color_of-put k id gray cs ∙ rw n refl) ∙ b)
  ]

  Safe-black : (k : String) (cs : Colors) → Acc Listed k → Safe cs → Safe (put k black cs)
  Safe-black k cs acc h id b = elim (Bool-cases (str_eq k id)) [
    | inl y ↦ subst (Acc Listed) ((eq_iff k id).0 y) acc
    | inr n ↦ h id (sym (color_of-put k id black cs ∙ rw n refl) ∙ b)
  ]

  -- The node whose dependencies are explored is safe, and the loop goes on.
  Explored-node :
      (id : String) (rest : List String) (cs ds es : Colors)
      → color_of id cs ≡ white
      → Explored (put id gray cs) (slice_at deps id) ds
      → (Safe (put id black ds) → Explored (put id black ds) rest es)
      → Explored cs (id ∷ rest) es
  Explored-node id rest cs ds es w below after =
      let acc = Acc.intro id λ v m. below.safe v (below.covered v m) in
      let rest_done = after (Safe-black id ds acc below.safe) in
      record {
        safe = rest_done.safe;
        kept = λ j b. rest_done.kept j (black-put id j ds (below.kept j (black-gray id j cs w b)));
        covered = λ j m. first rest_done j m;
      }
    where
      first :
          Explored (put id black ds) rest es
          → (j : String) → Memᴰ j (id ∷ rest)
          → color_of j es ≡ black
      first r j (Memᴰ.head e) = r.kept j (color_of-mark id j black ds (sym e))
      first r j (Memᴰ.tail m) = r.covered j m

  Explored-skip :
      (id : String) (rest : List String) (cs ds : Colors)
      → color_of id cs ≡ black
      → Explored cs rest ds
      → Explored cs (id ∷ rest) ds
  Explored-skip id rest cs ds b r = record { safe = r.safe; kept = r.kept; covered = covers }
    where
      covers : (j : String) → Memᴰ j (id ∷ rest) → color_of j ds ≡ black
      covers j (Memᴰ.head e) = r.kept j (ap (λ x. color_of x cs) e ∙ b)
      covers j (Memᴰ.tail m) = r.covered j m

  module _ (named : (u v : String) → Listed v u → v ≢ "") where
    pub Visits-Explored :
        {cs ds : Colors} {todo : List String} {hit : String}
        → ((v : String) → Memᴰ v todo → v ≢ "")
        → Safe cs
        → hit ≡ ""
        → Visits deps cs todo ds hit
        → Explored cs todo ds
    Visits-Explored names h e done = record {
      safe = h;
      kept = λ _ b. b;
      covered = λ _ m. absurd (Memᴰ.not-nil m);
    }
    Visits-Explored names h e (back_edge g n) = absurd (n e)
    Visits-Explored names h e (blank b t) = absurd (names _ (Memᴰ.head refl) b)
    Visits-Explored names h e (skip b t) =
        Explored-skip _ _ _ _ b (Visits-Explored (λ v m. names v (Memᴰ.tail m)) h e t)
    Visits-Explored names h e (found w n t) = absurd (n e)
    Visits-Explored names h e (explored {cs} {ds} {es} {id} w t u) =
        Explored-node id _ cs ds es w (Visits-Explored (named id) (Safe-gray id cs h) refl t)
          (λ s. Visits-Explored (λ v m. names v (Memᴰ.tail m)) s e u)
