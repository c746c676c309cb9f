-- ===== src/Planner/Cycle/Trace.antt =====
-- internal/planner/types.go: the visits of `findCycle`, as a relation that carries the outcomes.
use mathlib.Core.Option.{some-injective}
use sandcode.Base.{
  ℕ, zero, suc, ◌≡◌, refl, ap, subst, sym, ◌≢◌, ◌⊎◌, inl, inr, String, List, [], ◌∷◌, none, some,
  str_eq, eq_iff, arith, Bool-cases,
}
use sandcode.Base.Dict.{Dict, put}
use sandcode.Planner.{slice_at}
use sandcode.Planner.Cycle.{
  Color, white, gray, black, Colors, Outcome, color_of, go_on, visit_each, visit_colored, visit,
  finish,
}

-- Visits cs ids ds hit: the loop over ids that starts with the colours cs ends with ds and hit.
pub data Visits (deps : Dict (List String)) : Colors → List String → Colors → String → Type 0 where
  done : {cs : Colors} → Visits deps cs [] cs ""
  back_edge :
      {cs : Colors} {id : String} {rest : List String}
      → color_of id cs ≡ gray
      → id ≢ ""
      → Visits deps cs (id ∷ rest) cs id
  blank :
      {cs ds : Colors} {id hit : String} {rest : List String}
      → id ≡ ""
      → Visits deps cs rest ds hit
      → Visits deps cs (id ∷ rest) ds hit
  skip :
      {cs ds : Colors} {id hit : String} {rest : List String}
      → color_of id cs ≡ black
      → Visits deps cs rest ds hit
      → Visits deps cs (id ∷ rest) ds hit
  found :
      {cs ds : Colors} {id hit : String} {rest : List String}
      → color_of id cs ≡ white
      → hit ≢ ""
      → Visits deps (put id gray cs) (slice_at deps id) ds hit
      → Visits deps cs (id ∷ rest) ds hit
  explored :
      {cs ds es : Colors} {id hit : String} {rest : List String}
      → color_of id cs ≡ white
      → Visits deps (put id gray cs) (slice_at deps id) ds ""
      → Visits deps (put id black ds) rest es hit
      → Visits deps cs (id ∷ rest) es hit

-- What a result of `go_on` says of the outcome it was given.
Went : (Colors → Outcome) → Outcome → Colors → String → Type 0
Went rest o ds hit =
    (o ≡ some (ds, hit)) × (hit ≢ "")
    ⊎ (cs : Colors) × (o ≡ some (cs, "")) × (rest cs ≡ some (ds, hit))

go_on-Went :
    (rest : Colors → Outcome) (o : Outcome) (ds : Colors) (hit : String)
    → go_on rest o ≡ some (ds, hit)
    → Went rest o ds hit
unfolding go_on Went
go_on-Went rest none ds hit h = cc
go_on-Went rest (some (cs, x)) ds hit h = elim (Bool-cases (str_eq x "")) [
  | inl y ↦ inr (cs, ap (λ z. some (cs, z)) ((eq_iff x "").0 y), rw (y, go_on) at h)
  | inr n ↦
      let e = some-injective _ _ (rw (n, go_on) at h) in
      inl (ap some e, subst (λ z. z ≢ "") (ap (λ r. r.1) e) (ground (arith, n, eq_iff x "")))
]

Color-cases : (c : Color) → (c ≡ white) ⊎ ((c ≡ gray) ⊎ (c ≡ black))
Color-cases white = inl refl
Color-cases gray = inr (inl refl)
Color-cases black = inr (inr refl)

module _ (deps : Dict (List String)) where
  Visits-done :
      {cs ds : Colors} {hit : String}
      → ◌≡◌ {A = Outcome} (some (cs, "")) (some (ds, hit))
      → Visits deps cs [] ds hit
  Visits-done {cs} e = subst (λ r. Visits deps cs [] r.0 r.1) (some-injective _ _ e) done

  -- One call of `visit`, where the loops it makes and that follow it are traced.
  visit_colored-Visits :
      (loop next : Colors → Outcome) (id : String) (rest : List String) (cs ds : Colors)
      (hit : String)
      → ((ps qs : Colors) (x : String)
          → loop ps ≡ some (qs, x)
          → Visits deps ps (slice_at deps id) qs x)
      → ((ps : Colors) → next ps ≡ some (ds, hit) → Visits deps ps rest ds hit)
      → (c : Color) → color_of id cs ≡ c
      → go_on next (visit_colored loop id cs c) ≡ some (ds, hit)
      → Visits deps cs (id ∷ rest) ds hit
  unfolding visit_colored Went
  visit_colored-Visits loop next id rest cs ds hit inner outer white w h =
      elim (go_on-Went next (go_on (finish id) (loop (put id gray cs))) ds hit h) [
        | inl (e, n) ↦ elim (go_on-Went (finish id) (loop (put id gray cs)) ds hit e) [
          | inl (f, _) ↦ found w n (inner _ _ _ f)
          | inr (ps, f, g) ↦ absurd (n (sym (ap (λ r. r.1) (some-injective _ _ g))))
        ]
        | inr (ps, e, t) ↦ elim (go_on-Went (finish id) (loop (put id gray cs)) ps "" e) [
          | inl (f, n) ↦ absurd (n refl)
          | inr (qs, f, g) ↦ explored w (inner _ _ _ f) (
              subst (λ z. Visits deps z rest ds hit) (sym (ap (λ r. r.0) (some-injective _ _ g)))
                (outer ps t))
        ]
      ]
  visit_colored-Visits loop next id rest cs ds hit inner outer gray g h =
      elim (go_on-Went next (some (cs, id)) ds hit h) [
        | inl (e, n) ↦
            let r = some-injective _ _ e in
            subst (λ z. Visits deps cs (id ∷ rest) z.0 z.1) r
              (back_edge g (subst (λ z. z.1 ≢ "") (sym r) n))
        | inr (ps, e, t) ↦
            let r = some-injective _ _ e in
            blank (ap (λ z. z.1) r)
              (subst (λ z. Visits deps z rest ds hit) (sym (ap (λ z. z.0) r)) (outer ps t))
      ]
  visit_colored-Visits loop next id rest cs ds hit inner outer black b h =
      elim (go_on-Went next (some (cs, "")) ds hit h) [
        | inl (e, n) ↦ absurd (n (sym (ap (λ z. z.1) (some-injective _ _ e))))
        | inr (ps, e, t) ↦ skip b (
            subst (λ z. Visits deps z rest ds hit) (sym (ap (λ z. z.0) (some-injective _ _ e)))
              (outer ps t))
      ]

  -- An outcome of the loops is an outcome of the relation.
  pub visit_each-Visits :
      (fuel : ℕ) (ids : List String) (cs ds : Colors) (hit : String)
      → visit_each (visit deps fuel) ids cs ≡ some (ds, hit)
      → Visits deps cs ids ds hit
  unfolding visit_each visit
  visit_each-Visits fuel [] cs ds hit h = Visits-done h
  visit_each-Visits zero (id ∷ rest) cs ds hit h = absurd cc
  visit_each-Visits (suc fuel) (id ∷ rest) cs ds hit h =
      visit_colored-Visits (visit_each (visit deps fuel) (slice_at deps id))
        (visit_each (visit deps (suc fuel)) rest) id rest cs ds hit
        (visit_each-Visits fuel (slice_at deps id))
        (λ ps. visit_each-Visits (suc fuel) rest ps ds hit) (color_of id cs) refl h
