-- ===== src/Planner/Topo/Sorted.antt =====
-- internal/planner/types.go: the outer loop of `TopoSort`, and what it returns.
use mathlib.Core.List.{Memᴰ}
use mathlib.Core.WellFounded.{Acc}
use sandcode.Base.{
  ℕ, zero, suc, ◌+◌, ◌≤◌, ◌≡◌, refl, ap, ◌∙◌, sym, inl, inr, String, List, [], ◌∷◌, ◌++◌, some,
  true, false, ◌==◌, str_eq, eq_iff, Bool-cases, arith, if◌then◌else◌, length, length-append, ◌&&◌,
}
use sandcode.Base.Int.{ℤ, pos}
use sandcode.Base.Dict.{Dict, lookup}
use sandcode.Planner.{TaskDag, ids, Distinct, Depends, deps_of, slice_at}
use sandcode.Planner.Deps.{fill_deps-keys, listed-Depends, Depends-listed, length-ids}
use sandcode.Planner.Validate.{known}
use sandcode.Planner.Validate.Shape.{known-mem, mem-known}
use sandcode.Planner.Validate.Verdict.{IsValidDag, IsValidDag-Acc}
use sandcode.Planner.Topo.{
  degree_at, is_zero, fill_degrees, fill_dependents, seed, Front, release, drain, sorted, topo_sort,
  verdict,
}
use sandcode.Planner.Topo.Count.{
  count, count-append, count-known, count-unknown, count-Distinct, length-le_of_counts,
}
use sandcode.Planner.Topo.Degrees.{fill_degrees-length, fill_dependents-count, count-seed}
use sandcode.Planner.Topo.Pending.{pending, pending-nil, pending-snoc, pending-known, known-pending}
use sandcode.Planner.Topo.Release.{arrivals, release_lem, is_zero-pos}

-- Each id stands after the ids that it depends on.
pub data InOrder (d : TaskDag) : List String → Type 0 where
  nothing : InOrder d []
  next :
      {out : List String} {id : String}
      → InOrder d out
      → ((v : String) → Depends d id v → Memᴰ v out)
      → InOrder d (out ++ id ∷ [])

module _ (d : TaskDag) (distinct : Distinct (ids d)) where
  abbrev pub needs : String → List String
  needs x = slice_at (deps_of d) x

  -- At the head of the outer loop.
  pub record Inv (indeg : Dict ℤ) (ready out : List String) : Type 0 where
    pub degrees : (x : String) → degree_at indeg x ≡ pos (pending (needs x) out)
    pub placed :
        (x : String)
        → count x out + count x ready
          ≡ (if known x (ids d) && pending (needs x) out == 0 then 1 else 0)
    pub ordered : InOrder d out

  start-degrees : (x : String) → degree_at (fill_degrees d []) x ≡ pos (pending (needs x) [])
  unfolding degree_at lookup slice_at deps_of
  start-degrees x = fill_degrees-length d [] [] (λ y. refl) x ∙ ap pos (sym (pending-nil (needs x)))

  pub Inv-start : Inv (fill_degrees d []) (seed (fill_degrees d []) d) []
  unfolding count
  Inv-start = record {
    degrees = start-degrees;
    placed = λ x. ground (
      arith,
      count-seed (fill_degrees d []) d x distinct,
      ap is_zero (start-degrees x),
      is_zero-pos (pending (needs x) []),
    );
    ordered = nothing;
  }

  -- An id with dependencies is a node.
  listing_node : (x v : String) → 1 ≤ count v (needs x) → known x (ids d) ≡ true
  unfolding deps_of slice_at lookup known
  listing_node x v h = elim (fill_deps-keys d [] x) [
    | inl e ↦ absurd (omega (arith, h, ap (count v) e, count-unknown v [] refl))
    | inr m ↦ mem-known x (ids d) m
  ]

  module _ (indeg : Dict ℤ) (id : String) (ready out : List String)
      (h : Inv indeg (id ∷ ready) out) where
    -- The id at the head of the queue is not out, and all that it depends on is.
    head_fresh : (count id out ≡ 0) × (pending (needs id) out ≡ 0)
    unfolding count
    head_fresh =
        let same : str_eq id id ≡ true = (eq_iff id id).1 refl in ground (arith, h.placed id, same)

    head_unknown : known id out ≡ false
    head_unknown = elim (Bool-cases (known id out)) [
      | inl y ↦ absurd (omega (arith, count-known id out y, head_fresh.0))
      | inr n ↦ n
    ]

    abbrev children : List String
    children = slice_at (fill_dependents d []) id

    abbrev after : Front
    after = release children (record { indeg = indeg; ready = ready })

    listed : (x : String) → count x children ≡ count id (needs x)
    unfolding deps_of
    listed x = fill_dependents-count d x id distinct

    counted :
        (x : String) → pending (needs x) out ≡ count x children + pending (needs x) (out ++ id ∷ [])
    counted x = pending-snoc (needs x) out id head_unknown ∙ omega (arith, listed x)

    released :
        (x : String)
        → (degree_at after.indeg x ≡ pos (pending (needs x) (out ++ id ∷ [])))
          × (count x after.ready
              ≡ count x ready + arrivals (pending (needs x) (out ++ id ∷ [])) (count x children))
    released x =
        release_lem x (pending (needs x) (out ++ id ∷ [])) children
          (record { indeg = indeg; ready = ready }) (h.degrees x ∙ ap pos (counted x))

    Inv-round : Inv after.indeg after.ready (out ++ id ∷ [])
    unfolding count
    Inv-round = record {
      degrees = λ x. (released x).0;
      placed = λ x. ground (
        arith,
        (released x).1,
        h.placed x,
        counted x,
        listed x,
        listing_node x id,
        count-append x out (id ∷ []),
      );
      ordered = next h.ordered (λ v e.
          known-mem v out
            (pending-known (needs id) out v head_fresh.1 (Depends-listed d distinct id v e)));
    }

  -- What is out and what is ready are nodes, each once.
  room :
      (indeg : Dict ℤ) (ready out : List String)
      → Inv indeg ready out
      → length out + length ready ≤ length (ids d)
  room indeg ready out h = omega (
    arith,
    length-append out ready,
    length-le_of_counts (out ++ ready) (ids d) (λ x.
        ground (arith, h.placed x, count-append x out ready, count-Distinct x (ids d) distinct)),
  )

  -- The loop ends within the rounds that are left, and then nothing is ready.
  pub drain-Inv :
      (rounds : ℕ) (indeg : Dict ℤ) (ready out : List String)
      → Inv indeg ready out
      → length (ids d) ≤ rounds + length out
      → (end : List String) × (last : Dict ℤ) × (drain (fill_dependents d []) rounds indeg ready out
          ≡ some end)
        × Inv last [] end
  unfolding drain
  drain-Inv rounds indeg [] out h le = (out, indeg, refl, h)
  drain-Inv zero indeg (id ∷ ready) out h le = absurd (omega (arith, room indeg (id ∷ ready) out h))
  drain-Inv (suc rounds) indeg (id ∷ ready) out h le =
      drain-Inv rounds _ _ (out ++ id ∷ []) (Inv-round indeg id ready out h)
        (omega (arith, length-append out (id ∷ [])))

-- At the end every node is out: by induction on the chains of dependencies.
all_out :
    (d : TaskDag) (valid : IsValidDag d) (last : Dict ℤ) (end : List String)
    → Inv d valid.distinct last [] end
    → (x : String) → Acc (λ v u. Depends d u v) x
    → Memᴰ x (ids d)
    → known x end ≡ true
unfolding count
all_out d valid last end h x (Acc.intro _ smaller) m =
    let met = known-pending (slice_at (deps_of d) x) end λ v k.
      let e = listed-Depends d x v k in
      all_out d valid last end h v (smaller v e) (valid.resolved x v e).1 in
    elim (Bool-cases (known x end)) [
      | inl y ↦ y
      | inr n ↦
          absurd (ground (arith, h.placed x, met, count-unknown x end n, mem-known x (ids d) m))
    ]

module _ (d : TaskDag) (valid : IsValidDag d) (last : Dict ℤ) (end : List String)
    (h : Inv d valid.distinct last [] end) where
  each_once : (id : String) → count id end ≡ count id (ids d)
  unfolding count
  each_once id = elim (Bool-cases (known id (ids d))) [
    | inl y ↦
        let m = known-mem id (ids d) y in
        let out = all_out d valid last end h id (IsValidDag-Acc d valid id m) m in
        ground
          (arith, y, h.placed id, count-known id end out, count-Distinct id (ids d) valid.distinct)
    | inr n ↦ ground (arith, n, h.placed id, count-Distinct id (ids d) valid.distinct)
  ]

  as_many : length end ≡ length d
  as_many = omega (
    arith,
    length-ids d,
    length-le_of_counts end (ids d) (λ id. omega (arith, each_once id)),
    length-le_of_counts (ids d) end (λ id. omega (arith, each_once id)),
  )

  accepted : verdict d (some end) ≡ sorted end
  unfolding verdict
  accepted = ground (arith, as_many)

-- Of a graph that satisfies the conditions of `Validate`, `TopoSort` returns the ids of the nodes,
-- each once, each after the ids that it depends on.
pub topo_sort-InOrder :
    (d : TaskDag)
    → IsValidDag d
    → (out : List String) × (topo_sort d ≡ sorted out)
      × ((id : String) → count id out ≡ count id (ids d))
      × InOrder d out
unfolding topo_sort
topo_sort-InOrder d valid =
    let (end, last, e, h) =
      drain-Inv d valid.distinct (length d) (fill_degrees d []) (seed (fill_degrees d []) d) []
        (Inv-start d valid.distinct) (omega (arith, length-ids d)) in
    (end, ap (verdict d) e ∙ accepted d valid last end h, each_once d valid last end h, h.ordered)
