-- ===== src/Planner/Topo/Degrees.antt =====
-- internal/planner/types.go: the maps that `TopoSort` fills before its loop.
use mathlib.Core.List.{Memᴰ}
use sandcode.Base.{
  ℕ, ◌+◌, ◌≡◌, refl, ap, ◌∙◌, sym, subst, ◌≢◌, inl, inr, String, List, [], ◌∷◌, ◌++◌, some, Bool,
  true, false, str_eq, eq_iff, Bool-cases, arith, if◌then◌else◌, length, ◌&&◌,
}
use sandcode.Base.Int.{ℤ, pos}
use sandcode.Base.Dict.{Dict, lookup, put, lookup-put}
use sandcode.Planner.{Node, ids, Distinct, fill_deps, slice_at}
use sandcode.Planner.Deps.{slice_at-put, slice_at-here, slice_at-elsewhere, fill_deps-other}
use sandcode.Planner.Validate.{known}
use sandcode.Planner.Validate.Shape.{known-mem}
use sandcode.Planner.Topo.{
  or_zero, degree_at, is_zero, fill_degrees, add_dependent, fill_dependents, seed,
}
use sandcode.Planner.Topo.Count.{count, count-append, count-cons_if}

pub degree_at-put :
    (k j : String) (v : ℤ) (m : Dict ℤ)
    → degree_at (put k v m) j ≡ (if str_eq k j then v else degree_at m j)
unfolding degree_at
degree_at-put k j v m = ap or_zero (lookup-put k j v m) ∙ go (str_eq k j)
  where
    go :
        (b : Bool)
        → or_zero (if b then some v else lookup j m) ≡ (if b then v else or_zero (lookup j m))
    go true = refl
    go false = refl

-- The degrees count the dependencies that the other map lists.
pub fill_degrees-length :
    (ns : List Node) (m : Dict ℤ) (n : Dict (List String))
    → ((x : String) → degree_at m x ≡ pos (length (slice_at n x)))
    → (x : String) → degree_at (fill_degrees ns m) x ≡ pos (length (slice_at (fill_deps ns n) x))
unfolding fill_degrees fill_deps
fill_degrees-length [] m n h x = h x
fill_degrees-length (k ∷ ns) m n h x =
    fill_degrees-length ns (put k.id (pos (length k.depends_on)) m) (put k.id k.depends_on n) agree
      x
  where
    agree :
        (y : String)
        → degree_at (put k.id (pos (length k.depends_on)) m) y
          ≡ pos (length (slice_at (put k.id k.depends_on n) y))
    agree y = elim (Bool-cases (str_eq k.id y)) [
      | inl e ↦
          degree_at-put k.id y (pos (length k.depends_on)) m
          ∙ rw e (ap (λ l. pos (length l)) (sym (slice_at-here k.id y k.depends_on n e)))
      | inr e ↦
          degree_at-put k.id y (pos (length k.depends_on)) m
          ∙ rw e (h y ∙ ap (λ l. pos (length l)) (sym (slice_at-elsewhere k.id y k.depends_on n e)))
    ]

add_dependent-count :
    (id : String) (deps : List String) (m : Dict (List String)) (x v : String)
    → count x (slice_at (add_dependent id deps m) v)
      ≡ (if str_eq id x then count v deps else 0) + count x (slice_at m v)
unfolding add_dependent count
add_dependent-count id [] m x v = ground arith
add_dependent-count id (dep ∷ deps) m x v = ground (
  arith,
  add_dependent-count id deps (put dep (slice_at m dep ++ id ∷ []) m) x v,
  ap (count x) (slice_at-put dep v (slice_at m dep ++ id ∷ []) m),
  count-append x (slice_at m dep) (id ∷ []),
  eq_iff dep v,
)

-- How often the nodes named x list v.
edges : String → String → List Node → ℕ
edges x v [] = 0
edges x v (n ∷ ns) = (if str_eq n.id x then count v n.depends_on else 0) + edges x v ns

fill_dependents-edges :
    (ns : List Node) (m : Dict (List String)) (x v : String)
    → count x (slice_at (fill_dependents ns m) v) ≡ edges x v ns + count x (slice_at m v)
unfolding fill_dependents edges
fill_dependents-edges [] m x v = omega arith
fill_dependents-edges (n ∷ ns) m x v = omega (
  arith,
  fill_dependents-edges ns (add_dependent n.id n.depends_on m) x v,
  add_dependent-count n.id n.depends_on m x v,
)

edges-none : (x v : String) (ns : List Node) → ¬ Memᴰ x (ids ns) → edges x v ns ≡ 0
unfolding edges
edges-none x v [] h = refl
edges-none x v (n ∷ ns) h =
    let other : n.id ≢ x = λ e. h (Memᴰ.head (sym e)) in
    ground (arith, edges-none x v ns (λ m. h (Memᴰ.tail m)), eq_iff n.id x, other)

edges-listed :
    (x v : String) (ns : List Node) (m : Dict (List String))
    → Distinct (ids ns)
    → slice_at m x ≡ []
    → edges x v ns ≡ count v (slice_at (fill_deps ns m) x)
unfolding edges fill_deps count
edges-listed x v [] m d h = rw h refl
edges-listed x v (n ∷ ns) m d h = elim (Bool-cases (str_eq n.id x)) [
  | inl y ↦
      let gone : ¬ Memᴰ x (ids ns) =
        λ k. d.0 (subst (λ z. Memᴰ z (ids ns)) (sym ((eq_iff n.id x).0 y)) k) in
      let same = ap (count v) (
        fill_deps-other ns (put n.id n.depends_on m) x gone
        ∙ slice_at-here n.id x n.depends_on m y) in
      ground (arith, same, y, edges-none x v ns gone)
  | inr f ↦ ground (
    arith,
    f,
    edges-listed x v ns (put n.id n.depends_on m) d.1
        (slice_at-elsewhere n.id x n.depends_on m f ∙ h),
  )
]

-- The dependents of v are the nodes that list v, once for each entry.
pub fill_dependents-count :
    (d : List Node) (x v : String)
    → Distinct (ids d)
    → count x (slice_at (fill_dependents d []) v) ≡ count v (slice_at (fill_deps d []) x)
unfolding slice_at lookup count
fill_dependents-count d x v h =
    omega (arith, fill_dependents-edges d [] x v, edges-listed x v d [] h refl)

-- The seed holds each node of degree 0 once.
pub count-seed :
    (indeg : Dict ℤ) (ns : List Node) (x : String)
    → Distinct (ids ns)
    → count x (seed indeg ns) ≡ (if known x (ids ns) && is_zero (degree_at indeg x) then 1 else 0)
unfolding seed count known
count-seed indeg [] x d = refl
count-seed indeg (n ∷ ns) x d = elim (Bool-cases (known n.id (ids ns))) [
  | inl k ↦ absurd (d.0 (known-mem n.id (ids ns) k))
  | inr f ↦ ground (
    arith,
    f,
    count-cons_if x n.id (seed indeg ns) (is_zero (degree_at indeg n.id)),
    count-seed indeg ns x d.1,
    eq_iff n.id x,
  )
]
