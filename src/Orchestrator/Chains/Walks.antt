-- ===== src/Orchestrator/Chains/Walks.antt =====
-- internal/orchestrator/dag_run.go: the visits of `decomposeChains` as a relation, and what they append.
use mathlib.Core.List.{Memᴰ, append_assoc}
use sandcode.Base.{◌+◌, ◌≡◌, refl, ap, sym, subst, String, List, [], ◌∷◌, ◌++◌, eq_iff, arith}
use sandcode.Planner.{TaskDag, ids, Distinct, Depends, deps_of, slice_at}
use sandcode.Planner.Deps.{listed-Depends}
use sandcode.Planner.Topo.{fill_dependents}
use sandcode.Planner.Topo.Count.{count, count-append, count-mem, mem-count}
use sandcode.Planner.Topo.Degrees.{fill_dependents-count}

-- Each id stands after those that it depends on, or these are in `seen`.
abbrev pub Follows : TaskDag → List String → List String → Type 0
Follows d seen [] = Unit
Follows d seen (x ∷ xs) = ((v : String) → Depends d x v → Memᴰ v seen) × Follows d (x ∷ seen) xs

Follows-weaken :
    (d : TaskDag) (seen more xs : List String)
    → ((v : String) → Memᴰ v seen → Memᴰ v more)
    → Follows d seen xs
    → Follows d more xs
Follows-weaken d seen more [] w f = tt
Follows-weaken d seen more (x ∷ xs) w f =
    (λ v e. w v (f.0 v e), Follows-weaken d (x ∷ seen) (x ∷ more) xs grow f.1)
  where
    grow : (v : String) → Memᴰ v (x ∷ seen) → Memᴰ v (x ∷ more)
    grow v (Memᴰ.head e) = Memᴰ.head e
    grow v (Memᴰ.tail m) = Memᴰ.tail (w v m)

Follows-append :
    (d : TaskDag) (seen xs ys : List String)
    → Follows d seen xs
    → Follows d seen ys
    → Follows d seen (xs ++ ys)
Follows-append d seen [] ys f g = g
Follows-append d seen (x ∷ xs) ys f g = (
  f.0,
  Follows-append d (x ∷ seen) xs ys f.1
      (Follows-weaken d seen (x ∷ seen) ys (λ v m. Memᴰ.tail m) g),
)

module _ (d : TaskDag) where
  abbrev pub children : String → List String
  children id = slice_at (fill_dependents d []) id

  abbrev pub needs : String → List String
  needs x = slice_at (deps_of d) x

  -- What the visits of a list of ids append.
  pub data Walks : List String → List String → Type 0 where
    none_left : Walks [] []
    visited :
        {id : String} {rest below after : List String}
        → Walks (children id) below
        → Walks rest after
        → Walks (id ∷ rest) (id ∷ below ++ after)

  module _ (distinct : Distinct (ids d)) where
    children-count : (x id : String) → count x (children id) ≡ count id (needs x)
    unfolding deps_of
    children-count x id = fill_dependents-count d x id distinct

    -- An id without dependencies is appended for itself only.
    pub count-free :
        (x : String) {todo out : List String}
        → needs x ≡ []
        → Walks todo out
        → count x out ≡ count x todo
    unfolding count
    count-free x e none_left = refl
    count-free x e (visited {id} {rest} {below} {after} w v) = omega (
      arith,
      count-free x e w,
      count-free x e v,
      count-append x below after,
      children-count x id,
      ap (count id) e,
    )

    -- An id with one dependency is appended for itself, and once below each visit of that.
    pub count-below :
        (x p : String) {todo out : List String}
        → needs x ≡ p ∷ []
        → Walks todo out
        → count x out ≡ count x todo + count p out
    unfolding count
    count-below x p e none_left = refl
    count-below x p e (visited {id} {rest} {below} {after} w v) = ground (
      arith,
      count-below x p e w,
      count-below x p e v,
      count-append x below after,
      count-append p below after,
      children-count x id,
      ap (count id) e,
      eq_iff p id,
      eq_iff id p,
    )

    pub child-Depends : (x id : String) → Memᴰ x (children id) → Depends d x id
    child-Depends x id m =
        listed-Depends d x id
          (count-mem id (needs x) (omega (arith, mem-count x (children id) m, children-count x id)))

    -- Where no node has two dependencies, a list of ids whose dependencies are seen is walked in order.
    module _ (single : (x v w : String) → Depends d x v → Depends d x w → v ≡ w) where
      pub Walks-Follows :
          {todo out : List String}
          → (seen : List String) → ((x v : String) → Memᴰ x todo → Depends d x v → Memᴰ v seen)
          → Walks todo out
          → Follows d seen out
      Walks-Follows seen h none_left = tt
      Walks-Follows seen h (visited {id} {rest} {below} {after} w v) = (
        λ u e. h id u (Memᴰ.head refl) e,
        Follows-append d (id ∷ seen) below after
            (Walks-Follows (id ∷ seen)
              (λ x u m e. Memᴰ.head (single x u id e (child-Depends x id m))) w)
            (Walks-Follows (id ∷ seen) (λ x u m e. Memᴰ.tail (h x u (Memᴰ.tail m) e)) v),
      )

  pub Walks-append :
      {xs ys as_first as_second : List String}
      → Walks xs as_first
      → Walks ys as_second
      → Walks (xs ++ ys) (as_first ++ as_second)
  Walks-append none_left v = v
  Walks-append {ys = ys} {as_second = b} (visited {id} {rest} {below} {after} w v) u =
      subst (Walks (id ∷ rest ++ ys)) (ap (λ l. id ∷ l) (sym (append_assoc below after b)))
        (visited w (Walks-append v u))
