-- ===== src/Planner/Topo/Count.antt =====
-- How often an id stands in a list.
use mathlib.Core.List.{Memᴰ}
use sandcode.Base.{
  ℕ, suc, ◌+◌, ◌≤◌, ◌≡◌, refl, inl, inr, String, List, [], ◌∷◌, ◌++◌, Bool, true, false, str_eq,
  eq_iff, Bool-cases, arith, if◌then◌else◌, length, ◌||◌, ◌&&◌,
}
use sandcode.Planner.{Distinct}
use sandcode.Planner.Validate.{known}
use sandcode.Planner.Validate.Shape.{known-mem, mem-known}

unfoldable pub count : String → List String → ℕ
count x [] = 0
count x (y ∷ ys) = (if str_eq y x then 1 else 0) + count x ys

pub count-append : (x : String) (ys zs : List String) → count x (ys ++ zs) ≡ count x ys + count x zs
unfolding count
count-append x [] zs = omega arith
count-append x (y ∷ ys) zs = omega (arith, count-append x ys zs)

pub count-cons_if :
    (x y : String) (ys : List String) (b : Bool)
    → count x (if b then y ∷ ys else ys) ≡ (if b && str_eq y x then 1 else 0) + count x ys
unfolding count
count-cons_if x y ys true = refl
count-cons_if x y ys false = omega arith

pub count-snoc_if :
    (x y : String) (ys : List String) (b : Bool)
    → count x (if b then ys ++ y ∷ [] else ys) ≡ count x ys + (if b && str_eq y x then 1 else 0)
unfolding count
count-snoc_if x y ys true = ground (arith, count-append x ys (y ∷ []))
count-snoc_if x y ys false = omega arith

pub count-known : (x : String) (ys : List String) → known x ys ≡ true → 1 ≤ count x ys
unfolding count known
count-known x [] h = absurd cc
count-known x (y ∷ ys) h = ground (arith, count-known x ys)

pub count-unknown : (x : String) (ys : List String) → known x ys ≡ false → count x ys ≡ 0
unfolding count known
count-unknown x [] h = refl
count-unknown x (y ∷ ys) h = ground (arith, count-unknown x ys)

pub known-append :
    (x : String) (ys zs : List String) → known x (ys ++ zs) ≡ (known x ys || known x zs)
unfolding known
known-append x [] zs = refl
known-append x (y ∷ ys) zs = ground (arith, known-append x ys zs)

pub count-Distinct :
    (x : String) (ys : List String) → Distinct ys → count x ys ≡ (if known x ys then 1 else 0)
unfolding count known
count-Distinct x [] d = refl
count-Distinct x (y ∷ ys) d = elim (Bool-cases (known y ys)) [
  | inl k ↦ absurd (d.0 (known-mem y ys k))
  | inr f ↦ ground (arith, count-Distinct x ys d.1, count-unknown y ys f, f, eq_iff y x)
]

-- Take out the first entry of an id.
without : String → List String → List String
without x [] = []
without x (y ∷ ys) = let rest = without x ys in if str_eq y x then ys else y ∷ rest

count-without :
    (x z : String) (ys : List String)
    → 1 ≤ count x ys
    → count z (without x ys) + (if str_eq x z then 1 else 0) ≡ count z ys
unfolding count without
count-without x z [] h = absurd (omega (arith, h))
count-without x z (y ∷ ys) h =
    ground (arith, count-without x z ys, eq_iff y x, eq_iff x z, eq_iff y z)

length-without :
    (x : String) (ys : List String) → 1 ≤ count x ys → suc (length (without x ys)) ≡ length ys
unfolding count without
length-without x [] h = absurd (omega (arith, h))
length-without x (y ∷ ys) h = ground (arith, length-without x ys)

-- A list with no more entries of any id is not longer.
pub length-le_of_counts :
    (xs ys : List String) → ((x : String) → count x xs ≤ count x ys) → length xs ≤ length ys
unfolding count
length-le_of_counts [] ys h = omega arith
length-le_of_counts (x ∷ xs) ys h =
    let same : str_eq x x ≡ true = (eq_iff x x).1 refl in
    let there : 1 ≤ count x ys = ground (arith, h x, same) in
    let fewer = λ (z : String).
      let bound : count z xs ≤ count z (without x ys) =
        ground (arith, h z, count-without x z ys there) in
      bound in
    omega (arith, length-le_of_counts xs (without x ys) fewer, length-without x ys there)

pub count-mem : (x : String) (ys : List String) → 1 ≤ count x ys → Memᴰ x ys
count-mem x ys h = elim (Bool-cases (known x ys)) [
  | inl y ↦ known-mem x ys y
  | inr n ↦ absurd (omega (arith, h, count-unknown x ys n))
]

pub mem-count : (x : String) (ys : List String) → Memᴰ x ys → 1 ≤ count x ys
mem-count x ys m = count-known x ys (mem-known x ys m)
