-- ===== src/Planner/Topo/Pending.antt =====
-- internal/planner/types.go: the dependencies of a node that `TopoSort` has not put out yet.
use mathlib.Core.List.{Memᴰ}
use mathlib.Core.List.Memᴰ
use sandcode.Base.{
  ℕ, ◌+◌, ◌≡◌, refl, ap, ◌∙◌, String, List, [], ◌∷◌, ◌++◌, true, false, eq_iff, arith,
  if◌then◌else◌, length,
}
use sandcode.Planner.Validate.{known}
use sandcode.Planner.Topo.Count.{count, known-append}

-- The entries of a list of dependencies that are not yet out.
pub pending : List String → List String → ℕ
pending [] out = 0
pending (dep ∷ deps) out = (if known dep out then 0 else 1) + pending deps out

pub pending-nil : (deps : List String) → pending deps [] ≡ length deps
unfolding pending known
pending-nil [] = refl
pending-nil (dep ∷ deps) = omega (arith, pending-nil deps)

pub pending-snoc :
    (deps out : List String) (id : String)
    → known id out ≡ false
    → pending deps out ≡ count id deps + pending deps (out ++ id ∷ [])
unfolding pending count known
pending-snoc [] out id h = omega arith
pending-snoc (dep ∷ deps) out id h = ground (
  arith,
  h,
  pending-snoc deps out id h,
  known-append dep out (id ∷ []),
  eq_iff id dep,
  eq_iff dep id,
)

pub pending-known :
    (deps out : List String) (v : String) → pending deps out ≡ 0 → Memᴰ v deps → known v out ≡ true
unfolding pending
pending-known [] out v h m = absurd (Memᴰ.not-nil m)
pending-known (dep ∷ deps) out v h (Memᴰ.head e) =
    let here : known dep out ≡ true = ground (arith, h) in ap (λ z. known z out) e ∙ here
pending-known (dep ∷ deps) out v h (Memᴰ.tail m) = pending-known deps out v (ground (arith, h)) m

pub known-pending :
    (deps out : List String)
    → ((v : String) → Memᴰ v deps → known v out ≡ true)
    → pending deps out ≡ 0
unfolding pending
known-pending [] out h = refl
known-pending (dep ∷ deps) out h =
    ground (arith, h dep (Memᴰ.head refl), known-pending deps out (λ v m. h v (Memᴰ.tail m)))
