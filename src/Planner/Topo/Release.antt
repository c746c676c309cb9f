-- ===== src/Planner/Topo/Release.antt =====
-- internal/planner/types.go: the inner loop of `TopoSort`.
use sandcode.Base.{
  ℕ, zero, suc, ◌+◌, ◌≡◌, refl, ap, ◌∙◌, inl, inr, String, List, [], ◌∷◌, true, false, ◌==◌, str_eq,
  eq_iff, Bool-cases, arith, if◌then◌else◌, ◌&&◌,
}
use sandcode.Base.Int.{pos}
use sandcode.Planner.Topo.{degree_at, down, is_zero, Front, lower, release}
use sandcode.Planner.Topo.Count.{count, count-snoc_if}
use sandcode.Planner.Topo.Degrees.{degree_at-put}

down-suc : (n m : ℕ) → m ≡ suc n → down (pos m) ≡ pos n
unfolding down
down-suc n m e = ap (λ k. down (pos k)) e

pub is_zero-pos : (n : ℕ) → is_zero (pos n) ≡ (n == 0)
is_zero-pos zero = refl
is_zero-pos (suc n) = ground arith

-- One round counts an id down and queues it at 0, and leaves the others as they are.
lower_hit :
    (x c : String) (f : Front) (n m : ℕ)
    → str_eq c x ≡ true
    → degree_at f.indeg x ≡ pos m
    → m ≡ suc n
    → (degree_at (lower c f).indeg x ≡ pos n)
      × (count x (lower c f).ready ≡ count x f.ready + (if n == 0 then 1 else 0))
unfolding lower
lower_hit x c f n m y h e =
    let now : down (degree_at f.indeg c) ≡ pos n =
      ap (λ z. down (degree_at f.indeg z)) ((eq_iff c x).0 y) ∙ ap down h ∙ down-suc n m e in
    (
      degree_at-put c x (down (degree_at f.indeg c)) f.indeg ∙ rw y now,
      count-snoc_if x c f.ready (is_zero (down (degree_at f.indeg c)))
          ∙ ap (λ z. count x f.ready + (if is_zero z && str_eq c x then 1 else 0)) now
          ∙ ground (arith, y, is_zero-pos n),
    )

lower_miss :
    (x c : String) (f : Front)
    → str_eq c x ≡ false
    → (degree_at (lower c f).indeg x ≡ degree_at f.indeg x)
      × (count x (lower c f).ready ≡ count x f.ready)
unfolding lower
lower_miss x c f n = (
  degree_at-put c x (down (degree_at f.indeg c)) f.indeg ∙ rw n refl,
  count-snoc_if x c f.ready (is_zero (down (degree_at f.indeg c))) ∙ ground (arith, n),
)

-- Is an id whose degree has gone down to k put into the queue, after c steps?
abbrev pub arrivals : ℕ → ℕ → ℕ
arrivals k c = if c == 0 then 0 else if k == 0 then 1 else 0

abbrev pub ReleasedTo : String → ℕ → ℕ → Front → Front → Type 0
ReleasedTo x k c f g =
    (degree_at g.indeg x ≡ pos k) × (count x g.ready ≡ count x f.ready + arrivals k c)

-- The loop counts an id down once for each entry, and queues it if that takes it to 0.
pub release_lem :
    (x : String) (k : ℕ) (children : List String) (f : Front)
    → degree_at f.indeg x ≡ pos (count x children + k)
    → ReleasedTo x k (count x children) f (release children f)
unfolding release count
release_lem x k [] f h = (h ∙ ap pos (omega arith), omega arith)
release_lem x k (c ∷ children) f h = elim (Bool-cases (str_eq c x)) [
  | inl y ↦
      let (fallen, queued) = lower_hit x c f (count x children + k) _ y h (ground (arith, y)) in
      let (at_end, later) = release_lem x k children (lower c f) fallen in
      (at_end, ground (arith, y, queued, later))
  | inr n ↦
      let (same, unqueued) = lower_miss x c f n in
      let (at_end, later) =
        release_lem x k children (lower c f) (same ∙ h ∙ ap pos (ground (arith, n))) in
      (at_end, ground (arith, n, unqueued, later))
]
