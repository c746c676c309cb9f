-- ===== src/Metrics/Laws.antt =====
-- What the tracker of start times promises.
use sandcode.Base.{
  ℕ, suc, ◌≤◌, ◌≡◌, refl, ◌∙◌, String, List, [], ◌∷◌, ◌++◌, none, some, true, arith, length, str_eq,
  eq_iff, inl, inr, Option-cases, length-append,
}
use sandcode.Base.Dict.{lookup, lookup-put, lookup-delete}
use sandcode.Metrics.{StartTracker, drop_first, trim, enlist, set, take}

drop_first-length :
    (order : List String) (t : StartTracker) (n : ℕ)
    → order ≡ t.order
    → length order ≤ suc n
    → length (drop_first order t).order ≤ n
unfolding drop_first
drop_first-length [] t n same fits = rw (← same) (omega arith)
drop_first-length (x ∷ order) t n same fits = omega (arith, fits)

drop_first-capacity :
    (order : List String) (t : StartTracker) → (drop_first order t).capacity ≡ t.capacity
unfolding drop_first
drop_first-capacity [] t = refl
drop_first-capacity (x ∷ order) t = refl

enlist-fits :
    (id : String) (t : StartTracker)
    → length t.order ≤ t.capacity
    → let u = enlist id t in (length u.order ≤ u.capacity) × (u.capacity ≡ t.capacity)
unfolding enlist trim
enlist-fits id t fits =
    let longer = record t { order = t.order ++ id ∷ [] } in
    ground (
      arith,
      drop_first-length longer.order longer t.capacity refl,
      drop_first-capacity longer.order longer,
      length-append {0} t.order (id ∷ []),
    )

set-fits :
    (id : String) (ts : ℕ) (t : StartTracker)
    → length t.order ≤ t.capacity
    → (length (set id ts t).order ≤ (set id ts t).capacity) × ((set id ts t).capacity ≡ t.capacity)
set-fits id ts t fits = elim (Option-cases (lookup id t.starts)) [
  | inl missing ↦ unfold set in rw (missing, set) (enlist-fits id t fits)
  | inr (old, found) ↦ unfold set in rw (found, set) (fits, refl)
]

set-lookup : (id : String) (ts : ℕ) (t : StartTracker) → lookup id (set id ts t).starts ≡ some ts
unfolding set
set-lookup id ts t =
    let own : str_eq id id ≡ true = (eq_iff id id).1 refl in lookup-put id id ts _ ∙ rw own refl

take-found :
    (id : String) (ts : ℕ) (t : StartTracker)
    → lookup id t.starts ≡ some ts
    → ((take id t).1 ≡ some ts) × (lookup id (take id t).0.starts ≡ none)
unfolding take
take-found id ts t found =
    rw (found, take) (refl, ground (arith, lookup-delete id id t.starts, eq_iff id id))

take-missing : (id : String) (t : StartTracker) → lookup id t.starts ≡ none → (take id t).1 ≡ none
unfolding take
take-missing id t missing = rw (missing, take) refl

-- A start time that was set is taken once, whatever was evicted to make room for it; and a tracker whose
-- order is within its capacity stays so when a run is set.
pub set-take :
    (id : String) (ts : ℕ) (t : StartTracker)
    → length t.order ≤ t.capacity
    → let u = set id ts t in
      ((take id u).1 ≡ some ts)
      × ((take id (take id u).0).1 ≡ none)
      × (length u.order ≤ u.capacity)
      × (u.capacity ≡ t.capacity)
set-take id ts t fits =
    let u = set id ts t in
    let (first, gone) = take-found id ts u (set-lookup id ts t) in
    let (bounded, same) = set-fits id ts t fits in
    (first, take-missing id (take id u).0 gone, bounded, same)
