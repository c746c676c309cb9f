-- ===== src/Memory.antt =====
-- internal/memory: recall from several tiers, and the split of past runs that the enricher of prompts makes.
pub mod Recall
mod Tests
use sandcode.Base.{
  ℕ, zero, suc, ◌+◌, ◌-◌, ◌/◌, List, [], ◌∷◌, ◌++◌, Option, none, some, String, Bool, true, false,
  ◌==◌, ◌||◌, length, str_eq, ◌⊎◌, inl, inr, if◌then◌else◌,
}
use sandcode.Base.Bytes.{Bytes}
use sandcode.Base.Int.{ℤ, pos, negsuc}

pub data ItemKind : Type 0 where
  lesson past_run : ItemKind
  other : String → ItemKind

-- The score and the rest of the metadata are not read. `status` is what the metadata holds under "status", or the
-- empty text.
pub record Item : Type 0 where
  pub kind : ItemKind
  pub text : Bytes
  pub source : String
  pub status : String

-- What a tier answers to a prompt and a limit.
pub data Answer (Error : Type 0) : Type 0 where
  items : List Item → Answer Error
  failure : Error → Answer Error

abbrev pub Tier : Type 0 → Type 0
Tier Error = Bytes → ℕ → Answer Error

-- `NewArbitrator`: tiers that are nil are left out.
unfoldable pub new_arbitrator : {Error : Type 0} → List (Option (Tier Error)) → List (Tier Error)
new_arbitrator [] = []
new_arbitrator (none ∷ tiers) = new_arbitrator tiers
new_arbitrator (some t ∷ tiers) = t ∷ new_arbitrator tiers

unfoldable pub limit_or_default : ℤ → ℕ
limit_or_default (pos zero) = 10
limit_or_default (pos (suc n)) = suc n
limit_or_default (negsuc n) = 10

-- The share of each tier: limit / tiers, rounded up.
unfoldable pub per_tier : ℕ → ℕ → ℕ
per_tier limit tiers = (limit + tiers - 1) / tiers

module _ {Error : Type 0} where
  abbrev pub gathered : Answer Error → List Item × List Error → List Item × List Error
  gathered (items xs) (out, errs) = (xs ++ out, errs)
  gathered (failure e) (out, errs) = (out, e ∷ errs)

  -- The loop over the tiers: what they give, one behind the other, and their errors.
  unfoldable pub ask_tiers : Bytes → ℕ → List (Tier Error) → List Item × List Error
  ask_tiers prompt share [] = ([], [])
  ask_tiers prompt share (t ∷ tiers) = gathered (t prompt share) (ask_tiers prompt share tiers)

  -- `Arbitrator.Recall`: the items, or the errors joined where every tier failed.
  unfoldable pub recall : List (Tier Error) → Bytes → ℤ → List Item ⊎ List Error
  unfolding ask_tiers per_tier limit_or_default
  recall tiers prompt limit =
      let n = length tiers in
      let (out, errs) = ask_tiers prompt (per_tier (limit_or_default limit) n) tiers in
      if n == 0 then inl [] else if length errs == n then inr errs else inl out

unfoldable pub same_kind : ItemKind → ItemKind → Bool
same_kind lesson lesson = true
same_kind past_run past_run = true
same_kind (other a) (other b) = str_eq a b
same_kind _ _ = false

unfoldable pub filter_by_kind : List Item → ItemKind → List Item
unfolding same_kind
filter_by_kind [] kind = []
filter_by_kind (it ∷ its) kind =
    let rest = filter_by_kind its kind in if same_kind it.kind kind then it ∷ rest else rest

unfoldable pub has_failed : Item → Bool
has_failed it = str_eq it.status "failure" || str_eq it.status "cancelled"

abbrev pub add_run : Bool → Item → List Item × List Item → List Item × List Item
add_run true it (successes, failures) = (successes, it ∷ failures)
add_run false it (successes, failures) = (it ∷ successes, failures)

-- The past runs that succeeded, and those that did not.
unfoldable pub partition_runs_by_status : List Item → List Item × List Item
unfolding has_failed
partition_runs_by_status [] = ([], [])
partition_runs_by_status (it ∷ its) = add_run (has_failed it) it (partition_runs_by_status its)
