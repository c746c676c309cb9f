-- ===== src/Budget.antt =====
-- internal/budget/guard.go: what each run has consumed. The counters are kept modulo 2^64, as an int64
-- keeps them; the amounts of money are of a type of their own with what the code uses of float64.
mod Tests
pub mod Laws
pub mod History
use sandcode.Base.{ℕ, ◌+◌, ◌%◌, ◌^◌, String, Option, none, some, Bool, [], if◌then◌else◌}
use sandcode.Base.Int.{ℤ, pos, negsuc}
use sandcode.Base.Dict.{Dict, lookup, put, delete}

pub record Report (F : Type 0) : Type 0 where
  pub run_id : String
  pub attempts : ℕ
  pub tokens : ℕ
  pub cost_usd : F

-- The zero amount, `+` and the test `< 0`.
pub record Amounts (F : Type 0) : Type 0 where
  pub zero_amount : F
  pub plus : F → F → F
  pub is_negative : F → Bool

abbrev pub Guard : Type 0 → Type 0
Guard F = Dict (Report F)

-- A negative number of tokens counts as none.
unfoldable pub clamp : ℤ → ℕ
clamp (pos n) = n
clamp (negsuc n) = 0

module _ {F : Type 0} (m : Amounts F) where
  abbrev pub fresh : String → Report F
  fresh id = record { run_id = id; attempts = 0; tokens = 0; cost_usd = m.zero_amount }

  abbrev pub found_or_fresh : String → Option (Report F) → Report F
  found_or_fresh id none = fresh id
  found_or_fresh id (some r) = r

  -- The entry of a run, and the map that has it.
  unfoldable pub ensure : String → Guard F → Report F × Guard F
  ensure id g = elim (lookup id g) [ none ↦ (fresh id, put id (fresh id) g) | some r ↦ (r, g) ]

  unfoldable pub record_attempt : String → Guard F → Guard F × ℕ
  record_attempt id g =
      let e = ensure id g in
      let r : Report F = record e.0 { attempts = (e.0.attempts + 1) % 2 ^ 64 } in
      (put id r e.1, r.attempts)

  unfoldable pub record_tokens : String → ℤ → Guard F → Guard F × ℕ
  record_tokens id n g =
      let e = ensure id g in
      let r : Report F = record e.0 { tokens = (e.0.tokens + clamp n) % 2 ^ 64 } in
      (put id r e.1, r.tokens)

  unfoldable pub record_cost : String → F → Guard F → Guard F × F
  record_cost id usd g =
      let e = ensure id g in
      let r : Report F = record e.0 {
        cost_usd = m.plus e.0.cost_usd (if m.is_negative usd then m.zero_amount else usd);
      } in
      (put id r e.1, r.cost_usd)

  unfoldable pub report : String → Guard F → Report F
  report id g = found_or_fresh id (lookup id g)

unfoldable pub forget : {F : Type 0} → String → Guard F → Guard F
forget id g = delete id g
