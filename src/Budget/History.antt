-- ===== src/Budget/History.antt =====
-- internal/budget/guard.go: the report of a run against all that was recorded since it was last forgotten.
use mathlib.Core.List.{List, [], ◌∷◌}
use native.Mathlib.Nat.{mod-add-mod}
use sandcode.Base.Dict.{lookup, put}
use sandcode.Base.{
  ℕ, suc, ◌+◌, ◌%◌, ◌^◌, ◌≡◌, refl, sym, ◌∙◌, ap, String, Bool, true, false, str_eq, arith, inl,
  inr, eq_iff, Bool-cases, if◌then◌else◌,
}
use sandcode.Base.Int.{ℤ, pos, negsuc}
use sandcode.Budget.{
  Report, Amounts, Guard, clamp, fresh, record_attempt, record_tokens, record_cost, report, forget,
}
use sandcode.Budget.Laws.{record-report, report-put}

-- A call of the guard.
pub data Call (F : Type 0) : Type 0 where
  attempted : String → Call F
  used_tokens : String → ℤ → Call F
  spent : String → F → Call F
  forgotten : String → Call F

-- What one run has consumed, counted without a bound.
pub record Total (F : Type 0) : Type 0 where
  pub attempts : ℕ
  pub tokens : ℕ
  pub cost : F

module _ {F : Type 0} (m : Amounts F) where
  unfoldable pub perform : Call F → Guard F → Guard F
  perform (attempted id) g = (record_attempt m id g).0
  perform (used_tokens id n) g = (record_tokens m id n g).0
  perform (spent id usd) g = (record_cost m id usd g).0
  perform (forgotten id) g = forget id g

  unfoldable pub perform_all : List (Call F) → Guard F → Guard F
  unfolding perform
  perform_all [] g = g
  perform_all (c ∷ calls) g = perform_all calls (perform c g)

  abbrev pub nothing : Total F
  nothing = record { attempts = 0; tokens = 0; cost = m.zero_amount }

  -- Negative numbers and amounts are passed over.
  abbrev pub with_tokens : ℤ → Total F → Total F
  with_tokens (pos n) t = record t { tokens = t.tokens + n }
  with_tokens (negsuc n) t = t

  abbrev pub with_cost : Bool → F → Total F → Total F
  with_cost true usd t = t
  with_cost false usd t = record t { cost = m.plus t.cost usd }

  -- A call that is for the run counts for it, and forgetting starts again.
  abbrev pub count : Call F → Total F → Total F
  count (attempted id) t = record t { attempts = suc t.attempts }
  count (used_tokens id n) t = with_tokens n t
  count (spent id usd) t = with_cost (m.is_negative usd) usd t
  count (forgotten id) t = nothing

  abbrev pub run_of : Call F → String
  run_of (attempted id) = id
  run_of (used_tokens id n) = id
  run_of (spent id usd) = id
  run_of (forgotten id) = id

  unfoldable pub total : String → List (Call F) → Total F → Total F
  total j [] t = t
  total j (c ∷ calls) t = total j calls (if str_eq (run_of c) j then count c t else t)

  -- The counters of the guard are int64.
  abbrev pub shown : String → Total F → Report F
  shown j t = record {
    run_id = j;
    attempts = t.attempts % 2 ^ 64;
    tokens = t.tokens % 2 ^ 64;
    cost_usd = t.cost;
  }

  -- One call, as `record-report` puts it.
  stepped :
      (id j : String) (g g' : Guard F) (t t' : Total F) (f : Report F → Report F)
      → report m j g' ≡ (if str_eq id j then f (report m id g) else report m j g)
      → report m j g ≡ shown j t
      → f (shown j t) ≡ shown j t'
      → report m j g' ≡ shown j (if str_eq id j then t' else t)
  stepped id j g g' t t' f e h k = elim (Bool-cases (str_eq id j)) [
    | inl y ↦
        let same : report m id g ≡ report m j g = ap (λ i. report m i g) ((eq_iff id j).0 y) in
        let here : report m j g' ≡ f (report m id g) = rw y at e in
        rw y (here ∙ ap f (same ∙ h) ∙ k)
    | inr n ↦ let there : report m j g' ≡ report m j g = rw n at e in rw n (there ∙ h)
  ]

  own_report : (id : String) (r : Report F) (g : Guard F) → report m id (put id r g) ≡ r
  own_report id r g = rw (report-put m id id r g, (eq_iff id id).1 refl) refl

  new_shown : (j : String) → report m j [] ≡ shown j nothing
  unfolding report lookup
  new_shown j = refl

  module _ (plus_zero : (x : F) → m.plus x m.zero_amount ≡ x) where
    cost_shown :
        (j : String) (usd : F) (t : Total F) (b : Bool)
        → record (shown j t) {
          cost_usd = m.plus (shown j t).cost_usd (if b then m.zero_amount else usd);
        }
          ≡ shown j (with_cost b usd t)
    cost_shown j usd t true = ap (λ c. record (shown j t) { cost_usd = c }) (plus_zero t.cost)
    cost_shown j usd t false = refl

    tokens_shown :
        (j : String) (n : ℤ) (t : Total F)
        → record (shown j t) { tokens = (t.tokens % 2 ^ 64 + clamp n) % 2 ^ 64 }
          ≡ shown j (with_tokens n t)
    unfolding clamp
    tokens_shown j (pos n) t =
        ap (λ k. record (shown j t) { tokens = k }) (mod-add-mod t.tokens (2 ^ 64) n)
    tokens_shown j (negsuc n) t = ap (λ k. record (shown j t) { tokens = k }) (omega arith)

    perform-shown :
        (j : String) (c : Call F) (g : Guard F) (t : Total F)
        → report m j g ≡ shown j t
        → report m j (perform c g) ≡ shown j (if str_eq (run_of c) j then count c t else t)
    unfolding perform
    perform-shown j (attempted id) g t h =
        stepped id j g _ t _ (λ r. record r { attempts = (r.attempts + 1) % 2 ^ 64 })
          (record-report m id j (pos 0) m.zero_amount g).0 h
          (ap (λ k. record (shown j t) { attempts = k }) (omega arith))
    perform-shown j (used_tokens id n) g t h =
        stepped id j g _ t _ (λ r. record r { tokens = (r.tokens + clamp n) % 2 ^ 64 })
          (record-report m id j n m.zero_amount g).1 h (tokens_shown j n t)
    perform-shown j (spent id usd) g t h =
        stepped id j g _ t _
          (λ r. record r {
            cost_usd = m.plus r.cost_usd (if m.is_negative usd then m.zero_amount else usd);
          })
          (record-report m id j (pos 0) usd g).2 h (cost_shown j usd t (m.is_negative usd))
    perform-shown j (forgotten id) g t h =
        stepped id j g _ t _ (λ r. fresh m j) (record-report m id j (pos 0) m.zero_amount g).3 h
          refl

    perform_all-shown :
        (j : String) (calls : List (Call F)) (g : Guard F) (t : Total F)
        → report m j g ≡ shown j t
        → report m j (perform_all calls g) ≡ shown j (total j calls t)
    unfolding perform_all total
    perform_all-shown j [] g t h = h
    perform_all-shown j (c ∷ calls) g t h =
        perform_all-shown j calls (perform c g) _ (perform-shown j c g t h)

    -- After any calls of a new guard, the report of a run shows what those for the run recorded since it was last
    -- forgotten, with the counters modulo 2^64: the number of attempts, the sum of the tokens, and the amounts added
    -- up in their order, where negative ones are passed over; and each recording answers what the report then shows.
    -- The condition is that adding the zero amount changes nothing.
    pub report-total :
        (calls : List (Call F)) (j : String)
        → let g = perform_all calls [] in
          (report m j g ≡ shown j (total j calls nothing))
          × ((record_attempt m j g).1 ≡ (report m j (record_attempt m j g).0).attempts)
          × ((n : ℤ) → (record_tokens m j n g).1 ≡ (report m j (record_tokens m j n g).0).tokens)
          × ((usd : F)
              → (record_cost m j usd g).1 ≡ (report m j (record_cost m j usd g).0).cost_usd)
    unfolding record_attempt record_tokens record_cost
    report-total calls j = (
      perform_all-shown j calls [] nothing (new_shown j),
      sym (ap (λ (r : Report F). r.attempts) (own_report j _ _)),
      λ n. sym (ap (λ (r : Report F). r.tokens) (own_report j _ _)),
      λ usd. sym (ap (λ (r : Report F). r.cost_usd) (own_report j _ _)),
    )
