-- ===== src/Budget/Laws.antt =====
-- The guard is a map from every run to its report, with the zero report for the runs it has not seen.
use sandcode.Base.{
  ◌+◌, ◌%◌, ◌^◌, ◌≡◌, refl, sym, ◌∙◌, ap, String, none, str_eq, eq_iff, if◌then◌else◌, inl, inr,
  Bool-cases, Option-cases,
}
use sandcode.Base.Int.{ℤ}
use sandcode.Base.Dict.{lookup, put, lookup-put, lookup-delete}
use sandcode.Budget.{
  Report, Amounts, Guard, clamp, fresh, ensure, record_attempt, record_tokens, record_cost, report,
  forget,
}

module _ {F : Type 0} (m : Amounts F) where
  pub report-put :
      (id j : String) (r : Report F) (g : Guard F)
      → report m j (put id r g) ≡ (if str_eq id j then r else report m j g)
  unfolding report
  report-put id j r g = elim (Bool-cases (str_eq id j)) [
    | inl y ↦ rw (lookup-put id j r g, y) refl
    | inr n ↦ rw (lookup-put id j r g, n) refl
  ]

  ensure-report : (id : String) (g : Guard F) → (ensure m id g).0 ≡ report m id g
  unfolding ensure report
  ensure-report id g = elim (Option-cases (lookup id g)) [
    | inl e ↦ rw (e, ensure) refl
    | inr (r, e) ↦ rw (e, ensure) refl
  ]

  report-fresh : (id : String) (g : Guard F) → lookup id g ≡ none → report m id g ≡ fresh m id
  unfolding report
  report-fresh id g e = rw e refl

  -- The entry that `ensure` creates changes no report.
  ensure_same : (id j : String) (g : Guard F) → report m j (ensure m id g).1 ≡ report m j g
  unfolding ensure
  ensure_same id j g = elim (Option-cases (lookup id g)) [
    | inl e ↦ rw (e, ensure) (report-put id j (fresh m id) g ∙ created e)
    | inr (r, e) ↦ rw (e, ensure) refl
  ]
    where
      created :
          lookup id g ≡ none → (if str_eq id j then fresh m id else report m j g) ≡ report m j g
      created e = elim (Bool-cases (str_eq id j)) [
        | inl y ↦
            rw y (sym (ap (λ k. report m k g) (sym ((eq_iff id j).0 y)) ∙ report-fresh id g e))
        | inr n ↦ rw n refl
      ]

  forget-report :
      (id j : String) (g : Guard F)
      → report m j (forget id g) ≡ (if str_eq id j then fresh m j else report m j g)
  unfolding forget report
  forget-report id j g = elim (Bool-cases (str_eq id j)) [
    | inl y ↦ rw (lookup-delete id j g, y) refl
    | inr n ↦ rw (lookup-delete id j g, n) refl
  ]

  -- One operation, by the counters it found.
  pub record-report :
      (id j : String) (n : ℤ) (usd : F) (g : Guard F)
      → let old = report m id g in
        (report m j (record_attempt m id g).0 ≡ (
          if str_eq id j
          then record old { attempts = (old.attempts + 1) % 2 ^ 64 }
          else report m j g))
        × (report m j (record_tokens m id n g).0 ≡ (
            if str_eq id j
            then record old { tokens = (old.tokens + clamp n) % 2 ^ 64 }
            else report m j g))
        × (report m j (record_cost m id usd g).0 ≡ (
            if str_eq id j
            then record old {
              cost_usd = m.plus old.cost_usd (if m.is_negative usd then m.zero_amount else usd);
            }
            else report m j g))
        × (report m j (forget id g) ≡ (if str_eq id j then fresh m j else report m j g))
  unfolding record_attempt record_tokens record_cost
  record-report id j n usd g = (
    written (λ r. record r { attempts = (r.attempts + 1) % 2 ^ 64 }),
    written (λ r. record r { tokens = (r.tokens + clamp n) % 2 ^ 64 }),
    written (λ r. record r {
      cost_usd = m.plus r.cost_usd (if m.is_negative usd then m.zero_amount else usd);
    }),
    forget-report id j g,
  )
    where
      written :
          (f : Report F → Report F)
          → report m j (put id (f (ensure m id g).0) (ensure m id g).1)
            ≡ (if str_eq id j then f (report m id g) else report m j g)
      written f =
          report-put id j (f (ensure m id g).0) (ensure m id g).1
          ∙ ap (λ r. if str_eq id j then f r else report m j (ensure m id g).1) (ensure-report id g)
          ∙ ap (λ r. if str_eq id j then f (report m id g) else r) (ensure_same id j g)
