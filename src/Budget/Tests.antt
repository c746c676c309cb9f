-- ===== src/Budget/Tests.antt =====
-- A guard in which two runs are counted, with natural numbers for the amounts.
use sandcode.Base.{ℕ, ◌+◌, ◌≡◌, List, [], ◌∷◌, false, arith}
use sandcode.Base.Int.{ℤ, pos, negsuc}
use sandcode.Budget.{Amounts, report, record_attempt, record_tokens, record_cost}
use sandcode.Budget.History.{
  Call, attempted, used_tokens, spent, perform_all, nothing, total, shown, report-total,
}

abbrev cents : Amounts ℕ
cents = record { zero_amount = 0; plus = λ a b. a + b; is_negative = λ a. false }

abbrev calls : List (Call ℕ)
calls =
    attempted "r1"
    ∷ used_tokens "r1" (pos 5)
    ∷ attempted "r2"
    ∷ used_tokens "r1" (negsuc 2)
    ∷ spent "r1" 7
    ∷ []

report-total_example :
    let g = perform_all cents calls [] in
    (report cents "r1" g ≡ shown cents "r1" (total cents "r1" calls (nothing cents)))
    × ((record_attempt cents "r1" g).1
        ≡ (report cents "r1" (record_attempt cents "r1" g).0).attempts)
    × ((n : ℤ)
        → (record_tokens cents "r1" n g).1
          ≡ (report cents "r1" (record_tokens cents "r1" n g).0).tokens)
    × ((usd : ℕ)
        → (record_cost cents "r1" usd g).1
          ≡ (report cents "r1" (record_cost cents "r1" usd g).0).cost_usd)
report-total_example = report-total cents (λ x. omega arith) calls "r1"
