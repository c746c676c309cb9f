-- ===== src/Governance/Table/Tests.antt =====
-- internal/governance/audit.go: a table as a list of rows, the last one first, and two rows appended to it.
use sandcode.Base.{
  ◌≡◌, refl, ap, ◌∙◌, All, ◌≢◌, String, List, [], ◌∷◌, Option, none, some, Bool, true, false,
  str_eq, eq_iff, ◌⊎◌, inr, if◌then◌else◌,
}
use sandcode.Governance.Audit.{AuditRow}
use sandcode.Governance.Table.{
  Stored, append, filled, to_stored, from_stored, from_each, list_by_run, place, join, split,
}
use sandcode.Governance.Table.Laws.{IsTable, IsLine, Placed, append-list_by_run}

abbrev Table : Type 0
Table = List Stored

-- `id` is the primary key.
abbrev has_id : String → Table → Bool
has_id id [] = false
has_id id (s ∷ db) = let rest = has_id id db in if str_eq id s.id then true else rest

abbrev unless_taken : Bool → Stored → Table → Option String × Table
unless_taken taken s db = if taken then (some "constraint failed", db) else (none, s ∷ db)

abbrev insert : Stored → Table → Option String × Table
insert s db = unless_taken (has_id s.id db) s db

abbrev rows_of : String → Table → List Stored
unfolding place
rows_of run [] = []
rows_of run (s ∷ db) =
    let rest = rows_of run db in if str_eq run s.run_id then place s rest else rest

abbrev select : String → Table → String ⊎ List Stored
select run db = inr (rows_of run db)

grown :
    (taken : Bool) (s : Stored) (db : Table)
    → (unless_taken taken s db).0 ≡ none
    → (unless_taken taken s db).1 ≡ s ∷ db
grown true s db h = cc
grown false s db h = refl

own_first :
    (s : Stored) (db : Table) (rows : List Stored)
    → select s.run_id db ≡ inr rows
    → select s.run_id (s ∷ db) ≡ inr (place s rows)
unfolding rows_of place
own_first s db rows e =
    let same : rows_of s.run_id db ≡ rows = cc in
    let own : str_eq s.run_id s.run_id ≡ true = (eq_iff s.run_id s.run_id).1 refl in
    rw (own, same) refl

list-IsTable : IsTable insert select
unfolding rows_of
list-IsTable = record {
  select-insert = λ s db rows h e.
      ap (λ d. select s.run_id d) (grown (has_id s.id db) s db h) ∙ own_first s db rows e;
  select-other = λ s db run h e. ap (λ d. select run d) (grown (has_id s.id db) s db h) ∙ rw e refl;
}

abbrev denial : AuditRow
denial = record {
  id = "";
  run_id = "r";
  action_type = "execute";
  result = "deny";
  reasons = (97 ∷ []) ∷ (98 ∷ []) ∷ [];
  policy_name = "";
  approver = "";
  created_at = 0;
}

abbrev one_row : Table
one_row = (append insert "a" 5 denial []).1

reasons-IsLine : All IsLine denial.reasons
reasons-IsLine = ((refl, tt), ((refl, tt), tt))

some_text : denial.reasons ≢ [] ∷ []
some_text h = cc

inserted : (append insert "b" 9 denial one_row).0 ≡ none
unfolding append filled to_stored join
inserted = refl

one_listed : list_by_run select "r" one_row ≡ inr (filled "a" 5 denial ∷ [])
unfolding append filled to_stored join list_by_run from_each from_stored split place
one_listed = refl

append-list_by_run_example :
    ((rows' : List AuditRow) × (list_by_run select "r" (append insert "b" 9 denial one_row).1
        ≡ inr rows')
      × Placed (filled "b" 9 denial) (filled "a" 5 denial ∷ []) rows')
    × ((run : String)
        → str_eq run "r" ≡ false
        → list_by_run select run (append insert "b" 9 denial one_row).1
          ≡ list_by_run select run one_row)
append-list_by_run_example =
    append-list_by_run insert select list-IsTable "b" 9 denial one_row (filled "a" 5 denial ∷ [])
      inserted reasons-IsLine some_text one_listed
