-- ===== src/Governance/Table/Laws.antt =====
-- internal/governance/audit.go: what was appended to the audit log is listed.
use sandcode.Base.{
  ℕ, ◌≡◌, refl, ap, ◌∙◌, subst, ◌≢◌, String, List, [], ◌∷◌, ◌++◌, Option, none, some, Bool, true,
  false, ◌==◌, leb, length, str_eq, ◌⊎◌, inl, inr, if◌then◌else◌, All, arith, Bool-cases, ◌≤◌, ◌<◌,
}
use sandcode.Base.Bytes.{Bytes}
use sandcode.Governance.Audit.{AuditRow}
use sandcode.Governance.Table.{
  Stored, no_run_id, no_action_type, no_result, join, split, filled, to_stored, from_stored,
  from_each, wrapped, append, read, list_by_run, place,
}

-- What the code relies on of SQLite: behind an insert without an error, the query of the row's run gives the row at
-- its place by time, and that of any other run what it gave before.
pub record IsTable {Db Error : Type 0} (insert : Stored → Db → Option Error × Db)
    (select : String → Db → Error ⊎ List Stored) : Type 0 where
  pub select-insert :
      (s : Stored) (db : Db) (rows : List Stored)
      → (insert s db).0 ≡ none
      → select s.run_id db ≡ inr rows
      → select s.run_id (insert s db).1 ≡ inr (place s rows)
  pub select-other :
      (s : Stored) (db : Db) (run : String)
      → (insert s db).0 ≡ none
      → str_eq run s.run_id ≡ false
      → select run (insert s db).1 ≡ select run db

-- A text of one line.
abbrev pub IsLine : Bytes → Type 0
IsLine x = All (λ b. (b == 10) ≡ false) x

split-line : (x : Bytes) → IsLine x → split x ≡ x ∷ []
unfolding split
split-line [] h = refl
split-line (b ∷ x) h = rw (h.0, split-line x h.1) refl

split-append : (x rest : Bytes) → IsLine x → split (x ++ 10 ∷ rest) ≡ x ∷ split rest
unfolding split
split-append [] rest h = refl
split-append (b ∷ x) rest h = rw (h.0, split-append x rest h.1) refl

-- Reasons of one line each are read back, if there are any.
split-join : (x : Bytes) (xs : List Bytes) → All IsLine (x ∷ xs) → split (join (x ∷ xs)) ≡ x ∷ xs
unfolding join
split-join x [] h = split-line x h.0
split-join x (y ∷ ys) h = split-append x (join (y ∷ ys)) h.0 ∙ ap (λ l. x ∷ l) (split-join y ys h.1)

join-long : (x y : Bytes) (ys : List Bytes) → (length (join (x ∷ y ∷ ys)) == 0) ≡ false
unfolding join
join-long [] y ys = ground arith
join-long (b ∷ x) y ys = ground arith

-- The reasons of a row, behind `Append` and `ListByRun`.
read_back :
    (reasons : List Bytes)
    → All IsLine reasons
    → reasons ≢ [] ∷ []
    → (if length (join reasons) == 0 then [] else split (join reasons)) ≡ reasons
unfolding join
read_back [] h n = refl
read_back ([] ∷ []) h n = absurd (n refl)
read_back ((b ∷ x) ∷ []) h n = ground (arith, split-line (b ∷ x) h.0)
read_back (x ∷ y ∷ ys) h n = rw (join-long x y ys) (split-join x (y ∷ ys) h)

stored_back :
    (r : AuditRow) → All IsLine r.reasons → r.reasons ≢ [] ∷ [] → from_stored (to_stored r) ≡ r
unfolding from_stored to_stored
stored_back r h n = ap (λ l. record r { reasons = l }) (read_back r.reasons h n)

abbrev pub IsBehind : ℕ → List AuditRow → Type 0
IsBehind t [] = Unit
IsBehind t (r ∷ rows) = t < r.created_at

-- Where a row of a given time stands in a list.
abbrev pub Placed : AuditRow → List AuditRow → List AuditRow → Type 0
Placed r rows rows' =
    (before : List AuditRow) × (after : List AuditRow) × (rows ≡ before ++ after)
    × (rows' ≡ before ++ r ∷ after)
    × All (λ x. x.created_at ≤ r.created_at) before
    × IsBehind r.created_at after

place-Placed :
    (s : Stored) (xs : List Stored) → Placed (from_stored s) (from_each xs) (from_each (place s xs))
unfolding place from_each from_stored
place-Placed s [] = ([], [], refl, refl, tt, tt)
place-Placed s (x ∷ xs) = elim (Bool-cases (leb x.created_at s.created_at)) [
  | inl y ↦
      let (b, a, e, f, le, lt) = place-Placed s xs in
      rw y (
        from_stored x ∷ b,
        a,
        ap (λ l. from_stored x ∷ l) e,
        ap (λ l. from_stored x ∷ l) f,
        (ground (arith, y), le),
        lt,
      )
  | inr n ↦ rw n ([], from_each (x ∷ xs), refl, refl, tt, ground (arith, n))
]

moved :
    {r r' : AuditRow} {rows rows' placed : List AuditRow}
    → r ≡ r'
    → rows ≡ rows'
    → Placed r rows placed
    → Placed r' rows' placed
moved {r} {r'} {rows} {rows'} {placed} e f p =
    subst (λ l. Placed r' l placed) f (subst (λ x. Placed x rows placed) e p)

-- The guards of `Append`.
guarded :
    {Error Db : Type 0} (a b c : Bool) (w : Option Error × Db) (db : Db)
    → (if a
        then (some no_run_id, db)
        else if b
        then (some no_action_type, db)
        else if c
        then (some no_result, db)
        else wrapped w).0
      ≡ none
    → (w.0 ≡ none)
      × ((if a
            then (some no_run_id, db)
            else if b
            then (some no_action_type, db)
            else if c
            then (some no_result, db)
            else wrapped w).1
          ≡ w.1)
guarded true b c w db h = cc
guarded false true c w db h = cc
guarded false false true w db h = cc
guarded false false false (none, d) db h = (refl, refl)
guarded false false false (some e, d) db h = cc

listed :
    {Error : Type 0} (a : Error ⊎ List Stored) (rows : List AuditRow)
    → read a ≡ inr rows
    → (xs : List Stored) × (a ≡ inr xs) × (from_each xs ≡ rows)
listed (inl e) rows h = cc
listed (inr xs) rows h = (xs, refl, cc)

module _ {Db Error : Type 0} (insert : Stored → Db → Option Error × Db)
    (select : String → Db → Error ⊎ List Stored) where
  abbrev stored_row : String → ℕ → AuditRow → Stored
  stored_row new_id now r = to_stored (filled new_id now r)

  -- An `Append` without an error made its insert.
  appended :
      (new_id : String) (now : ℕ) (r : AuditRow) (db : Db)
      → (append insert new_id now r db).0 ≡ none
      → ((insert (stored_row new_id now r) db).0 ≡ none)
        × ((append insert new_id now r db).1 ≡ (insert (stored_row new_id now r) db).1)
  unfolding append
  appended new_id now r db h =
      guarded (str_eq r.run_id "") (str_eq r.action_type "") (str_eq r.result "")
        (insert (stored_row new_id now r) db) db h

  -- With a table that keeps to what the queries say: an `Append` without an error puts its row, with the id and the
  -- time that were missing, into the list that `ListByRun` gives for its run, behind the rows that are not later
  -- and before the others, and with the reasons it had, if these are of one line each and not a single empty one.
  -- The lists of other runs stay as they were.
  pub append-list_by_run :
      IsTable insert select
      → (new_id : String) (now : ℕ) (r : AuditRow) (db : Db) (rows : List AuditRow)
      → (append insert new_id now r db).0 ≡ none
      → All IsLine r.reasons
      → r.reasons ≢ [] ∷ []
      → list_by_run select r.run_id db ≡ inr rows
      → ((rows' : List AuditRow) × (list_by_run select r.run_id (append insert new_id now r db).1
            ≡ inr rows')
          × Placed (filled new_id now r) rows rows')
        × ((run : String)
            → str_eq run r.run_id ≡ false
            → list_by_run select run (append insert new_id now r db).1 ≡ list_by_run select run db)
  unfolding list_by_run filled to_stored
  append-list_by_run table new_id now r db rows ok lines some_text before =
      let (done, same) = appended new_id now r db ok in
      let back = stored_back (filled new_id now r) lines some_text in
      let (xs, e, each) = listed (select r.run_id db) rows before in
      (
        (
          from_each (place (stored_row new_id now r) xs),
          ap (λ d. read (select r.run_id d)) same
              ∙ ap read (table.select-insert (stored_row new_id now r) db xs done e),
          moved back each (place-Placed (stored_row new_id now r) xs),
        ),
        λ run other.
            ap (λ d. read (select run d)) same
            ∙ ap read (table.select-other (stored_row new_id now r) db run done other),
      )
