-- ===== src/Governance/Table.antt =====
-- internal/governance/audit.go: `SQLiteAuditLog`, the table of the audit log. SQLite is a parameter: what an insert
-- answers, and the rows that the query of a run gives.
pub mod Laws
mod Tests
use sandcode.Base.{
  ℕ, ◌≡◌, String, List, [], ◌∷◌, ◌++◌, Option, none, some, Bool, true, false, ◌==◌, leb, length,
  str_eq, ◌⊎◌, inl, inr, if◌then◌else◌,
}
use sandcode.Base.Bytes.{Bytes}
use sandcode.Governance.Audit.{AuditRow}

-- A row of the table, whose reasons are one text.
pub record Stored : Type 0 where
  pub id : String
  pub run_id : String
  pub action_type : String
  pub result : String
  pub reasons : Bytes
  pub policy_name : String
  pub approver : String
  pub created_at : ℕ

pub data AppendError (Error : Type 0) : Type 0 where
  no_run_id no_action_type no_result : AppendError Error
  insert_failed : Error → AppendError Error

-- `strings.Join` with a line break.
unfoldable pub join : List Bytes → Bytes
join [] = []
join (x ∷ []) = x
join (x ∷ y ∷ ys) = x ++ 10 ∷ join (y ∷ ys)

abbrev pub onto_first : ℕ → List Bytes → List Bytes
onto_first b [] = (b ∷ []) ∷ []
onto_first b (x ∷ xs) = (b ∷ x) ∷ xs

-- `strings.Split` at line breaks.
unfoldable pub split : Bytes → List Bytes
split [] = [] ∷ []
split (b ∷ bs) = let rest = split bs in if b == 10 then [] ∷ rest else onto_first b rest

-- The id and the time, where the caller left them out.
unfoldable pub filled : String → ℕ → AuditRow → AuditRow
filled new_id now r = record r {
  id = if str_eq r.id "" then new_id else r.id;
  created_at = if r.created_at == 0 then now else r.created_at;
}

unfoldable pub to_stored : AuditRow → Stored
unfolding join
to_stored r = record {
  id = r.id;
  run_id = r.run_id;
  action_type = r.action_type;
  result = r.result;
  reasons = join r.reasons;
  policy_name = r.policy_name;
  approver = r.approver;
  created_at = r.created_at;
}

unfoldable pub from_stored : Stored → AuditRow
unfolding split
from_stored s = record {
  id = s.id;
  run_id = s.run_id;
  action_type = s.action_type;
  result = s.result;
  reasons = if length s.reasons == 0 then [] else split s.reasons;
  policy_name = s.policy_name;
  approver = s.approver;
  created_at = s.created_at;
}

unfoldable pub from_each : List Stored → List AuditRow
from_each [] = []
from_each (s ∷ rows) = from_stored s ∷ from_each rows

abbrev pub read : {Error : Type 0} → Error ⊎ List Stored → Error ⊎ List AuditRow
read (inl e) = inl e
read (inr rows) = inr (from_each rows)

module _ {Db Error : Type 0} where
  abbrev pub wrapped : Option Error × Db → Option (AppendError Error) × Db
  wrapped (none, db) = (none, db)
  wrapped (some e, db) = (some (insert_failed e), db)

  -- `Append`; the new id is that of `uuid.New`.
  unfoldable pub append :
      (Stored → Db → Option Error × Db)
      → String
      → ℕ
      → AuditRow
      → Db
      → Option (AppendError Error) × Db
  unfolding filled to_stored
  append insert new_id now r db =
      if str_eq r.run_id ""
      then (some no_run_id, db)
      else if str_eq r.action_type ""
      then (some no_action_type, db)
      else if str_eq r.result ""
      then (some no_result, db)
      else wrapped (insert (to_stored (filled new_id now r)) db)

  -- `ListByRun`
  unfoldable pub list_by_run :
      (String → Db → Error ⊎ List Stored) → String → Db → Error ⊎ List AuditRow
  unfolding from_each from_stored
  list_by_run select run db = read (select run db)

-- `ORDER BY created_at ASC, rowid ASC`: the place of a row that is inserted behind all others.
unfoldable pub place : Stored → List Stored → List Stored
place r [] = r ∷ []
place r (x ∷ xs) =
    let rest = place r xs in if leb x.created_at r.created_at then x ∷ rest else r ∷ x ∷ xs
