-- ===== src/Governance/Engine.antt =====
-- internal/governance/engine.go: the ordered list of policies and the aggregate decision.
pub mod Laws
use sandcode.Base.{
  ◌≡◌, String, List, [], ◌∷◌, ◌++◌, Option, none, some, Bool, true, false, codes, str_eq,
  if◌then◌else◌,
}
use sandcode.Base.Bytes.{Bytes}
use sandcode.Governance.Policy.{
  Result, allow, deny, review, approved, Action, Answer, Policy, PolicyVerdict, Decision,
}

-- `fmt.Sprintf("%s: %s", p.Name(), reason)`
abbrev pub tagged : String → Bytes → Bytes
tagged name reason = codes name ++ (codes ": " ++ reason)

-- `AddPolicy`: the new list, or `none` where the name is taken.
unfoldable pub has_name : String → List Policy → Bool
has_name name [] = false
has_name name (p ∷ ps) = if str_eq p.name name then true else has_name name ps

unfoldable pub add_policy : Policy → List Policy → Option (List Policy)
unfolding has_name
add_policy p policies = if has_name p.name policies then none else some (policies ++ p ∷ [])

-- The three lines that record a denial, for an error and for a verdict alike.
abbrev pub note : Policy → Result → Bytes → Decision → Decision
note p r reason d = record d {
  per_policy = d.per_policy ++ record { policy = p.name; result = r; reason = reason } ∷ [];
}

abbrev pub object : Policy → Result → Bytes → Decision → Decision
object p r reason d = record d { result = r; reasons = d.reasons ++ tagged p.name reason ∷ [] }

-- What the loop does with one answer: return now, or go on with the rest.
abbrev pub judge : Policy → Answer → Decision → (Decision → Decision) → Decision
judge p a d rest = elim a.error [
  | some text ↦ note p deny text (object p deny text d)
  | none ↦ elim a.result [
    | deny ↦ object p deny a.reason (note p deny a.reason d)
    | review ↦ rest (object p review a.reason (note p review a.reason d))
    | allow ↦ rest (note p allow a.reason d)
    | approved ↦ rest (note p approved a.reason d)
  ]
]

-- The loop, from the decision so far.
unfoldable pub evaluate_from : Action → List Policy → Decision → Decision
evaluate_from a [] d = d
evaluate_from a (p ∷ ps) d = judge p (p.evaluate a) d (λ d'. evaluate_from a ps d')

unfoldable pub evaluate : List Policy → Action → Decision
unfolding evaluate_from
evaluate policies a =
    evaluate_from a policies (record { result = allow; reasons = []; per_policy = [] })
