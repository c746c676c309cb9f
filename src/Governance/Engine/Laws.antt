-- ===== src/Governance/Engine/Laws.antt =====
-- What the engine decides, which policies it asks, and what it records.
use mathlib.Core.List.{append-nil, append_assoc}
use sandcode.Base.{
  ◌≡◌, refl, inl, inr, String, List, [], ◌∷◌, ◌++◌, map, Option, none, some, Bool, true, false,
  ◌||◌, arith, str_eq, eq_iff, Bool-cases, if◌then◌else◌,
}
use sandcode.Base.Bytes.{Bytes}
use sandcode.Governance.Policy.{
  Result, allow, deny, review, approved, Action, Answer, Policy, PolicyVerdict, Decision,
}
use sandcode.Governance.Engine.{
  tagged, note, object, judge, has_name, add_policy, evaluate_from, evaluate,
}

abbrev is_deny : Answer → Bool
is_deny a = elim a.error [ some _ ↦ true | none ↦ elim a.result [ deny ↦ true | _ ↦ false ] ]

abbrev is_review : Answer → Bool
is_review a = elim a.error [ some _ ↦ false | none ↦ elim a.result [ review ↦ true | _ ↦ false ] ]

-- A policy denies an action by its verdict or by an error, and asks for a review by its verdict.
unfoldable pub denies : Action → Policy → Bool
denies a p = is_deny (p.evaluate a)

unfoldable pub reviews : Action → Policy → Bool
reviews a p = is_review (p.evaluate a)

unfoldable pub any {ℓ} : {A : Type ℓ} → (A → Bool) → List A → Bool
any f [] = false
any f (x ∷ xs) = f x || any f xs

-- The policies up to the first that denies, which is the last to be asked.
unfoldable pub asked : Action → List Policy → List Policy
asked a [] = []
asked a (p ∷ ps) = let rest = asked a ps in if denies a p then p ∷ [] else p ∷ rest

-- What a policy that was asked leaves in the trail.
unfoldable pub verdict : Action → Policy → PolicyVerdict
verdict a p = elim (p.evaluate a).error [
  | some text ↦ record { policy = p.name; result = deny; reason = text }
  | none ↦ record {
    policy = p.name;
    result = (p.evaluate a).result;
    reason = (p.evaluate a).reason;
  }
]

unfoldable pub objections : Action → List Policy → List Bytes
objections a [] = []
objections a (p ∷ ps) =
    if denies a p || reviews a p
    then tagged p.name (verdict a p).reason ∷ objections a ps
    else objections a ps

-- The decisions that one answer hands on to the rest of the loop.
module _ (p : Policy) (ans : Answer) (d : Decision) where
  reviewed : Decision
  reviewed = object p review ans.reason (note p review ans.reason d)

  passed : Result → Decision
  passed r = note p r ans.reason d

evaluate_from-result :
    (a : Action) (ps : List Policy) (d : Decision)
    → (evaluate_from a ps d).result
      ≡ (if any (denies a) ps then deny else if any (reviews a) ps then review else d.result)
unfolding evaluate_from any denies reviews reviewed passed
evaluate_from-result a [] d = refl
evaluate_from-result a (p ∷ ps) d =
    let ans = p.evaluate a in
    ground (
      arith,
      evaluate_from-result a ps (reviewed p ans d),
      evaluate_from-result a ps (passed p ans d allow),
      evaluate_from-result a ps (passed p ans d approved),
    )

abbrev Trail : Action → List Policy → Decision → Decision → Type 0
Trail a ps d out =
    (out.per_policy ≡ d.per_policy ++ map (verdict a) (asked a ps))
    × (out.reasons ≡ d.reasons ++ objections a (asked a ps))

-- One round of the loop, where the rest of it leaves the trail that it should.
judge-Trail :
    (a : Action) (p : Policy) (ps : List Policy) (d : Decision) (rest : Decision → Decision)
    → ((d' : Decision) → Trail a ps d' (rest d'))
    → (e : Option Bytes) → (p.evaluate a).error ≡ e
    → (r : Result) → (p.evaluate a).result ≡ r
    → Trail a (p ∷ ps) d (judge p (p.evaluate a) d rest)
unfolding asked objections denies reviews verdict
judge-Trail a p ps d rest ih (some text) he r hr = (ground arith, ground arith)
judge-Trail a p ps d rest ih none he deny hr = (ground arith, ground arith)
judge-Trail a p ps d rest ih none he allow hr =
    let t = ih (note p allow (p.evaluate a).reason d) in
    (
      ground
          (arith, t.0, append_assoc d.per_policy (verdict a p ∷ []) (map (verdict a) (asked a ps))),
      ground (arith, t.1),
    )
judge-Trail a p ps d rest ih none he approved hr =
    let t = ih (note p approved (p.evaluate a).reason d) in
    (
      ground
          (arith, t.0, append_assoc d.per_policy (verdict a p ∷ []) (map (verdict a) (asked a ps))),
      ground (arith, t.1),
    )
judge-Trail a p ps d rest ih none he review hr =
    let reason = (p.evaluate a).reason in
    let t = ih (object p review reason (note p review reason d)) in
    (
      ground
          (arith, t.0, append_assoc d.per_policy (verdict a p ∷ []) (map (verdict a) (asked a ps))),
      ground (
        arith,
        t.1,
        append_assoc d.reasons (tagged p.name reason ∷ []) (objections a (asked a ps)),
      ),
    )

evaluate_from-Trail :
    (a : Action) (ps : List Policy) (d : Decision) → Trail a ps d (evaluate_from a ps d)
unfolding evaluate_from asked objections
evaluate_from-Trail a [] d = (rw append-nil, rw append-nil)
evaluate_from-Trail a (p ∷ ps) d =
    judge-Trail a p ps d (λ d'. evaluate_from a ps d') (λ d'. evaluate_from-Trail a ps d')
      (p.evaluate a).error refl (p.evaluate a).result refl

-- The decision is a denial if any policy denies, else a review if any policy asks for one, else an
-- approval: whatever the order of the policies.
pub evaluate-result :
    (ps : List Policy) (a : Action)
    → (evaluate ps a).result
      ≡ (if any (denies a) ps then deny else if any (reviews a) ps then review else allow)
unfolding evaluate
evaluate-result ps a = evaluate_from-result a ps _

-- The trail holds one verdict for each policy up to the first that denies, in their order, and the
-- reasons are those of the policies among them that deny or ask for a review.
pub evaluate-trail :
    (ps : List Policy) (a : Action)
    → ((evaluate ps a).per_policy ≡ map (verdict a) (asked a ps))
      × ((evaluate ps a).reasons ≡ objections a (asked a ps))
unfolding evaluate
evaluate-trail ps a = evaluate_from-Trail a ps _

pub any-append {ℓ} :
    {A : Type ℓ} (f : A → Bool) (xs ys : List A) → any f (xs ++ ys) ≡ (any f xs || any f ys)
unfolding any
any-append f [] ys = refl
any-append f (x ∷ xs) ys = ground (arith, any-append f xs ys)

-- Exchanging two blocks of policies leaves the verdict as it was.
pub evaluate_result_comm :
    (ps qs : List Policy) (a : Action)
    → (evaluate (ps ++ qs) a).result ≡ (evaluate (qs ++ ps) a).result
evaluate_result_comm ps qs a = simp (evaluate-result, any-append) (ground arith)

-- The names in a list are pairwise different.
abbrev pub HasUniqueNames : List Policy → Type 0
HasUniqueNames [] = Unit
HasUniqueNames (p ∷ ps) = (has_name p.name ps ≡ false) × HasUniqueNames ps

has_name-snoc :
    (name : String) (p : Policy) (ps : List Policy)
    → has_name name (ps ++ p ∷ []) ≡ (has_name name ps || str_eq p.name name)
unfolding has_name
has_name-snoc name p [] = ground arith
has_name-snoc name p (q ∷ ps) = ground (arith, has_name-snoc name p ps)

HasUniqueNames-snoc :
    (p : Policy) (ps : List Policy)
    → HasUniqueNames ps
    → has_name p.name ps ≡ false
    → HasUniqueNames (ps ++ p ∷ [])
unfolding has_name
HasUniqueNames-snoc p [] u h = (refl, tt)
HasUniqueNames-snoc p (q ∷ ps) u h = (
  ground (arith, has_name-snoc q.name p ps, eq_iff p.name q.name, eq_iff q.name p.name),
  HasUniqueNames-snoc p ps u.1 (ground arith),
)

-- `AddPolicy` keeps the names of an engine's policies pairwise different, and what it adds stands
-- behind the others and has a name that was not taken.
pub add_policy-HasUniqueNames :
    (p : Policy) (ps qs : List Policy)
    → HasUniqueNames ps
    → add_policy p ps ≡ some qs
    → HasUniqueNames qs × (qs ≡ ps ++ p ∷ []) × (has_name p.name ps ≡ false)
unfolding add_policy
add_policy-HasUniqueNames p ps qs u e = elim (Bool-cases (has_name p.name ps)) [
  | inl taken ↦ absurd (ground (arith, taken, e))
  | inr free ↦
      let same : qs ≡ ps ++ p ∷ [] = ground arith in
      (rw same (HasUniqueNames-snoc p ps u free), same, free)
]
