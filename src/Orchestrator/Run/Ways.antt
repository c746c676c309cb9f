-- ===== src/Orchestrator/Run/Ways.antt =====
-- internal/orchestrator/run.go: the ways in which a step of an attempt can end, with the types of what it
-- publishes.
use sandcode.Base.{
  ℕ, zero, suc, ◌+◌, ◌<◌, ◌≡◌, refl, ap, ◌∙◌, inl, inr, List, [], ◌∷◌, ◌++◌, Option, none, some,
  Bool, true, false, if◌then◌else◌, arith, Bool-cases, ltb→lt,
}
use sandcode.Base.Bytes.{Bytes}
use sandcode.Base.Int.{ℤ, pos, negsuc, ltz}
use sandcode.Budget.{Amounts}
use sandcode.Event.{EventType, agent_executing, governance_denied, refine_triggered}
use sandcode.Governance.Policy.{ActionType, refine, Decision}
use sandcode.Orchestrator.Node.{attempt_cap}
use sandcode.Orchestrator.Refine.{effective}
use sandcode.Orchestrator.Run.{
  Check, verify, lint, Published, event, check_passed, VerifyOutput, RunError, Setup, Outside,
  check_exec, check_exhausted, refine_denied, refine_exec, Cycle, proceed, reloop, stop,
}
use sandcode.Orchestrator.Run.Gate.{
  is_deny, evaluate_policy, refine_attempt, refine_or_exhaust, restarted, unless_denied,
  count_attempt,
}
use sandcode.Orchestrator.Run.Steps.{
  started_type, passed_type, failed_type, Stepped, judged, retry, announced, check_step, ask,
  remember, command_of,
}
use sandcode.Orchestrator.Run.Loop.{tries}

-- What a denial publishes.
abbrev pub denial : Bool → List EventType
denial true = governance_denied ∷ []
denial false = []

abbrev pub kinds : List Published → List EventType
kinds [] = []
kinds (e ∷ es) = e.type ∷ kinds es

pub kinds-append : (es fs : List Published) → kinds (es ++ fs) ≡ kinds es ++ kinds fs
kinds-append [] fs = refl
kinds-append (e ∷ es) fs = ap (λ l. e.type ∷ l) (kinds-append es fs)

module _ {World Error : Type 0} where
  abbrev pub HasFailed : Cycle World Error → Type 0
  HasFailed c = (e : RunError Error) × (c.err ≡ some e)

module _ {World Error : Type 0} (m : Amounts ℤ) (out : Outside World Error) (o : Setup) where
  pub evaluate_policy-kinds :
      (action : ActionType) (n k : ℕ) (c : Cycle World Error)
      → ((evaluate_policy m out o action n k c).1.attempts ≡ c.attempts)
        × (kinds (evaluate_policy m out o action n k c).2
            ≡ denial (is_deny (evaluate_policy m out o action n k c).0.result))
  unfolding evaluate_policy is_deny
  evaluate_policy-kinds action n k c = ground arith

  -- The ways in which `refineOrExhaust` can end.
  pub data Exhausted (c : Cycle World Error)
      : Bool × Cycle World Error × List Published → Type 0 where
    gave_up :
        {c' : Cycle World Error} {es : List Published}
        → HasFailed c'
        → c'.attempts ≡ c.attempts
        → kinds es ≡ []
        → Exhausted c (true, c', es)
    denied :
        {c' : Cycle World Error} {es : List Published}
        → HasFailed c'
        → c'.attempts ≡ c.attempts
        → kinds es ≡ governance_denied ∷ []
        → Exhausted c (true, c', es)
    not_restarted :
        {c' : Cycle World Error} {es : List Published}
        → HasFailed c'
        → c'.attempts ≡ suc c.attempts
        → c.attempts < tries o
        → kinds es ≡ refine_triggered ∷ agent_executing ∷ []
        → Exhausted c (true, c', es)
    again :
        {c' : Cycle World Error} {es : List Published}
        → c'.attempts ≡ suc c.attempts
        → c.attempts < tries o
        → kinds es ≡ refine_triggered ∷ agent_executing ∷ []
        → Exhausted c (false, c', es)

  below_tries : (n : ℕ) → ltz (pos n) (effective o.refine).max_attempts ≡ true → n < tries o
  unfolding tries attempt_cap ltz
  below_tries n h = go (effective o.refine).max_attempts h
    where
      go :
          (z : ℤ)
          → ltz (pos n) z ≡ true
          → n < (elim z [ pos zero ↦ 1 | pos (suc k) ↦ suc k | negsuc k ↦ 1 ])
      go (pos zero) e = ground arith
      go (pos (suc k)) e = ltb→lt n (suc k) e
      go (negsuc k) e = absurd cc

  restart_failed :
      (x : Option Error × World) (c : Cycle World Error)
      → (restarted m out o x c).0 ≡ true
      → HasFailed (restarted m out o x c).1
  restart_failed (none, w) c h = absurd cc
  restart_failed (some e, w) c h = (refine_exec e, refl)

  restart-attempts :
      (x : Option Error × World) (c : Cycle World Error) (n : ℕ)
      → c.attempts ≡ n
      → (restarted m out o x c).1.attempts ≡ n
  restart-attempts (none, w) c n h = h
  restart-attempts (some e, w) c n h = h

  refined :
      (c d : Cycle World Error) (es : List Published) (b : Bool)
      → d.attempts ≡ suc c.attempts
      → c.attempts < tries o
      → kinds es ≡ refine_triggered ∷ agent_executing ∷ []
      → (b ≡ true → HasFailed d)
      → Exhausted c (b, d, es)
  refined c d es true n lt k h = not_restarted (h refl) n lt k
  refined c d es false n lt k h = again n lt k

  refine_attempt-Exhausted :
      (cmd : List Bytes) (tail : Bytes) (c c' : Cycle World Error) (es : List Published)
      → c'.attempts ≡ c.attempts
      → c.attempts < tries o
      → kinds es ≡ []
      → Exhausted c
          (let (stopped, d, sent) = refine_attempt m out o cmd tail c' in (stopped, d, es ++ sent))
  unfolding refine_attempt count_attempt
  refine_attempt-Exhausted cmd tail c c' es same lt none_sent =
      refined c _ _ _
        (restart-attempts _ (count_attempt m out o (record c' { attempts = c'.attempts + 1 })) _
          (omega (arith, same)))
        lt (kinds-append es _ ∙ ap (λ l. l ++ refine_triggered ∷ agent_executing ∷ []) none_sent)
        (restart_failed _ _)

  unless_denied-Exhausted :
      (cmd : List Bytes) (tail : Bytes) (code : ℤ) (c : Cycle World Error)
      (x : Decision × Cycle World Error × List Published)
      → x.1.attempts ≡ c.attempts
      → c.attempts < tries o
      → kinds x.2 ≡ denial (is_deny x.0.result)
      → Exhausted c (unless_denied m out o cmd tail code x)
  unless_denied-Exhausted cmd tail code c (d, c', es) same lt k =
      elim (Bool-cases (is_deny d.result)) [
        | inl y ↦ rw y (denied (refine_denied d.reasons, refl) same (k ∙ ap denial y))
        | inr n ↦ rw n (refine_attempt-Exhausted cmd tail c c' es same lt (k ∙ ap denial n))
      ]

  pub refine_or_exhaust-Exhausted :
      (cmd : List Bytes) (tail : Bytes) (code : ℤ) (check : Check) (c : Cycle World Error)
      → Exhausted c (refine_or_exhaust m out o cmd tail code check c)
  unfolding refine_or_exhaust
  refine_or_exhaust-Exhausted cmd tail code check c =
      elim (Bool-cases (ltz (pos c.attempts) (effective o.refine).max_attempts)) [
        | inl y ↦ rw y (
            let (same, k) = evaluate_policy-kinds refine (c.attempts + 1) 0 c in
            unless_denied-Exhausted cmd tail code c
              (evaluate_policy m out o refine (c.attempts + 1) 0 c) same (below_tries c.attempts y)
              k)
        | inr n ↦ rw n (gave_up (check_exhausted check c.attempts code, refl) refl refl)
      ]

  -- The ways in which a check can end.
  pub data Checked (check : Check) (c : Cycle World Error) : Stepped m out o → Type 0 where
    passed :
        {c' : Cycle World Error} {es : List Published}
        → c'.attempts ≡ c.attempts
        → kinds es ≡ started_type check ∷ passed_type check ∷ []
        → Checked check c (proceed, c', es)
    failed :
        {c' : Cycle World Error} {es : List Published} (more : List EventType) (b : Bool)
        → HasFailed c'
        → c'.attempts ≡ c.attempts
        → more ≡ denial b
        → kinds es ≡ started_type check ∷ failed_type check ∷ more
        → Checked check c (stop, c', es)
    lost :
        {c' : Cycle World Error} {es : List Published}
        → HasFailed c'
        → c'.attempts ≡ suc c.attempts
        → c.attempts < tries o
        → kinds es
          ≡ started_type check ∷ failed_type check ∷ refine_triggered ∷ agent_executing ∷ []
        → Checked check c (stop, c', es)
    retried :
        {c' : Cycle World Error} {es : List Published}
        → c'.attempts ≡ suc c.attempts
        → c.attempts < tries o
        → kinds es
          ≡ started_type check ∷ failed_type check ∷ refine_triggered ∷ agent_executing ∷ []
        → Checked check c (reloop, c', es)

  -- Two events before those of `refineOrExhaust`.
  abbrev two_more : Check → List EventType → List EventType
  two_more check l = started_type check ∷ failed_type check ∷ l

  retry-Checked :
      (check : Check) (v : VerifyOutput) (c d : Cycle World Error)
      (x : Bool × Cycle World Error × List Published)
      → d.attempts ≡ c.attempts
      → Exhausted d x
      → Checked check c (announced m out o check c (retry m out o check v d x))
  retry-Checked check v c d x same (gave_up f n k) =
      failed [] false f (n ∙ same) refl (ap (two_more check) k)
  retry-Checked check v c d x same (denied f n k) =
      failed (governance_denied ∷ []) true f (n ∙ same) refl (ap (two_more check) k)
  retry-Checked check v c d x same (not_restarted f n lt k) =
      lost f (n ∙ ap suc same) (omega (arith, lt, same)) (ap (two_more check) k)
  retry-Checked check v c d x same (again n lt k) =
      retried (n ∙ ap suc same) (omega (arith, lt, same)) (ap (two_more check) k)

  remember-attempts :
      (check : Check) (v : VerifyOutput) (c : Cycle World Error)
      → (remember m out o check v c).attempts ≡ c.attempts
  remember-attempts verify v c = refl
  remember-attempts lint v c = refl

  judged-Checked :
      (check : Check) (x : (Option Error × VerifyOutput) × World) (c : Cycle World Error)
      → Checked check c (announced m out o check c (judged m out o check x c))
  unfolding judged
  judged-Checked check ((some e, v), w) c =
      failed [] false (check_exec check e, refl) refl refl refl
  judged-Checked check ((none, v), w) c = go v.passed
    where
      go :
          (b : Bool)
          → Checked check c (
              announced m out o check c (
                if b
                then (
                  proceed,
                  remember m out o check v (record c { world = w }),
                  event (passed_type check) (check_passed c.attempts) ∷ [],
                )
                else retry m out o check v (remember m out o check v (record c { world = w })) (
                    refine_or_exhaust m out o
                      (command_of o check)
                      v.stdout_tail
                      v.exit_code
                      check
                      (remember m out o check v (record c { world = w })))))
      go true = passed (remember-attempts check v (record c { world = w })) refl
      go false =
          retry-Checked check v c _ _ (remember-attempts check v (record c { world = w }))
            (refine_or_exhaust-Exhausted (command_of o check) v.stdout_tail v.exit_code check _)

  pub check_step-Checked :
      (check : Check) (c : Cycle World Error) → Checked check c (check_step m out o check c)
  unfolding check_step
  check_step-Checked check c = judged-Checked check (ask m out o check c.attempts c.world) c
