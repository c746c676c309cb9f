-- ===== src/Orchestrator/Run/Observed.antt =====
-- internal/orchestrator/run.go: what a run publishes apart from the commands of the reactive cycle, and what the
-- agent's step leaves.
use sandcode.Base.{
  ◌≡◌, refl, ap, ◌∙◌, inl, inr, List, [], ◌∷◌, ◌++◌, Bool, true, false, not, ◌&&◌, if◌then◌else◌,
  arith, Bool-cases,
}
use sandcode.Base.Int.{ℤ}
use sandcode.Budget.{Amounts}
use sandcode.Event.{
  EventType, agent_completed, verify_started, verify_failed, lint_started, lint_failed,
}
use sandcode.Orchestrator.Node.{is_zero_exit}
use sandcode.Orchestrator.Refine.{active}
use sandcode.Orchestrator.Run.{
  Check, verify, lint, Published, Setup, Outside, Cycle, Outcome, proceed, stop,
}
use sandcode.Orchestrator.Run.Steps.{lint_active, Stepped, agent_step, waited}
use sandcode.Orchestrator.Run.Loop.{command, is_command}
use sandcode.Orchestrator.Run.Ways.{kinds, Checked, passed, failed, lost, retried}

-- What is published without the commands of the reactive cycle.
unfoldable pub observed : List Published → List Published
unfolding is_command
observed [] = []
observed (e ∷ es) = if is_command e.type then observed es else e ∷ observed es

pub observed-append : (es fs : List Published) → observed (es ++ fs) ≡ observed es ++ observed fs
unfolding observed
observed-append [] fs = refl
observed-append (e ∷ es) fs = elim (Bool-cases (is_command e.type)) [
  | inl y ↦ rw y (observed-append es fs)
  | inr n ↦ rw n (ap (λ l. e ∷ l) (observed-append es fs))
]

-- No command among the types.
unfoldable pub plain : List EventType → Bool
unfolding is_command
plain [] = true
plain (k ∷ ks) = not (is_command k) && plain ks

pub observed-plain : (es : List Published) → plain (kinds es) ≡ true → observed es ≡ es
unfolding observed plain
observed-plain [] h = refl
observed-plain (e ∷ es) h = elim (Bool-cases (is_command e.type)) [
  | inl y ↦ absurd (ground (arith, h, y))
  | inr n ↦ rw n (ap (λ l. e ∷ l) (observed-plain es (rw n at h)))
]

-- A turn of the reactor: a command, and then what its handler publishes.
pub observed-turn :
    (t : EventType) (sent done es : List Published)
    → is_command t ≡ true
    → observed sent ≡ done
    → observed es ≡ es
    → observed ((sent ++ command t ∷ []) ++ es) ≡ done ++ es
observed-turn t sent done es c h k =
    observed-append (sent ++ command t ∷ []) es
    ∙ ap (λ l. l ++ observed es) (observed-append sent (command t ∷ []))
    ∙ ap (λ l. (observed sent ++ l) ++ observed es) (command_gone t c)
    ∙ ap (λ l. l ++ observed es) (append_nil (observed sent) ∙ h)
    ∙ ap (λ l. done ++ l) k
  where
    command_gone : (u : EventType) → is_command u ≡ true → observed (command u ∷ []) ≡ []
    command_gone u e = unfold observed in rw e refl

    append_nil : (l : List Published) → l ++ [] ≡ l
    append_nil [] = refl
    append_nil (x ∷ l) = ap (λ t. x ∷ t) (append_nil l)

module _ {World Error : Type 0} (m : Amounts ℤ) (out : Outside World Error) (o : Setup) where
  pub data Worked (c : Cycle World Error) : Stepped m out o → Type 0 where
    goes :
        {c' : Cycle World Error} {es : List Published}
        → c'.attempts ≡ c.attempts
        → kinds es ≡ agent_completed ∷ []
        → Worked c (proceed, c', es)
    ends :
        {c' : Cycle World Error} {es : List Published}
        → c'.attempts ≡ c.attempts
        → kinds es ≡ agent_completed ∷ []
        → Worked c (stop, c', es)

  pub agent_step-Worked : (c : Cycle World Error) → Worked c (agent_step m out o c)
  unfolding agent_step
  agent_step-Worked c =
      let c' = waited m out o (out.await_agent c.world) c in
      go (out.deadline_exceeded c'.world) (not (active o.refine) && not (lint_active o))
        (not (is_zero_exit c'.exit_code)) _ _ refl refl
    where
      go :
          (late alone broken : Bool) (c' : Cycle World Error) (es : List Published)
          → c'.attempts ≡ c.attempts
          → kinds es ≡ agent_completed ∷ []
          → Worked c (
            if late then stop else if alone then stop else if broken then stop else proceed,
            c',
            es,
          )
      go true alone broken c' es n k = ends n k
      go false true broken c' es n k = ends n k
      go false false true c' es n k = ends n k
      go false false false c' es n k = goes n k

  -- What a check publishes holds no command.
  pub check_plain :
      (check : Check) (c : Cycle World Error) {x : Outcome} {c' : Cycle World Error}
      {es : List Published}
      → Checked m out o check c (x, c', es)
      → observed es ≡ es
  unfolding plain
  check_plain verify c {es = es} (passed n k) = observed-plain es (ap plain k)
  check_plain lint c {es = es} (passed n k) = observed-plain es (ap plain k)
  check_plain verify c {es = es} (failed more true f n d k) =
      observed-plain es (ap plain k ∙ ap plain (ap (λ l. verify_started ∷ verify_failed ∷ l) d))
  check_plain verify c {es = es} (failed more false f n d k) =
      observed-plain es (ap plain k ∙ ap plain (ap (λ l. verify_started ∷ verify_failed ∷ l) d))
  check_plain lint c {es = es} (failed more true f n d k) =
      observed-plain es (ap plain k ∙ ap plain (ap (λ l. lint_started ∷ lint_failed ∷ l) d))
  check_plain lint c {es = es} (failed more false f n d k) =
      observed-plain es (ap plain k ∙ ap plain (ap (λ l. lint_started ∷ lint_failed ∷ l) d))
  check_plain verify c {es = es} (lost f n lt k) = observed-plain es (ap plain k)
  check_plain lint c {es = es} (lost f n lt k) = observed-plain es (ap plain k)
  check_plain verify c {es = es} (retried n lt k) = observed-plain es (ap plain k)
  check_plain lint c {es = es} (retried n lt k) = observed-plain es (ap plain k)
