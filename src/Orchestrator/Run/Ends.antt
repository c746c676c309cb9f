-- ===== src/Orchestrator/Run/Ends.antt =====
-- internal/orchestrator/run.go against internal/runtime: the phase that the events of a run lead to.
use sandcode.Base.{
  ℕ, zero, suc, ◌+◌, ◌≤◌, ◌<◌, ◌≡◌, refl, ap, ◌∙◌, sym, subst, List, [], ◌∷◌, ◌++◌, none, some,
  Bool, true, false, leb, arith,
}
use sandcode.Base.Int.{ℤ}
use sandcode.Budget.{Amounts}
use sandcode.Event.{agent_executing, refine_triggered}
use sandcode.Orchestrator.Refine.{active}
use sandcode.Orchestrator.Run.{
  Check, verify, lint, Published, Setup, Outside, Cycle, proceed, reloop, stop,
}
use sandcode.Orchestrator.Run.Loop.{
  tries, and_then, attempt, Looped, with_sent, unless_reloop, attempt_loop,
}
use sandcode.Orchestrator.Run.Phases.{Point, moves, moves-append}
use sandcode.Orchestrator.Run.Observed.{Worked, goes, ends, agent_step-Worked}
use sandcode.Orchestrator.Run.Steps.{
  Stepped, lint_active, agent_step, check_step, started_type, failed_type, passed_type,
}
use sandcode.Orchestrator.Run.Ways.{
  kinds, kinds-append, HasFailed, denial, Checked, check_step-Checked,
}
use sandcode.Orchestrator.Run.Ways
use sandcode.Runtime.Phase.{Phase, executing, refining, agent_completed}

-- The cap of a state that `NewExecutionState` makes.
abbrev pub cap : ℕ
cap = 3

-- The phases in which the attempts of a run can end.
abbrev pub is_open : Phase → Bool
is_open executing = true
is_open refining = true
is_open agent_completed = true
is_open _ = false

check_passes :
    (check : Check) (n : ℕ)
    → moves cap (started_type check ∷ passed_type check ∷ []) (agent_completed, n)
      ≡ (agent_completed, n)
unfolding moves
check_passes verify n = refl
check_passes lint n = refl

check_fails :
    (check : Check) (b : Bool) (n : ℕ)
    → moves cap (started_type check ∷ failed_type check ∷ denial b) (agent_completed, n)
      ≡ (refining, n)
unfolding moves
check_fails verify true n = refl
check_fails verify false n = refl
check_fails lint true n = refl
check_fails lint false n = refl

over : (n : ℕ) → n < cap → leb cap n ≡ false
over n h = ground arith

-- The second `agent.executing` is refused, and the phase is the right one all the same.
refine_moves :
    (check : Check) (n : ℕ)
    → n < cap
    → moves cap
        (started_type check ∷ failed_type check ∷ refine_triggered ∷ agent_executing ∷ [])
        (agent_completed, n)
      ≡ (executing, suc n)
unfolding moves
refine_moves verify n h = rw (over n h) (ap (λ k. (executing, k)) (omega arith))
refine_moves lint n h = rw (over n h) (ap (λ k. (executing, k)) (omega arith))

module _ {World Error : Type 0} (m : Amounts ℤ) (out : Outside World Error) (o : Setup) where
  -- Where the events of an attempt lead from `executing`, or those of a check from `agent_completed`.
  pub data Lands (n : ℕ) : Stepped m out o → Point → Type 0 where
    through :
        {c' : Cycle World Error} {es : List Published}
        → c'.attempts ≡ n
        → Lands n (proceed, c', es) (agent_completed, n)
    halted :
        {c' : Cycle World Error} {es : List Published} (x : Point)
        → is_open x.0 ≡ true
        → (c'.err ≡ none → x.0 ≡ agent_completed)
        → (n ≤ tries o → c'.attempts ≤ tries o)
        → x.1 ≡ c'.attempts
        → Lands n (stop, c', es) x
    retried :
        {c' : Cycle World Error} {es : List Published}
        → c'.attempts ≡ suc n
        → n < tries o
        → Lands n (reloop, c', es) (executing, suc n)

  check-Lands :
      (check : Check) (c : Cycle World Error) (z : Stepped m out o)
      → tries o ≤ cap
      → Checked m out o check c z
      → Lands c.attempts z (moves cap (kinds z.2) (agent_completed, c.attempts))
  check-Lands check c (proceed, c', es) small (Ways.passed n k) =
      rw (k, check_passes check c.attempts) (through n)
  check-Lands check c (stop, c', es) small (Ways.failed more b f n d k) =
      rw (k, d, check_fails check b c.attempts)
        (halted (refining, c.attempts) refl (λ e. absurd (cc (f.1, e))) (λ le. omega (arith, n, le))
          (sym n))
  check-Lands check c (stop, c', es) small (Ways.lost f n lt k) =
      rw (k, refine_moves check c.attempts (omega (arith, lt, small)))
        (halted (executing, suc c.attempts) refl (λ e. absurd (cc (f.1, e)))
          (λ le. omega (arith, n, lt)) (sym n))
  check-Lands check c (reloop, c', es) small (Ways.retried n lt k) =
      rw (k, refine_moves check c.attempts (omega (arith, lt, small))) (retried n lt)

  Stays : ℕ → Stepped m out o → Type 0
  Stays n z = Lands n z (moves cap (kinds z.2) (executing, n))

  agent-Stays :
      (c : Cycle World Error) (z : Stepped m out o) → Worked m out o c z → Stays c.attempts z
  unfolding Stays moves
  agent-Stays c (proceed, c', es) (goes n k) = rw k (through n)
  agent-Stays c (reloop, c', es) w = elim w [ ]
  agent-Stays c (stop, c', es) (ends n k) =
      rw k
        (halted (agent_completed, c.attempts) refl (λ e. refl) (λ le. omega (arith, n, le)) (sym n))

  and_then-Stays :
      (on : Bool) (check : Check) (n : ℕ) (y : Stepped m out o) (x : Point)
      → tries o ≤ cap
      → moves cap (kinds y.2) (executing, n) ≡ x
      → Lands n y x
      → Stays n (and_then m out o on check y)
  unfolding Stays
  and_then-Stays false check n (proceed, c, es) x small e l =
      subst (λ p. Lands n (proceed, c, es) p) (sym e) l
  and_then-Stays on check n (stop, c, es) x small e l =
      subst (λ p. Lands n (stop, c, es) p) (sym e) l
  and_then-Stays on check n (reloop, c, es) x small e l =
      subst (λ p. Lands n (reloop, c, es) p) (sym e) l
  and_then-Stays true check n (proceed, c, es) x small e (through same) =
      let z = check_step m out o check c in
      let after : moves cap (kinds (es ++ z.2)) (executing, n)
          ≡ moves cap (kinds z.2) (agent_completed, n) =
        ap (λ ks. moves cap ks (executing, n)) (kinds-append es z.2)
        ∙ moves-append cap (kinds es) (kinds z.2) (executing, n)
        ∙ ap (moves cap (kinds z.2)) e in
      subst (λ p. Lands n (z.0, z.1, es ++ z.2) p) (sym after)
        (behind es z _ (
          subst (λ k. Lands k z (moves cap (kinds z.2) (agent_completed, k))) same
            (check-Lands check c z small (check_step-Checked m out o check c))))
    where
      behind :
          (fs : List Published) (z : Stepped m out o) (p : Point)
          → Lands n z p
          → Lands n (z.0, z.1, fs ++ z.2) p
      behind fs (proceed, d, gs) p (through k) = through k
      behind fs (stop, d, gs) p (halted q a b k j) = halted q a b k j
      behind fs (reloop, d, gs) p (retried a b) = retried a b

  attempt-Stays : (c : Cycle World Error) → tries o ≤ cap → Stays c.attempts (attempt m out o c)
  unfolding attempt
  attempt-Stays c small =
      let y = agent_step m out o c in
      let v = and_then m out o (active o.refine) verify y in
      and_then-Stays (lint_active o) lint c.attempts v _ small refl (
        unfold Stays in
        and_then-Stays (active o.refine) verify c.attempts y _ small refl
          (unfold Stays in agent-Stays c y (agent_step-Worked m out o c)))

  -- How the attempts leave the variables and the phase.
  pub record IsDone (c : Cycle World Error) (x : Point) : Type 0 where
    pub stands : is_open x.0 ≡ true
    pub blessed : c.err ≡ none → x.0 ≡ agent_completed
    pub within : c.attempts ≤ tries o
    pub counted : x.1 ≡ c.attempts

  abbrev pub Finishes : Looped m out o → ℕ → Type 0
  Finishes l n =
      (c : Cycle World Error) × (es : List Published) × (l ≡ some (c, es))
      × IsDone c (moves cap (kinds es) (executing, n))

  done :
      {c : Cycle World Error} {x y : Point}
      → is_open y.0 ≡ true
      → (c.err ≡ none → y.0 ≡ agent_completed)
      → c.attempts ≤ tries o
      → y.1 ≡ c.attempts
      → x ≡ y
      → IsDone c x
  done {c} a b k j e =
      subst (λ p. IsDone c p) (sym e) (record { stands = a; blessed = b; within = k; counted = j })

  next-Finishes :
      (n : ℕ) (z : Stepped m out o) (next : Cycle World Error → Looped m out o) (x : Point)
      → n ≤ tries o
      → moves cap (kinds z.2) (executing, n) ≡ x
      → Lands n z x
      → ((c : Cycle World Error) → c.attempts ≡ suc n → suc n ≤ tries o → Finishes (next c) (suc n))
      → Finishes (unless_reloop m out o z next) n
  next-Finishes n (proceed, d, fs) next x le e (through k) later =
      (d, fs, refl, done refl (λ h. refl) (omega (arith, k, le)) (sym k) e)
  next-Finishes n (stop, d, fs) next x le e (halted q a b k j) later =
      (d, fs, refl, done a b (k le) j e)
  next-Finishes n (reloop, d, fs) next x le e (retried k lt) later =
      let (c, es, f, g) = later d k lt in
      (
        c,
        fs ++ es,
        ap (with_sent m out o fs) f,
        done g.stands g.blessed g.within g.counted (
            ap (λ ks. moves cap ks (executing, n)) (kinds-append fs es)
            ∙ moves-append cap (kinds fs) (kinds es) (executing, n)
            ∙ ap (moves cap (kinds es)) e),
      )

  pub attempt_loop-Finishes :
      (fuel : ℕ) (c : Cycle World Error)
      → tries o ≤ cap
      → c.attempts ≤ tries o
      → tries o < fuel + c.attempts
      → Finishes (attempt_loop m out o fuel c) c.attempts
  unfolding attempt_loop
  attempt_loop-Finishes zero c small lo hi = absurd (omega (arith, lo, hi))
  attempt_loop-Finishes (suc fuel) c small lo hi =
      next-Finishes c.attempts (attempt m out o c) (λ d. attempt_loop m out o fuel d) _ lo refl
        (unfold Stays in attempt-Stays c small)
        (λ d n le.
          subst (λ k. Finishes (attempt_loop m out o fuel d) k) n
            (attempt_loop-Finishes fuel d small (omega (arith, n, le)) (omega (arith, n, hi))))
