-- ===== src/Orchestrator/Run/Reactive.antt =====
-- internal/orchestrator/run.go: the attempt loop and the reactive cycle make the same steps.
use sandcode.Base.{
  ℕ, zero, suc, ◌+◌, ◌*◌, ◌≤◌, ◌<◌, ◌≡◌, refl, ap, List, [], ◌∷◌, some, true, false, arith,
}
use sandcode.Base.Int.{ℤ}
use sandcode.Budget.{Amounts}
use sandcode.Event.{execute_requested}
use sandcode.Orchestrator.Node.Attempts.{cap_positive}
use sandcode.Orchestrator.Refine.{effective}
use sandcode.Orchestrator.Run.{Published, Setup, Outside, Cycle}
use sandcode.Orchestrator.Run.Steps.{agent_step}
use sandcode.Orchestrator.Run.Loop.{
  command, tries, attempt, attempt_loop, handler_of, publish_command, ended_in, reactive_cycle,
  run_cycle,
}
use sandcode.Reactor.Stateful.{dispatch_in}
use sandcode.Orchestrator.Run.Observed.{observed, agent_step-Worked}
use sandcode.Orchestrator.Run.Turns.{Agrees, agent_turn}

module _ {World Error : Type 0} (m : Amounts ℤ) (out : Outside World Error) (o : Setup) where
  attempt_loop-Agrees :
      (fuel : ℕ) (c : Cycle World Error) (rounds : ℕ) (log sent done : List Published)
      → c.attempts ≤ tries o
      → tries o < fuel + c.attempts
      → 3 * fuel ≤ rounds
      → observed sent ≡ done
      → Agrees m out o
          (attempt_loop m out o fuel c)
          (dispatch_in
            (publish_command m out o)
            (λ ev. handler_of m out o ev.type)
            rounds
            (command execute_requested ∷ [])
            log
            (c, sent))
          done
  unfolding attempt_loop attempt dispatch_in handler_of
  attempt_loop-Agrees zero c rounds log sent done lo hi le h = absurd (omega (arith, lo, hi))
  attempt_loop-Agrees (suc fuel) c (suc (suc (suc rounds))) log sent done lo hi le h =
      agent_turn m out o (λ d. attempt_loop m out o fuel d) c fuel
        (λ d r l s t n lt e g.
          attempt_loop-Agrees fuel d r l s t (omega (arith, n, lt)) (omega (arith, n, hi)) e g)
        rounds _ sent done (agent_step m out o c) (omega (arith, le)) h
        (agent_step-Worked m out o c)
  attempt_loop-Agrees (suc fuel) c zero log sent done lo hi le h = absurd (omega (arith, le))
  attempt_loop-Agrees (suc fuel) c (suc zero) log sent done lo hi le h = absurd (omega (arith, le))
  attempt_loop-Agrees (suc fuel) c (suc (suc zero)) log sent done lo hi le h =
      absurd (omega (arith, le))

pub tries_positive : (o : Setup) → 0 < tries o
unfolding tries
tries_positive o = cap_positive (effective o.refine)

-- The cycle of a run ends, whatever the agent, the checks and the policies answer, and the reactive one ends
-- with the same variables as the loop; what it publishes is what the loop publishes, with commands between.
pub reactive_same :
    {World Error : Type 0} (m : Amounts ℤ) (out : Outside World Error) (o : Setup)
    (c : Cycle World Error)
    → c.attempts ≡ 1
    → (c' : Cycle World Error) × (es : List Published) × (sent : List Published) × (run_cycle m out
          o false c
        ≡ some (c', es))
      × (run_cycle m out o true c ≡ some (c', sent))
      × (observed sent ≡ es)
unfolding run_cycle reactive_cycle observed
reactive_same m out o c one =
    let (c', es, sent, log, e, f, h) =
      attempt_loop-Agrees m out o (tries o + 1) c (3 * (tries o + 1)) [] [] []
        (omega (arith, one, tries_positive o)) (omega (arith, one)) (omega arith) refl in
    (c', es, sent, e, ap (ended_in m out o) f, h)
