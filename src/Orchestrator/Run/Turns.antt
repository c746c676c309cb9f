-- ===== src/Orchestrator/Run/Turns.antt =====
-- internal/orchestrator/run.go: one attempt of the loop, and the commands that make the same steps.
use mathlib.Core.List.{append_assoc}
use sandcode.Base.{
  ℕ, suc, ◌*◌, ◌≤◌, ◌<◌, ◌≡◌, refl, ap, ◌∙◌, List, [], ◌∷◌, ◌++◌, none, some, Bool, true, false,
  if◌then◌else◌, arith,
}
use sandcode.Base.Int.{ℤ}
use sandcode.Budget.{Amounts}
use sandcode.Event.{EventType, execute_requested, verify_requested, lint_requested}
use sandcode.Orchestrator.Refine.{active}
use sandcode.Orchestrator.Run.{
  verify, lint, Published, Setup, Outside, Cycle, proceed, reloop, stop,
}
use sandcode.Orchestrator.Run.Steps.{lint_active, Stepped, check_step}
use sandcode.Orchestrator.Run.Loop.{
  command, is_command, tries, and_then, Looped, with_sent, unless_reloop, Shared, reply,
  after_execute, after_check, handler_of, publish_command,
}
use sandcode.Orchestrator.Run.Ways.{Checked, passed, retried, check_step-Checked}
use sandcode.Reactor.Stateful.{DispatchedIn, continue, dispatch_in}
use sandcode.Orchestrator.Run.Observed.{
  observed, observed-plain, observed-turn, plain, Worked, goes, ends, check_plain,
}

module _ {World Error : Type 0} (m : Amounts ℤ) (out : Outside World Error) (o : Setup) where
  -- Both come to the same variables, and what they publish differs in commands only; `done` is what the
  -- loop had published before.
  abbrev pub Agrees :
      Looped m out o
      → DispatchedIn {E = Published} {Error = Error} {S = Shared m out o}
          (publish_command m out o)
          (λ ev. handler_of m out o ev.type)
      → List Published
      → Type 0
  Agrees target d done =
      (c : Cycle World Error) × (es : List Published) × (sent : List Published) × (log : List
        Published)
      × (target ≡ some (c, es))
      × (d ≡ some (log, (c, sent), none))
      × (observed sent ≡ done ++ es)

  Agrees-with_sent :
      (es done : List Published) (target : Looped m out o)
      (d : DispatchedIn {E = Published} {Error = Error} {S = Shared m out o}
        (publish_command m out o)
        (λ ev. handler_of m out o ev.type))
      → Agrees target d (done ++ es)
      → Agrees (with_sent m out o es target) d done
  Agrees-with_sent es done target d (c, fs, sent, log, e, f, h) =
      (c, es ++ fs, sent, log, ap (with_sent m out o es) e, f, h ∙ append_assoc done es fs)

  -- The loop and the dispatch of `execute.requested` behind the steps of one attempt.
  module _ (loop : Cycle World Error → Looped m out o) (c : Cycle World Error) (fuel : ℕ)
      (later : (d : Cycle World Error) (rounds : ℕ) (log sent done : List Published)
        → d.attempts ≡ suc c.attempts
        → c.attempts < tries o
        → 3 * fuel ≤ rounds
        → observed sent ≡ done
        → Agrees
            (loop d)
            (dispatch_in
              (publish_command m out o)
              (λ ev. handler_of m out o ev.type)
              rounds
              (command execute_requested ∷ [])
              log
              (d, sent))
            done) where
    abbrev Rest :
        ℕ
        → List Published
        → List Published
        → Shared m out o
        → DispatchedIn {E = Published} {Error = Error} {S = Shared m out o}
            (publish_command m out o)
            (λ ev. handler_of m out o ev.type)
    Rest rounds log queue s =
        dispatch_in (publish_command m out o) (λ ev. handler_of m out o ev.type) rounds queue log s

    turned :
        (t : EventType) (sent es fs done : List Published)
        → is_command t ≡ true
        → observed sent ≡ done ++ es
        → observed fs ≡ fs
        → observed ((sent ++ command t ∷ []) ++ fs) ≡ done ++ (es ++ fs)
    turned t sent es fs done e h k =
        observed-turn t sent (done ++ es) fs e h k ∙ append_assoc done es fs

    -- The attempt was started again.
    reloops :
        (d d' : Cycle World Error) (rounds : ℕ) (log sent es done : List Published)
        → d.attempts ≡ c.attempts
        → d'.attempts ≡ suc d.attempts
        → d.attempts < tries o
        → 3 * fuel ≤ rounds
        → observed sent ≡ done ++ es
        → Agrees
            (with_sent m out o es (loop d'))
            (Rest rounds log (command execute_requested ∷ []) (d', sent))
            done
    reloops d d' rounds log sent es done same n lt le h =
        Agrees-with_sent es done (loop d')
          (Rest rounds log (command execute_requested ∷ []) (d', sent))
          (later d' rounds log sent (done ++ es) (n ∙ ap suc same) (omega (arith, lt, same)) le h)

    lint_turn :
        (d : Cycle World Error) (rounds : ℕ) (log sent es done : List Published)
        (z : Stepped m out o)
        → d.attempts ≡ c.attempts
        → 3 * fuel ≤ rounds
        → observed sent ≡ done ++ es
        → Checked m out o lint d z
        → Agrees
            (unless_reloop m out o (let (x, c', fs) = z in (x, c', es ++ fs)) loop)
            (continue
              (publish_command m out o)
              (λ ev. handler_of m out o ev.type)
              (reply m out o z (after_check m out o lint) (sent ++ command lint_requested ∷ []))
              []
              log
              (λ q t. Rest rounds log q t))
            done
    unfolding dispatch_in is_command
    lint_turn d rounds log sent es done (proceed, c', fs) same le h k = (
      c',
      es ++ fs,
      _,
      log,
      refl,
      refl,
      turned lint_requested sent es fs done refl h (check_plain m out o lint d k),
    )
    lint_turn d rounds log sent es done (stop, c', fs) same le h k = (
      c',
      es ++ fs,
      _,
      log,
      refl,
      refl,
      turned lint_requested sent es fs done refl h (check_plain m out o lint d k),
    )
    lint_turn d rounds log sent es done (reloop, c', fs) same le h (retried n lt g) =
        reloops d c' rounds log _ (es ++ fs) done same n lt le (
          turned lint_requested sent es fs done refl h
            (check_plain m out o lint d {c' = c'} (retried n lt g)))

    -- The two branches of `lintActive` behind a step that lets the attempt proceed.
    then_lint :
        (on : Bool) (d : Cycle World Error) (rounds : ℕ) (log sent es done : List Published)
        → d.attempts ≡ c.attempts
        → 3 * fuel ≤ rounds
        → observed sent ≡ done ++ es
        → Agrees
            (unless_reloop m out o (and_then m out o on lint (proceed, d, es)) loop)
            (Rest (suc rounds) log (if on then command lint_requested ∷ [] else []) (d, sent))
            done
    unfolding dispatch_in handler_of
    then_lint true d rounds log sent es done same le h =
        lint_turn d rounds _ sent es done (check_step m out o lint d) same le h
          (check_step-Checked m out o lint d)
    then_lint false d rounds log sent es done same le h = (d, es, sent, log, refl, refl, h)

    verify_turn :
        (d : Cycle World Error) (rounds : ℕ) (log sent es done : List Published)
        (z : Stepped m out o)
        → d.attempts ≡ c.attempts
        → 3 * fuel ≤ rounds
        → observed sent ≡ done ++ es
        → Checked m out o verify d z
        → Agrees
            (unless_reloop m out o
              (and_then m out o (lint_active o) lint (let (x, c', fs) = z in (x, c', es ++ fs)))
              loop)
            (continue
              (publish_command m out o)
              (λ ev. handler_of m out o ev.type)
              (reply m out o z (after_check m out o verify) (sent ++ command verify_requested ∷ []))
              []
              log
              (λ q t. Rest (suc rounds) log q t))
            done
    unfolding dispatch_in is_command
    verify_turn d rounds log sent es done (proceed, c', fs) same le h (passed n g) =
        then_lint (lint_active o) c' rounds log _ (es ++ fs) done (n ∙ same) le (
          turned verify_requested sent es fs done refl h
            (check_plain m out o verify d {c' = c'} (passed n g)))
    verify_turn d rounds log sent es done (stop, c', fs) same le h k = (
      c',
      es ++ fs,
      _,
      log,
      refl,
      refl,
      turned verify_requested sent es fs done refl h (check_plain m out o verify d k),
    )
    verify_turn d rounds log sent es done (reloop, c', fs) same le h (retried n lt g) =
        reloops d c' (suc rounds) log _ (es ++ fs) done same n lt (omega (arith, le)) (
          turned verify_requested sent es fs done refl h
            (check_plain m out o verify d {c' = c'} (retried n lt g)))

    -- The two branches of `opts.Refine.active()` behind the agent's step.
    then_verify :
        (on : Bool) (d : Cycle World Error) (rounds : ℕ) (log sent es done : List Published)
        → d.attempts ≡ c.attempts
        → 3 * fuel ≤ rounds
        → observed sent ≡ done ++ es
        → Agrees
            (unless_reloop m out o
              (and_then m out o (lint_active o) lint (and_then m out o on verify (proceed, d, es)))
              loop)
            (Rest
              (suc (suc rounds))
              log
              (if on
                then command verify_requested ∷ []
                else if lint_active o
                then command lint_requested ∷ []
                else [])
              (d, sent))
            done
    unfolding dispatch_in handler_of
    then_verify true d rounds log sent es done same le h =
        verify_turn d rounds _ sent es done (check_step m out o verify d) same le h
          (check_step-Checked m out o verify d)
    then_verify false d rounds log sent es done same le h =
        then_lint (lint_active o) d (suc rounds) log sent es done same (omega (arith, le)) h

    pub agent_turn :
        (rounds : ℕ) (log sent done : List Published) (y : Stepped m out o)
        → 3 * fuel ≤ rounds
        → observed sent ≡ done
        → Worked m out o c y
        → Agrees
            (unless_reloop m out o
              (and_then m out o (lint_active o) lint (and_then m out o (active o.refine) verify y))
              loop)
            (continue
              (publish_command m out o)
              (λ ev. handler_of m out o ev.type)
              (reply m out o y
                (λ x. after_execute m out o x)
                (sent ++ command execute_requested ∷ []))
              []
              log
              (λ q t. Rest (suc (suc rounds)) log q t))
            done
    unfolding dispatch_in is_command plain
    agent_turn rounds log sent done (proceed, c', es) le h (goes n k) =
        then_verify (active o.refine) c' rounds log _ es done n le
          (observed-turn execute_requested sent done es refl h (observed-plain es (ap plain k)))
    agent_turn rounds log sent done (stop, c', es) le h (ends n k) = (
      c',
      es,
      _,
      log,
      refl,
      refl,
      observed-turn execute_requested sent done es refl h (observed-plain es (ap plain k)),
    )
    agent_turn rounds log sent done (reloop, c', es) le h k = elim k [ ]
