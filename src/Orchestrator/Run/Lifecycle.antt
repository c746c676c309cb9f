-- ===== src/Orchestrator/Run/Lifecycle.antt =====
-- internal/orchestrator/run.go against internal/runtime: what the events of a whole run make of its state.
use sandcode.Base.{
  ℕ, ◌+◌, ◌≤◌, ◌≡◌, refl, ap, ◌∙◌, sym, subst, String, List, [], ◌++◌, Option, none, some, Bool,
  true, false, ◌&&◌, arith,
}
use sandcode.Base.Bytes.{Bytes}
use sandcode.Base.Int.{ℤ}
use sandcode.Budget.{Amounts, Guard}
use sandcode.Orchestrator.Node.{attempt_cap}
use sandcode.Orchestrator.Refine.{effective}
use sandcode.Orchestrator.Run.{Payload, Published, Setup, Outside, Cycle}
use sandcode.Orchestrator.Run.Ends.{cap, IsDone, attempt_loop-Finishes}
use sandcode.Orchestrator.Run.Finish.{
  Closing, Wishes, RunOutcome, RunAnswer, refused, ran, finish, first_cycle, finished_with,
  after_start, check_options, run,
}
use sandcode.Orchestrator.Run.Gate.{count_attempt}
use sandcode.Orchestrator.Run.Loop.{tries, Looped, run_cycle}
use sandcode.Orchestrator.Run.Phases.{moves, moves-append, project, point_of, project-moves}
use sandcode.Orchestrator.Run.Observed.{observed}
use sandcode.Orchestrator.Run.Reactive.{reactive_same, tries_positive}
use sandcode.Orchestrator.Run.Start.{Host, StartError, Reached, halted, reached, start}
use sandcode.Orchestrator.Run.Start.Lands.{start-Tracks}
use sandcode.Orchestrator.Run.Start.Tracks.{left_at, At, to}
use sandcode.Orchestrator.Run.Ways.{kinds, kinds-append}
use sandcode.Runtime.Phase.{Phase, submitted, executing}
use sandcode.Runtime.StateMachine.{Clock, new_execution_state}
use sandcode.Orchestrator.Run.Log.{log_of, observed-moves, types-log_of, log_of-own}
use sandcode.Orchestrator.Run.Finish.Lands.{end_phase, finish-lands, finish-attempts}

unfoldable pub phase_after : {Error : Type 0} → RunOutcome Error → Phase
unfolding end_phase left_at
phase_after (refused e) = left_at e
phase_after (ran r) = end_phase r.status

abbrev pub attempts_after : {Error : Type 0} → RunOutcome Error → ℕ
attempts_after (refused e) = 1
attempts_after (ran r) = r.attempts

module _ {World Error : Type 0} (m : Amounts ℤ) (out : Outside World Error) (s : Setup) where
  abbrev Cycled : Looped m out s → Type 0
  Cycled l =
      (d : Cycle World Error) × (es : List Published) × (l ≡ some (d, es))
      × IsDone m out s d (moves cap (kinds es) (executing, 1))

  some-first : (a b : Cycle World Error × List Published) → some a ≡ some b → a ≡ b
  some-first a b h = cc

  -- Both cycles lead from `executing` to a point that is done.
  cycle-Cycled :
      (reactive : Bool) (c : Cycle World Error)
      → c.attempts ≡ 1
      → tries s ≤ cap
      → Cycled (run_cycle m out s reactive c)
  cycle-Cycled reactive c one small =
      let (d, es, sent, e, f, h) = reactive_same m out s c one in
      let (d', es', e', done) =
        attempt_loop-Finishes m out s (tries s + 1) c small (omega (arith, one, tries_positive s))
          (omega (arith, one)) in
      let same = some-first (d', es') (d, es) (sym e' ∙ unfold run_cycle in e) in
      let lands : IsDone m out s d (moves cap (kinds es) (executing, 1)) =
        subst (λ n. IsDone m out s d (moves cap (kinds es) (executing, n))) one
          (subst
            (λ (p : Cycle World Error × List Published).
              IsDone m out s p.0 (moves cap (kinds p.1) (executing, c.attempts)))
            same done) in
      pick reactive d es sent e f h lands
    where
      pick :
          (b : Bool) (d : Cycle World Error) (es sent : List Published)
          → run_cycle m out s false c ≡ some (d, es)
          → run_cycle m out s true c ≡ some (d, sent)
          → observed sent ≡ es
          → IsDone m out s d (moves cap (kinds es) (executing, 1))
          → Cycled (run_cycle m out s b c)
      pick false d es sent e f h l = (d, es, e, l)
      pick true d es sent e f h l = (
        d,
        sent,
        f,
        subst (λ x. IsDone m out s d x)
            (sym (
              observed-moves cap sent (executing, 1)
              ∙ ap (λ l. moves cap (kinds l) (executing, 1)) h))
            l,
      )

module _ {World Error : Type 0} (m : Amounts ℤ) (out : Outside World Error)
    (host : Host World Error) (closing : Closing World Error) (o : Setup) (wish : Wishes) where
  -- What `Run` comes to.
  abbrev Lands : RunAnswer m out host closing o wish → Type 0
  Lands a =
      (r : RunOutcome Error) × (w : World) × (es : List Published) × (a ≡ some (r, w, es))
      × (moves cap (kinds es) (submitted, 1) ≡ (phase_after r, attempts_after r))
      × (attempts_after r ≤ tries o)

  same_tries : (s : Setup) → s.refine ≡ o.refine → tries s ≡ tries o
  unfolding tries
  same_tries s e = ap (λ r. attempt_cap (effective r)) e

  finished-Lands :
      (s : Setup) (es : List Published) (l : Looped m out s)
      → s.refine ≡ o.refine
      → moves cap (kinds es) (submitted, 1) ≡ (executing, 1)
      → Cycled m out s l
      → Lands (finished_with m out host closing o wish es l)
  unfolding phase_after
  finished-Lands s es l same e (c, fs, f, d) =
      let done = finish out host closing o wish c in
      subst (λ x. Lands (finished_with m out host closing o wish es x)) (sym f)
        (
          ran done.0,
          done.1,
          es ++ (fs ++ done.2),
          refl,
          ap (λ ks. moves cap ks (submitted, 1))
                (kinds-append es (fs ++ done.2)
                  ∙ ap (λ ks. kinds es ++ ks) (kinds-append fs done.2))
              ∙ moves-append cap (kinds es) (kinds fs ++ kinds done.2) (submitted, 1)
              ∙ ap (moves cap (kinds fs ++ kinds done.2)) e
              ∙ moves-append cap (kinds fs) (kinds done.2) (executing, 1)
              ∙ finish-lands out host closing o wish m s c (moves cap (kinds fs) (executing, 1)) d
              ∙ ap (λ n. (end_phase done.0.status, n))
                  (d.counted ∙ sym (finish-attempts out host closing o wish c)),
          omega (arith, d.within, finish-attempts out host closing o wish c, same_tries s same),
        )

  started-Lands :
      (g : Guard ℤ) (a : Reached Error Bytes × World × List Published)
      → tries o ≤ cap
      → At (to executing) a.0 (moves cap (kinds a.2) (submitted, 1))
      → Lands (after_start m out host closing o wish g a)
  unfolding phase_after
  started-Lands g (halted e, w, es) small h = (refused e, w, es, refl, h, tries_positive o)
  started-Lands g (reached text, w, es) small h =
      let s : Setup = record o { enriched = text } in
      finished-Lands s es _ refl h (
        cycle-Cycled m out s (wish.reactive && wish.has_bus)
          (first_cycle m out host closing o wish s g w) (unfold first_cycle count_attempt in refl)
          (unfold tries in small))

  early :
      (e : StartError Error)
      → check_options m out host closing o wish ≡ some e
      → moves cap [] (submitted, 1) ≡ (phase_after (refused e), 1)
  unfolding check_options phase_after moves left_at
  early e h = ground arith

  run-Lands :
      (g : Guard ℤ) (w : World)
      → host.kernel ≡ none
      → tries o ≤ cap
      → Lands (run m out host closing o wish g w)
  unfolding run
  run-Lands g w no_kernel small = go (check_options m out host closing o wish) refl
    where
      go :
          (x : Option (StartError Error))
          → check_options m out host closing o wish ≡ x
          → Lands (elim x [
            | some e ↦ some (refused e, w, [])
            | none ↦ after_start m out host closing o wish g (start m out host o wish.has_store g w)
          ])
      go (some e) h = (refused e, w, [], refl, early e h, tries_positive o)
      go none h =
          started-Lands g (start m out host o wish.has_store g w) small
            ((start-Tracks m out host o wish.has_store g no_kernel).lands w)

-- `Run` ends, where it is called without a kernel and its options allow no more than three attempts. The state
-- machine, fed with the events of the run's log and passing over those it refuses, is then in the phase that
-- fits what `Run` came to: completed, failed or cancelled as the status of its result says, `failed` where it
-- gave up before the agent ran, and `submitted` where an option was missing or the credentials failed. It has
-- counted as many attempts as were made, which are no more than the options allow.
pub run_lifecycle :
    {World Error : Type 0} (m : Amounts ℤ) (out : Outside World Error) (host : Host World Error)
    (closing : Closing World Error) (o : Setup) (wish : Wishes) (g : Guard ℤ) (w : World)
    → host.kernel ≡ none
    → tries o ≤ 3
    → (r : RunOutcome Error) × (w' : World) × (es : List Published) × (run m out host closing o wish
          g w
        ≡ some (r, w', es))
      × (attempts_after r ≤ tries o)
      × ((parent : String) (encode : Payload → Bytes) (ids : ℕ → String) (times : ℕ → ℕ)
            (clock : ℕ → Clock) (now : ℕ)
          → point_of (
              project clock
                (log_of o.run_id parent encode ids times 0 es)
                0
                (new_execution_state now o.run_id))
            ≡ (phase_after r, attempts_after r))
run_lifecycle m out host closing o wish g w no_kernel small =
    let (r, w', es, e, h, le) = run-Lands m out host closing o wish g w no_kernel small in
    (
      r,
      w',
      es,
      e,
      le,
      λ parent encode ids times clock now.
          unfold new_execution_state in
          (project-moves clock (log_of o.run_id parent encode ids times 0 es) 0
              (new_execution_state now o.run_id) (log_of-own o.run_id parent encode ids times 0 es)
            ∙ ap (λ ks. moves cap ks (submitted, 1))
                (types-log_of o.run_id parent encode ids times 0 es)
            ∙ h),
    )
