-- ===== src/Reactor/Tests.antt =====
-- A reactor in which event 2 is handled by the events 1 and 0, and event 1 by event 0.
use sandcode.Base.{
  ℕ, zero, suc, ◌≡◌, refl, List, [], ◌∷◌, Option, none, some, String, true, if◌then◌else◌, arith,
}
use sandcode.Reactor.{produced, Reactor, new_reactor, register, handle, dispatch}
use sandcode.Reactor.Fifo.{Ended, Descends, dispatch-Ended}

abbrev name_of : ℕ → String
name_of zero = "tested"
name_of (suc zero) = "code"
name_of (suc (suc zero)) = "plan"
name_of (suc (suc (suc n))) = "other"

abbrev planning : Reactor ℕ String
planning =
    register "plan" (λ _. produced (1 ∷ 0 ∷ []))
      (register "code" (λ _. produced (0 ∷ [])) (new_reactor true))

planning-Descends : Descends name_of planning (λ n. n)
unfolding handle register new_reactor
planning-Descends zero = tt
planning-Descends (suc zero) = (omega arith, tt)
planning-Descends (suc (suc zero)) = (omega arith, (omega arith, tt))
planning-Descends (suc (suc (suc n))) = tt

dispatch-Ended_example :
    (rounds : ℕ) × (log : List ℕ) × (sent : List ℕ) × (err : Option String) × (dispatch name_of
        planning rounds 2
      ≡ some (log, sent, err))
    × (sent ≡ (if planning.has_bus then log else []))
    × Ended name_of planning 2 log err
dispatch-Ended_example = dispatch-Ended name_of planning (λ n. n) 2 planning-Descends

dispatch_test : dispatch name_of planning 9 2 ≡ some (2 ∷ 1 ∷ 0 ∷ 0 ∷ [], 2 ∷ 1 ∷ 0 ∷ 0 ∷ [], none)
unfolding dispatch register new_reactor
dispatch_test = refl
