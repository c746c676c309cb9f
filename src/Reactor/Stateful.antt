-- ===== src/Reactor/Stateful.antt =====
-- internal/reactor/reactor.go: `Dispatch` with handlers that are closures over variables of their caller. The
-- variables are a state that each handler takes and gives back, and publishing is a change of it.
use sandcode.Base.{ℕ, zero, suc, List, [], ◌∷◌, ◌++◌, Option, none, some}
use sandcode.Reactor.{Handled, produced, failed}

module _ {E Error S : Type 0} (publish : E → S → S)
    (handler : E → Option (S → Handled E Error × S)) where
  -- The log, the state, and the error of a handler.
  abbrev pub DispatchedIn : Type 0
  DispatchedIn = Option (List E × S × Option Error)

  abbrev pub call : Option (S → Handled E Error × S) → S → Handled E Error × S
  call none s = (produced [], s)
  call (some h) s = h s

  -- After a handler.
  abbrev pub continue :
      Handled E Error × S → List E → List E → (List E → S → DispatchedIn) → DispatchedIn
  continue (failed e, s) queue log next = some (log, s, some e)
  continue (produced es, s) queue log next = next (queue ++ es) s

  -- The loop, with the rounds that are left; `none` where they are spent.
  unfoldable pub dispatch_in : ℕ → List E → List E → S → DispatchedIn
  dispatch_in rounds [] log s = some (log, s, none)
  dispatch_in zero (ev ∷ queue) log s = none
  dispatch_in (suc rounds) (ev ∷ queue) log s =
      let log' = log ++ ev ∷ [] in
      continue (call (handler ev) (publish ev s)) queue log' (λ q t. dispatch_in rounds q log' t)
