-- ===== src/Reactor.antt =====
-- internal/reactor/reactor.go: the reactor, over events of any kind whose type is a text. A handler is a
-- function of its event, as the contract of a handler demands.
pub mod Fifo
pub mod Stateful
mod Tests
use sandcode.Base.{
  ℕ, zero, suc, List, [], ◌∷◌, ◌++◌, Option, none, some, String, Bool, true, false, if◌then◌else◌,
}
use sandcode.Base.Dict.{Dict, lookup, put}

-- What a handler gives.
pub data Handled (E Error : Type 0) : Type 0 where
  produced : List E → Handled E Error
  failed : Error → Handled E Error

pub record Reactor (E Error : Type 0) : Type 0 where
  pub has_bus : Bool
  pub handlers : Dict (E → Handled E Error)

module _ {E Error : Type 0} where
  unfoldable pub new_reactor : Bool → Reactor E Error
  new_reactor has_bus = record { has_bus = has_bus; handlers = [] }

  unfoldable pub register : String → (E → Handled E Error) → Reactor E Error → Reactor E Error
  unfolding put
  register cmd_type h r = record r { handlers = put cmd_type h r.handlers }

  module _ (type_of : E → String) (r : Reactor E Error) where
    abbrev pub handle_with : Option (E → Handled E Error) → E → Handled E Error
    handle_with none ev = produced []
    handle_with (some h) ev = h ev

    -- An event without a handler produces nothing.
    unfoldable pub handle : E → Handled E Error
    unfolding lookup
    handle ev = handle_with (lookup (type_of ev) r.handlers) ev

    -- The log, the events that were published, and the error of a handler.
    abbrev pub Dispatched : Type 0
    Dispatched = Option (List E × List E × Option Error)

    abbrev pub publish : E → List E → List E
    publish ev sent = if r.has_bus then sent ++ ev ∷ [] else sent

    -- After a handler.
    abbrev pub react :
        Handled E Error → List E → (List E → Dispatched) → (List E × List E) → Dispatched
    react (failed e) queue next (log, sent) = some (log, sent, some e)
    react (produced es) queue next (log, sent) = next (queue ++ es)

    -- The loop, with the rounds that are left; `none` where they are spent.
    unfoldable pub dispatch_from : ℕ → List E → List E → List E → Dispatched
    unfolding handle
    dispatch_from rounds [] log sent = some (log, sent, none)
    dispatch_from zero (ev ∷ queue) log sent = none
    dispatch_from (suc rounds) (ev ∷ queue) log sent =
        let log' = log ++ ev ∷ [] in
        let sent' = publish ev sent in
        react (handle ev) queue (λ q. dispatch_from rounds q log' sent') (log', sent')

    unfoldable pub dispatch : ℕ → E → Dispatched
    unfolding dispatch_from
    dispatch rounds seed = dispatch_from rounds (seed ∷ []) [] []
