-- ===== src/Bus/Tests.antt =====
-- A bus with three subscriptions, one of which is cancelled twice.
use sandcode.Base.{ℕ, ◌≡◌, refl, List, [], ◌∷◌, ◌++◌, arith}
use sandcode.Bus.{publish}
use sandcode.Bus.Delivery.{Op, subscribed, cancelled, run, new_client, remaining, standing}
use sandcode.Bus.Delivery.Result.{run-publish}

abbrev ops : List (Op ℕ)
ops =
    subscribed "run.failed" 10
    ∷ subscribed "*" 20
    ∷ subscribed "run.failed" 30
    ∷ cancelled 3
    ∷ cancelled 3
    ∷ []

run-publish_example :
    publish "run.failed" (run ops new_client).bus
    ≡ standing "run.failed" (remaining ops 0 []) ++ standing "*" (remaining ops 0 [])
run-publish_example = run-publish ops "run.failed" refl (omega arith)

first_stands : publish "run.failed" (run ops new_client).bus ≡ 10 ∷ 20 ∷ []
unfolding standing remaining
first_stands = run-publish_example
