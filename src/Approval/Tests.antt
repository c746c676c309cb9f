-- ===== src/Approval/Tests.antt =====
-- Two calls for one run, and the registry's theorem in the middle of them.
use mathlib.Core.List.{Memᴰ}
use sandcode.Base.{ℕ, ◌≡◌, ◌≢◌, refl, [], ◌∷◌, none, true, false}
use sandcode.Approval.{
  Decision, Registry, new_registry, request_approval, resolve, send, receive, clean_up, pending,
  requested, resolved, sent, received, cleaned, Reach, at_start, after,
}
use sandcode.Approval.Delivery.{send-never_blocks}

abbrev yes : Decision
yes = record { approved = true; approver = "ada"; reason = "" }

abbrev asked : Registry
asked = (request_approval "r" new_registry).0

abbrev answered : Registry
answered = (resolve "r" yes asked).0

answered-Reach : Reach answered
answered-Reach = after (after at_start (requested "r")) (resolved "r" yes)

answered-sending : answered.sending ≡ (0, yes) ∷ []
unfolding request_approval resolve new_registry
answered-sending = refl

send-never_blocks_example :
    (answered.buffers 0 ≡ none)
    × ((c : ℕ) (d : Decision) → Memᴰ {A = ℕ × Decision} (c, d) [] → c ≢ 0)
send-never_blocks_example = send-never_blocks answered [] [] 0 yes answered-Reach answered-sending

-- The first call has its answer and has yet to run its deferred delete when the run asks again.
abbrev asked_again : Registry
asked_again = (request_approval "r" (receive [] "r" 0 [] (send [] 0 yes [] answered))).0

abbrev stranded : Registry
stranded = clean_up [] "r" [] asked_again

stranded-Reach : Reach stranded
unfolding request_approval resolve new_registry send receive
stranded-Reach =
    after
      (after
        (after (after answered-Reach (sent [] [] 0 yes refl)) (received [] [] "r" 0 yes refl refl))
        (requested "r"))
      (cleaned [] [] "r" refl)

-- The second call still waits, is not pending, and cannot be answered.
stranded-waits :
    (stranded.waiting ≡ ("r", 1) ∷ [])
    × (pending stranded.waiters ≡ [])
    × ((resolve "r" yes stranded).1 ≡ false)
unfolding request_approval resolve new_registry send receive clean_up pending
stranded-waits = (refl, refl, refl)
