-- ===== src/Orchestrator/Run/Finish/Lands.antt =====
-- internal/orchestrator/run.go against internal/runtime: the events of the finalization.
use sandcode.Base.{ℕ, ◌≡◌, refl, ap, ◌∙◌, [], ◌∷◌, none, true, arith}
use sandcode.Base.Bytes.{Bytes}
use sandcode.Base.Int.{ℤ}
use sandcode.Budget.{Amounts}
use sandcode.Event.{EventType, run_completed, run_failed, run_cancelled, sandbox_destroyed}
use sandcode.Orchestrator.Run.{Setup, Outside, Cycle}
use sandcode.Orchestrator.Run.Ends.{cap, is_open, IsDone}
use sandcode.Orchestrator.Run.Finish.{
  Status, succeeded, failed, stopped, Closing, Wishes, status_of, merged, last_event, commit,
  finish,
}
use sandcode.Orchestrator.Run.Phases.{Point, moves}
use sandcode.Orchestrator.Run.Start.{Host}
use sandcode.Orchestrator.Run.Ways.{kinds}
use sandcode.Runtime.Phase.{Phase, agent_completed, completed, cancelled}

-- The phase in which a run is left.
unfoldable pub end_phase : Status → Phase
end_phase succeeded = completed
end_phase failed = Phase.failed
end_phase stopped = cancelled

abbrev end_type : Status → EventType
end_type succeeded = run_completed
end_type failed = run_failed
end_type stopped = run_cancelled

close_moves :
    (s : Status) (p : Phase) (n : ℕ)
    → is_open p ≡ true
    → (s ≡ succeeded → p ≡ agent_completed)
    → moves cap (sandbox_destroyed ∷ end_type s ∷ []) (p, n) ≡ (end_phase s, n)
unfolding moves end_phase
close_moves succeeded p n h g = rw (g refl) refl
close_moves failed p n h g = ground arith
close_moves stopped p n h g = ground arith

module _ {World Error : Type 0} (out : Outside World Error) (host : Host World Error)
    (closing : Closing World Error) (o : Setup) (wish : Wishes) where
  merged_only :
      (s : Status) (c : Cycle World Error)
      → (merged out host closing o wish s c).0 ≡ succeeded
      → s ≡ succeeded
  unfolding merged
  merged_only succeeded c h = refl
  merged_only failed c h = h
  merged_only stopped c h = h

  merged-attempts :
      (s : Status) (c : Cycle World Error)
      → (merged out host closing o wish s c).1.attempts ≡ c.attempts
  unfolding merged
  merged-attempts succeeded c = ground arith
  merged-attempts failed c = refl
  merged-attempts stopped c = refl

  status_of-err :
      (c : Cycle World Error) → status_of out host closing o wish c ≡ succeeded → c.err ≡ none
  unfolding status_of
  status_of-err c h = ground arith

  last-type :
      (s : Status) (diff : Bytes) (c : Cycle World Error)
      → (last_event out host closing o wish s diff c).type ≡ end_type s
  unfolding last_event
  last-type succeeded diff c = refl
  last-type failed diff c = refl
  last-type stopped diff c = refl

  pub finish-lands :
      (m : Amounts ℤ) (s : Setup) (c : Cycle World Error) (x : Point)
      → IsDone m out s c x
      → moves cap (kinds (finish out host closing o wish c).2) x
        ≡ (end_phase (finish out host closing o wish c).0.status, x.1)
  unfolding finish commit
  finish-lands m s c (p, n) d =
      ap (λ t. moves cap (sandbox_destroyed ∷ t ∷ []) (p, n)) (last-type _ _ _)
      ∙ close_moves _ p n d.stands (λ e. d.blessed (status_of-err c (merged_only _ _ e)))

  pub finish-attempts :
      (c : Cycle World Error) → (finish out host closing o wish c).0.attempts ≡ c.attempts
  unfolding finish commit
  finish-attempts c = merged-attempts _ _
