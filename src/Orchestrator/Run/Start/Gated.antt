-- ===== src/Orchestrator/Run/Start/Gated.antt =====
-- internal/orchestrator/run.go: the governance gate of a run and its early returns, as the state machine sees them.
use sandcode.Base.{
  ◌≡◌, refl, ap, ◌∙◌, sym, inl, inr, List, [], ◌∷◌, Option, none, some, Bool, true, false,
  if◌then◌else◌, Bool-cases,
}
use sandcode.Base.Bytes.{Bytes}
use sandcode.Base.Int.{ℤ}
use sandcode.Budget.{Amounts, Guard}
use sandcode.Event.{run_failed, governance_approved, governance_approval_required}
use sandcode.Governance.Audit.{action_text}
use sandcode.Governance.Policy.{Decision, Result, execute, allow, deny, review, approved}
use sandcode.Orchestrator.Run.{failure, approved_action, review_action, Setup, Outside}
use sandcode.Orchestrator.Run.Ends.{cap}
use sandcode.Orchestrator.Run.Phases.{moves}
use sandcode.Orchestrator.Run.Start.{
  ApprovalError, no_approver, wait_failed, rejected, Approval, StartError, denied, unapproved, Host,
  ◌>>=◌, give, answer, audit_approval, fail_early, on_error, await_approval, approval_answer,
  unless_approved, enter_gate, asked, gate,
}
use sandcode.Orchestrator.Run.Start.Tracks.{
  left_at, to, Tracks, bind-Tracks, give-Tracks, change-Tracks, answer-Tracks, emit-Tracks,
  halt-Tracks,
}
use sandcode.Orchestrator.Run.Ways.{denial, evaluate_policy-kinds}
use sandcode.Runtime.Phase.{Phase, submitted, failed, awaiting_approval}

module _ {World Error : Type 0} (m : Amounts ℤ) (out : Outside World Error)
    (host : Host World Error) (o : Setup) (has_store : Bool) where
  fail_early-Tracks :
      {A : Type 0} (p : Phase) (q : A → Phase) (clean : World → World) (e : StartError Error)
      → left_at e ≡ failed
      → moves cap (run_failed ∷ []) (p, 1) ≡ (failed, 1)
      → Tracks p q (fail_early m out host o has_store clean e)
  unfolding fail_early
  fail_early-Tracks p q clean e h k = bind-Tracks (to p) (change-Tracks p clean) (λ a.
      bind-Tracks (to p)
        (change-Tracks p (λ w. if has_store then host.mark_failed_early e w else w))
        (λ b.
          bind-Tracks (to failed)
            (emit-Tracks p failed run_failed (failure (host.reason_text e) (host.message e)) k)
            (λ c. halt-Tracks failed q e (sym h))))

  pub on_error-Tracks :
      (p : Phase) (clean : World → World) (f : Error → StartError Error) (x : Option Error)
      → ((e : Error) → left_at (f e) ≡ failed)
      → moves cap (run_failed ∷ []) (p, 1) ≡ (failed, 1)
      → Tracks p (to p) (on_error m out host o has_store clean f x)
  unfolding on_error
  on_error-Tracks p clean f none h k = give-Tracks p (to p) tt refl
  on_error-Tracks p clean f (some e) h k = fail_early-Tracks p (to p) clean (f e) (h e) k

  -- The phase while an approval is waited for.
  waiting : Option (ApprovalError Error) → Phase
  waiting none = submitted
  waiting (some e) = awaiting_approval

  approval_answer-Tracks :
      (x : Option Error × Approval)
      → Tracks awaiting_approval waiting (approval_answer m out host o has_store x)
  unfolding waiting moves
  approval_answer-Tracks (some e, a) =
      give-Tracks awaiting_approval waiting (some (wait_failed e)) refl
  approval_answer-Tracks (none, a) = elim (Bool-cases a.is_approved) [
    | inl y ↦ rw y (
        bind-Tracks (to submitted)
          (emit-Tracks awaiting_approval submitted governance_approved
            (approved_action (action_text execute) a.approver) refl)
          (λ b.
            bind-Tracks (to submitted)
              (change-Tracks submitted (audit_approval m out host o has_store a.approver))
              (λ c. give-Tracks submitted waiting none refl)))
    | inr n ↦ rw n (give-Tracks awaiting_approval waiting (some (rejected a.reason)) refl)
  ]

  await_approval-Tracks :
      (reasons : List Bytes)
      → Tracks submitted waiting (await_approval m out host o has_store reasons)
  unfolding await_approval waiting moves
  await_approval-Tracks reasons =
      bind-Tracks (to awaiting_approval)
        (emit-Tracks submitted awaiting_approval governance_approval_required
          (review_action (action_text execute) 1 reasons) refl)
        (λ a. go host.approver)
    where
      go :
          (x : Option (World → (Option Error × Approval) × World))
          → Tracks {World = World} {Error = Error} awaiting_approval waiting (elim x [
            | none ↦ give (some no_approver)
            | some approver ↦ answer approver >>= approval_answer m out host o has_store
          ])
      go none = give-Tracks awaiting_approval waiting (some no_approver) refl
      go (some f) =
          bind-Tracks (to awaiting_approval) (answer-Tracks awaiting_approval f)
            approval_answer-Tracks

  unless_approved-Tracks :
      (x : Option (ApprovalError Error))
      → Tracks (waiting x) (to submitted) (unless_approved m out host o has_store x)
  unfolding waiting moves left_at
  unless_approved-Tracks none = give-Tracks submitted (to submitted) tt refl
  unless_approved-Tracks (some e) =
      fail_early-Tracks awaiting_approval (to submitted) (λ w. w) (unapproved e) refl refl

  enter_gate-Tracks :
      (d : Decision) → Tracks submitted (to submitted) (enter_gate m out host o has_store d)
  unfolding moves left_at
  enter_gate-Tracks d = go d.result
    where
      go :
          (r : Result)
          → Tracks {World = World} {Error = Error} {A = Unit {0}} submitted (to submitted) (elim r [
            | deny ↦ fail_early m out host o has_store (λ w. w) (denied d.reasons)
            | review ↦
                await_approval m out host o has_store d.reasons
                >>= unless_approved m out host o has_store
            | allow ↦ give tt
            | approved ↦ give tt
          ])
      go deny = fail_early-Tracks submitted (to submitted) (λ w. w) (denied d.reasons) refl refl
      go review = bind-Tracks waiting (await_approval-Tracks d.reasons) unless_approved-Tracks
      go allow = give-Tracks submitted (to submitted) tt refl
      go approved = give-Tracks submitted (to submitted) tt refl

  denial_stays : (b : Bool) → moves cap (denial b) (submitted, 1) ≡ (submitted, 1)
  unfolding moves
  denial_stays true = refl
  denial_stays false = refl

  asked-Tracks : (g : Guard ℤ) → Tracks submitted (to submitted) (asked m out host o has_store g)
  asked-Tracks g = record {
    lands = λ w.
        let (same, k) = evaluate_policy-kinds m out o execute 1 0 _ in
        ap (λ ks. moves cap ks (submitted, 1)) k ∙ denial_stays _;
  }

  pub gate-Tracks : (g : Guard ℤ) → Tracks submitted (to submitted) (gate m out host o has_store g)
  unfolding gate
  gate-Tracks g = bind-Tracks (to submitted) (asked-Tracks g) enter_gate-Tracks
