-- ===== src/Runtime/Gate.antt =====
-- When a run can be stopped, and where the refine cap ends it.
use sandcode.Base.{
  ◌+◌, ◌≡◌, refl, ◌≢◌, ◌⊎◌, inl, inr, none, some, true, false, arith, ltb, if◌then◌else◌,
}
use sandcode.Event.{
  Event, EventType, run_failed, run_cancelled, refine_triggered, step_back_requested,
  model_route_requested, run_stepped_back, run_model_routed, mcp_injected,
}
use sandcode.Runtime.Phase.{
  Phase, executing, refining, failed, cancelled, reporting, learning, is_terminal,
}
use sandcode.Runtime.Transitions.{lookup_transition, is_observation_only}
use sandcode.Runtime.StateMachine.{
  ExecutionState, Clock, invalid_transition, cap_message, enter, capture_error, mark_terminal,
  is_failed, record_event, mismatched, is_refine, follow, apply,
}
use sandcode.Runtime.Invariant.{IsValid, enter_fields, cap_fields}

lookup-run_failed :
    (p : Phase)
    → is_terminal p ≡ false
    → p ≢ reporting
    → p ≢ learning
    → (lookup_transition p run_failed ≡ some failed)
      × (lookup_transition p run_cancelled ≡ some cancelled)
unfolding lookup_transition is_terminal
lookup-run_failed p live r l = ground arith

lookup-unlisted :
    (p : Phase) (t : EventType)
    → (t ≡ mcp_injected)
      ⊎ (t ≡ run_stepped_back)
      ⊎ (t ≡ run_model_routed)
      ⊎ (t ≡ step_back_requested)
      ⊎ (t ≡ model_route_requested)
    → (is_observation_only t ≡ false) × (lookup_transition p t ≡ none)
unfolding lookup_transition is_observation_only
lookup-unlisted p t h = ground arith

module _ (c : Clock) (ev : Event) (s : ExecutionState) where
  -- `Apply` of an event that is not refused at the door.
  apply-follow :
      is_terminal s.phase ≡ false
      → mismatched ev.run_id s.run_id ≡ false
      → is_observation_only ev.type ≡ false
      → apply c ev s ≡ follow c ev s (lookup_transition s.phase ev.type)
  unfolding apply
  apply-follow live own watched = rw (live, own, watched)

  -- ... and that the table sends to `next`.
  apply-enter :
      (next : Phase) (t : EventType)
      → is_terminal s.phase ≡ false
      → mismatched ev.run_id s.run_id ≡ false
      → is_observation_only t ≡ false
      → is_refine t ≡ false
      → lookup_transition s.phase t ≡ some next
      → ev.type ≡ t
      → ((apply c ev s).1 ≡ none) × ((apply c ev s).0.phase ≡ next)
  unfolding follow
  apply-enter next t live own watched plain e typ =
      let watched' : is_observation_only ev.type ≡ false = rw typ watched in
      let plain' : is_refine ev.type ≡ false = rw typ plain in
      let e' : lookup_transition s.phase ev.type ≡ some next = rw typ e in
      rw (apply-follow live own watched') (rw e' (rw plain' (refl, (enter_fields c ev s next).0)))

  -- A valid run that has not ended accepts a `run.failed` or a `run.cancelled` event of its own, and
  -- ends in the phase of that name.
  pub stop_accepted :
      (last : Phase)
      → IsValid s
      → is_terminal s.phase ≡ false
      → mismatched ev.run_id s.run_id ≡ false
      → (ev.type ≡ run_failed) × (last ≡ failed) ⊎ (ev.type ≡ run_cancelled) × (last ≡ cancelled)
      → ((apply c ev s).1 ≡ none) × ((apply c ev s).0.phase ≡ last)
  unfolding is_observation_only is_refine
  stop_accepted last v live own stops =
      let table = lookup-run_failed s.phase live v.not_reporting v.not_learning in
      elim stops [
        | inl (typ, same) ↦ rw same (apply-enter failed run_failed live own refl refl table.0 typ)
        | inr (typ, same) ↦
            rw same (apply-enter cancelled run_cancelled live own refl refl table.1 typ)
      ]

  enter_error : (u : ExecutionState) → (enter c executing ev u).last_error ≡ u.last_error
  unfolding enter capture_error mark_terminal record_event is_failed is_terminal
  enter_error u = ground arith

  -- What a `refine.triggered` event leaves, below the cap and at it.
  abbrev pub Gated : ExecutionState → Type 0
  Gated t =
      let below = ltb s.attempt s.max_attempts in
      (t.phase ≡ (if below then executing else failed))
      × (t.attempt ≡ (if below then s.attempt + 1 else s.attempt))
      × (t.last_error ≡ (if below then s.last_error else cap_message s.attempt s.max_attempts))

  follow-refine :
      ev.type ≡ refine_triggered
      → let r = follow c ev s (some executing) in (r.1 ≡ none) × Gated r.0
  unfolding follow is_refine
  follow-refine refine =
      let refines : is_refine ev.type ≡ true = rw refine in
      (ground (
        arith,
        refines,
        cap_fields c ev s,
        enter_error (record s { attempt = s.attempt + 1 }),
        enter_fields c ev (record s { attempt = s.attempt + 1 }) executing,
      ))

  -- In `refining`, a `refine.triggered` event of the run itself starts the next attempt while the
  -- attempts are below the cap; at the cap it ends the run as failed, with the numbers in its error.
  pub refine_gate :
      s.phase ≡ refining
      → mismatched ev.run_id s.run_id ≡ false
      → ev.type ≡ refine_triggered
      → ((apply c ev s).1 ≡ none) × Gated (apply c ev s).0
  unfolding is_terminal is_observation_only lookup_transition
  refine_gate at_refining own refine =
      let live : is_terminal s.phase ≡ false = rw at_refining in
      let watched : is_observation_only ev.type ≡ false = rw refine in
      let e : lookup_transition s.phase ev.type ≡ some executing = rw (at_refining, refine) in
      rw (apply-follow live own watched) (rw e (follow-refine refine))

  -- Five events that the event package documents as observation-only are not on the list of
  -- `IsObservationOnly`: no phase accepts them, so a strict replay of a log with one stops there.
  pub unlisted_refused :
      (ev.type ≡ mcp_injected)
        ⊎ (ev.type ≡ run_stepped_back)
        ⊎ (ev.type ≡ run_model_routed)
        ⊎ (ev.type ≡ step_back_requested)
        ⊎ (ev.type ≡ model_route_requested)
      → is_terminal s.phase ≡ false
      → mismatched ev.run_id s.run_id ≡ false
      → apply c ev s ≡ (s, some invalid_transition)
  unfolding follow
  unlisted_refused one live own =
      let (watched, missing) = lookup-unlisted s.phase ev.type one in
      rw (apply-follow live own watched) (rw missing)
