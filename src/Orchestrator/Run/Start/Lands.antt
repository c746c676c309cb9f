-- ===== src/Orchestrator/Run/Start/Lands.antt =====
-- internal/orchestrator/run.go against internal/runtime: each part of the setup, and the whole of it.
use sandcode.Base.{◌≡◌, refl, List, [], ◌∷◌, Option, none, some, Bool, if◌then◌else◌, String}
use sandcode.Base.Bytes.{Bytes}
use sandcode.Base.Int.{ℤ}
use sandcode.Budget.{Amounts, Guard}
use sandcode.Event.{mcp_injected, run_submitted, sandbox_created, agent_executing}
use sandcode.Orchestrator.Run.{
  injected, created, submitted as submitted_payload, executing as executing_payload, Setup, Outside,
}
use sandcode.Orchestrator.Run.Phases.{moves}
use sandcode.Orchestrator.Run.Start.{
  auth, worktree, mcp, sandbox, exec, Host, ◌>>=◌, ◌>>◌, emit, change, give, answer, on_error,
  inject_named, inject, unless_unauthorized, authorize, or_raw, enrich, start,
}
use sandcode.Orchestrator.Run.Start.Tracks.{
  left_at, to, Tracks, bind-Tracks, give-Tracks, change-Tracks, answer-Tracks, emit-Tracks,
  halt-Tracks,
}
use sandcode.Runtime.Phase.{submitted, sandbox_ready, executing}
use sandcode.Orchestrator.Run.Start.Gated.{on_error-Tracks, gate-Tracks}

module _ {World Error : Type 0} (m : Amounts ℤ) (out : Outside World Error)
    (host : Host World Error) (o : Setup) (has_store : Bool) where
  inject_named-Tracks :
      (names : List String)
      → Tracks submitted (to submitted) (inject_named m out host o has_store names)
  unfolding moves left_at
  inject_named-Tracks [] = give-Tracks submitted (to submitted) tt refl
  inject_named-Tracks (name ∷ names) =
      bind-Tracks (to submitted) (answer-Tracks submitted host.inject_servers) (λ x.
        bind-Tracks (to submitted)
          (on_error-Tracks m out host o has_store submitted host.remove_worktree (λ e. mcp e) x
            (λ e. refl) refl)
          (λ a. emit-Tracks submitted submitted mcp_injected (injected (name ∷ names)) refl))

  inject-Tracks : Tracks submitted (to submitted) (inject m out host o has_store)
  unfolding inject
  inject-Tracks = go host.enabled_servers
    where
      go :
          (x : Option (World → List String))
          → Tracks {World = World} {Error = Error} {A = Unit {0}} submitted (to submitted) (elim x [
            | none ↦ give tt
            | some enabled ↦ answer (λ w. (enabled w, w)) >>= inject_named m out host o has_store
          ])
      go none = give-Tracks submitted (to submitted) tt refl
      go (some enabled) =
          bind-Tracks (to submitted) (answer-Tracks submitted (λ w. (enabled w, w)))
            inject_named-Tracks

  unless_unauthorized-Tracks :
      (x : Option Error)
      → Tracks submitted (to submitted) (unless_unauthorized m out host o has_store x)
  unfolding left_at
  unless_unauthorized-Tracks none = give-Tracks submitted (to submitted) tt refl
  unless_unauthorized-Tracks (some e) =
      bind-Tracks (to submitted) (change-Tracks submitted host.remove_worktree) (λ a.
        bind-Tracks (to submitted)
          (change-Tracks submitted
            (λ w. if has_store then host.mark_failed_early (auth e) w else w))
          (λ b. halt-Tracks submitted (to submitted) (auth e) refl))

  authorize-Tracks : Tracks submitted (to submitted) (authorize m out host o has_store)
  unfolding authorize
  authorize-Tracks = go host.apply_auth
    where
      go :
          (x : Option (World → Option Error × World))
          → Tracks {World = World} {Error = Error} {A = Unit {0}} submitted (to submitted) (elim x [
            | none ↦ give tt
            | some apply ↦ answer apply >>= unless_unauthorized m out host o has_store
          ])
      go none = give-Tracks submitted (to submitted) tt refl
      go (some apply) =
          bind-Tracks (to submitted) (answer-Tracks submitted apply) unless_unauthorized-Tracks

  or_raw-Tracks :
      (x : Option Bytes) → Tracks sandbox_ready (to sandbox_ready) (or_raw m out host o has_store x)
  or_raw-Tracks none = give-Tracks sandbox_ready (to sandbox_ready) o.prompt refl
  or_raw-Tracks (some text) = give-Tracks sandbox_ready (to sandbox_ready) text refl

  enrich-Tracks :
      host.kernel ≡ none → Tracks sandbox_ready (to sandbox_ready) (enrich m out host o has_store)
  unfolding enrich
  enrich-Tracks h = rw h (go host.brain)
    where
      go :
          (x : Option (Bytes → World → Option Bytes × World))
          → Tracks {World = World} {Error = Error} {A = Bytes} sandbox_ready
              (to sandbox_ready)
              (elim x [
                | none ↦ give o.prompt
                | some f ↦ answer (f o.prompt) >>= or_raw m out host o has_store
              ])
      go none = give-Tracks sandbox_ready (to sandbox_ready) o.prompt refl
      go (some f) =
          bind-Tracks (to sandbox_ready) (answer-Tracks sandbox_ready (f o.prompt)) or_raw-Tracks

  -- The setup leads from `submitted` to `executing`, or gives up.
  pub start-Tracks :
      (g : Guard ℤ)
      → host.kernel ≡ none
      → Tracks submitted (to executing) (start m out host o has_store g)
  unfolding start moves left_at
  start-Tracks g no_kernel =
      bind-Tracks (to submitted)
        (emit-Tracks submitted submitted run_submitted
          (submitted_payload o.agent host.sandbox_name o.strategy) refl)
        (λ a. bind-Tracks (to submitted) (gate-Tracks m out host o has_store g) (λ b.
          bind-Tracks (to submitted) (answer-Tracks submitted host.create_worktree) (λ x.
            bind-Tracks (to submitted)
              (on_error-Tracks m out host o has_store submitted (λ w. w) (λ e. worktree e) x
                (λ e. refl) refl)
              (λ c.
                bind-Tracks (to submitted) inject-Tracks
                  (λ d. bind-Tracks (to submitted) authorize-Tracks (λ e. boxed))))))
    where
      launched :
          (text : Bytes)
          → Tracks {World = World} {Error = Error} executing (to executing) (
              answer (out.start_agent text) >>= λ y.
              on_error m out host o has_store
                (λ w. host.remove_worktree (host.close_sandbox w))
                (λ e. exec e)
                y
              >> (change (λ w. if has_store then host.create_run w else w) >> give text))
      launched text =
          bind-Tracks (to executing) (answer-Tracks executing (out.start_agent text)) (λ y.
            bind-Tracks (to executing)
              (on_error-Tracks m out host o has_store executing
                (λ w. host.remove_worktree (host.close_sandbox w)) (λ e. exec e) y (λ e. refl) refl)
              (λ a.
                bind-Tracks (to executing)
                  (change-Tracks executing (λ w. if has_store then host.create_run w else w))
                  (λ b. give-Tracks executing (to executing) text refl)))

      boxed : Tracks {World = World} {Error = Error} submitted (to executing) (
          answer host.create_sandbox >>= λ y.
          on_error m out host o has_store host.remove_worktree (λ e. sandbox e) y
          >> (emit sandbox_created (created host.image host.work_dir)
              >> (enrich m out host o has_store >>= λ text.
                  emit agent_executing (executing_payload o.agent o.model)
                  >> (answer (out.start_agent text) >>= λ z.
                      on_error m out host o has_store
                        (λ w. host.remove_worktree (host.close_sandbox w))
                        (λ e. exec e)
                        z
                      >> (change (λ w. if has_store then host.create_run w else w) >> give text)))))
      boxed = bind-Tracks (to submitted) (answer-Tracks submitted host.create_sandbox) (λ y.
          bind-Tracks (to submitted)
            (on_error-Tracks m out host o has_store submitted host.remove_worktree (λ e. sandbox e)
              y (λ e. refl) refl)
            (λ a.
              bind-Tracks (to sandbox_ready)
                (emit-Tracks submitted sandbox_ready sandbox_created
                  (created host.image host.work_dir) refl)
                (λ b. bind-Tracks (to sandbox_ready) (enrich-Tracks no_kernel) (λ text.
                  bind-Tracks (to executing)
                    (emit-Tracks sandbox_ready executing agent_executing
                      (executing_payload o.agent o.model) refl)
                    (λ c. launched text)))))
