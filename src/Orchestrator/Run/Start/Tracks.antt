-- ===== src/Orchestrator/Run/Start/Tracks.antt =====
-- internal/orchestrator/run.go against internal/runtime: the phase in which the setup of a run leaves it.
use sandcode.Base.{◌≡◌, refl, ap, ◌∙◌, List, [], ◌∷◌, ◌++◌}
use sandcode.Event.{EventType}
use sandcode.Orchestrator.Run.{Payload, Published}
use sandcode.Orchestrator.Run.Ends.{cap}
use sandcode.Orchestrator.Run.Phases.{Point, moves, moves-append}
use sandcode.Orchestrator.Run.Start.{
  StartError, auth, empty_prompt, empty_cwd, empty_image, Reached, halted, reached, M, carry_on,
  ◌>>=◌, give, emit, change, halt, answer,
}
use sandcode.Orchestrator.Run.Ways.{kinds, kinds-append}
use sandcode.Runtime.Phase.{Phase, submitted, failed}

-- Where a run that gives up is left.
unfoldable pub left_at : {Error : Type 0} → StartError Error → Phase
left_at empty_prompt = submitted
left_at empty_cwd = submitted
left_at empty_image = submitted
left_at (auth e) = submitted
left_at _ = failed

-- Where a step leads, as a function of what it gives.
abbrev pub At : {Error A : Type 0} → (A → Phase) → Reached Error A → Point → Type 0
At target (halted e) x = x ≡ (left_at e, 1)
At target (reached a) x = x ≡ (target a, 1)

abbrev pub to : {A : Type 0} → Phase → A → Phase
to p a = p

module _ {World Error : Type 0} where
  -- From a phase the step leads to another, unless it gives up.
  pub record Tracks {A : Type 0} (p : Phase) (q : A → Phase)
      (act : World → Reached Error A × World × List Published) : Type 0 where
    pub lands : (w : World) → At q (act w).0 (moves cap (kinds (act w).2) (p, 1))

  carried :
      {A B : Type 0} (q : A → Phase) (t : B → Phase) (p x : Point)
      (r : Reached Error A × World × List Published) (f : A → M World Error B)
      → moves cap (kinds r.2) p ≡ x
      → At q r.0 x
      → ((a : A) → Tracks (q a) t (f a))
      → At t (carry_on r f).0 (moves cap (kinds (carry_on r f).2) p)
  carried q t p x (halted e, w, es) f same h k = same ∙ h
  carried {B = B} q t p x (reached a, w, es) f same h k = go (f a w) ((k a).lands w)
    where
      after : (fs : List Published) → moves cap (kinds (es ++ fs)) p ≡ moves cap (kinds fs) (q a, 1)
      after fs =
          ap (λ ks. moves cap ks p) (kinds-append es fs)
          ∙ moves-append cap (kinds es) (kinds fs) p
          ∙ ap (moves cap (kinds fs)) (same ∙ h)

      go :
          (s : Reached Error B × World × List Published)
          → At t s.0 (moves cap (kinds s.2) (q a, 1))
          → At t s.0 (moves cap (kinds (es ++ s.2)) p)
      go (halted e, w', fs) g = after fs ∙ g
      go (reached b, w', fs) g = after fs ∙ g

  pub bind-Tracks :
      {A B : Type 0} {p : Phase} {t : B → Phase} (q : A → Phase) {act : M World Error A}
      {f : A → M World Error B}
      → Tracks p q act
      → ((a : A) → Tracks (q a) t (f a))
      → Tracks p t (act >>= f)
  bind-Tracks q {act} {f} h k = record { lands = λ w. carried q _ _ _ (act w) f refl (h.lands w) k }

  pub give-Tracks : {A : Type 0} (p : Phase) (q : A → Phase) (a : A) → p ≡ q a → Tracks p q (give a)
  unfolding moves
  give-Tracks p q a h = record { lands = λ w. ap (λ r. (r, 1)) h }

  pub change-Tracks : (p : Phase) (f : World → World) → Tracks p (to p) (change f)
  unfolding moves
  change-Tracks p f = record { lands = λ w. refl }

  pub answer-Tracks : {B : Type 0} (p : Phase) (f : World → B × World) → Tracks p (to p) (answer f)
  unfolding moves
  answer-Tracks p f = record { lands = λ w. refl }

  pub emit-Tracks :
      (p q : Phase) (t : EventType) (d : Payload)
      → moves cap (t ∷ []) (p, 1) ≡ (q, 1)
      → Tracks p (to q) (emit t d)
  emit-Tracks p q t d h = record { lands = λ w. h }

  pub halt-Tracks :
      {A : Type 0} (p : Phase) (q : A → Phase) (e : StartError Error)
      → p ≡ left_at e
      → Tracks p q (halt e)
  unfolding moves
  halt-Tracks p q e h = record { lands = λ w. ap (λ r. (r, 1)) h }
