-- ===== src/Orchestrator/Execute/Faults.antt =====
-- internal/orchestrator/execute.go: the requests that `validateExecute` refuses.
use mathlib.Core.Option.{some-injective}
use sandcode.Base.{
  ◌<◌, ◌≡◌, refl, subst, inl, inr, List, [], ◌∷◌, Option, none, some, Bool, true, false, ◌&&◌, ◌==◌,
  ltb, length, arith, Bool-cases, str_eq, eq_iff, if◌then◌else◌,
}
use sandcode.Base.Int.{pos, ltz}
use sandcode.Orchestrator.Execute.{
  ExecuteError, empty_prompt, empty_cwd, empty_sandbox_image, no_agent, parallel_and_agents,
  ExecuteOptions, has_agent, validate_execute,
}

empty_list : {A : Type 0} (xs : List A) → (length xs == 0) ≡ true → xs ≡ []
empty_list [] h = refl
empty_list (x ∷ xs) h = absurd (ground (arith, h))

module _ {Agent : Type 0} where
  -- What is wrong with a request.
  pub data IsFault (o : ExecuteOptions Agent) : ExecuteError → Type 0 where
    no_prompt : o.prompt ≡ [] → IsFault o empty_prompt
    no_cwd : o.cwd ≡ "" → IsFault o empty_cwd
    no_image : o.sandbox_image ≡ "" → IsFault o empty_sandbox_image
    no_one : o.agent ≡ none → o.agents ≡ [] → IsFault o no_agent
    twice_many :
        ltz (pos 1) o.parallel_n ≡ true → 1 < length o.agents → IsFault o parallel_and_agents

  first-IsFault :
      (o : ExecuteOptions Agent) (a b c d f : Bool) (e : ExecuteError)
      → (a ≡ true → IsFault o empty_prompt)
      → (b ≡ true → IsFault o empty_cwd)
      → (c ≡ true → IsFault o empty_sandbox_image)
      → (d ≡ true → IsFault o no_agent)
      → (f ≡ true → IsFault o parallel_and_agents)
      → (if a
          then some empty_prompt
          else if b
          then some empty_cwd
          else if c
          then some empty_sandbox_image
          else if d
          then some no_agent
          else if f
          then some parallel_and_agents
          else none)
        ≡ some e
      → IsFault o e
  first-IsFault o true b c d f e p q r s t h = subst (IsFault o) (some-injective _ _ h) (p refl)
  first-IsFault o false true c d f e p q r s t h = subst (IsFault o) (some-injective _ _ h) (q refl)
  first-IsFault o false false true d f e p q r s t h =
      subst (IsFault o) (some-injective _ _ h) (r refl)
  first-IsFault o false false false true f e p q r s t h =
      subst (IsFault o) (some-injective _ _ h) (s refl)
  first-IsFault o false false false false true e p q r s t h =
      subst (IsFault o) (some-injective _ _ h) (t refl)
  first-IsFault o false false false false false e p q r s t h = cc

  nobody :
      (x : Option Agent) (xs : List Agent)
      → (if has_agent x then false else length xs == 0) ≡ true
      → (x ≡ none) × (xs ≡ [])
  nobody (some a) xs h = cc
  nobody none xs h = (refl, empty_list xs h)

  both :
      (o : ExecuteOptions Agent)
      → (ltz (pos 1) o.parallel_n && ltb 1 (length o.agents)) ≡ true
      → IsFault o parallel_and_agents
  both o h = elim (Bool-cases (ltz (pos 1) o.parallel_n)) [
    | inl y ↦ twice_many y (ground (arith, y, h))
    | inr n ↦ absurd (ground (arith, n, h))
  ]

  pub validate_execute-IsFault :
      (o : ExecuteOptions Agent) (e : ExecuteError) → validate_execute o ≡ some e → IsFault o e
  unfolding validate_execute
  validate_execute-IsFault o e h =
      first-IsFault o (length o.prompt == 0) (str_eq o.cwd "") (str_eq o.sandbox_image "")
        (if has_agent o.agent then false else length o.agents == 0)
        (ltz (pos 1) o.parallel_n && ltb 1 (length o.agents)) e
        (λ y. no_prompt (empty_list o.prompt y)) (λ y. no_cwd ((eq_iff o.cwd "").0 y))
        (λ y. no_image ((eq_iff o.sandbox_image "").0 y))
        (λ y. no_one (nobody o.agent o.agents y).0 (nobody o.agent o.agents y).1) (both o) h

  pub validate_execute-clear :
      (o : ExecuteOptions Agent) (e : ExecuteError) → validate_execute o ≡ none → ¬ IsFault o e
  unfolding validate_execute
  validate_execute-clear o e h (no_prompt p) =
      let zero_length : (length o.prompt == 0) ≡ true = rw p refl in ground (arith, zero_length, h)
  validate_execute-clear o e h (no_cwd p) = ground (arith, (eq_iff o.cwd "").1 p, h)
  validate_execute-clear o e h (no_image p) = ground (arith, (eq_iff o.sandbox_image "").1 p, h)
  validate_execute-clear o e h (no_one p q) =
      let alone : (if has_agent o.agent then false else length o.agents == 0) ≡ true =
        rw (p, q) refl in
      ground (arith, alone, h)
  validate_execute-clear o e h (twice_many p q) = ground (arith, p, q, h)
