-- ===== src/Orchestrator/Node.antt =====
-- internal/orchestrator/dag_chain.go: `runNode`, the attempts of one node.
pub mod Attempts
use sandcode.Base.{
  ℕ, zero, suc, ◌+◌, ◌-◌, ◌≡◌, refl, List, [], ◌∷◌, ◌++◌, Option, none, some, String, Bool, true,
  false, not, ◌&&◌, ◌||◌, codes, if◌then◌else◌,
}
use sandcode.Base.Bytes.{Bytes}
use sandcode.Base.Int.{ℤ, pos, negsuc, ltz}
use sandcode.Orchestrator.Refine.{RefineOptions, active, build_refine_prompt, tail_within}

-- What a command in the sandbox gives: it is not started, or its lines, exit code and error are read.
pub data Execution (Error : Type 0) : Type 0 where
  not_started : Error → Execution Error
  finished : List Bytes → ℤ → Option Error → Execution Error

-- The sandbox with the agent, each call with the state of the worktree before and after: `ag.BuildCommand`
-- and `box.Exec` for a prompt, and `box.Exec` for the verify command; and `strings.TrimSpace`.
pub record Sandbox (World Error : Type 0) : Type 0 where
  pub run_agent : Bytes → World → Execution Error × World
  pub run_command : List Bytes → World → Execution Error × World
  pub trim_space : Bytes → Bytes

pub data NodeError (Error : Type 0) : Type 0 where
  agent_exec : Error → NodeError Error
  agent_error : Error → NodeError Error
  verify_exec : Error → NodeError Error
  verify_failed : ℕ → ℤ → NodeError Error

-- Durations are not modelled.
pub record InvocationResult (Error : Type 0) : Type 0 where
  pub exit_code : ℤ
  pub completion : Bytes
  pub err : Option (NodeError Error)

pub record NodeResult (Error : Type 0) : Type 0 where
  pub node_id : String
  pub prompt : Bytes
  pub attempts : ℕ
  pub result : InvocationResult Error
  pub diff : Bytes

-- The dag.node events, with their attempt.
pub data NodeEvent : Type 0 where
  node_started : ℕ → NodeEvent
  node_completed : ℕ → Bool → NodeEvent

-- Each line with a newline.
unfoldable pub text_of : List Bytes → Bytes
text_of [] = []
text_of (line ∷ lines) = line ++ b'\n' ∷ text_of lines

abbrev pub is_zero_exit : ℤ → Bool
is_zero_exit (pos zero) = true
is_zero_exit _ = false

abbrev pub is_none : {A : Type 0} → Option A → Bool
is_none none = true
is_none (some a) = false

abbrev pub map_error : {A B : Type 0} → (A → B) → Option A → Option B
map_error f none = none
map_error f (some a) = some (f a)

-- The loop is left with the last result, or goes on with another prompt.
pub data Verdict (Error : Type 0) : Type 0 where
  leave : InvocationResult Error → Verdict Error
  again : Bytes → Verdict Error

-- `last.ExitCode == 0 && last.Err == nil`
unfoldable pub invocation_succeeded : {Error : Type 0} → InvocationResult Error → Bool
invocation_succeeded last = is_zero_exit last.exit_code && is_none last.err

-- One attempt is always made; a further one only below the cap.
unfoldable pub attempt_cap : RefineOptions → ℕ
attempt_cap refine = elim refine.max_attempts [ pos zero ↦ 1 | pos (suc n) ↦ suc n | negsuc n ↦ 1 ]

module _ {World Error : Type 0} (box : Sandbox World Error) (refine : RefineOptions)
    (original : Bytes) where
  -- After the verify command.
  unfoldable pub after_verify :
      ℕ → InvocationResult Error → Execution Error × World → Verdict Error × World
  unfolding build_refine_prompt tail_within text_of
  after_verify attempt last (not_started e, w) =
      (leave (record last { exit_code = negsuc 0; err = some (verify_exec e) }), w)
  after_verify attempt last (finished lines code err, w) =
      if is_zero_exit code
      then (leave last, w)
      else if not (ltz (pos attempt) refine.max_attempts)
      then (leave (record last { exit_code = code; err = some (verify_failed attempt code) }), w)
      else (
        again (
            build_refine_prompt box.trim_space original (tail_within (text_of lines) (pos 4096))
              (attempt + 1) refine.max_attempts refine.verify_cmd),
        w,
      )

  -- After the agent's command: is the result verified?
  unfoldable pub after_agent : ℕ → Execution Error × World → Verdict Error × World
  unfolding after_verify active text_of
  after_agent attempt (not_started e, w) =
      (leave (record { exit_code = negsuc 0; completion = []; err = some (agent_exec e) }), w)
  after_agent attempt (finished lines code err, w) =
      let last : InvocationResult Error = record {
        exit_code = code;
        completion = text_of lines;
        err = map_error agent_error err;
      } in
      if not (active refine) || not (is_zero_exit code) || not (is_none err)
      then (leave last, w)
      else after_verify attempt last (box.run_command refine.verify_cmd w)

  -- What the loop gives: the attempts made, the last result, the worktree and the events.
  abbrev pub Ran : Type 0
  Ran = Option (ℕ × InvocationResult Error × World × List NodeEvent)

  abbrev pub with_event : NodeEvent → Ran → Ran
  with_event e none = none
  with_event e (some (n, last, w, es)) = some (n, last, w, e ∷ es)

  abbrev pub next_attempt : ℕ → (Bytes → World → Ran) → Verdict Error × World → Ran
  next_attempt attempt next (leave last, w) = some (attempt, last, w, [])
  next_attempt attempt next (again prompt, w) = with_event (node_started attempt) (next prompt w)

  -- The loop with the number of attempts made, on fuel.
  unfoldable pub attempts_from : ℕ → ℕ → Bytes → World → Ran
  unfolding after_agent
  attempts_from zero made prompt w = none
  attempts_from (suc fuel) made prompt w =
      next_attempt (made + 1) (attempts_from fuel (made + 1))
        (after_agent (made + 1) (box.run_agent prompt w))

  abbrev pub report : String → Ran → Option (NodeResult Error × World × List NodeEvent)
  report id none = none
  report id (some (attempts, last, w, es)) = some (
    record { node_id = id; prompt = original; attempts = attempts; result = last; diff = [] },
    w,
    node_started 0 ∷ es ++ node_completed (attempts - 1) (invocation_succeeded last) ∷ [],
  )

  unfoldable pub run_node : String → World → Option (NodeResult Error × World × List NodeEvent)
  unfolding attempts_from attempt_cap invocation_succeeded
  run_node id w = report id (attempts_from (attempt_cap refine) 0 original w)

unfoldable pub node_succeeded : {Error : Type 0} → NodeResult Error → Bool
unfolding invocation_succeeded
node_succeeded n = invocation_succeeded n.result
