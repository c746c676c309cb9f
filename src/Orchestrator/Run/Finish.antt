-- ===== src/Orchestrator/Run/Finish.antt =====
-- internal/orchestrator/run.go: the finalization, which is made once whatever the attempts came to, and the
-- whole of `Run`.
pub mod Lands
use sandcode.Base.{
  ℕ, List, [], ◌∷◌, ◌++◌, Option, none, some, String, Bool, not, ◌&&◌, ◌==◌, length, str_eq,
  if◌then◌else◌,
}
use sandcode.Base.Bytes.{Bytes}
use sandcode.Base.Int.{ℤ, pos}
use sandcode.Budget.{Guard, Amounts}
use sandcode.Event.{run_completed, run_cancelled, run_failed, sandbox_destroyed}
use sandcode.Orchestrator.Node.{is_zero_exit, is_none}
use sandcode.Orchestrator.Run.{
  Published, event, completed, cancelled, failure, destroyed, VerifyOutput, RunError, merge_error,
  Setup, Outside, Cycle,
}
use sandcode.Orchestrator.Run.Gate.{count_attempt}
use sandcode.Orchestrator.Run.Loop.{run_cycle}
use sandcode.Orchestrator.Run.Start.{
  Host, StartError, empty_prompt, empty_cwd, empty_image, Reached, halted, reached, start,
}

pub data Status : Type 0 where
  succeeded failed stopped : Status

-- git, the store and the brain at the end of a run, and the text of an error.
pub record Closing (World Error : Type 0) : Type 0 where
  -- whether the deadline has passed, as it is read again behind the last attempt
  pub expired : World → Bool
  pub remove_servers : World → World
  pub commit_all : World → World
  pub diff : World → Bytes × World
  pub merge_to_head : World → Option Error × World
  pub update_run : Status → ℤ → World → World
  pub learn : Status → Bytes → ℤ → World → World
  pub error_message : RunError Error → Bytes

pub record Wishes : Type 0 where
  pub merges : Bool
  pub keep_worktree : Bool
  pub has_mcp : Bool
  pub has_store : Bool
  pub has_brain : Bool
  pub reactive : Bool
  pub has_bus : Bool

-- The worktree and the times are left out.
pub record Result (Error : Type 0) : Type 0 where
  pub run_id : String
  pub diff : Bytes
  pub exit_code : ℤ
  pub status : Status
  pub err : Option (RunError Error)
  pub attempts : ℕ
  pub last_verify : Option VerifyOutput

module _ {World Error : Type 0} (out : Outside World Error) (host : Host World Error)
    (closing : Closing World Error) (o : Setup) (wish : Wishes) where
  abbrev pub when : Bool → (World → World) → World → World
  when b f w = if b then f w else w

  -- The status before anything is merged.
  unfoldable pub status_of : Cycle World Error → Status
  status_of c =
      if closing.expired c.world
      then stopped
      else if is_zero_exit c.exit_code && is_none c.err
      then succeeded
      else failed

  abbrev pub after_merge : Option Error × World → Cycle World Error → Status × Cycle World Error
  after_merge (none, w) c = (succeeded, record c { world = w })
  after_merge (some e, w) c = (failed, record c { world = w; err = some (merge_error e) })

  -- `MergeToHead` of a success, where that is the strategy.
  unfoldable pub merged : Status → Cycle World Error → Status × Cycle World Error
  merged succeeded c =
      if wish.merges then after_merge (closing.merge_to_head c.world) c else (succeeded, c)
  merged failed c = (failed, c)
  merged stopped c = (stopped, c)

  abbrev pub message_of : Option (RunError Error) → Bytes
  message_of none = []
  message_of (some e) = closing.error_message e

  -- The event that ends a run.
  unfoldable pub last_event : Status → Bytes → Cycle World Error → Published
  last_event succeeded diff c = event run_completed (completed c.exit_code (length diff))
  last_event stopped diff c = event run_cancelled (cancelled c.exit_code)
  last_event failed diff c = event run_failed (failure "agent" (message_of c.err))

  -- The MCP configuration is dropped, what the agent did committed, and the diff read.
  unfoldable pub commit : Cycle World Error → Bytes × Cycle World Error
  commit c =
      let w = closing.commit_all (when wish.has_mcp closing.remove_servers c.world) in
      let (text, w') = closing.diff w in (out.redact text, record c { world = w' })

  -- What is done behind the merge.
  unfoldable pub close : Status → Bytes → ℤ → World → World
  close status diff code w =
      let w1 = host.close_sandbox w in
      let w2 = when (not wish.keep_worktree) host.remove_worktree w1 in
      let w3 = when wish.has_store (closing.update_run status code) w2 in
      when wish.has_brain (closing.learn status diff code) w3

  unfoldable pub finish : Cycle World Error → Result Error × World × List Published
  unfolding status_of merged last_event commit close
  finish c =
      let before = status_of c in
      let (diff, c1) = commit c in
      let (status, c2) = merged before c1 in
      (
        record {
          run_id = o.run_id;
          diff = diff;
          exit_code = c2.exit_code;
          status = status;
          err = c2.err;
          attempts = c2.attempts;
          last_verify = c2.last_verify;
        },
        close status diff c2.exit_code c2.world,
        event sandbox_destroyed destroyed ∷ last_event status diff c2 ∷ [],
      )

-- What `Run` gives: an error, or the result that its callback delivers.
pub data RunOutcome (Error : Type 0) : Type 0 where
  refused : StartError Error → RunOutcome Error
  ran : Result Error → RunOutcome Error

module _ {World Error : Type 0} (m : Amounts ℤ) (out : Outside World Error)
    (host : Host World Error) (closing : Closing World Error) (o : Setup) (wish : Wishes) where
  abbrev pub RunAnswer : Type 0
  RunAnswer = Option (RunOutcome Error × World × List Published)

  -- The variables before the first attempt, which is counted.
  unfoldable pub first_cycle : Setup → Guard ℤ → World → Cycle World Error
  unfolding count_attempt
  first_cycle s g w = count_attempt m out s (record {
    world = w;
    budget = g;
    attempts = 1;
    exit_code = pos 0;
    err = none;
    last_verify = none;
  })

  abbrev pub finished_with :
      List Published → Option (Cycle World Error × List Published) → RunAnswer
  finished_with es none = none
  finished_with es (some (c, fs)) =
      let (result, w, gs) = finish out host closing o wish c in
      some (ran result, w, es ++ (fs ++ gs))

  abbrev pub after_start : Guard ℤ → Reached Error Bytes × World × List Published → RunAnswer
  after_start g (halted e, w, es) = some (refused e, w, es)
  after_start g (reached enriched, w, es) =
      let s : Setup = record o { enriched = enriched } in
      finished_with es (run_cycle m out s (wish.reactive && wish.has_bus) (first_cycle s g w))

  -- The options that a run cannot do without.
  unfoldable pub check_options : Option (StartError Error)
  check_options =
      if length o.prompt == 0
      then some empty_prompt
      else if str_eq host.cwd ""
      then some empty_cwd
      else if str_eq host.image ""
      then some empty_image
      else none

  -- `Run`, and all that it publishes.
  unfoldable pub run : Guard ℤ → World → RunAnswer
  unfolding start run_cycle first_cycle finish check_options
  run g w = elim check_options [
    | some e ↦ some (refused e, w, [])
    | none ↦ after_start g (start m out host o wish.has_store g w)
  ]
