-- ===== src/Orchestrator/Run.antt =====
-- internal/orchestrator/run.go: the run of one agent. What a run publishes, what it is given, and the state
-- that the closures of `Run` share.
pub mod Gate
pub mod Steps
pub mod Loop
pub mod Ways
pub mod Observed
pub mod Turns
pub mod Reactive
pub mod Start
pub mod Finish
pub mod Phases
pub mod Ends
pub mod Log
pub mod Lifecycle
mod Tests
use sandcode.Base.{ℕ, ◌+◌, String, List, [], ◌∷◌, Option, none, some, Bool, true, false}
use sandcode.Base.Bytes.{Bytes}
use sandcode.Base.Int.{ℤ, pos}
use sandcode.Budget.{Guard}
use sandcode.Event.{EventType}
use sandcode.Governance.Audit.{AuditRow}
use sandcode.Governance.Policy.{Policy}
use sandcode.Orchestrator.Node.{Execution}
use sandcode.Orchestrator.Refine.{RefineOptions}

-- The two checks of an attempt.
pub data Check : Type 0 where
  verify lint : Check

-- The payload structs; their JSON is not modelled, and durations are left out.
pub data Payload : Type 0 where
  no_payload : Payload
  submitted : String → String → String → Payload
  denied_action : String → ℕ → List Bytes → Payload
  review_action : String → ℕ → List Bytes → Payload
  approved_action : String → String → Payload
  injected : List String → Payload
  created : String → String → Payload
  destroyed : Payload
  executing : String → String → Payload
  agent_exit : ℤ → Payload
  check_started : List Bytes → ℕ → Payload
  check_passed : ℕ → Payload
  check_failed : ℕ → ℤ → Bytes → Payload
  check_error : ℕ → Bytes → Payload
  next_try : ℕ → ℤ → Payload
  completed : ℤ → ℕ → Payload
  cancelled : ℤ → Payload
  failure : String → Bytes → Payload

-- What is handed to `publish`.
pub record Published : Type 0 where
  pub type : EventType
  pub payload : Payload

abbrev pub event : EventType → Payload → Published
event t p = record { type = t; payload = p }

pub record VerifyOutput : Type 0 where
  pub passed : Bool
  pub exit_code : ℤ
  pub stdout_tail : Bytes

-- The errors that a run reports, before they are wrapped in texts.
pub data RunError (Error : Type 0) : Type 0 where
  agent_error : Error → RunError Error
  check_exec : Check → Error → RunError Error
  check_exhausted : Check → ℕ → ℤ → RunError Error
  refine_denied : List Bytes → RunError Error
  refine_exec : Error → RunError Error
  merge_error : Error → RunError Error

-- The options that the attempts of a run read.
pub record Setup : Type 0 where
  pub run_id : String
  pub agent : String
  pub model : String
  pub strategy : String
  pub prompt : Bytes
  pub enriched : Bytes
  pub roles : List String
  pub policies : Option (List Policy)
  pub has_budget : Bool
  pub has_audit : Bool
  pub refine : RefineOptions
  pub lint_cmd : List Bytes

-- What is not part of the program's own text: the sandbox with the agent, a verifier that the caller gives,
-- the audit log's storage and the deadline of the run's context, each with the state of the outside before
-- and after; and `slices.Sort`, `strings.TrimSpace`, the redaction by patterns and the text of an error.
pub record Outside (World Error : Type 0) : Type 0 where
  pub start_agent : Bytes → World → Option Error × World
  pub await_agent : World → (ℤ × Option Error) × World
  pub run_command : List Bytes → World → Execution Error × World
  pub verifier : Option (ℕ → World → (Option Error × VerifyOutput) × World)
  pub append_row : AuditRow → World → Option Error × World
  pub context_canceled : World → Option Error
  pub deadline_exceeded : World → Bool
  pub sort : List String → List String
  pub trim_space : Bytes → Bytes
  pub redact : Bytes → Bytes
  pub error_text : Error → Bytes

-- The variables that the steps of a run share.
pub record Cycle (World Error : Type 0) : Type 0 where
  pub world : World
  pub budget : Guard ℤ
  pub attempts : ℕ
  pub exit_code : ℤ
  pub err : Option (RunError Error)
  pub last_verify : Option VerifyOutput

-- Where a step leaves the attempt.
pub data Outcome : Type 0 where
  proceed reloop stop : Outcome
