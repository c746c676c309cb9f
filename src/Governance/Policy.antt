-- ===== src/Governance/Policy.antt =====
-- internal/governance/policy.go: actions, verdicts and the interface of a policy.
use sandcode.Base.{String, List, Option}
use sandcode.Base.Int.{ℤ}
use sandcode.Base.Bytes.{Bytes}

-- The verdicts; `approved` stands only in audit rows. Their wire strings are in `Audit`.
pub data Result : Type 0 where
  allow deny review approved : Result

pub data ActionType : Type 0 where
  execute refine merge : ActionType

-- `cost_usd` is a float in the source; it is a whole number of some small unit here.
pub record Action : Type 0 where
  pub type : ActionType
  pub run_id : String
  pub agent : String
  pub strategy : String
  pub prompt : Bytes
  pub diff_size : ℤ
  pub files_changed : List String
  pub tokens_used : ℤ
  pub cost_usd : ℤ
  pub attempt : ℤ
  pub tool : String
  pub roles : List String

-- What `Evaluate` returns: the verdict, its reason, and the text of an error if there is one.
pub record Answer : Type 0 where
  pub result : Result
  pub reason : Bytes
  pub error : Option Bytes

-- The interface: a name, and a function of the action alone.
pub record Policy : Type 0 where
  pub name : String
  pub evaluate : Action → Answer

pub record PolicyVerdict : Type 0 where
  pub policy : String
  pub result : Result
  pub reason : Bytes

pub record Decision : Type 0 where
  pub result : Result
  pub reasons : List Bytes
  pub per_policy : List PolicyVerdict
