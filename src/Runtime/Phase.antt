-- ===== src/Runtime/Phase.antt =====
-- internal/runtime/phase.go: the phases of a run.
use sandcode.Base.{Bool, true, false}

pub data Phase : Type 0 where
  submitted classified planned enriched sandbox_ready executing agent_completed verifying : Phase
  refining linting awaiting_approval reporting learning completed failed cancelled : Phase

unfoldable pub is_terminal : Phase → Bool
is_terminal completed = true
is_terminal failed = true
is_terminal cancelled = true
is_terminal _ = false

pub Phase-discrete : Discrete Phase
Phase-discrete = hlevel
