-- ===== src/Runtime.antt =====
-- internal/runtime: the deterministic state machine of a run.
mod Tests
pub mod Phase
pub mod Transitions
pub mod Scan
pub mod StateMachine
pub mod Replay
pub mod Table
pub mod Step
pub mod Invariant
pub mod History
pub mod Progress
pub mod Gate
