-- ===== src/Orchestrator.antt =====
-- internal/orchestrator: the run of a task graph by parallel chains of nodes.
pub mod Options
pub mod Chains
pub mod Refine
pub mod Node
pub mod Run
pub mod Strategy
pub mod Execute
pub mod Chain
pub mod Coordinator
mod Tests
