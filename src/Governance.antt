-- ===== src/Governance.antt =====
-- internal/governance: the policy engine that gates a run's actions.
mod Tests
pub mod Policy
pub mod Engine
pub mod Audit
pub mod Table
pub mod Builtin
