-- ===== src/Rbac.antt =====
-- internal/rbac: principals, roles, additive grants and the bearer-token keyring.
mod Tests
pub mod Grants
pub mod Keyring
pub mod Config
