-- ===== src/Server.antt =====
-- internal/server: what the HTTP server keeps between requests.
mod Tests
pub mod StateCache
