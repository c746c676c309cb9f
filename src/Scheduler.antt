-- ===== src/Scheduler.antt =====
-- internal/scheduler: bounded admission of whole runs to a fixed pool of workers.
mod Tests
pub mod Queue
pub mod Pool
