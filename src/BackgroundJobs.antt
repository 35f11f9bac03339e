-- ===== src/BackgroundJobs.antt =====
-- The package backgroundjobs: bounded background command jobs.
pub mod Tail
pub mod Job
pub mod Config
pub mod Manager
pub mod Supervisor
mod Tests
