-- ===== src/CommandGuard/Tests.antt =====
-- Tests of the package commandguard.
pub mod Wrappers
pub mod Calls
