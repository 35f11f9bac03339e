-- ===== src/CommandGuard.antt =====
-- The package commandguard: decoded words, the options of wrapper commands, and carriage returns.
pub mod Words
pub mod Options
pub mod Wrappers
pub mod Carriage
pub mod Syntax
pub mod Decode
pub mod Match
pub mod Walk
pub mod Input
pub mod Guard
pub mod Tests
