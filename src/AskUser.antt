-- ===== src/AskUser.antt =====
-- The package askuser: one bounded question to a person, mediated by the host.
pub mod Text
pub mod Response
pub mod Coordinator
mod Tests
