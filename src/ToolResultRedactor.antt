-- ===== src/ToolResultRedactor.antt =====
-- The package toolresultredactor: secrets are taken out of a tool's result.
pub mod Ranges
pub mod Matchers
pub mod Scalar
pub mod Fields
pub mod Structured
pub mod Redact
mod Tests
