-- ===== src/WorkspaceInstructions.antt =====
-- The package workspaceinstructions: the section of a prompt made of instruction files.
pub mod Render
pub mod Content
pub mod Tests
