-- ===== src/PythonRepl.antt =====
-- The package pythonrepl: a session-scoped Python interpreter.
pub mod Gate
