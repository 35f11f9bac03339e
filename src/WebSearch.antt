-- ===== src/WebSearch.antt =====
-- The package websearch: the bounds on the records of a search.
pub mod Bounds
pub mod Config
