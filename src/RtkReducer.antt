-- ===== src/RtkReducer.antt =====
-- The package rtkreducer: the bounded capture of a child's output, the scan of an object and the
-- transform of a tool's result.
pub mod Capture
pub mod Json
pub mod Transform
pub mod Lease
