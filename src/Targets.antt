-- ===== src/Targets.antt =====
-- The programs of src/targets, which the tracer is tried on.
pub mod MultiThreaded
pub mod Print
