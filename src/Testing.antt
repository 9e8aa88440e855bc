-- ===== src/Testing.antt =====
-- The traces of the end-to-end tests: rust/common/src/tracing and
-- rust/testing/src/trace/core.rs.
pub mod Events
pub mod Trace
pub mod Layer
pub mod Occurrence
pub mod Collector
pub mod Growth
pub mod Tests
