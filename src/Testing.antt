-- ===== src/Testing.antt =====
-- testing/: helpers for the test suites of consumers, of which the snapshots are modelled.
pub mod Snapshot
pub mod Driven
