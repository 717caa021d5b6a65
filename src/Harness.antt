-- ===== src/Harness.antt =====
-- dataplane/src/dataplane/harness: the pool description, the run manifest, the load generator.
pub mod Node
pub mod Launch
pub mod Manifest
pub mod Clocksync
pub mod Replay
pub mod Trace
