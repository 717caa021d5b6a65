-- ===== src/Worker.antt =====
-- dataplane/src/dataplane/worker: one pool node, from the engine's answers to the scheduler.
pub mod Adapter
pub mod Heartbeat
pub mod Log
pub mod Llamacpp
pub mod Service
