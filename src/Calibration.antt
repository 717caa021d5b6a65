-- ===== src/Calibration.antt =====
-- dataplane/src/dataplane/calibration: what the measured node classes can span, and what they serve.
pub mod Ranges
pub mod Snapshots
pub mod Envelopes
