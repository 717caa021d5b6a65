-- ===== src/Tools.antt =====
-- tools/: the campaign driver and what it shares with the other tools.
pub mod PoolLoad
pub mod HwRuns
