-- ===== src/Pipeline.antt =====
-- dataplane/src/dataplane/pipeline: from the logs of a run to one row per request, and from runs to sets.
pub mod Records
pub mod Candidates
pub mod Join
pub mod Runset
pub mod Loadband
