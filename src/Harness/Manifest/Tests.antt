-- ===== src/Harness/Manifest/Tests.antt =====
-- The validity block and the heartbeat count of two small runs.
use llm_sched_study.Base.{ℕ, String, none, some, List, [], ◌∷◌}
use llm_sched_study.Logs.{SchedulerRecord, heartbeat_summary, other}
use llm_sched_study.Harness.Manifest.{Validity}

-- Two requests never returned, and nobody counted the heartbeats.
abbrev dropped : Validity ℕ
dropped = record {
  max_send_lag_ms = 7;
  send_lag_violations = 0;
  dropped_requests = 2;
  heartbeat_gaps = none;
  engine_restarts = 0;
  engine_unchecked = 0;
  colocated_nodes = 0;
  clock_unsynced_hosts = 1;
  worker_log_incomplete = 0;
  unmeasured = [];
}

abbrev summary : String → ℕ → SchedulerRecord ℕ
summary node missed = record {
  run_id = some "run7";
  body = heartbeat_summary (record { node_id = node; missed_beats = missed });
}

abbrev records : List (SchedulerRecord ℕ)
records =
    summary "n1" 1
    ∷ summary "n2" 2
    ∷ record { run_id = some "run7"; body = other }
    ∷ summary "n1" 5
    ∷ []
