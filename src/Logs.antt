-- ===== src/Logs.antt =====
-- The records that the parts exchange: the scheduler's log (C-4), as the Python side reads it.
use llm_sched_study.Base.{ℕ, Bool, String, Option, List}

-- A candidate as the scheduler saw it when it decided; `none` is a key that is not there.
pub record Candidate (F : Type 0) : Type 0 where
  pub node_id : String
  pub capability_tok_s : Option F
  pub queue_depth : ℕ
  pub inflight : ℕ
  pub estimate_age_ms : ℕ
  pub admissible : Bool

pub record Decision (F : Type 0) : Type 0 where
  pub req_id : String
  pub chosen_node : Option String
  pub policy : Option String
  pub candidates : List (Candidate F)
  pub decide_duration_ns : ℕ

pub record HeartbeatSummary : Type 0 where
  pub node_id : String
  pub missed_beats : ℕ

-- What the `type` key of a scheduler record says it is.
pub data SchedulerBody (F : Type 0) : Type 0 where
  decision : Decision F → SchedulerBody F
  heartbeat_summary : HeartbeatSummary → SchedulerBody F
  other : SchedulerBody F

pub record SchedulerRecord (F : Type 0) : Type 0 where
  pub run_id : Option String
  pub body : SchedulerBody F
