-- ===== src/Pipeline/Records.antt =====
-- What join.py reads and writes: the manifest (C-6), the client log (C-3), the trace (C-2) and the
-- joined row (C-5).
use llm_sched_study.Base.{ℕ, Bool, String, Option, none, List}
use llm_sched_study.Harness.Node.{Node}
use llm_sched_study.Harness.Manifest.{ClockBlock}

-- The keys of a manifest that the join reads; `none` is a key that is not there.
pub record Manifest (F : Type 0) : Type 0 where
  pub run_id : String
  pub policy : String
  pub lambda : F
  pub staleness_s : F
  pub warmup_s : Option F
  pub nodes : List Node
  pub trace_sha256 : Option String
  -- `validity.valid`
  pub valid : Option Bool
  pub clock_sync : Option (ClockBlock F)

pub record ClientRecord (F : Type 0) : Type 0 where
  pub run_id : Option String
  pub req_id : String
  pub intended_offset_s : F
  pub send_lag_ms : F
  pub e2e_duration_ns : ℕ
  pub status : String
  pub responding_node : Option String

pub record TraceReq : Type 0 where
  pub req_id : String
  pub bucket_id : String
  pub prompt_len : ℕ
  pub output_len : ℕ
  pub priority : ℕ

-- A line of the trace: a request, or the header.
pub data TraceLine : Type 0 where
  req : TraceReq → TraceLine
  header : TraceLine

-- The exceptions of `join`: the ValueErrors by what their messages name, and the KeyError.
pub data JoinError : Type 0 where
  key_error : String → JoinError
  empty_client : String → JoinError
  foreign_run : (log : String) → JoinError
  other_trace : JoinError
  invalid_run : String → JoinError
  other_policy : String → List String → JoinError

-- The columns that `_candidate_view` gives; all null where there is no decision.
pub record CandidateView (F : Type 0) : Type 0 where
  pub chosen_queue_depth : Option ℕ
  pub chosen_est_age_ms : Option ℕ
  pub best_alt_node : Option String
  pub best_alt_est_service_ms : Option F
  pub routing_error_ms : Option F

abbrev pub no_view : {F : Type 0} → CandidateView F
no_view = record {
  chosen_queue_depth = none;
  chosen_est_age_ms = none;
  best_alt_node = none;
  best_alt_est_service_ms = none;
  routing_error_ms = none;
}

-- `COLUMNS`, with the five columns of the view together.
pub record Row (F : Type 0) : Type 0 where
  pub run_id : String
  pub policy : String
  pub lambda : F
  pub staleness_s : F
  pub r : F
  pub node_count : ℕ
  pub req_id : String
  pub bucket_id : String
  pub prompt_len : ℕ
  pub output_len : ℕ
  pub priority : ℕ
  pub intended_offset_s : F
  pub send_lag_ms : F
  pub e2e_ms : F
  pub status : String
  pub chosen_node : Option String
  pub decide_us : Option F
  pub view : CandidateView F
  pub queue_wait_ms : Option F
  pub prefill_ms : Option F
  pub decode_ms : Option F
  pub service_ms : Option F
  pub transport_residual_ms : Option F
  pub is_warmup : Bool
