-- ===== src/Pipeline/Join/Tests.antt =====
-- The join of a run of two requests, one of which a probe node answered.
use llm_sched_study.Base.{
  ℕ, ◌≡◌, ◌≢◌, ◌↔◌, refl, true, false, String, none, some, List, [], ◌∷◌, ok,
}
use llm_sched_study.Samples.{whole}
use llm_sched_study.Logs.{SchedulerRecord, decision}
use llm_sched_study.Harness.Node.{Node}
use llm_sched_study.Worker.Log.{WorkerRecord}
use llm_sched_study.Pipeline.Records.{Manifest, ClientRecord, TraceLine, req, header, Row}
use llm_sched_study.Pipeline.Join.{
  check_policy_agreement, rows_of, pool_ids_of, joined_row, join, check_inputs,
}
use llm_sched_study.Pipeline.Join.Checks.{BelongTogether, join-eq-ok}
use llm_sched_study.Pipeline.Join.Rows.{
  last_served, last_decided, last_asked, HasDecision, joined_row-HasDecision,
}
use llm_sched_study.Pipeline.Join.Times.{HasTimes, joined_row-HasTimes}
use llm_sched_study.Pipeline.Join.Selects.{Selects, AnswersFromPool, IsRowOf, join-Selects}

abbrev node : String → String → Node
node node_id role = record {
  node_id = node_id;
  host = "h1";
  engine = "llama.cpp";
  engine_version = "b6000";
  model = "m";
  quant = "q4";
  gpu = "t4";
  engine_config = record { ngl = 99; threads = 4; parallel = 4 };
  prefix_caching = false;
  max_batch = 4;
  role = some role;
}

abbrev manifest : Manifest ℕ
manifest = record {
  run_id = "run7";
  policy = "rr";
  lambda = 1;
  staleness_s = 0;
  warmup_s = none;
  nodes = node "n1" "pool" ∷ node "p1" "engine_gap_probe" ∷ [];
  trace_sha256 = some "abc";
  valid = some true;
  clock_sync = none;
}

abbrev answered_by : String → String → ClientRecord ℕ
answered_by req_id node_id = record {
  run_id = some "run7";
  req_id = req_id;
  intended_offset_s = 3;
  send_lag_ms = 0;
  e2e_duration_ns = 9_000_000;
  status = "ok";
  responding_node = some node_id;
}

abbrev client : List (ClientRecord ℕ)
client = answered_by "r0" "n1" ∷ answered_by "r1" "p1" ∷ []

abbrev scheduler : List (SchedulerRecord ℕ)
scheduler =
    record {
      run_id = some "run7";
      body = decision (record {
        req_id = "r0";
        chosen_node = some "n1";
        policy = some "rr";
        candidates = [];
        decide_duration_ns = 5000;
      });
    }
    ∷ []

abbrev worker : List (WorkerRecord ℕ)
worker =
    record {
      run_id = "run7";
      req_id = "r0";
      node_id = "n1";
      engine = "llama.cpp";
      queue_wait_ns = 1_000_000;
      service_ns = 7_000_000;
      prompt_tokens = 10;
      output_tokens = 64;
      batch_size_at_admission = 1;
      inflight_at_admission = 1;
      status = "ok";
      prefill_ns = none;
      decode_ns = none;
      kv_occupancy_at_admission = 0;
    }
    ∷ []

abbrev trace : List TraceLine
trace =
    header
    ∷ req
        (record { req_id = "r0"; bucket_id = "b1"; prompt_len = 10; output_len = 64; priority = 0 })
    ∷ []

abbrev rows : List (Row ℕ)
rows = joined_row whole manifest scheduler worker trace none (answered_by "r0" "n1") ∷ []

joined : join whole manifest client scheduler worker trace (some "abc") none false ≡ ok rows
unfolding join check_inputs check_policy_agreement rows_of
joined = refl

join-eq-ok_example :
    (join whole manifest client scheduler worker trace (some "abc") none false ≡ ok rows) ↔ (
      (client ≢ [])
      × BelongTogether manifest client scheduler worker (some "abc") false
      × (rows_of whole
            (pool_ids_of whole manifest)
            (joined_row whole manifest scheduler worker trace none)
            client
          ≡ rows))
join-eq-ok_example =
    join-eq-ok whole manifest client scheduler worker trace (some "abc") none false rows

join-Selects_example :
    Selects
      (AnswersFromPool whole manifest)
      (λ c row. IsRowOf whole manifest (last_asked c.req_id trace) c row)
      client
      rows
join-Selects_example =
    join-Selects whole manifest client scheduler worker trace (some "abc") none false rows joined

joined_row-HasTimes_example :
    HasTimes whole manifest
      (answered_by "r0" "n1")
      (joined_row whole manifest scheduler worker trace none (answered_by "r0" "n1"))
      (last_served (pool_ids_of whole manifest) "r0" worker)
joined_row-HasTimes_example =
    joined_row-HasTimes whole manifest scheduler worker trace none (answered_by "r0" "n1")

joined_row-HasDecision_example :
    HasDecision whole
      (last_asked "r0" trace)
      (joined_row whole manifest scheduler worker trace none (answered_by "r0" "n1"))
      (last_decided "r0" scheduler)
joined_row-HasDecision_example =
    joined_row-HasDecision whole manifest scheduler worker trace none (answered_by "r0" "n1")
