-- ===== src/Tools/HwRuns/Accounts/Tests.antt =====
-- A run of two requests on one node, whose engine was read twice.
use llm_sched_study.Base.{ℕ, ◌≡◌, ◌↔◌, true, String, none, some, [], ◌∷◌, ok}
use llm_sched_study.Samples.{whole}
use llm_sched_study.Logs.{heartbeat_summary}
use llm_sched_study.Harness.Manifest.{Validity}
use llm_sched_study.Harness.Replay.{FireRecord}
use llm_sched_study.Tools.HwRuns.Accounts.{Evidence, run_one}
use llm_sched_study.Tools.HwRuns.Accounts.Verdicts.{IsSound, run_one_iff}

abbrev fired : String → FireRecord ℕ
fired req_id = record {
  run_id = "run7";
  req_id = req_id;
  intended_offset_s = 3;
  actual_send_offset_s = 3;
  send_lag_ms = 1;
  e2e_duration_ns = 9000;
  status = "ok";
  output_tokens = 64;
  responding_node = "n1";
  chosen_node_from_ack = "n1";
  dispatch_ack_ns = 20;
}

abbrev evidence : Evidence ℕ
evidence = record {
  records = fired "r0" ∷ fired "r1" ∷ [];
  worker_counts = ("n1", 2) ∷ [];
  scheduler_records =
      record {
        run_id = some "run7";
        body = heartbeat_summary (record { node_id = "n1"; missed_beats = 0 });
      }
      ∷ [];
  engines_before = ("n1", some "417 llama-server") ∷ [];
  engines_after = ("n1", some "417 llama-server") ∷ [];
}

run_one_iff_example :
    ((v : Validity ℕ) × (run_one whole true 0 10 [] none evidence ≡ ok (true, v)))
    ↔ IsSound whole true 0 10 [] evidence
run_one_iff_example = run_one_iff whole true 0 10 [] none evidence
