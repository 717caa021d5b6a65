-- ===== src/Harness/Replay/Tests.antt =====
-- The replay at small runs.
use llm_sched_study.Base.{
  ℕ, ◌-◌, ◌≡◌, ◌≢◌, ◌↔◌, true, false, String, none, some, List, [], ◌∷◌, arith, All, IsDict, lookup,
  string_eq, ltb,
}
use llm_sched_study.Samples.{whole}
use llm_sched_study.Harness.Launch.Colocation.{HostsApart}
use llm_sched_study.Harness.Manifest.{valid}
use llm_sched_study.Harness.Replay.{
  Delivery, new_sink, expect, take_delivery, FireRecord, rejected, new_record, finish, measure,
  post_run_validity, PreRun,
}
use llm_sched_study.Harness.Replay.Sink.{
  SinkCall, expected, forgotten, delivered, after_calls, take_delivery-waiting,
}
use llm_sched_study.Harness.Replay.Outcomes.{IsGood, IsLate, is_answer, finish-cases}
use llm_sched_study.Harness.Replay.Counts.{valid-measure_iff}

abbrev good : Delivery
good = record { status = "ok"; output_tokens = 64; node_id = "n1" }

abbrev before : List SinkCall
before = expected "r1" ∷ delivered "r1" good 5 ∷ []

abbrev during : List SinkCall
during = expected "r3" ∷ delivered "r3" good 8 ∷ forgotten "r4" ∷ []

r3-ne-r2 : ◌≢◌ {A = String} "r3" "r2"
r3-ne-r2 = ground (arith, string_eq.beq_iff "r3" "r2")

r4-ne-r2 : ◌≢◌ {A = String} "r4" "r2"
r4-ne-r2 = ground (arith, string_eq.beq_iff "r4" "r2")

take_delivery-waiting_example :
    let start = after_calls new_sink before in
    let f = (expect start "r2").1 in
    let s = after_calls (expect start "r2").0 during in
    let t = take_delivery s "r2" good 9 in
    (t.futures f ≡ some (good, 9))
    × ((j : ℕ) → j ≢ f → t.futures j ≡ s.futures j)
    × (lookup "r2" t.waiters ≡ none)
take_delivery-waiting_example =
    take_delivery-waiting before during "r2" good 9 (r3-ne-r2, (r3-ne-r2, (r4-ne-r2, tt)))

new_sink-IsDict : IsDict new_sink.waiters
unfolding new_sink
new_sink-IsDict = tt

finish-cases_example :
    let (t, r) =
      finish whole new_sink
        (new_record whole "run7" "r1" 3 100 200 210)
        210
        (rejected "n1" 250 260) in
    ((r.status ≡ "ok") ↔ IsGood (rejected "n1" 250 260))
    × ((r.status ≡ "timeout") ↔ IsLate (rejected "n1" 250 260))
    × (r.e2e_duration_ns ≡ 260 - 210)
    × (is_answer (rejected "n1" 250 260) ≡ false
        → (r.responding_node ≡ "") × (r.output_tokens ≡ 0) × (lookup "r1" t.waiters ≡ none))
finish-cases_example =
    finish-cases whole new_sink "run7" "r1" 3 100 200 210 (rejected "n1" 250 260) new_sink-IsDict

abbrev fired : String → ℕ → ℕ → FireRecord ℕ
fired status offset lag = record {
  run_id = "run7";
  req_id = "r1";
  intended_offset_s = offset;
  actual_send_offset_s = offset;
  send_lag_ms = lag;
  e2e_duration_ns = 900;
  status = status;
  output_tokens = 64;
  responding_node = "n1";
  chosen_node_from_ack = "n1";
  dispatch_ack_ns = 30;
}

abbrev records : List (FireRecord ℕ)
records = fired "timeout" 1 90 ∷ fired "ok" 6 3 ∷ fired "ok" 8 1 ∷ []

valid-measure_iff_example :
    (valid (post_run_validity whole (measure whole 5 50 records) [] none) ≡ true) ↔ (
      HostsApart []
      × All
          (λ r.
            whole.le 5 r.intended_offset_s ≡ true
            → (ltb 50 r.send_lag_ms ≡ false) × (r.status ≡ "ok"))
          records)
valid-measure_iff_example = valid-measure_iff whole 5 50 records [] none

abbrev pre : PreRun
pre = record {
  run_id = some "run7";
  trace_sha256 = some "abc";
  policy = none;
  cost_model_snapshots = "s1" ∷ [];
}
