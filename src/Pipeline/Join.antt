-- ===== src/Pipeline/Join.antt =====
-- pipeline/join.py: the checks on the inputs, the counterfactual, and the row of each request.
pub mod Checks
pub mod Rows
pub mod Selects
pub mod Times
mod Tests
use llm_sched_study.Base.{
  ℕ, ◌+◌, ◌*◌, Bool, true, false, not, ◌&&◌, ◌||◌, String, Option, none, some, List, [], ◌∷◌, map,
  Result, ok, err, ◌>>=◌, ◌>>◌, raise_if, ◌==◌, nat_eq, string_eq, or_else, is_some, if◌then◌else◌,
  length, truthy, keep, any, all, elem, Dict, lookup, insert, Floats,
}
use llm_sched_study.Logs.{
  Candidate, Decision, SchedulerBody, decision, heartbeat_summary, other, SchedulerRecord,
}
use llm_sched_study.Harness.Node.{Node, is_pool}
use llm_sched_study.Harness.Clocksync.{rate_factors}
use llm_sched_study.Worker.Log.{WorkerRecord}
use llm_sched_study.Pipeline.Candidates.{candidate_view}
use llm_sched_study.Pipeline.Records.{
  Manifest, ClientRecord, TraceReq, TraceLine, req, header, JoinError, key_error, empty_client,
  foreign_run, other_trace, invalid_run, other_policy, CandidateView, no_view, Row,
}

-- `if r.get("run_id") != run_id`
abbrev pub is_foreign : String → Option String → Bool
is_foreign run_id none = true
is_foreign run_id (some other_id) = not (other_id == run_id)

-- `{r["run_id"] for r in records if ...}` and the ValueError on it: a record without the key is a
-- KeyError.
abbrev pub wrong_run : String → List (Option String) → JoinError
wrong_run log run_ids =
    if any (λ o. not (is_some o)) run_ids then key_error "run_id" else foreign_run log

module _ {F : Type 0} where
  abbrev pub policies_of : List (SchedulerRecord F) → List String
  policies_of [] = []
  policies_of (r ∷ rs) = elim r.body [
    | decision d ↦ elim d.policy [ none ↦ policies_of rs | some p ↦ p ∷ policies_of rs ]
    | heartbeat_summary _ ↦ policies_of rs
    | other ↦ policies_of rs
  ]

  -- `_check_policy_agreement`: `not claimed or claimed == {declared}` fails if some claim differs.
  pub check_policy_agreement : Manifest F → List (SchedulerRecord F) → Result JoinError (Unit {0})
  check_policy_agreement manifest scheduler =
      raise_if (any (λ p. not (p == manifest.policy)) (policies_of scheduler))
        (other_policy manifest.policy (policies_of scheduler))

  -- `manifest.get("trace_sha256") != trace_sha256`
  abbrev pub is_other_trace : Manifest F → Option String → Bool
  is_other_trace manifest none = false
  is_other_trace manifest (some sha) = elim manifest.trace_sha256 [
    | none ↦ true
    | some named ↦ not (named == sha)
  ]

  -- `_check_inputs`
  unfoldable pub check_inputs :
      Manifest F
      → List (ClientRecord F)
      → List (SchedulerRecord F)
      → List (WorkerRecord F)
      → Option String
      → Bool
      → Result JoinError (Unit {0})
  unfolding check_policy_agreement
  check_inputs manifest client scheduler worker trace_sha256 allow_invalid = do
    raise_if (any (λ r. is_foreign manifest.run_id r.run_id) client)
        (wrong_run "client" (map (λ r. r.run_id) client))
    raise_if (any (λ r. is_foreign manifest.run_id r.run_id) scheduler)
        (wrong_run "scheduler" (map (λ r. r.run_id) scheduler))
    raise_if (any (λ r. is_foreign manifest.run_id (some r.run_id)) worker) (foreign_run "worker")
    raise_if (is_other_trace manifest trace_sha256) other_trace
    raise_if (not allow_invalid && not (or_else manifest.valid true)) (invalid_run manifest.run_id)
    check_policy_agreement manifest scheduler

module _ {A V : Type 0} (entry : A → Option (String × V)) where
  -- `{key: value for x in xs if ...}`: a later entry of a key replaces an earlier one.
  pub dict_from : Dict String V → List A → Dict String V
  dict_from d [] = d
  dict_from d (x ∷ xs) = dict_from (elim (entry x) [ none ↦ d | some (k, v) ↦ insert k v d ]) xs

abbrev pub trace_entry : TraceLine → Option (String × TraceReq)
trace_entry (req t) = some (t.req_id, t)
trace_entry header = none

module _ {F : Type 0} where
  abbrev pub decision_entry : SchedulerRecord F → Option (String × Decision F)
  decision_entry r = elim r.body [
    | decision d ↦ some (d.req_id, d)
    | heartbeat_summary _ ↦ none
    | other ↦ none
  ]

  abbrev pub worker_entry : List String → WorkerRecord F → Option (String × WorkerRecord F)
  worker_entry pool_ids w = if elem w.node_id pool_ids then some (w.req_id, w) else none

module _ (fl : Floats) where
  open fl use {Float, of_nat, nan, add, sub, mul, div, lt, le}

  -- `_node_rate_factors`
  pub node_rate_factors : Manifest Float → Dict String Float
  unfolding rate_factors dict_from
  node_rate_factors manifest =
      let factors = rate_factors fl manifest.clock_sync in
      dict_from
        (λ (n : Node). elim (lookup n.host factors) [ none ↦ none | some f ↦ some (n.node_id, f) ])
        [] manifest.nodes

  -- `if responder and responder not in pool_ids: continue`
  abbrev pub is_dropped : List String → ClientRecord Float → Bool
  is_dropped pool_ids c = elim c.responding_node [
    | none ↦ false
    | some r ↦ not (r == "") && not (elem r pool_ids)
  ]

  -- `ns / 1e6 / rate`
  abbrev pub ms : Float → ℕ → Float
  ms rate ns = div (div (of_nat ns) (of_nat 1_000_000)) rate

  -- `e2e_ms - ((decide_us or 0.0) / 1e3 + queue_wait_ms + service_ms)`
  abbrev pub residual : Float → Option Float → Float → Float → Float
  residual e2e_ms decide_us queue_wait_ms service_ms =
      sub e2e_ms
        (add (add (div (or_else decide_us (of_nat 0)) (of_nat 1000)) queue_wait_ms) service_ms)

  -- The row of one client record, from what the other logs hold of its request.
  pub row_of :
      Manifest Float
      → Option Float
      → ℕ
      → Dict String Float
      → ClientRecord Float
      → Option TraceReq
      → Option (Decision Float)
      → Option (WorkerRecord Float)
      → Row Float
  unfolding candidate_view
  row_of manifest r_value node_count node_rate c t d w =
      let output_len : ℕ = elim t [ none ↦ 0 | some t ↦ t.output_len ] in
      let view : CandidateView Float = elim d [
        | none ↦ no_view
        | some d ↦ candidate_view fl d output_len
      ] in
      let e2e_ms = div (of_nat c.e2e_duration_ns) (of_nat 1_000_000) in
      let decide_us : Option Float = elim d [
        | none ↦ none
        | some d ↦ some (div (of_nat d.decide_duration_ns) (of_nat 1000))
      ] in
      let rate : Float = elim w [
        | none ↦ of_nat 1
        | some w ↦ or_else (lookup w.node_id node_rate) (of_nat 1)
      ] in
      record {
        run_id = manifest.run_id;
        policy = manifest.policy;
        lambda = manifest.lambda;
        staleness_s = manifest.staleness_s;
        r = or_else r_value nan;
        node_count = node_count;
        req_id = c.req_id;
        bucket_id = elim t [ none ↦ "" | some t ↦ t.bucket_id ];
        prompt_len = elim t [ none ↦ 0 | some t ↦ t.prompt_len ];
        output_len = output_len;
        priority = elim t [ none ↦ 0 | some t ↦ t.priority ];
        intended_offset_s = c.intended_offset_s;
        send_lag_ms = c.send_lag_ms;
        e2e_ms = e2e_ms;
        status = c.status;
        chosen_node = elim d [ none ↦ none | some d ↦ d.chosen_node ];
        decide_us = decide_us;
        view = view;
        queue_wait_ms = elim w [ none ↦ none | some w ↦ some (ms rate w.queue_wait_ns) ];
        prefill_ms = elim w [
          | none ↦ none
          | some w ↦ elim w.prefill_ns [ none ↦ none | some ns ↦ some (ms rate ns) ]
        ];
        decode_ms = elim w [
          | none ↦ none
          | some w ↦ elim w.decode_ns [ none ↦ none | some ns ↦ some (ms rate ns) ]
        ];
        service_ms = elim w [ none ↦ none | some w ↦ some (ms rate w.service_ns) ];
        transport_residual_ms = elim w [
          | none ↦ none
          | some w ↦
              some (residual e2e_ms decide_us (ms rate w.queue_wait_ns) (ms rate w.service_ns))
        ];
        is_warmup = lt c.intended_offset_s (or_else manifest.warmup_s (of_nat 0));
      }

  -- `for c in client`, with its `continue`.
  pub rows_of :
      List String → (ClientRecord Float → Row Float) → List (ClientRecord Float) → List (Row Float)
  rows_of pool_ids row [] = []
  rows_of pool_ids row (c ∷ cs) =
      if is_dropped pool_ids c then rows_of pool_ids row cs else row c ∷ rows_of pool_ids row cs

  abbrev pub pool_ids_of : Manifest Float → List String
  pool_ids_of manifest = map (λ n. n.node_id) (keep is_pool manifest.nodes)

  -- The row of a client record, with the dicts that `join` builds before its loop.
  pub joined_row :
      Manifest Float
      → List (SchedulerRecord Float)
      → List (WorkerRecord Float)
      → List TraceLine
      → Option Float
      → ClientRecord Float
      → Row Float
  unfolding row_of dict_from node_rate_factors
  joined_row manifest scheduler worker trace r_value c =
      row_of manifest r_value (length (pool_ids_of manifest)) (node_rate_factors manifest) c
        (lookup c.req_id (dict_from trace_entry [] trace))
        (lookup c.req_id (dict_from decision_entry [] scheduler))
        (lookup c.req_id (dict_from (worker_entry (pool_ids_of manifest)) [] worker))

  pub join :
      Manifest Float
      → List (ClientRecord Float)
      → List (SchedulerRecord Float)
      → List (WorkerRecord Float)
      → List TraceLine
      → Option String
      → Option Float
      → Bool
      → Result JoinError (List (Row Float))
  unfolding check_inputs rows_of joined_row
  join manifest client scheduler worker trace trace_sha256 r_value allow_invalid = do
    raise_if (not (truthy client)) (empty_client manifest.run_id)
    check_inputs manifest client scheduler worker trace_sha256 allow_invalid
    ok (rows_of (pool_ids_of manifest) (joined_row manifest scheduler worker trace r_value) client)
