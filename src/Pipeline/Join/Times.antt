-- ===== src/Pipeline/Join/Times.antt =====
-- The server times of a row, on the reference clock.
use llm_sched_study.Base.{
  ℕ, ◌≡◌, refl, subst, ◌∙◌, inl, inr, Bool, true, false, sym, String, Option, none, some, List, [],
  ◌∷◌, ◌==◌, string_eq, or_else, if◌then◌else◌, length, Dict, lookup, Floats, Option-cases,
}
use llm_sched_study.Logs.{Decision, SchedulerRecord}
use llm_sched_study.Harness.Node.{Node}
use llm_sched_study.Harness.Clocksync.{rate_factors}
use llm_sched_study.Worker.Log.{WorkerRecord}
use llm_sched_study.Pipeline.Records.{Manifest, ClientRecord, TraceReq, TraceLine, Row}
use llm_sched_study.Pipeline.Join.{
  dict_from, decision_entry, worker_entry, trace_entry, node_rate_factors, ms, row_of, pool_ids_of,
  joined_row,
}
use llm_sched_study.Pipeline.Join.Rows.{last_of, last_served, lookup-dict, last_of-worker}

module _ (fl : Floats) where
  open fl use {Float, of_nat, sub, add, div}

  -- Nanoseconds of a node's clock as milliseconds of the reference clock, null where there are none.
  abbrev pub InMs : Float → Option ℕ → Option Float → Type 0
  InMs rate none column = column ≡ none
  InMs rate (some ns) column = column ≡ some (div (div (of_nat ns) (of_nat 1_000_000)) rate)

  -- The factor of a node's host; of several nodes of the name, that of the last one whose host has a
  -- factor.
  abbrev pub last_factor : Dict String Float → String → List Node → Option Float
  last_factor factors node_id [] = none
  last_factor factors node_id (n ∷ ns) = elim (last_factor factors node_id ns) [
    | some later ↦ some later
    | none ↦ if n.node_id == node_id then lookup n.host factors else none
  ]

  abbrev pub clock_rate : Manifest Float → String → Float
  clock_rate manifest node_id =
      or_else (last_factor (rate_factors fl manifest.clock_sync) node_id manifest.nodes) (of_nat 1)

  last_of-factor :
      (factors : Dict String Float) (node_id : String) (ns : List Node)
      → last_of
          (λ (n : Node). elim (lookup n.host factors) [
            | none ↦ none
            | some f ↦ some (n.node_id, f)
          ])
          node_id
          ns
        ≡ last_factor factors node_id ns
  last_of-factor factors node_id [] = refl
  last_of-factor factors node_id (n ∷ ns) =
      let later = last_of-factor factors node_id ns in
      elim (Option-cases (last_factor factors node_id ns)) [
        | inr (f, e) ↦ rw (later, e) refl
        | inl e ↦ elim (Option-cases (lookup n.host factors)) [
          | inl here ↦ rw (later, e, here) (sym (if_same (n.node_id == node_id)))
          | inr (f, here) ↦ rw (later, e, here) refl
        ]
      ]
    where
      if_same : (b : Bool) → ◌≡◌ {A = Option Float} (if b then none else none) none
      if_same true = refl
      if_same false = refl

  lookup-node_rate_factors :
      (manifest : Manifest Float) (node_id : String)
      → lookup node_id (node_rate_factors fl manifest)
        ≡ last_factor (rate_factors fl manifest.clock_sync) node_id manifest.nodes
  unfolding node_rate_factors
  lookup-node_rate_factors manifest node_id =
      lookup-dict _ node_id manifest.nodes
      ∙ last_of-factor (rate_factors fl manifest.clock_sync) node_id manifest.nodes

  -- The server times of a row are those of the worker's record, put to the reference clock.
  abbrev pub IsTimed : Float → ClientRecord Float → Row Float → WorkerRecord Float → Type 0
  IsTimed rate c row w =
      InMs rate (some w.queue_wait_ns) row.queue_wait_ms
      × InMs rate w.prefill_ns row.prefill_ms
      × InMs rate w.decode_ns row.decode_ms
      × InMs rate (some w.service_ns) row.service_ms
      × (row.transport_residual_ms
          ≡ some (
              sub (div (of_nat c.e2e_duration_ns) (of_nat 1_000_000)) (
                add
                  (add (div (or_else row.decide_us (of_nat 0)) (of_nat 1000))
                    (div (div (of_nat w.queue_wait_ns) (of_nat 1_000_000)) rate))
                  (div (div (of_nat w.service_ns) (of_nat 1_000_000)) rate))))

  -- The server times of a row: null, or those of the worker's record, put to the reference clock.
  abbrev pub HasTimes :
      Manifest Float → ClientRecord Float → Row Float → Option (WorkerRecord Float) → Type 0
  HasTimes manifest c row none =
      (row.queue_wait_ms ≡ none)
      × (row.prefill_ms ≡ none)
      × (row.decode_ms ≡ none)
      × (row.service_ms ≡ none)
      × (row.transport_residual_ms ≡ none)
  HasTimes manifest c row (some w) = IsTimed (clock_rate manifest w.node_id) c row w

  ms-InMs :
      (rate : Float) (o : Option ℕ)
      → InMs rate o (elim o [ none ↦ none | some ns ↦ some (ms fl rate ns) ])
  ms-InMs rate none = refl
  ms-InMs rate (some ns) = refl

  row_of-HasTimes :
      (manifest : Manifest Float) (r_value : Option Float) (node_count : ℕ) (c : ClientRecord Float)
      (t : Option TraceReq) (d : Option (Decision Float)) (w : Option (WorkerRecord Float))
      → HasTimes manifest c
          (row_of fl manifest r_value node_count (node_rate_factors fl manifest) c t d w)
          w
  unfolding row_of
  row_of-HasTimes manifest r_value node_count c t d none = (refl, refl, refl, refl, refl)
  row_of-HasTimes manifest r_value node_count c t d (some w) =
      let rates = node_rate_factors fl manifest in
      let rate = or_else (lookup w.node_id rates) (of_nat 1) in
      let row = row_of fl manifest r_value node_count rates c t d (some w) in
      subst (λ f. IsTimed (or_else f (of_nat 1)) c row w)
        (lookup-node_rate_factors manifest w.node_id)
        (refl, ms-InMs rate w.prefill_ns, ms-InMs rate w.decode_ns, refl, refl)

  -- A request's server times are those of the last record of the request that a pool node wrote, in
  -- milliseconds, each divided by the factor that the clock block gives to the node's host, or by 1 if
  -- it gives none. The residual is the end-to-end time less the
  -- sum of the queue wait, the service time and a thousandth of `decide_us`, taken as 0 where it is
  -- null. Without such a record all five columns are null.
  pub joined_row-HasTimes :
      (manifest : Manifest Float) (scheduler : List (SchedulerRecord Float))
      (worker : List (WorkerRecord Float)) (trace : List TraceLine) (r_value : Option Float)
      (c : ClientRecord Float)
      → HasTimes manifest c
          (joined_row fl manifest scheduler worker trace r_value c)
          (last_served (pool_ids_of fl manifest) c.req_id worker)
  unfolding joined_row
  joined_row-HasTimes m scheduler worker trace r_value c =
      subst (HasTimes m c (joined_row fl m scheduler worker trace r_value c))
        (lookup-dict (worker_entry (pool_ids_of fl m)) c.req_id worker
          ∙ last_of-worker (pool_ids_of fl m) c.req_id worker)
        (row_of-HasTimes m r_value (length (pool_ids_of fl m)) c
          (lookup c.req_id (dict_from trace_entry [] trace))
          (lookup c.req_id (dict_from decision_entry [] scheduler))
          (lookup c.req_id (dict_from (worker_entry (pool_ids_of fl m)) [] worker)))
