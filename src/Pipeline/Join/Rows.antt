-- ===== src/Pipeline/Join/Rows.antt =====
-- What the other logs give to the row of a request.
use llm_sched_study.Base.{
  ℕ, ◌≡◌, refl, subst, ◌∙◌, inl, inr, ◌&&◌, String, Option, none, some, List, [], ◌∷◌, arith, ◌==◌,
  string_eq, elem, if◌then◌else◌, length, Dict, lookup, insert, lookup-insert, Floats, Option-cases,
}
use llm_sched_study.Logs.{
  SchedulerBody, decision, heartbeat_summary, other, Decision, SchedulerRecord,
}
use llm_sched_study.Worker.Log.{WorkerRecord}
use llm_sched_study.Pipeline.Records.{
  Manifest, ClientRecord, TraceReq, TraceLine, req, header, no_view, Row,
}
use llm_sched_study.Pipeline.Candidates.{candidate_view}
use llm_sched_study.Pipeline.Join.{
  dict_from, decision_entry, worker_entry, trace_entry, node_rate_factors, row_of, pool_ids_of,
  joined_row,
}

module _ {A V : Type 0} (entry : A → Option (String × V)) where
  -- The value of the last element whose entry has the key.
  abbrev pub last_of : String → List A → Option V
  last_of k [] = none
  last_of k (x ∷ xs) = elim (last_of k xs) [
    | some v ↦ some v
    | none ↦ elim (entry x) [ none ↦ none | some (j, v) ↦ if j == k then some v else none ]
  ]

  lookup-dict_from :
      (k : String) (d : Dict String V) (xs : List A)
      → lookup k (dict_from entry d xs)
        ≡ (elim (last_of k xs) [ some v ↦ some v | none ↦ lookup k d ])
  unfolding dict_from
  lookup-dict_from k d [] = refl
  lookup-dict_from k d (x ∷ xs) = elim (Option-cases (entry x)) [
    | inl e ↦ ground (arith, e, lookup-dict_from k d xs)
    | inr ((j, v), e) ↦
        ground (arith, e, lookup-dict_from k (insert j v d) xs, lookup-insert j k v d)
  ]

  pub lookup-dict : (k : String) (xs : List A) → lookup k (dict_from entry [] xs) ≡ last_of k xs
  lookup-dict k xs = ground (arith, lookup-dict_from k [] xs)

-- The last record of the request that a node of the pool wrote.
abbrev pub last_served :
    {F : Type 0} → List String → String → List (WorkerRecord F) → Option (WorkerRecord F)
last_served pool_ids req_id [] = none
last_served pool_ids req_id (w ∷ ws) = elim (last_served pool_ids req_id ws) [
  | some later ↦ some later
  | none ↦ if (w.req_id == req_id) && elem w.node_id pool_ids then some w else none
]

abbrev pub decision_on : {F : Type 0} → String → SchedulerBody F → Option (Decision F)
decision_on req_id (decision d) = if d.req_id == req_id then some d else none
decision_on req_id (heartbeat_summary _) = none
decision_on req_id other = none

-- The last decision on the request.
abbrev pub last_decided : {F : Type 0} → String → List (SchedulerRecord F) → Option (Decision F)
last_decided req_id [] = none
last_decided req_id (r ∷ rs) = elim (last_decided req_id rs) [
  | some later ↦ some later
  | none ↦ decision_on req_id r.body
]

pub last_of-worker :
    {F : Type 0} (pool_ids : List String) (req_id : String) (ws : List (WorkerRecord F))
    → last_of (worker_entry pool_ids) req_id ws ≡ last_served pool_ids req_id ws
last_of-worker pool_ids req_id [] = refl
last_of-worker pool_ids req_id (w ∷ ws) = elim (Option-cases (last_served pool_ids req_id ws)) [
  | inl e ↦ ground (arith, e, last_of-worker pool_ids req_id ws)
  | inr (later, e) ↦ ground (arith, e, last_of-worker pool_ids req_id ws)
]

last_of-one :
    {F : Type 0} (req_id : String) (run_id : Option String) (b : SchedulerBody F)
    → last_of decision_entry req_id (record { run_id = run_id; body = b } ∷ [])
      ≡ decision_on req_id b
last_of-one req_id run_id (decision d) = refl
last_of-one req_id run_id (heartbeat_summary h) = refl
last_of-one req_id run_id other = refl

last_of-decision :
    {F : Type 0} (req_id : String) (rs : List (SchedulerRecord F))
    → last_of decision_entry req_id rs ≡ last_decided req_id rs
last_of-decision req_id [] = refl
last_of-decision req_id (r ∷ rs) = elim (Option-cases (last_decided req_id rs)) [
  | inl e ↦ rw (last_of-decision req_id rs, e) (last_of-one req_id r.run_id r.body)
  | inr (later, e) ↦ rw (last_of-decision req_id rs, e) refl
]

-- The line of the trace on the request, the last one if there are several.
abbrev pub last_asked : String → List TraceLine → Option TraceReq
last_asked req_id [] = none
last_asked req_id (line ∷ lines) = elim (last_asked req_id lines) [
  | some later ↦ some later
  | none ↦ elim line [ header ↦ none | req t ↦ if t.req_id == req_id then some t else none ]
]

last_of-trace :
    (req_id : String) (lines : List TraceLine)
    → last_of trace_entry req_id lines ≡ last_asked req_id lines
last_of-trace req_id [] = refl
last_of-trace req_id (header ∷ lines) = rw (last_of-trace req_id lines) refl
last_of-trace req_id (req t ∷ lines) = rw (last_of-trace req_id lines) refl

pub lookup-trace :
    (req_id : String) (trace : List TraceLine)
    → lookup req_id (dict_from trace_entry [] trace) ≡ last_asked req_id trace
lookup-trace req_id trace = lookup-dict trace_entry req_id trace ∙ last_of-trace req_id trace

module _ (fl : Floats) where
  open fl use {Float, of_nat, sub, add, div}

  -- The scheduler's columns of a row: null, or those of the decision and of its candidates.
  abbrev pub HasDecision : Option TraceReq → Row Float → Option (Decision Float) → Type 0
  HasDecision asked row none =
      (row.chosen_node ≡ none) × (row.decide_us ≡ none) × (row.view ≡ no_view)
  HasDecision asked row (some d) =
      (row.chosen_node ≡ d.chosen_node)
      × (row.decide_us ≡ some (div (of_nat d.decide_duration_ns) (of_nat 1000)))
      × (row.view ≡ candidate_view fl d (elim asked [ none ↦ 0 | some t ↦ t.output_len ]))

  row_of-HasDecision :
      (manifest : Manifest Float) (r_value : Option Float) (node_count : ℕ)
      (rates : Dict String Float) (c : ClientRecord Float) (t : Option TraceReq)
      (d : Option (Decision Float)) (w : Option (WorkerRecord Float))
      → HasDecision t (row_of fl manifest r_value node_count rates c t d w) d
  unfolding row_of
  row_of-HasDecision manifest r_value node_count rates c t none w = (refl, refl, refl)
  row_of-HasDecision manifest r_value node_count rates c t (some d) w = (refl, refl, refl)

  -- A request's scheduler columns are those of the last decision on the request, the counterfactual
  -- computed with the output length of the last line that the trace has on the request, or 0 if it has
  -- none. Without a decision they are all null.
  pub joined_row-HasDecision :
      (manifest : Manifest Float) (scheduler : List (SchedulerRecord Float))
      (worker : List (WorkerRecord Float)) (trace : List TraceLine) (r_value : Option Float)
      (c : ClientRecord Float)
      → HasDecision
          (last_asked c.req_id trace)
          (joined_row fl manifest scheduler worker trace r_value c)
          (last_decided c.req_id scheduler)
  unfolding joined_row
  joined_row-HasDecision m scheduler worker trace r_value c =
      let row = joined_row fl m scheduler worker trace r_value c in
      subst (λ asked. HasDecision asked row (last_decided c.req_id scheduler))
        (lookup-trace c.req_id trace)
        (subst (HasDecision (lookup c.req_id (dict_from trace_entry [] trace)) row)
          (lookup-dict decision_entry c.req_id scheduler ∙ last_of-decision c.req_id scheduler)
          (row_of-HasDecision m r_value (length (pool_ids_of fl m)) (node_rate_factors fl m) c
            (lookup c.req_id (dict_from trace_entry [] trace))
            (lookup c.req_id (dict_from decision_entry [] scheduler))
            (lookup c.req_id (dict_from (worker_entry (pool_ids_of fl m)) [] worker))))
