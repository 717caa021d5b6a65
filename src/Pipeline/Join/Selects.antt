-- ===== src/Pipeline/Join/Selects.antt =====
-- Which client records become rows, and what a row takes from its record and from the trace.
use llm_sched_study.Base.{
  ℕ, ◌≡◌, refl, sym, ap, ◌∙◌, subst, ◌↔◌, ◌⊎◌, inl, inr, Bool, true, false, String, Option, none,
  some, Dict, List, [], ◌∷◌, arith, ok, ◌==◌, string_eq, elem, or_else, length, keep, lookup,
  IsAmong, IsAmong-map_iff, IsAmong-keep_iff, Floats, Bool-cases, Option-cases,
}
use llm_sched_study.Logs.{Decision, SchedulerRecord}
use llm_sched_study.Harness.Node.{Node, is_pool}
use llm_sched_study.Worker.Log.{WorkerRecord}
use llm_sched_study.Pipeline.Records.{Manifest, ClientRecord, TraceReq, TraceLine, Row}
use llm_sched_study.Pipeline.Join.{
  dict_from, decision_entry, worker_entry, trace_entry, node_rate_factors, is_dropped, row_of,
  rows_of, pool_ids_of, joined_row, join,
}
use llm_sched_study.Pipeline.Join.Checks.{join-eq-ok}
use llm_sched_study.Pipeline.Join.Rows.{last_asked, lookup-trace}

-- The second list has one element for each element of the first that is selected, in its order, and
-- that stands in the relation to it.
pub data Selects {A B : Type 0} (P : A → Type 0) (R : A → B → Type 0)
    : List A → List B → Type 0 where
  done : Selects P R [] []
  taken :
      {a : A} {b : B} {xs : List A} {ys : List B}
      → P a
      → R a b
      → Selects P R xs ys
      → Selects P R (a ∷ xs) (b ∷ ys)
  passed : {a : A} {xs : List A} {ys : List B} → ¬ P a → Selects P R xs ys → Selects P R (a ∷ xs) ys

elem_iff : (x : String) (xs : List String) → (elem x xs ≡ true) ↔ IsAmong x xs
elem_iff x [] = (λ h. cc, λ m. absurd m)
elem_iff x (y ∷ ys) = elim (Bool-cases (y == x)) [
  | inl here ↦ rw here (λ _. inl (sym ((string_eq.beq_iff y x).0 here)), λ _. refl)
  | inr there ↦ rw there (
    λ h. inr ((elem_iff x ys).0 h),
    λ m. elim m [
      | inl e ↦ absurd (ground (arith, e, there, string_eq.beq_iff y x))
      | inr m ↦ (elem_iff x ys).1 m
    ],
  )
]

module _ (fl : Floats) where
  open fl use {Float, of_nat, div, lt}

  -- The record names no node, or a node of the pool.
  pub data AnswersFromPool (manifest : Manifest Float) (c : ClientRecord Float) : Type 0 where
    no_node : c.responding_node ≡ none → AnswersFromPool manifest c
    empty_name : c.responding_node ≡ some "" → AnswersFromPool manifest c
    of_pool :
        (n : Node)
        → IsAmong n manifest.nodes
        → or_else n.role "pool" ≡ "pool"
        → c.responding_node ≡ some n.node_id
        → AnswersFromPool manifest c

  kept_of_pool :
      (m : Manifest Float) (c : ClientRecord Float) (r : String)
      → c.responding_node ≡ some r
      → (elem r (pool_ids_of fl m) ≡ true)
        ↔ ((n : Node) × IsAmong n m.nodes × (or_else n.role "pool" ≡ "pool") × (r ≡ n.node_id))
  kept_of_pool m c r named = (
    λ h.
        let (n, kept, e) =
          (IsAmong-map_iff (λ (n : Node). n.node_id) r (keep is_pool m.nodes)).0
            ((elem_iff r (pool_ids_of fl m)).0 h) in
        let (here, pool) = (IsAmong-keep_iff is_pool n m.nodes).0 kept in
        (n, here, (string_eq.beq_iff (or_else n.role "pool") "pool").0 pool, e),
    λ (n, here, pool, e). (elem_iff r (pool_ids_of fl m)).1 (
        (IsAmong-map_iff (λ (n : Node). n.node_id) r (keep is_pool m.nodes)).1 (
          n,
          (IsAmong-keep_iff is_pool n m.nodes).1
              (here, (string_eq.beq_iff (or_else n.role "pool") "pool").1 pool),
          e,
        )),
  )

  is_dropped-cases :
      (m : Manifest Float) (c : ClientRecord Float)
      → ((is_dropped fl (pool_ids_of fl m) c ≡ true) × ¬ AnswersFromPool m c)
        ⊎ ((is_dropped fl (pool_ids_of fl m) c ≡ false) × AnswersFromPool m c)
  is_dropped-cases m c = elim (Option-cases c.responding_node) [
    | inl e ↦ inr (rw e refl, no_node e)
    | inr (r, e) ↦ elim (Bool-cases (r == "")) [
      | inl blank ↦
          inr (rw (e, blank) refl, empty_name (e ∙ ap some ((string_eq.beq_iff r "").0 blank)))
      | inr named ↦ elim (Bool-cases (elem r (pool_ids_of fl m))) [
        | inl member ↦
            let (n, here, pool, same) = (kept_of_pool m c r e).0 member in
            inr (rw (e, named, member) refl, of_pool n here pool (e ∙ ap some same))
        | inr foreign ↦ inl (
          rw (e, named, foreign) refl,
          λ answers. elim answers [
            | no_node k ↦ cc
            | empty_name k ↦ let blank : r ≡ "" = cc in cc ((string_eq.beq_iff r "").1 blank)
            | of_pool n here pool k ↦
                let same : r ≡ n.node_id = cc in cc ((kept_of_pool m c r e).1 (n, here, pool, same))
          ],
        )
      ]
    ]
  ]

  -- What a row takes from the manifest, from its client record and from the trace's line on it.
  abbrev pub IsRowOf : Manifest Float → Option TraceReq → ClientRecord Float → Row Float → Type 0
  IsRowOf m asked c row =
      (row.run_id ≡ m.run_id)
      × (row.policy ≡ m.policy)
      × (row.lambda ≡ m.lambda)
      × (row.req_id ≡ c.req_id)
      × (row.status ≡ c.status)
      × (row.e2e_ms ≡ div (of_nat c.e2e_duration_ns) (of_nat 1_000_000))
      × (row.is_warmup ≡ lt c.intended_offset_s (or_else m.warmup_s (of_nat 0)))
      × (row.bucket_id ≡ (elim asked [ none ↦ "" | some t ↦ t.bucket_id ]))
      × (row.prompt_len ≡ (elim asked [ none ↦ 0 | some t ↦ t.prompt_len ]))
      × (row.output_len ≡ (elim asked [ none ↦ 0 | some t ↦ t.output_len ]))

  row_of-IsRowOf :
      (m : Manifest Float) (r_value : Option Float) (node_count : ℕ) (rates : Dict String Float)
      (c : ClientRecord Float) (t : Option TraceReq) (d : Option (Decision Float))
      (w : Option (WorkerRecord Float))
      → IsRowOf m t c (row_of fl m r_value node_count rates c t d w)
  unfolding row_of
  row_of-IsRowOf m r_value node_count rates c t d w =
      (refl, refl, refl, refl, refl, refl, refl, refl, refl, refl)

  joined_row-IsRowOf :
      (m : Manifest Float) (scheduler : List (SchedulerRecord Float))
      (worker : List (WorkerRecord Float)) (trace : List TraceLine) (r_value : Option Float)
      (c : ClientRecord Float)
      → IsRowOf m (last_asked c.req_id trace) c (joined_row fl m scheduler worker trace r_value c)
  unfolding joined_row
  joined_row-IsRowOf m scheduler worker trace r_value c =
      subst (λ asked. IsRowOf m asked c (joined_row fl m scheduler worker trace r_value c))
        (lookup-trace c.req_id trace)
        (row_of-IsRowOf m r_value (length (pool_ids_of fl m)) (node_rate_factors fl m) c
          (lookup c.req_id (dict_from trace_entry [] trace))
          (lookup c.req_id (dict_from decision_entry [] scheduler))
          (lookup c.req_id (dict_from (worker_entry (pool_ids_of fl m)) [] worker)))

  rows_of-Selects :
      (m : Manifest Float) (row : ClientRecord Float → Row Float)
      (R : ClientRecord Float → Row Float → Type 0)
      → ((c : ClientRecord Float) → R c (row c))
      → (client : List (ClientRecord Float))
      → Selects (AnswersFromPool m) R client (rows_of fl (pool_ids_of fl m) row client)
  unfolding rows_of
  rows_of-Selects m row R each [] = done
  rows_of-Selects m row R each (c ∷ cs) = elim (is_dropped-cases m c) [
    | inl (drop, foreign) ↦ rw drop (passed foreign (rows_of-Selects m row R each cs))
    | inr (kept, answers) ↦ rw kept (taken answers (each c) (rows_of-Selects m row R each cs))
  ]

  -- A join that succeeds has one row for each client record that names no node or a node of the pool,
  -- in the order of the client log, and none for a record of another node. A row has the run's id,
  -- policy and rate, its record's request, status, end-to-end time and place before or after the
  -- warmup, and the bucket and lengths of the last line that the trace has on the request.
  pub join-Selects :
      (manifest : Manifest Float) (client : List (ClientRecord Float))
      (scheduler : List (SchedulerRecord Float)) (worker : List (WorkerRecord Float))
      (trace : List TraceLine) (trace_sha256 : Option String) (r_value : Option Float)
      (allow_invalid : Bool) (rows : List (Row Float))
      → join fl manifest client scheduler worker trace trace_sha256 r_value allow_invalid ≡ ok rows
      → Selects
          (AnswersFromPool manifest)
          (λ c row. IsRowOf manifest (last_asked c.req_id trace) c row)
          client
          rows
  join-Selects m client scheduler worker trace sha r_value allow rows h =
      let R : ClientRecord Float → Row Float → Type 0 =
        λ c row. IsRowOf m (last_asked c.req_id trace) c row in
      let (_, _, e) = (join-eq-ok fl m client scheduler worker trace sha r_value allow rows).0 h in
      subst (Selects (AnswersFromPool m) R client) e (
        rows_of-Selects m (joined_row fl m scheduler worker trace r_value) R
          (joined_row-IsRowOf m scheduler worker trace r_value) client)
