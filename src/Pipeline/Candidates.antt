-- ===== src/Pipeline/Candidates.antt =====
-- pipeline/join.py, `_candidate_view`: the chosen node and the best alternative, as the scheduler
-- saw them.
pub mod Alternatives
mod Tests
use llm_sched_study.Base.{
  ℕ, ◌+◌, ◌*◌, Bool, true, false, not, ◌&&◌, String, Option, none, some, List, [], ◌∷◌, ◌==◌,
  string_eq, or_else, if◌then◌else◌, Floats, best_from,
}
use llm_sched_study.Logs.{Candidate, Decision}
use llm_sched_study.Pipeline.Records.{CandidateView}

module _ (fl : Floats) where
  open fl use {Float, of_nat, sub, mul, div, lt, le}

  -- `est_ms`: what the scheduler believed the request would take on the node.
  pub est_ms : ℕ → Candidate Float → Option Float
  est_ms output_len c =
      let cap = or_else c.capability_tok_s (of_nat 0) in
      if le cap (of_nat 0)
      then none
      else some
          (mul (div (of_nat ((c.queue_depth + c.inflight + 1) * output_len)) cap) (of_nat 1000))

  abbrev pub is_chosen : Decision Float → Candidate Float → Bool
  is_chosen d c = elim d.chosen_node [ none ↦ false | some i ↦ c.node_id == i ]

  -- `next((c for c in cs if p(c)), None)`
  abbrev pub find_first : {A : Type 0} → (A → Bool) → List A → Option A
  find_first p [] = none
  find_first p (x ∷ xs) = if p x then some x else find_first p xs

  -- An admissible candidate with an estimate that was not chosen, with that estimate.
  abbrev pub alternative : Decision Float → ℕ → Candidate Float → Option (Candidate Float × Float)
  alternative d output_len c = elim (est_ms output_len c) [
    | none ↦ none
    | some est ↦ if not (is_chosen d c) && c.admissible then some (c, est) else none
  ]

  pub alternatives : Decision Float → ℕ → List (Candidate Float) → List (Candidate Float × Float)
  alternatives d output_len [] = []
  alternatives d output_len (c ∷ cs) = elim (alternative d output_len c) [
    | none ↦ alternatives d output_len cs
    | some a ↦ a ∷ alternatives d output_len cs
  ]

  -- `min(alts, key=est_ms)`, which keeps the first of equals.
  abbrev pub best_of : List (Candidate Float × Float) → Option (Candidate Float × Float)
  best_of [] = none
  best_of (a ∷ rest) = some (best_from (λ x y. lt x.1 y.1) a rest)

  -- `max(chosen_est - best_alt_est, 0.0)`
  abbrev pub error_of : Option Float → Option Float → Option Float
  error_of (some chosen) (some best) =
      let x = sub chosen best in some (if lt x (of_nat 0) then of_nat 0 else x)
  error_of _ _ = none

  abbrev pub est_of : ℕ → Option (Candidate Float) → Option Float
  est_of output_len none = none
  est_of output_len (some c) = est_ms output_len c

  -- `_candidate_view`
  unfoldable pub candidate_view : Decision Float → ℕ → CandidateView Float
  unfolding alternatives est_ms
  candidate_view d output_len =
      let chosen = find_first (is_chosen d) d.candidates in
      let best = best_of (alternatives d output_len d.candidates) in
      let best_est : Option Float = elim best [ none ↦ none | some (_, est) ↦ some est ] in
      record {
        chosen_queue_depth = some (elim chosen [ none ↦ 0 | some c ↦ c.queue_depth ]);
        chosen_est_age_ms = some (elim chosen [ none ↦ 0 | some c ↦ c.estimate_age_ms ]);
        best_alt_node = elim best [ none ↦ none | some (c, _) ↦ some c.node_id ];
        best_alt_est_service_ms = best_est;
        routing_error_ms = error_of (est_of output_len chosen) best_est;
      }
