-- ===== src/Pipeline/Candidates/Tests.antt =====
-- A decision between four candidates, one of them not admissible.
use llm_sched_study.Base.{
  ℕ, List, ltb, ◌==◌, ◌≡◌, ◌⊎◌, true, false, Bool, String, none, some, [], ◌∷◌, arith, IsAmong,
  nat_eq,
}
use llm_sched_study.Samples.{whole}
use llm_sched_study.Logs.{Candidate, Decision}
use llm_sched_study.Pipeline.Candidates.{candidate_view}
use llm_sched_study.Pipeline.Candidates.Alternatives.{
  LtLaw, LtIrrefl, LtAsymm, Each, IsAlternative, candidate_view-best,
}

abbrev candidate : String → ℕ → Bool → Candidate ℕ
candidate node_id queue admissible = record {
  node_id = node_id;
  capability_tok_s = some 10;
  queue_depth = queue;
  inflight = 0;
  estimate_age_ms = 20;
  admissible = admissible;
}

abbrev decided : Decision ℕ
decided = record {
  req_id = "r000001";
  chosen_node = some "n1";
  policy = some "rr";
  candidates =
      candidate "n1" 5 true
      ∷ candidate "n2" 3 true
      ∷ candidate "n3" 0 false
      ∷ candidate "n4" 2 true
      ∷ [];
  decide_duration_ns = 9000;
}

whole-LtLaw : LtLaw whole
whole-LtLaw a b c n h k = ground arith

whole-LtIrrefl : LtIrrefl whole
whole-LtIrrefl a = ground arith

whole-LtAsymm : LtAsymm whole
whole-LtAsymm a b h = ground arith

numbers : (cs : List (Candidate ℕ)) → Each whole (λ a. (a.1 == a.1) ≡ true) decided 20 cs
numbers [] = tt
numbers (c ∷ cs) = (λ est h. ground (arith, nat_eq.beq_iff est est), numbers cs)

candidate_view-best_example :
    let view = candidate_view whole decided 20 in
    (Each whole (λ _. ⊥) decided 20 decided.candidates
      × (view.best_alt_node ≡ none)
      × (view.best_alt_est_service_ms ≡ none))
    ⊎ ((a : Candidate ℕ × ℕ) × IsAmong a.0 decided.candidates
        × IsAlternative whole decided 20 a
        × Each whole (λ b. ltb b.1 a.1 ≡ false) decided 20 decided.candidates
        × (view.best_alt_node ≡ some a.0.node_id)
        × (view.best_alt_est_service_ms ≡ some a.1))
candidate_view-best_example =
    candidate_view-best whole whole-LtLaw whole-LtIrrefl whole-LtAsymm decided 20
      (numbers decided.candidates)
