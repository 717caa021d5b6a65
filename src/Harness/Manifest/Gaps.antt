-- ===== src/Harness/Manifest/Gaps.antt =====
-- `heartbeat_gaps_from` against its description: each node's last summary counts.
use llm_sched_study.Base.{
  ℕ, ◌+◌, ◌≡◌, refl, Bool, true, false, ◌||◌, String, none, some, List, [], ◌∷◌, arith, ◌==◌,
  string_eq, if◌then◌else◌, truthy, any, Dict, insert, IsDict, insert-IsDict, sum_items, sum_except,
  sum_except-insert,
}
use llm_sched_study.Logs.{
  SchedulerRecord, SchedulerBody, HeartbeatSummary, decision, heartbeat_summary, other,
}
use llm_sched_study.Harness.Manifest.{note_summary, last_summaries, heartbeat_gaps_from}

abbrev missed : String → HeartbeatSummary → ℕ
missed node r = r.missed_beats

truthy-insert :
    (k : String) (v : HeartbeatSummary) (d : Dict String HeartbeatSummary)
    → truthy (insert k v d) ≡ true
truthy-insert k v [] = refl
truthy-insert k v (x ∷ d) = ground arith

sum_except_none :
    (d : Dict String HeartbeatSummary) → sum_except missed (λ k. false) d ≡ sum_items missed d
sum_except_none [] = refl
sum_except_none (x ∷ d) = omega (arith, sum_except_none d)

module _ {F : Type 0} where
  abbrev pub is_summary_of : (String → Bool) → SchedulerBody F → Bool
  is_summary_of p (heartbeat_summary r) = p r.node_id
  is_summary_of p (decision _) = false
  is_summary_of p other = false

  -- There is a summary of `node` among the records.
  abbrev pub summarised : String → List (SchedulerRecord F) → Bool
  summarised node records = any (λ r. is_summary_of (λ i. node == i) r.body) records

  abbrev pub gaps_of : SchedulerBody F → List (SchedulerRecord F) → ℕ
  gaps_of (heartbeat_summary r) later = if summarised r.node_id later then 0 else r.missed_beats
  gaps_of (decision _) later = 0
  gaps_of other later = 0

  -- The missed beats of each summary that no later summary of its node replaces.
  pub latest_gaps : List (SchedulerRecord F) → ℕ
  latest_gaps [] = 0
  latest_gaps (r ∷ rs) = gaps_of r.body rs + latest_gaps rs

  note_summary-sum :
      (last : Dict String HeartbeatSummary) (b : SchedulerBody F) (rs : List (SchedulerRecord F))
      → IsDict last
      → IsDict (note_summary last b)
        × (sum_except missed (λ k. summarised k rs) (note_summary last b)
            ≡ sum_except missed (λ k. is_summary_of (λ i. k == i) b || summarised k rs) last
              + gaps_of b rs)
  note_summary-sum last (heartbeat_summary r) rs h = (
    insert-IsDict r.node_id r last h,
    sum_except-insert missed (λ k. summarised k rs) r.node_id r last h,
  )
  note_summary-sum last (decision d) rs h = (h, omega arith)
  note_summary-sum last other rs h = (h, omega arith)

  last_summaries-sum :
      (last : Dict String HeartbeatSummary) (rs : List (SchedulerRecord F))
      → IsDict last
      → sum_items missed (last_summaries last rs)
        ≡ sum_except missed (λ k. summarised k rs) last + latest_gaps rs
  unfolding last_summaries latest_gaps
  last_summaries-sum last [] h = omega (arith, sum_except_none last)
  last_summaries-sum last (r ∷ rs) h =
      let (kept, summed) = note_summary-sum last r.body rs h in
      omega (arith, last_summaries-sum (note_summary last r.body) rs kept, summed)

  truthy-note_summary :
      (last : Dict String HeartbeatSummary) (b : SchedulerBody F)
      → truthy (note_summary last b) ≡ (truthy last || is_summary_of (λ _. true) b)
  truthy-note_summary last (heartbeat_summary r) = ground (arith, truthy-insert r.node_id r last)
  truthy-note_summary last (decision d) = ground arith
  truthy-note_summary last other = ground arith

  truthy-last_summaries :
      (last : Dict String HeartbeatSummary) (rs : List (SchedulerRecord F))
      → truthy (last_summaries last rs)
        ≡ (truthy last || any (λ r. is_summary_of (λ _. true) r.body) rs)
  unfolding last_summaries
  truthy-last_summaries last [] = ground arith
  truthy-last_summaries last (r ∷ rs) =
      ground (
        arith,
        truthy-last_summaries (note_summary last r.body) rs,
        truthy-note_summary last r.body,
      )

  -- The count is none exactly if the log holds no summary; otherwise it is the sum over the nodes
  -- of the missed beats in each node's last summary.
  pub heartbeat_gaps_from-eq-latest :
      (records : List (SchedulerRecord F))
      → heartbeat_gaps_from records ≡ (
          if any (λ r. is_summary_of (λ _. true) r.body) records
          then some (latest_gaps records)
          else none)
  unfolding heartbeat_gaps_from
  heartbeat_gaps_from-eq-latest records =
      rw (truthy-last_summaries [] records, last_summaries-sum [] records tt) (ground arith)
