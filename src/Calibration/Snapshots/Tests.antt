-- ===== src/Calibration/Snapshots/Tests.antt =====
-- Two snapshots of two node classes that share one cell, and an older one of the first class.
use llm_sched_study.Base.{ℕ, ◌≤◌, ◌≡◌, refl, String, List, [], ◌∷◌, length, ok}
use llm_sched_study.Samples.{whole}
use llm_sched_study.Calibration.Snapshots.{Cell, Snapshot, by_class, synthesizable}
use llm_sched_study.Calibration.Snapshots.Shared.{IsRatioAt, synthesizable-ratio}

abbrev cell : ℕ → Cell
cell prompt_to = record {
  prompt_from = 1;
  prompt_to = prompt_to;
  output_from = 1;
  output_to = 64;
  concurrency = 1;
}

abbrev measured : String → String → ℕ → List (Cell × ℕ) → Snapshot ℕ
measured snapshot_id node_class at entries = record {
  snapshot_id = snapshot_id;
  node_class = node_class;
  measured_at_unix = at;
  entries = entries;
}

abbrev snapshots : List (Snapshot ℕ)
snapshots =
    measured "s3" "gpu" 9 ((cell 64, 40) ∷ (cell 256, 30) ∷ [])
    ∷ measured "s1" "gpu" 5 ((cell 64, 90) ∷ [])
    ∷ measured "s2" "cpu" 7 ((cell 64, 20) ∷ [])
    ∷ []

read : synthesizable whole snapshots ≡ ok (1, 2)
unfolding synthesizable by_class
read = refl

synthesizable-ratio_example :
    ◌≡◌ {A = ℕ} 1 1 × (2 ≤ length (by_class snapshots)) × IsRatioAt whole (by_class snapshots) 2
synthesizable-ratio_example = synthesizable-ratio whole snapshots 1 2 read
