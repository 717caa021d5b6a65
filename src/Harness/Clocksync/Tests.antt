-- ===== src/Harness/Clocksync/Tests.antt =====
-- A clock block of three hosts, one of which was not measured.
use llm_sched_study.Base.{ℕ, ◌≡◌, ◌↔◌, refl, true, false, some, [], ◌∷◌, lookup, string_eq}
use llm_sched_study.Samples.{whole}
use llm_sched_study.Harness.Manifest.{HostEntry, ClockBlock}
use llm_sched_study.Harness.Clocksync.{rate_factors}
use llm_sched_study.Harness.Clocksync.Factors.{IsFactor, lookup-rate_factors}

abbrev sync : ClockBlock ℕ
sync = record {
  reference = "client";
  hosts =
      ("client", record { synchronised = true; rate_error_ppm = 2 })
      ∷ ("gpu1", record { synchronised = true; rate_error_ppm = 9 })
      ∷ ("gpu2", record { synchronised = false; rate_error_ppm = 0 })
      ∷ [];
}

lookup-rate_factors_example : (lookup "gpu1" (rate_factors whole (some sync)) ≡ some 1) ↔ (
    (ref : HostEntry ℕ) × (clock : HostEntry ℕ) × (lookup sync.reference sync.hosts ≡ some ref)
    × (lookup "gpu1" sync.hosts ≡ some clock)
    × IsFactor whole sync.reference ref "gpu1" clock 1)
lookup-rate_factors_example = lookup-rate_factors whole sync "gpu1" 1 (refl, (refl, (refl, tt)))
