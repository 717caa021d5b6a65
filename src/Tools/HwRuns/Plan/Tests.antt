-- ===== src/Tools/HwRuns/Plan/Tests.antt =====
-- The plan of a campaign of two repeats at two points.
use mathlib.Core.List.{Perm}
use llm_sched_study.Base.{
  ℕ, ◌≡◌, ◌↔◌, refl, inl, inr, String, none, some, List, [], ◌∷◌, map, str, pos, ok, All, arith,
  IsAmong,
}
use llm_sched_study.Samples.{whole}
use llm_sched_study.Calibration.Ranges.Extents.{Laws}
use llm_sched_study.Tools.HwRuns.{Point, Run}
use llm_sched_study.Tools.HwRuns.Samples.{campaign, outside, workload, arm}
use llm_sched_study.Tools.HwRuns.Checks.{check_seeds}
use llm_sched_study.Tools.HwRuns.Checks.Seeds.{check_seeds_iff}
use llm_sched_study.Tools.HwRuns.Plan.{resolve_point, plan}
use llm_sched_study.Tools.HwRuns.Plan.Slots.{Slot, slot_of, NumberedFrom}
use llm_sched_study.Tools.HwRuns.Plan.Ordered.{of_rate, Ascends, in_order, plan-Ascends}
use llm_sched_study.Tools.HwRuns.Plan.Covers.{IsAsked, plan-covers_iff}
use llm_sched_study.Tools.HwRuns.Plan.Seeds.{HasSeed, Resolves, plan-HasSeed, plan-total}

abbrev planned : (run_id policy point : String) (rate rep n seed : ℕ) → Run ℕ
planned run_id policy point rate rep n seed = record {
  run_id = run_id;
  policy = policy;
  arm = arm;
  point = record { name = point; rate_scale = some rate; target = none };
  staleness_s = 0;
  repeat = rep;
  sequence_no = n;
  workload = workload;
  gen_seed = none;
  scheduler_seed = some (pos seed);
}

abbrev runs : List (Run ℕ)
runs =
    planned "t_jsq_s0_low_r1" "jsq" "low" 1 1 0 11
    ∷ planned "t_ect_s0_low_r1" "ect" "low" 1 1 1 11
    ∷ planned "t_jsq_s0_high_r1" "jsq" "high" 2 1 2 11
    ∷ planned "t_ect_s0_high_r1" "ect" "high" 2 1 3 11
    ∷ planned "t_jsq_s0_low_r2" "jsq" "low" 1 2 4 12
    ∷ planned "t_ect_s0_low_r2" "ect" "low" 1 2 5 12
    ∷ planned "t_jsq_s0_high_r2" "jsq" "high" 2 2 6 12
    ∷ planned "t_ect_s0_high_r2" "ect" "high" 2 2 7 12
    ∷ []

-- The arm names one policy only, and its campaign is run under both.
plan_of_campaign : plan whole outside campaign ≡ ok runs
unfolding plan str
plan_of_campaign = refl

seeds_stated : check_seeds campaign ≡ ok tt
seeds_stated =
    (check_seeds_iff campaign).1
      (omega arith, refl, inl refl, (refl, (omega arith, (omega arith, tt))))

whole-Laws : Laws whole
whole-Laws = record {
  irrefl = λ a. ground arith;
  asym = λ a b h. ground arith;
  trans = λ a b c n h k. ground arith;
}

plan-Ascends_example :
    (points : List (Point ℕ)) × Perm points campaign.points
    × Ascends whole outside campaign points
    × (map slot_of runs ≡ in_order whole outside campaign points)
    × NumberedFrom 0 runs
plan-Ascends_example =
    plan-Ascends whole outside campaign whole-Laws
      ((2, of_rate refl, refl), ((1, of_rate refl, refl), tt)) runs plan_of_campaign

abbrev slot : Slot ℕ
slot = record {
  repeat = 2;
  point = "low";
  staleness_s = 0;
  workload = workload;
  arm = arm;
  policy = "jsq";
}

plan-covers_iff_example : IsAmong slot (map slot_of runs) ↔ IsAsked whole outside campaign slot
plan-covers_iff_example =
    plan-covers_iff whole outside campaign (λ A seed x xs. (λ m. m, λ m. m)) runs slot
      plan_of_campaign

plan-HasSeed_example : All (λ r. HasSeed r.scheduler_seed) runs
plan-HasSeed_example = plan-HasSeed whole outside campaign runs seeds_stated plan_of_campaign

resolves : Resolves whole outside campaign
unfolding resolve_point
resolves point w m k = elim m [
  | inl high ↦ rw high (_, refl)
  | inr m ↦ elim m [ inl low ↦ rw low (_, refl) | inr m ↦ absurd m ]
]

plan-total_example : (runs : List (Run ℕ)) × (plan whole outside campaign ≡ ok runs)
plan-total_example =
    plan-total whole outside campaign (λ A seed x xs. (λ m. m, λ m. m)) seeds_stated resolves
