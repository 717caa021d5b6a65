-- ===== src/Pipeline/Loadband/Tests.antt =====
-- A sweep of three loads.
use llm_sched_study.Base.{ℕ, ◌≡◌, refl, true, String, some, List, [], ◌∷◌, arith, keep, ok}
use llm_sched_study.Samples.{whole}
use llm_sched_study.Calibration.Ranges.Extents.{Laws}
use llm_sched_study.Pipeline.Loadband.{
  Numerics, LoadPoint, LoadBand, is_usable, is_saturated, shortfall_threshold, characterize,
}
use llm_sched_study.Pipeline.Loadband.Edges.{IsBand, characterize-IsBand}

abbrev num : Numerics ℕ
num = record { sqrt = λ n. n; ceil = λ x. x; fmean = λ xs. 0 }

abbrev point : String → ℕ → ℕ → ℕ → LoadPoint ℕ
point name rate p99 drift = record {
  name = name;
  lambda_rps = rate;
  n = 40;
  p50_ms = 100;
  p95_ms = 200;
  p99_ms = p99;
  drift_ms = drift;
  achieved_rps = rate;
  n_nodes = 2;
  failures = 0;
  offered_rps = rate;
  n_arrivals = 40;
}

abbrev points : List (LoadPoint ℕ)
points = point "heavy" 9 900 500 ∷ point "light" 1 300 0 ∷ point "mid" 4 500 10 ∷ []

abbrev band : LoadBand ℕ
band = record {
  lo_rps = some 1;
  hi_rps = some 4;
  reference_p50_ms = 100;
  reference_p99_ms = 300;
  points = point "light" 1 300 0 ∷ point "mid" 4 500 10 ∷ point "heavy" 9 900 500 ∷ [];
  policy_separable = true;
}

-- In whole numbers the onset is once the reference's p99, so the reference itself is over it.
characterized : characterize whole num points ≡ ok band
unfolding characterize is_saturated shortfall_threshold
characterized = refl

whole-IsOrdered : Laws whole
whole-IsOrdered = record {
  irrefl = λ a. ground arith;
  asym = λ a b h. ground arith;
  trans = λ a b c n h k. ground arith;
}

characterize-IsBand_example : IsBand whole num points (keep is_usable points) band
characterize-IsBand_example =
    characterize-IsBand whole num whole-IsOrdered points band (refl, (refl, (refl, tt)))
      characterized
