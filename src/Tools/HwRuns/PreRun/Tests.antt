-- ===== src/Tools/HwRuns/PreRun/Tests.antt =====
-- The config of a run whose arm sets the mode of ECT.
use llm_sched_study.Base.{ℕ, ◌≡◌, refl, false, none, some, [], ◌∷◌, pos, ok}
use llm_sched_study.Samples.{whole}
use llm_sched_study.Tools.HwRuns.{Run, real, int, text}
use llm_sched_study.Tools.HwRuns.Samples.{campaign, outside, workload, arm}
use llm_sched_study.Tools.HwRuns.PreRun.{setting, of_header, TraceHeader, Config, pre_run_config}
use llm_sched_study.Tools.HwRuns.PreRun.Told.{IsTold, pre_run_config-IsTold}

abbrev run : Run ℕ
run = record {
  run_id = "t_ect";
  policy = "ect";
  arm = record arm { name = "blind" };
  point = record { name = "high"; rate_scale = some 2; target = none };
  staleness_s = 0;
  repeat = 1;
  sequence_no = 0;
  workload = workload;
  gen_seed = none;
  scheduler_seed = some (pos 11);
}

abbrev header : TraceHeader ℕ
header = record { duration_s = 60; lambda_base = some 3; mean_rate = ok 4 }

abbrev config : Config ℕ
config =
    ("duration_s", setting (real 30))
    ∷ ("warmup_s", setting (real 0))
    ∷ ("rate_scale", setting (real 2))
    ∷ ("operating_point", setting (text "high"))
    ∷ ("lambda", setting (real 6))
    ∷ ("arrival", of_header "arrival")
    ∷ ("length_dist", of_header "length_dist")
    ∷ ("gen_seed", of_header "gen_seed")
    ∷ ("generator_git_sha", of_header "generator_git_sha")
    ∷ ("staleness_s", setting (real 0))
    ∷ ("repeat", setting (int (pos 1)))
    ∷ ("sequence_no", setting (int (pos 0)))
    ∷ ("campaign", setting (text "t"))
    ∷ ("capability_mode", setting (text "service"))
    ∷ ("capability_arm", setting (text "blind"))
    ∷ ("ect_mode", setting (text "unknown"))
    ∷ ("ect_prior_output_len", setting (int (pos 128)))
    ∷ ("mean_lambda", setting (real 8))
    ∷ ("seed", setting (int (pos 11)))
    ∷ []

configured : pre_run_config whole outside campaign run header false ≡ ok config
unfolding pre_run_config
configured = refl

pre_run_config-IsTold_example : IsTold whole outside campaign run config
pre_run_config-IsTold_example =
    pre_run_config-IsTold whole outside campaign run header false config (refl, (refl, tt))
      configured
