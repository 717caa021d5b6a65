-- ===== src/Tools/HwRuns/PreRun.antt =====
-- tools/hw_runs.py, `pre_run_manifest`: the config that a run is started with.
pub mod Told
mod Tests
use llm_sched_study.Base.{
  ℕ, Bool, true, false, not, ◌&&◌, ◌||◌, String, Option, none, some, List, [], ◌∷◌, keep, or_else,
  Dict, insert, ◌==◌, string_eq, if◌then◌else◌, ℤ, pos, Result, ok, err, ◌>>=◌, or_raise, Floats,
}
use llm_sched_study.Harness.Trace.{TraceError}
use llm_sched_study.Tools.PoolLoad.{Target, divide}
use llm_sched_study.Tools.HwRuns.{
  Setting, null, flag, int, real, text, ratios, Arm, Campaign, Run, HwError, no_rate_scale,
}
use llm_sched_study.Tools.HwRuns.Checks.{is_null}
use llm_sched_study.Tools.HwRuns.Plan.{Outside, raise_load, raise_trace}

-- A value of the config: a setting, what the trace's header has for the key, or a load target.
pub data ConfigValue (F : Type 0) : Type 0 where
  setting : Setting F → ConfigValue F
  of_header : (key : String) → ConfigValue F
  load_target : Target F → ConfigValue F

-- The keys of a trace's header that the config is computed from.
pub record TraceHeader (F : Type 0) : Type 0 where
  pub duration_s : F
  -- `arrival["lambda_base"]`, if it is there
  pub lambda_base : Option F
  -- `mean_rate(arrival)`, or what it raises
  pub mean_rate : Result TraceError F

-- `k != "threshold_t" or run.policy == "threshold"`
abbrev pub is_told : (policy key : String) → Bool
is_told policy key = not (key == "threshold_t") || policy == "threshold"

abbrev pub Config : Type 0 → Type 0
Config F = Dict String (ConfigValue F)

module _ {F : Type 0} where
  -- `if value is not None: config[key] = value`
  abbrev pub put_setting : String → Setting F → Config F → Config F
  put_setting key value config = if is_null value then config else insert key (setting value) config

  abbrev pub ratios_or_null : Option (Dict String F) → Setting F
  ratios_or_null none = null
  ratios_or_null (some d) = ratios d

  abbrev pub int_or_null : Option ℤ → Setting F
  int_or_null none = null
  int_or_null (some n) = int n

  -- `name` where it is not empty.
  abbrev pub name_or_null : String → Setting F
  name_or_null name = if name == "" then null else text name

  -- `config.update(settings)`
  abbrev pub update : Config F → List (String × Setting F) → Config F
  update config [] = config
  update config ((k, v) ∷ settings) = update (insert k (setting v) config) settings

  abbrev pub put_target : Option (Target F) → Config F → Config F
  put_target none config = config
  put_target (some target) config = insert "load_target" (load_target target) config

module _ (fl : Floats) (o : Outside fl) where
  open fl use {Float, of_nat, mul, round_to}

  -- The literal, in its order.
  abbrev pub base_config :
      Campaign Float → Run Float → TraceHeader Float → (rate duration_s : Float) → Config Float
  base_config c run header rate duration_s =
      ("duration_s", setting (real duration_s))
      ∷ ("warmup_s", setting (real c.warmup_s))
      ∷ ("rate_scale", setting (real rate))
      ∷ ("operating_point", setting (text run.point.name))
      ∷ ("lambda", setting (real (round_to (mul (or_else header.lambda_base (of_nat 0)) rate) 6)))
      ∷ ("arrival", of_header "arrival")
      ∷ ("length_dist", of_header "length_dist")
      ∷ ("gen_seed", of_header "gen_seed")
      ∷ ("generator_git_sha", of_header "generator_git_sha")
      ∷ ("staleness_s", setting (real run.staleness_s))
      ∷ ("repeat", setting (int (pos run.repeat)))
      ∷ ("sequence_no", setting (int (pos run.sequence_no)))
      ∷ ("campaign", setting (text c.tag))
      ∷ ("capability_mode", setting (text c.capability_mode))
      ∷ []

  -- The campaign's settings, before the arm's.
  abbrev pub with_campaign : Campaign Float → Run Float → Config Float → Config Float
  with_campaign c run config =
      put_setting "threshold_t" (if run.policy == "threshold" then real c.threshold_t else null) (
        put_setting "capability_arm" (name_or_null run.arm.name) (
          put_setting "ect_prior_output_len" c.ect_prior_output_len (
            put_setting "ect_mode" c.ect_mode (
              put_setting "capability_concurrency" (int_or_null c.capability_concurrency) (
                put_setting "capability_override" (ratios_or_null c.capability_override) config)))))

  -- What is written after the arm's settings.
  abbrev pub with_run :
      Run Float → (allow_dirty : Bool) → (mean_lambda : Float) → Config Float → Config Float
  with_run run allow_dirty mean_lambda config =
      put_setting "allow_dirty" (if allow_dirty then flag true else null) (
        put_setting "workload" (name_or_null run.workload.name) (
          insert "seed" (setting (int_or_null run.scheduler_seed)) (
            insert "mean_lambda" (setting (real mean_lambda))
              (put_target run.point.target config))))

  -- The writes in their order.
  abbrev pub config_with :
      Campaign Float
      → Run Float
      → TraceHeader Float
      → (allow_dirty : Bool) → (rate duration_s mean : Float) → Config Float
  config_with c run header allow_dirty rate duration_s mean =
      with_run run allow_dirty (round_to (mul mean rate) 6) (
        update (with_campaign c run (base_config c run header rate duration_s))
          (keep (λ e. is_told run.policy e.0) run.arm.config))

  pub pre_run_config :
      Campaign Float
      → Run Float
      → TraceHeader Float
      → (allow_dirty : Bool) → Result HwError (Config Float)
  pre_run_config c run header allow_dirty = do
    rate ← or_raise run.point.rate_scale no_rate_scale
    duration_s ← raise_load fl o (divide fl o.split_bucket header.duration_s rate)
    mean ← raise_trace fl o header.mean_rate
    ok (config_with c run header allow_dirty rate duration_s mean)
