-- ===== src/Tools/HwRuns.antt =====
-- tools/hw_runs.py: a campaign of hardware runs, as its file says it. What its checks refuse, the
-- plan, the account of one run, and the loop over the runs are the children.
pub mod Checks
pub mod Plan
pub mod Accounts
pub mod PreRun
pub mod Loop
mod Samples
use llm_sched_study.Base.{
  ℕ, zero, suc, ◌+◌, ◌-◌, ◌%◌, Bool, true, false, not, ◌&&◌, ◌||◌, String, Option, none, some, List,
  [], ◌∷◌, map, keep, length, truthy, elem, or_else, is_some, Dict, lookup, contains, ◌==◌, nat_eq,
  string_eq, if◌then◌else◌, sort_by, ℤ, pos, negsuc, Result, ok, err, ◌>>=◌, ◌>>◌, raise_if,
  or_raise, traverse, Floats,
}
use llm_sched_study.Harness.Launch.{Spec, LaunchError}
use llm_sched_study.Harness.Manifest.{ClockBlock}
use llm_sched_study.Harness.Trace.{TraceError}
use llm_sched_study.Tools.PoolLoad.{
  LengthDist, Target, lambda_rps, pool_utilisation, slow_node_utilisation, LoadError,
}

-- What a JSON file gives for a key: `ratios` is an object of numbers.
pub data Setting (F : Type 0) : Type 0 where
  null : Setting F
  flag : Bool → Setting F
  int : ℤ → Setting F
  real : F → Setting F
  text : String → Setting F
  ratios : Dict String F → Setting F

-- `POLICIES`
abbrev pub all_policies : List String
all_policies =
    "round_robin" ∷ "jsq" ∷ "jsq_fastfirst" ∷ "static_weighted" ∷ "static_weighted_wrr" ∷ "wjsq"
    ∷ "threshold" ∷ "ect" ∷ []

-- `ARM_KEYS`
abbrev pub arm_keys : List String
arm_keys =
    "capability_override" ∷ "capability_concurrency" ∷ "capability_mode" ∷ "ect_mode"
    ∷ "ect_prior_output_len" ∷ "threshold_t" ∷ []

-- `dataclass Point`: a load point has a rate, or a target that gives it one.
pub record Point (F : Type 0) : Type 0 where
  pub name : String
  pub rate_scale : Option F
  pub target : Option (Target F)

pub record Arm (F : Type 0) : Type 0 where
  pub name : String
  pub config : Dict String (Setting F)
  pub policies : Option (List String)

-- The keys of a trace config that the driver reads.
pub record TraceConfig (F : Type 0) : Type 0 where
  pub length_dist : LengthDist F
  -- `mean_rate(arrival)`, or what it raises
  pub mean_rate : Result TraceError F

-- Where a workload's requests come from: one of two.
pub data Source (F : Type 0) : Type 0 where
  from_config : (path : String) → TraceConfig F → Source F
  from_trace : (path sha256 : String) → Source F

pub record Workload (F : Type 0) : Type 0 where
  pub name : String
  pub out_root : String
  pub source : Source F

pub record Worker : Type 0 where
  pub endpoint : Option String
  pub logs : Option String

pub record Campaign (F : Type 0) : Type 0 where
  pub tag : String
  pub workloads : List (Workload F)
  pub nodes : List Spec
  pub workers : Dict String Worker
  pub cost_model_snapshots : Dict String String
  pub policies : List String
  pub points : List (Point F)
  pub staleness_s : List F
  pub threshold_t : F
  pub repeats : ℤ
  pub warmup_s : F
  pub advertise : Option String
  pub clock_sync : Option (ClockBlock F)
  pub capability_mode : String
  pub capability_override : Option (Dict String F)
  pub capability_concurrency : Option ℤ
  pub ect_mode : Setting F
  pub ect_prior_output_len : Setting F
  pub arms : List (Arm F)
  pub repeat_seeds : Option (List ℤ)
  pub scheduler_seeds : Option (List ℤ)
  pub check_engine_restarts : Bool

pub record Run (F : Type 0) : Type 0 where
  pub run_id : String
  pub policy : String
  pub arm : Arm F
  pub point : Point F
  pub staleness_s : F
  pub repeat : ℕ
  pub sequence_no : ℕ
  pub workload : Workload F
  pub gen_seed : Option ℤ
  pub scheduler_seed : Option ℤ

-- What the driver raises; `key_error` and `index_error` are Python's, the others ValueErrors of its
-- own or of what it calls.
pub data HwError : Type 0 where
  key_error : String → HwError
  type_error : HwError
  index_error : HwError
  no_rate_scale : HwError
  unknown_arm_keys : (arm : String) → List String → HwError
  point_settings : (point : String) (n : ℕ) → HwError
  workload_source : (workload : String) → HwError
  in_launch : LaunchError → HwError
  in_load : LoadError → HwError
  in_trace : TraceError → HwError
  unknown_policies : List String → HwError
  no_repeats : HwError
  no_repeat_seeds : HwError
  repeat_seed_count scheduler_seed_count : ℕ → HwError
  repeat_seed_twice : HwError
  no_scheduler_seed : HwError
  no_java_int : HwError
  unknown_arm_policies : (arm : String) → List String → HwError
  bad_ect_mode : (where_set : String) → HwError
  no_ect_mode no_ect_prior : (arm : String) → HwError
  arm_twice unnamed_arm workload_twice unnamed_workload no_advertise : HwError
  no_endpoint no_logs no_snapshot placeholder unknown_snapshot wrong_ngl missed_promotion :
      (node_id : String) → HwError

-- An arm as the file says it: its name and policies, and its other keys.
pub record RawArm (F : Type 0) : Type 0 where
  pub name : Option String
  pub policies : Option (List String)
  pub keys : Dict String (Setting F)

-- A point's name and its numbers, by their keys.
pub record RawPoint (F : Type 0) : Type 0 where
  pub name : Option String
  pub numbers : Dict String F

pub record RawWorkload (F : Type 0) : Type 0 where
  pub name : Option String
  pub out_root : Option String
  -- the path of a trace config, with what the file holds
  pub trace_config : Option (String × TraceConfig F)
  pub trace : Option String
  pub trace_sha256 : Option String

module _ {F : Type 0} where
  -- `set(a) - {*ARM_KEYS, "name", "policies"}`
  abbrev pub unknown_keys : Dict String (Setting F) → List String
  unknown_keys keys = keep (λ k. not (elem k arm_keys)) (map (λ e. e.0) keys)

  -- `_arm`
  pub arm_of : RawArm F → Result HwError (Arm F)
  arm_of a = do
    raise_if (truthy (unknown_keys a.keys))
        (unknown_arm_keys (or_else a.name "") (sort_by (λ k. k) (unknown_keys a.keys)))
    ok (record {
      name = or_else a.name "";
      config = keep (λ e. elem e.0 arm_keys) a.keys;
      policies = a.policies;
    })

  -- `{k: d[k] for k in LOAD_TARGETS if k in d}`
  abbrev pub if_set : (F → Target F) → Option F → List (Target F) → List (Target F)
  if_set target none rest = rest
  if_set target (some x) rest = target x ∷ rest

  abbrev pub targets_of : Dict String F → List (Target F)
  targets_of numbers = if_set lambda_rps (lookup "lambda_rps" numbers) (
      if_set pool_utilisation (lookup "pool_utilisation" numbers)
        (if_set slow_node_utilisation (lookup "slow_node_utilisation" numbers) []))

  -- The one setting of a point, as its rate and its target.
  abbrev pub one_setting :
      String → Option F → List (Target F) → Result HwError (Option F × Option (Target F))
  one_setting name (some rate) [] = ok (some rate, none)
  one_setting name none (target ∷ []) = ok (none, some target)
  one_setting name rate targets =
      err (point_settings name (length targets + (if is_some rate then 1 else 0)))

  -- `_point`
  pub point_of : RawPoint F → Result HwError (Point F)
  point_of d = do
    setting ← one_setting (or_else d.name "") (lookup "rate_scale" d.numbers) (targets_of d.numbers)
    name ← or_raise d.name (key_error "name")
    ok (record { name = name; rate_scale = setting.0; target = setting.1 })

  -- `_workload`, after the defaults: exactly one of the two sources is named.
  abbrev pub workload_from :
      (name : String) (trace_config : Option (String × TraceConfig F))
      (trace trace_sha256 out_root : Option String)
      → Result HwError (Workload F)
  workload_from name (some (path, config)) none sha256 out_root = do
    root ← or_raise out_root (key_error "out_root")
    ok (record { name = name; out_root = root; source = from_config path config })
  workload_from name none (some trace) sha256 out_root = do
    root ← or_raise out_root (key_error "out_root")
    sum ← or_raise sha256 (key_error "trace_sha256")
    ok (record { name = name; out_root = root; source = from_trace trace sum })
  workload_from name (some _) (some _) sha256 out_root = err (workload_source name)
  workload_from name none none sha256 out_root = err (workload_source name)

  pub workload_of : RawWorkload F → Result HwError (Workload F)
  workload_of d = workload_from (or_else d.name "") d.trace_config d.trace d.trace_sha256 d.out_root

-- The keys of a campaign file that the model reads; `none` is a key that is not there.
pub record RawCampaign (F : Type 0) : Type 0 where
  pub tag : Option String
  pub workloads : Option (List (RawWorkload F))
  -- the keys of a single workload beside the others
  pub alone : RawWorkload F
  pub nodes : Option (List Spec)
  pub workers : Option (Dict String Worker)
  pub cost_model_snapshots : Option (Dict String String)
  pub policies : Option (List String)
  pub points : Option (List (RawPoint F))
  pub staleness_s : Option (List F)
  pub threshold_t : Option F
  pub repeats : Option ℤ
  pub warmup_s : Option F
  pub advertise : Option String
  pub capability_mode : Option String
  pub capability_override : Option (Dict String F)
  pub capability_concurrency : Option ℤ
  pub ect_mode : Option (Setting F)
  pub ect_prior_output_len : Option (Setting F)
  pub capability_arms : Option (List (RawArm F))
  pub repeat_seeds : Option (List ℤ)
  pub scheduler_seeds : Option (List ℤ)
  pub check_engine_restarts : Option Bool

abbrev pub no_arm : {F : Type 0} → RawArm F
no_arm = record { name = none; policies = none; keys = [] }

module _ (fl : Floats) where
  open fl use {Float, of_nat}

  -- `Campaign.from_dict`
  pub campaign_of : RawCampaign Float → Result HwError (Campaign Float)
  unfolding arm_of point_of workload_of
  campaign_of d = do
    workloads ← traverse workload_of (or_else d.workloads (d.alone ∷ []))
    tag ← or_raise d.tag (key_error "tag")
    nodes ← or_raise d.nodes (key_error "nodes")
    workers ← or_raise d.workers (key_error "workers")
    snapshots ← or_raise d.cost_model_snapshots (key_error "cost_model_snapshots")
    raw_points ← or_raise d.points (key_error "points")
    points ← traverse point_of raw_points
    arms ← traverse arm_of (or_else d.capability_arms (no_arm ∷ []))
    ok (record {
      tag = tag;
      workloads = workloads;
      nodes = nodes;
      workers = workers;
      cost_model_snapshots = snapshots;
      policies = or_else d.policies all_policies;
      points = points;
      staleness_s = or_else d.staleness_s (of_nat 0 ∷ []);
      threshold_t = or_else d.threshold_t (of_nat 50);
      repeats = or_else d.repeats (pos 1);
      warmup_s = or_else d.warmup_s (of_nat 0);
      advertise = d.advertise;
      clock_sync = none;
      capability_mode = or_else d.capability_mode "service";
      capability_override = d.capability_override;
      capability_concurrency = d.capability_concurrency;
      ect_mode = or_else d.ect_mode null;
      ect_prior_output_len = or_else d.ect_prior_output_len null;
      arms = arms;
      repeat_seeds = d.repeat_seeds;
      scheduler_seeds = d.scheduler_seeds;
      check_engine_restarts = or_else d.check_engine_restarts true;
    })
