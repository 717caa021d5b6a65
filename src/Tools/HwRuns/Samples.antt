-- ===== src/Tools/HwRuns/Samples.antt =====
-- A small campaign, for the tests of its checks and of its plan.
use llm_sched_study.Base.{ℕ, true, false, String, none, some, [], ◌∷◌, Dict, pos, ok}
use llm_sched_study.Harness.Launch.{Spec, engine_object}
use llm_sched_study.Samples.{whole}
use llm_sched_study.Tools.PoolLoad.{CostModel}
use llm_sched_study.Tools.HwRuns.{Arm, Workload, from_trace, Campaign, null, text, int}
use llm_sched_study.Tools.HwRuns.Plan.{Outside}

abbrev pub workload : Workload ℕ
workload = record { name = ""; out_root = "runs"; source = from_trace "t.jsonl" "abc" }

abbrev pub arm : Arm ℕ
arm = record {
  name = "";
  config = ("ect_mode", text "unknown") ∷ ("ect_prior_output_len", int (pos 128)) ∷ [];
  policies = some ("ect" ∷ []);
}

abbrev pub spec : Spec
spec = record {
  node_id = some "n1";
  host = some "h1";
  engine = some "llama.cpp";
  engine_version = some "b6000";
  model = some "m";
  quant = some "q4";
  gpu = some "t4";
  engine_config =
      some (engine_object (record { ngl = some 99; threads = some 4; parallel = some 4 }));
  prefix_caching = some false;
  max_batch = some 4;
  role = none;
}

abbrev pub snapshot : CostModel ℕ
snapshot = record {
  snapshot_id = "snap";
  node_class = "m_ngl99_t4";
  measured_at_unix = 7;
  entries = [];
}

abbrev pub index : Dict String (CostModel ℕ)
index =
    ("old", record snapshot { snapshot_id = "old"; measured_at_unix = 5 }) ∷ ("snap", snapshot) ∷ []

abbrev pub campaign : Campaign ℕ
campaign = record {
  tag = "t";
  workloads = workload ∷ [];
  nodes = spec ∷ [];
  workers = ("n1", record { endpoint = some "h1:1"; logs = some "logs" }) ∷ [];
  cost_model_snapshots = ("n1", "snap") ∷ [];
  policies = "jsq" ∷ "ect" ∷ [];
  points =
      record { name = "high"; rate_scale = some 2; target = none }
      ∷ record { name = "low"; rate_scale = some 1; target = none }
      ∷ [];
  staleness_s = 0 ∷ [];
  threshold_t = 50;
  repeats = pos 2;
  warmup_s = 0;
  advertise = some "10.0.0.1";
  clock_sync = none;
  capability_mode = "service";
  capability_override = none;
  capability_concurrency = none;
  ect_mode = null;
  ect_prior_output_len = null;
  arms = arm ∷ [];
  repeat_seeds = none;
  scheduler_seeds = some (pos 11 ∷ pos 12 ∷ []);
  check_engine_restarts = true;
}

-- A shuffle that leaves the order as it is.
abbrev pub outside : Outside whole
outside = record {
  shuffle = λ A seed xs. xs;
  general = λ x. "0";
  plain = λ x. "0";
  split_bucket = λ s. none;
  index = index;
  header_of = λ path sha256. ok (record { length_dist = []; mean_rate = ok 1 });
}
