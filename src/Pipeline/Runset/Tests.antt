-- ===== src/Pipeline/Runset/Tests.antt =====
-- Two run directories, one of which has no trace.
use llm_sched_study.Base.{
  ℕ, ◌≡◌, ◌≢◌, ◌↔◌, ◌⊎◌, true, false, String, none, some, List, [], ◌∷◌, keep, ok, All, Dict,
}
use llm_sched_study.Samples.{whole}
use llm_sched_study.Harness.Node.{Node, is_pool}
use llm_sched_study.Calibration.Snapshots.{Snapshot, synthesizable}
use llm_sched_study.Pipeline.Records.{ClientRecord, header}
use llm_sched_study.Pipeline.Runset.{
  RunManifest, RunDir, RunSet, no_trace, deployed_r, load_run, concat_frames, aggregate,
}
use llm_sched_study.Pipeline.Runset.Deployed.{AreNamed, OfOneClass, OfTwoClasses, deployed_r-eq-ok}
use llm_sched_study.Pipeline.Runset.Sets.{
  IsHandled, names_of, frames_of, errors_of, aggregate-eq-ok,
}

abbrev node : Node
node = record {
  node_id = "n1";
  host = "h1";
  engine = "llama.cpp";
  engine_version = "b6000";
  model = "m";
  quant = "q4";
  gpu = "t4";
  engine_config = record { ngl = 99; threads = 4; parallel = 4 };
  prefix_caching = false;
  max_batch = 4;
  role = none;
}

abbrev manifest : RunManifest ℕ
manifest = record {
  base = record {
    run_id = "run7";
    policy = "rr";
    lambda = 1;
    staleness_s = 0;
    warmup_s = none;
    nodes = node ∷ [];
    trace_sha256 = some "abc";
    valid = some true;
    clock_sync = none;
  };
  vehicle = "hardware";
  cost_model_snapshots = ("n1", "s1") ∷ [];
}

abbrev index : Dict String (Snapshot ℕ)
index =
    ("s1", record { snapshot_id = "s1"; node_class = "t4"; measured_at_unix = 5; entries = [] })
    ∷ []

abbrev answered : ClientRecord ℕ
answered = record {
  run_id = some "run7";
  req_id = "r0";
  intended_offset_s = 3;
  send_lag_ms = 0;
  e2e_duration_ns = 9_000_000;
  status = "ok";
  responding_node = some "n1";
}

abbrev good : RunDir ℕ
good = record {
  name = "run7";
  manifest = some manifest;
  trace = some (record { sha256 = "abc"; lines = some (header ∷ []) });
  client = some (answered ∷ []);
  scheduler = some [];
  worker = some [];
}

abbrev traceless : RunDir ℕ
traceless = record good { name = "run8"; trace = none }

abbrev set : RunSet ℕ
set = record {
  frame = concat_frames whole (frames_of whole (load_run whole index false) (good ∷ []));
  included = "run7" ∷ [];
  excluded = ("run8", no_trace "run7") ∷ [];
}

deployed_r-eq-ok_example : (deployed_r whole manifest index ≡ ok 1) ↔ (
    (ss : List (Snapshot ℕ)) × AreNamed whole manifest.cost_model_snapshots index
      (keep is_pool manifest.base.nodes)
      ss
    × ((OfOneClass whole ss × ◌≡◌ {A = ℕ} 1 1)
        ⊎ (OfTwoClasses whole ss × ((lo : ℕ) × (synthesizable whole ss ≡ ok (lo, 1))))))
deployed_r-eq-ok_example = deployed_r-eq-ok whole manifest index 1

aggregate-eq-ok_example : (aggregate whole index false (good ∷ traceless ∷ []) ≡ ok set) ↔ (
    All (λ d. IsHandled (load_run whole index false d)) (good ∷ traceless ∷ [])
    × (frames_of whole (load_run whole index false) (good ∷ traceless ∷ []) ≢ [])
    × (set ≡ record {
      frame =
          concat_frames whole
            (frames_of whole (load_run whole index false) (good ∷ traceless ∷ []));
      included = names_of whole (load_run whole index false) (good ∷ traceless ∷ []);
      excluded = errors_of whole (load_run whole index false) (good ∷ traceless ∷ []);
    }))
aggregate-eq-ok_example = aggregate-eq-ok whole index false (good ∷ traceless ∷ []) set
