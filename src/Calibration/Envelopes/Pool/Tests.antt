-- ===== src/Calibration/Envelopes/Pool/Tests.antt =====
-- The envelope of two small nodes, of which the second is the slower.
use llm_sched_study.Base.{
  ℕ, ◌≡◌, ◌⊎◌, refl, String, Option, none, some, List, [], ◌∷◌, arith, All, str, ok, err,
}
use llm_sched_study.Samples.{whole}
use llm_sched_study.Calibration.Envelopes.{
  CostCell, CostSnapshot, NodeEnvelope, NodeLimit, PoolEnvelope, EnvelopeError,
  node_limit_from_snapshot, buckets_within, determine,
}
use llm_sched_study.Calibration.Envelopes.Fitting.{Ordered}
use llm_sched_study.Calibration.Envelopes.Largest.{limit_bucket, IsLargest, node_limit-IsLargest}
use llm_sched_study.Calibration.Envelopes.Pool.{
  RunDir, Report, Sample, Cliff, Evidence, Gap, load_observations, cliff_from_observations,
  cliff_block, measured_extent, envelope_of, pool_envelope,
}
use llm_sched_study.Calibration.Envelopes.Pool.Meets.{IsMeet, IsEmptyMeet, determine-cases}
use llm_sched_study.Calibration.Envelopes.Pool.Served.{Serves, pool_envelope-Serves}

abbrev cell : ℕ → ℕ → ℕ → ℕ → CostCell ℕ
cell prompt_hi output_hi concurrency p95 = record {
  prompt_hi = prompt_hi;
  output_hi = output_hi;
  concurrency = concurrency;
  service_ms_p95 = p95;
}

-- The corner of the two longest sides does not fit, so one of two rectangles is taken.
abbrev fast : CostSnapshot ℕ
fast = record {
  node_class = "fast";
  timeout_ceiling_ms = 100;
  entries =
      cell 128 64 1 10
      ∷ cell 128 64 4 20
      ∷ cell 512 64 1 60
      ∷ cell 128 128 1 70
      ∷ cell 512 128 1 150
      ∷ [];
}

abbrev slow : CostSnapshot ℕ
slow = record {
  node_class = "slow";
  timeout_ceiling_ms = 100;
  entries = cell 128 64 1 90 ∷ cell 256 64 1 95 ∷ cell 512 64 1 130 ∷ [];
}

abbrev sample : ℕ → String → Option String → Sample
sample prompt_len status segment = record {
  prompt_len = prompt_len;
  output_len = 64;
  status = status;
  segment = segment;
}

abbrev run : String → CostSnapshot ℕ → RunDir ℕ
run path s = record {
  path = path;
  node_class = s.node_class;
  model = some "m";
  series = s ∷ [];
  rows = sample 9000 "ok" (some "warmup") ∷ sample 100 "ok" none ∷ sample 512 "timeout" none ∷ [];
}

abbrev dirs : List (RunDir ℕ)
dirs = run "a" fast ∷ run "b" slow ∷ []

ordered : Ordered whole
ordered = record {
  laws = record {
    irrefl = λ a. ground arith;
    asym = λ a b h. ground arith;
    trans = λ a b c n h k. ground arith;
  };
  le_of = λ a b c n h k. ground arith;
}

fast_limit : limit_bucket whole (node_limit_from_snapshot whole fast 100) ≡ (512, 64)
unfolding node_limit_from_snapshot
fast_limit = refl

node_limit-IsLargest_example :
    IsLargest whole 100 fast.entries (limit_bucket whole (node_limit_from_snapshot whole fast 100))
node_limit-IsLargest_example =
    node_limit-IsLargest whole ordered fast 100 (refl, (refl, (refl, (refl, (refl, tt)))))
      (omega arith, (omega arith, (omega arith, (omega arith, (omega arith, tt)))))

abbrev envelopes : List (NodeEnvelope ℕ)
envelopes = node_limit_from_snapshot whole fast 100 ∷ node_limit_from_snapshot whole slow 100 ∷ []

determine-cases_example :
    (IsEmptyMeet whole envelopes × ((x : EnvelopeError) × (determine whole envelopes none ≡ err x)))
    ⊎ ((p : PoolEnvelope ℕ) × (determine whole envelopes none ≡ ok p) × IsMeet whole envelopes p)
determine-cases_example = determine-cases whole envelopes none

abbrev node_limit : String → ℕ → ℕ → NodeLimit ℕ
node_limit node_class max_prompt worst = record {
  node_class = node_class;
  max_prompt = max_prompt;
  max_output = 64;
  limiting_concurrency = 1;
  worst_p95_ms = worst;
}

abbrev evidence : Evidence
evidence = record { max_prompt_measured = 100; max_output_measured = 64; n_ok = 1; n_failed = 1 }

abbrev cliff : String → Cliff
cliff node_class = record {
  node_class = node_class;
  n_total = 2;
  n_failed = 1;
  failures_by_status = ("timeout", 1) ∷ [];
  first_failing_prompt = some 512;
  first_failing_output = some 64;
}

abbrev gap : String → Gap
gap node_class = record { node_class = node_class; claimed_prompt = 256; measured_prompt = 100 }

abbrev pool_report : Report ℕ
pool_report = record {
  envelope = record {
    max_prompt = 256;
    max_output = 64;
    timeout_ceiling_ms = 100;
    limiting_node = some "slow";
    per_node = node_limit "fast" 512 150 ∷ node_limit "slow" 256 130 ∷ [];
  };
  model = "m";
  buckets = "p128_o64" ∷ "p256_o64" ∷ [];
  evidence = ("fast", evidence) ∷ ("slow", evidence) ∷ [];
  cliffs =
      record { cliff = cliff "fast"; failure_rate = 0 }
      ∷ record { cliff = cliff "slow"; failure_rate = 0 }
      ∷ [];
  unmeasured_ceiling = gap "fast" ∷ gap "slow" ∷ [];
}

reported : pool_envelope whole dirs none ≡ ok pool_report
unfolding pool_envelope determine node_limit_from_snapshot envelope_of load_observations
    cliff_from_observations cliff_block measured_extent buckets_within str
reported = refl

pool_envelope-Serves_example : All (Serves whole none (256, 64)) dirs
pool_envelope-Serves_example =
    pool_envelope-Serves whole ordered dirs none pool_report
      (
        (
          (
            (refl, (refl, (refl, (refl, (refl, tt))))),
            (omega arith, (omega arith, (omega arith, (omega arith, (omega arith, tt))))),
          ),
          tt,
        ),
        ((((refl, (refl, (refl, tt))), (omega arith, (omega arith, (omega arith, tt)))), tt), tt),
      )
      reported
