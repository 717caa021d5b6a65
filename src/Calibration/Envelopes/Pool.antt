-- ===== src/Calibration/Envelopes/Pool.antt =====
-- calibration/admissible.py, `pool_envelope`: from the calibration runs of a pool to the lengths that
-- all its nodes serve. A run directory is what its files say: the report, the series of snapshots that
-- `load_series` gives, and the rows of the observations.
pub mod Meets
pub mod Served
mod Tests
use llm_sched_study.Base.{
  ℕ, zero, suc, ◌+◌, ◌-◌, Bool, true, false, not, String, Option, none, some, List, [], ◌∷◌, ◌++◌,
  map, keep, length, or_else, to_set, Dict, lookup, insert, ltb, leb, ◌==◌, nat_eq, string_eq,
  if◌then◌else◌, Result, ok, err, ◌>>=◌, ◌>>◌, raise_if, or_raise, traverse, best_from, text_leb,
  sort_by, Floats,
}
use llm_sched_study.Calibration.Envelopes.{
  CostSnapshot, NodeEnvelope, PoolEnvelope, EnvelopeError, no_runs, many_models, no_snapshots,
  node_limit_from_snapshot, buckets_within, determine,
}

-- A line of `observations.jsonl`: a sample with the segment that it was taken in.
pub record Sample : Type 0 where
  pub prompt_len : ℕ
  pub output_len : ℕ
  pub status : String
  pub segment : Option String

-- `load_observations`: the warmups are left out.
pub load_observations : List Sample → List Sample
load_observations rows = keep (λ d. not (or_else d.segment "" == "warmup")) rows

pub record Cliff : Type 0 where
  pub node_class : String
  pub n_total : ℕ
  pub n_failed : ℕ
  pub failures_by_status : Dict String ℕ
  pub first_failing_prompt : Option ℕ
  pub first_failing_output : Option ℕ

-- `Cliff.to_dict`
pub record CliffBlock (F : Type 0) : Type 0 where
  pub cliff : Cliff
  pub failure_rate : F

abbrev pub count_status : Dict String ℕ → List Sample → Dict String ℕ
count_status by_status [] = by_status
count_status by_status (o ∷ os) =
    count_status (insert o.status (or_else (lookup o.status by_status) 0 + 1) by_status) os

-- `min(xs, default=None)`
abbrev pub least_if_any : List ℕ → Option ℕ
least_if_any [] = none
least_if_any (x ∷ xs) = some (best_from (λ a b. ltb a b) x xs)

-- `max(xs, default=0)`
abbrev pub greatest_or_zero : List ℕ → ℕ
greatest_or_zero [] = 0
greatest_or_zero (x ∷ xs) = best_from (λ a b. ltb b a) x xs

abbrev pub failed_of : List Sample → List Sample
failed_of observations = keep (λ o. not (o.status == "ok")) observations

pub cliff_from_observations : List Sample → String → Cliff
cliff_from_observations observations node_class = record {
  node_class = node_class;
  n_total = length observations;
  n_failed = length (failed_of observations);
  failures_by_status = count_status [] (failed_of observations);
  first_failing_prompt = least_if_any (map (λ o. o.prompt_len) (failed_of observations));
  first_failing_output = least_if_any (map (λ o. o.output_len) (failed_of observations));
}

pub record Evidence : Type 0 where
  pub max_prompt_measured : ℕ
  pub max_output_measured : ℕ
  pub n_ok : ℕ
  pub n_failed : ℕ

pub measured_extent : List Sample → Evidence
measured_extent observations =
    let served = keep (λ o. o.status == "ok") observations in
    record {
      max_prompt_measured = greatest_or_zero (map (λ o. o.prompt_len) served);
      max_output_measured = greatest_or_zero (map (λ o. o.output_len) served);
      n_ok = length served;
      n_failed = length observations - length served;
    }

pub record RunDir (F : Type 0) : Type 0 where
  pub path : String
  pub node_class : String
  pub model : Option String
  pub series : List (CostSnapshot F)
  pub rows : List Sample

-- A node class whose samples do not reach the prompt that the envelope claims.
pub record Gap : Type 0 where
  pub node_class : String
  pub claimed_prompt : ℕ
  pub measured_prompt : ℕ

pub record Report (F : Type 0) : Type 0 where
  pub envelope : PoolEnvelope F
  pub model : String
  pub buckets : List String
  pub evidence : List (String × Evidence)
  pub cliffs : List (CliffBlock F)
  pub unmeasured_ceiling : List Gap

-- `series[-1]`, if there is one.
abbrev pub last_of : {A : Type 0} → List A → Option A
last_of [] = none
last_of (x ∷ []) = some x
last_of (x ∷ y ∷ ys) = last_of (y ∷ ys)

-- An override can only tighten.
abbrev pub tightened : ℕ → Option ℕ → ℕ
tightened ceiling none = ceiling
tightened ceiling (some limit) = if ltb limit ceiling then limit else ceiling

abbrev pub gap_of : ℕ → String × Evidence → Gap
gap_of claimed (node_class, e) = record {
  node_class = node_class;
  claimed_prompt = claimed;
  measured_prompt = e.max_prompt_measured;
}

-- `min(models)`; the first where there is none.
abbrev pub least_model : List String → String
least_model [] = ""
least_model (m ∷ ms) = best_from (λ a b. not (text_leb b a)) m ms

abbrev pub models_of : {F : Type 0} → List (RunDir F) → List String
models_of dirs = to_set (map (λ d. or_else d.model "unspecified") dirs)

module _ (fl : Floats) where
  open fl use {Float, of_nat, div, round_to}

  -- `n_failed / n_total`, if there is a sample.
  abbrev pub failure_rate : ℕ → ℕ → Float
  failure_rate n_failed zero = of_nat 0
  failure_rate n_failed (suc n) = div (of_nat n_failed) (of_nat (suc n))

  pub cliff_block : Cliff → CliffBlock Float
  cliff_block c = record {
    cliff = record c { failures_by_status = sort_by (λ e. e.0) c.failures_by_status };
    failure_rate = round_to (failure_rate c.n_failed c.n_total) 5;
  }

  -- The envelope of one run.
  pub envelope_of : Option ℕ → RunDir Float → Result EnvelopeError (NodeEnvelope Float)
  envelope_of timeout_ceiling_ms d = do
    snapshot ← or_raise (last_of d.series) (no_snapshots d.path)
    ok (
        node_limit_from_snapshot fl snapshot
          (tightened snapshot.timeout_ceiling_ms timeout_ceiling_ms))

  abbrev pub evidence_of : RunDir Float → String × Evidence
  evidence_of d = (d.node_class, measured_extent (load_observations d.rows))

  pub pool_envelope : List (RunDir Float) → Option ℕ → Result EnvelopeError (Report Float)
  unfolding envelope_of
  pool_envelope [] timeout_ceiling_ms = err no_runs
  pool_envelope (d ∷ dirs) timeout_ceiling_ms = do
    raise_if (ltb 1 (length (models_of (d ∷ dirs))))
        (many_models (sort_by (λ m. m) (models_of (d ∷ dirs))))
    envelopes ← traverse (envelope_of timeout_ceiling_ms) (d ∷ dirs)
    envelope ← determine fl envelopes timeout_ceiling_ms
    let evidence = map evidence_of (d ∷ dirs)
    ok (record {
      envelope = envelope;
      model = least_model (models_of (d ∷ dirs));
      buckets = buckets_within envelope.max_prompt envelope.max_output;
      evidence = evidence;
      cliffs =
          map (λ d. cliff_block (cliff_from_observations (load_observations d.rows) d.node_class))
            (d ∷ dirs);
      unmeasured_ceiling =
          map (gap_of envelope.max_prompt)
            (keep (λ e. ltb e.1.max_prompt_measured envelope.max_prompt) evidence);
    })
