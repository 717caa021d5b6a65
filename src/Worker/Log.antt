-- ===== src/Worker/Log.antt =====
-- worker/log.py: the C-4 worker record, and the log file of one run.
use llm_sched_study.Base.{ℕ, ◌+◌, String, Option, none, some, or_else, Floats}
use llm_sched_study.Worker.Adapter.{ServiceResult, LiveState}

-- `prefill_ns` and `decode_ns` are none where the key is left out.
pub record WorkerRecord (F : Type 0) : Type 0 where
  pub run_id : String
  pub req_id : String
  pub node_id : String
  pub engine : String
  pub queue_wait_ns : ℕ
  pub service_ns : ℕ
  pub prompt_tokens : ℕ
  pub output_tokens : ℕ
  pub batch_size_at_admission : ℕ
  pub inflight_at_admission : ℕ
  pub status : String
  pub prefill_ns : Option ℕ
  pub decode_ns : Option ℕ
  pub kv_occupancy_at_admission : F

-- The keyword arguments of `build_record` that default to None.
pub record Given (F : Type 0) : Type 0 where
  pub result : Option ServiceResult
  pub state_at_admission : Option (LiveState F)
  pub service_ns : Option ℕ
  pub prompt_tokens : Option ℕ
  pub output_tokens : Option ℕ
  pub batch_size_at_admission : Option ℕ
  pub inflight_at_admission : Option ℕ
  pub status : Option String
  pub prefill_ns : Option ℕ
  pub decode_ns : Option ℕ
  pub kv_occupancy_at_admission : Option F

-- `pick(explicit, from_result, default)`
abbrev pub pick : {A : Type 0} → Option A → Option ServiceResult → (ServiceResult → A) → A → A
pick (some explicit) result from_result default = explicit
pick none (some r) from_result default = from_result r
pick none none from_result default = default

-- `pick(explicit, from_result)`, where what the result holds may itself be None.
abbrev pub pick_opt :
    {A : Type 0} → Option A → Option ServiceResult → (ServiceResult → Option A) → Option A
pick_opt (some explicit) result from_result = some explicit
pick_opt none (some r) from_result = from_result r
pick_opt none none from_result = none

abbrev pub first_some : {A : Type 0} → Option A → Option A → Option A
first_some (some a) other = some a
first_some none other = other

abbrev pub field_of : {S A : Type 0} → Option S → (S → A) → Option A
field_of none f = none
field_of (some s) f = some (f s)

module _ (fl : Floats) where
  open fl use {Float, minus_one}

  unfoldable pub build_record :
      (run_id req_id node_id engine : String) (queue_wait_ns : ℕ) → Given Float → WorkerRecord Float
  build_record run_id req_id node_id engine queue_wait_ns g =
      let inflight =
        or_else
          (first_some g.inflight_at_admission (field_of g.state_at_admission (λ s. s.inflight)))
          0 in
      record {
        run_id = run_id;
        req_id = req_id;
        node_id = node_id;
        engine = engine;
        queue_wait_ns = queue_wait_ns;
        service_ns = pick g.service_ns g.result (λ r. r.service_ns) 0;
        prompt_tokens = pick g.prompt_tokens g.result (λ r. r.prompt_tokens) 0;
        output_tokens = pick g.output_tokens g.result (λ r. r.output_tokens) 0;
        batch_size_at_admission = or_else g.batch_size_at_admission (inflight + 1);
        inflight_at_admission = inflight;
        status = pick g.status g.result (λ r. r.status) "ok";
        prefill_ns = pick_opt g.prefill_ns g.result (λ r. r.prefill_ns);
        decode_ns = pick_opt g.decode_ns g.result (λ r. r.decode_ns);
        kv_occupancy_at_admission =
            or_else
              (first_some g.kv_occupancy_at_admission
                (field_of g.state_at_admission (λ s. s.kv_frac)))
              minus_one;
      }

-- `WorkerLog`: the handle on the file of one run. The lines of the files are the state of the
-- service that writes them.
pub record WorkerLog : Type 0 where
  pub node_id : String
  pub run_id : String
  pub n_written : ℕ

-- Opening appends to what the file already holds.
unfoldable pub open_log : String → String → WorkerLog
open_log node_id run_id = record { node_id = node_id; run_id = run_id; n_written = 0 }

module _ (fl : Floats) where
  open fl use {Float}

  abbrev pub from_result : ServiceResult → LiveState Float → Given Float
  from_result result state = record {
    result = some result;
    state_at_admission = some state;
    service_ns = none;
    prompt_tokens = none;
    output_tokens = none;
    batch_size_at_admission = none;
    inflight_at_admission = none;
    status = none;
    prefill_ns = none;
    decode_ns = none;
    kv_occupancy_at_admission = none;
  }

  -- `WorkerLog.log`, which builds the record and counts the line that `write` appends.
  unfoldable pub log_record :
      WorkerLog
      → (req_id : String) → ServiceResult
      → (queue_wait_ns : ℕ) → LiveState Float
      → WorkerLog × WorkerRecord Float
  unfolding build_record
  log_record log req_id result queue_wait_ns state = (
    record log { n_written = log.n_written + 1 },
    build_record fl log.run_id req_id log.node_id "llamacpp" queue_wait_ns
        (from_result result state),
  )
