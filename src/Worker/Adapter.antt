-- ===== src/Worker/Adapter.antt =====
-- worker/adapter.py: what an engine answers, for a request and about itself.
use llm_sched_study.Base.{
  ℕ, ◌+◌, ◌&&◌, String, Option, none, some, is_some, ltb, if◌then◌else◌, ℤ, sub_ℕ, Floats,
}

-- `ENGINE_STATES`: the constructor of `LiveState` refuses any other text.
pub data EngineState : Type 0 where
  ready warming degraded : EngineState

-- `slot_id` is none where the source has -1.
pub record ServiceResult : Type 0 where
  pub status : String
  pub service_ns : ℕ
  pub prompt_tokens : ℕ
  pub output_tokens : ℕ
  pub prefill_ns : Option ℕ
  pub decode_ns : Option ℕ
  pub cached_tokens : ℕ
  pub slot_id : Option ℕ
  pub error : String

unfoldable pub f18_status : ServiceResult → String
f18_status r = if is_some r.prefill_ns && is_some r.decode_ns then "full" else "partial"

-- `service_ns - (prefill_ns + decode_ns)`, which may be negative.
unfoldable pub residual_ns : ServiceResult → Option ℤ
residual_ns r = elim r.prefill_ns [
  | none ↦ none
  | some prefill ↦ elim r.decode_ns [
    | none ↦ none
    | some decode ↦ some (sub_ℕ r.service_ns (prefill + decode))
  ]
]

module _ (fl : Floats) where
  open fl use {Float, of_nat, div}

  unfoldable pub decode_tokens_per_s : ServiceResult → Option Float
  decode_tokens_per_s r = elim r.decode_ns [
    | none ↦ none
    | some decode ↦
        if ltb 0 decode
        then some (div (of_nat r.output_tokens) (div (of_nat decode) (of_nat 1_000_000_000)))
        else none
  ]

pub record LiveState (F : Type 0) : Type 0 where
  pub inflight : ℕ
  pub slots_total : ℕ
  pub kv_frac : F
  pub queue_depth : ℕ
  pub recent_tok_s : F
  pub state : EngineState
