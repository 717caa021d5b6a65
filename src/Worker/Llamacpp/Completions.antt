-- ===== src/Worker/Llamacpp/Completions.antt =====
-- The result of one completion on every answer of the engine.
use llm_sched_study.Base.{
  ℕ, ◌≡◌, ◌≢◌, ◌↔◌, true, ◌||◌, String, Option, none, some, or_else, is_some, Floats,
}
use llm_sched_study.Worker.Adapter.{ServiceResult}
use llm_sched_study.Worker.Llamacpp.{
  Answer, raised_timeout, raised_error, responded, not_json_body, malformed, object, is_in,
}

module _ (fl : Floats) where
  open fl use {Float}

  -- The engine answered 200 with JSON and as many tokens as were asked for.
  abbrev pub IsForced : ℕ → Answer Float → Type 0
  IsForced output_len (raised_timeout error) = ⊥
  IsForced output_len (raised_error error) = ⊥
  IsForced output_len (responded code text not_json_body) = ⊥
  IsForced output_len (responded code text malformed) = ⊥
  IsForced output_len (responded code text (object p)) =
      (code ≡ 200) × (or_else p.tokens_predicted 0 ≡ output_len)

  abbrev pub IsTimeout : Answer Float → Type 0
  IsTimeout (raised_timeout error) = Unit
  IsTimeout _ = ⊥

  -- The engine answered with another code and a text that speaks of memory.
  abbrev pub IsOom : (lower : String → String) → Answer Float → Type 0
  IsOom lower (raised_timeout error) = ⊥
  IsOom lower (raised_error error) = ⊥
  IsOom lower (responded code text body) =
      (code ≢ 200)
      × ((is_in "out of memory" (lower text)
            || is_in "oom" (lower text)
            || is_in "kv cache" (lower text))
          ≡ true)

  -- What a result says of the answer it was made from.
  abbrev pub Says :
      (lower : String → String) (output_len : ℕ)
      → Answer Float
      → (service_ns : ℕ) → ServiceResult
      → Type 0
  Says lower output_len answer service_ns r =
      ((r.status ≡ "ok") ↔ IsForced output_len answer)
      × ((r.status ≡ "timeout") ↔ IsTimeout answer)
      × ((r.status ≡ "oom") ↔ IsOom lower answer)
      × (r.status ≡ "ok" → r.output_tokens ≡ output_len)
      × (is_some r.prefill_ns ≡ is_some r.decode_ns)
      × (r.service_ns ≡ service_ns)

  -- The answer that `complete` raises on: 200 with JSON that `parse_timings` cannot read.
  pub data Raises : Answer Float → Type 0 where
    unreadable : {text : String} → Raises (responded 200 text malformed)

  -- What `complete` comes to: an exception on such an answer only, and else a result that says what
  -- the answer was.
  abbrev pub Completes :
      (lower : String → String) (output_len : ℕ)
      → Answer Float
      → (service_ns : ℕ) → Option ServiceResult
      → Type 0
  Completes lower output_len answer service_ns outcome =
      ((outcome ≡ none) ↔ Raises answer)
      × ((r : ServiceResult) → outcome ≡ some r → Says lower output_len answer service_ns r)
