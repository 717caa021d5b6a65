-- ===== src/Worker/Llamacpp.antt =====
-- worker/llamacpp.py: what the adapter makes of the engine's answers. What the HTTP client returns,
-- the readings of the clock, the lower case of a text and the wording of an error are arguments.
pub mod Completions
pub mod Slots
mod Tests
use Prim.Native.String.{◌∷◌ as ◌∷ᵀ◌, [] as []ᵀ}
use text.Mathlib.Text.{starts_with}
use llm_sched_study.Base.{
  ℕ, ◌+◌, ◌-◌, Bool, true, false, not, ◌&&◌, ◌||◌, String, Option, none, some, List, [], ◌∷◌, ◌==◌,
  string_eq, nat_eq, or_else, if◌then◌else◌, length, Floats,
}
use llm_sched_study.Worker.Adapter.{EngineState, ready, degraded, ServiceResult, LiveState}

-- `needle in text`
pub is_in : String → String → Bool
is_in needle []ᵀ = starts_with []ᵀ needle
is_in needle (c ∷ᵀ text) = starts_with (c ∷ᵀ text) needle || is_in needle text

-- The JSON object of a `/completion` answer; `none` is a key that is not there. `has_timings` is
-- false where the payload is itself the block of timings.
pub record Timings (F : Type 0) : Type 0 where
  pub prompt_ms : Option F
  pub predicted_ms : Option F
  pub cache_n : Option ℕ

pub record Payload (F : Type 0) : Type 0 where
  pub timings : Timings F
  pub tokens_evaluated : Option ℕ
  pub tokens_predicted : Option ℕ
  pub id_slot : Option ℕ

-- What a text is as JSON: none at all; JSON that `parse_timings` raises on, since it is not an object
-- or a key that is read holds no number; or an object that it reads. A null `timings` is one
-- without keys.
pub data Body (F : Type 0) : Type 0 where
  not_json_body malformed : Body F
  object : Payload F → Body F

-- What posting a request gives: an exception, or an answer with its code, its text and its body.
pub data Answer (F : Type 0) : Type 0 where
  raised_timeout raised_error : (error : String) → Answer F
  responded : (code : ℕ) (text : String) → Body F → Answer F

-- The errors that the code puts into words.
pub data Complaint : Type 0 where
  http_code : ℕ → String → Complaint
  not_json : String → Complaint
  wrong_length : (asked produced : ℕ) → Complaint

-- `_classify_error`
pub classify_error : (lower : String → String) → String → String
unfolding is_in
classify_error lower text =
    let t = lower text in
    if is_in "out of memory" t || is_in "oom" t || is_in "kv cache" t then "oom" else "engine_error"

abbrev pub failure : String → (service_ns prompt_len : ℕ) → String → ServiceResult
failure status service_ns prompt_len error = record {
  status = status;
  service_ns = service_ns;
  prompt_tokens = prompt_len;
  output_tokens = 0;
  prefill_ns = none;
  decode_ns = none;
  cached_tokens = 0;
  slot_id = none;
  error = error;
}

module _ (fl : Floats) where
  open fl use {Float, of_nat, minus_one, mul, div, round_nat}

  -- Both halves of the split in nanoseconds, or neither.
  abbrev pub split : Option Float → Option Float → Option ℕ × Option ℕ
  split (some prompt_ms) (some predicted_ms) = (
    some (round_nat (mul prompt_ms (of_nat 1_000_000))),
    some (round_nat (mul predicted_ms (of_nat 1_000_000))),
  )
  split _ _ = (none, none)

  pub parse_timings : Payload Float → (service_ns prompt_len : ℕ) → ServiceResult
  parse_timings payload service_ns prompt_len =
      let halves = split payload.timings.prompt_ms payload.timings.predicted_ms in
      record {
        status = "ok";
        service_ns = service_ns;
        prompt_tokens = or_else payload.tokens_evaluated prompt_len;
        output_tokens = or_else payload.tokens_predicted 0;
        prefill_ns = halves.0;
        decode_ns = halves.1;
        cached_tokens = or_else payload.timings.cache_n 0;
        slot_id = payload.id_slot;
        error = "";
      }

  -- A completion of the wrong length did not run as the trace says.
  abbrev pub check_length : (say : Complaint → String) → ℕ → ServiceResult → ServiceResult
  check_length say output_len r =
      if (r.status == "ok") && not (r.output_tokens == output_len)
      then record r {
        status = "engine_error";
        error = say (wrong_length output_len r.output_tokens);
      }
      else r

  -- `complete`, with `now` the clock once the call is over; `none` is an exception of `parse_timings`,
  -- which nothing catches.
  pub complete :
      (lower : String → String) (say : Complaint → String)
      → (prompt_len output_len started now : ℕ) → Answer Float
      → Option ServiceResult
  unfolding classify_error parse_timings
  complete lower say prompt_len output_len started now (raised_timeout error) =
      some (failure "timeout" (now - started) prompt_len error)
  complete lower say prompt_len output_len started now (raised_error error) =
      some (failure "engine_error" (now - started) prompt_len error)
  complete lower say prompt_len output_len started now (responded code text body) =
      if not (code == 200)
      then some (
          failure (classify_error lower text) (now - started) prompt_len
            (say (http_code code text)))
      else (elim body [
        | not_json_body ↦
            some (failure "engine_error" (now - started) prompt_len (say (not_json text)))
        | malformed ↦ none
        | object p ↦ some (check_length say output_len (parse_timings p (now - started) prompt_len))
      ])

  -- `LiveState.unavailable()`
  abbrev pub unavailable : LiveState Float
  unavailable = record {
    inflight = 0;
    slots_total = 0;
    kv_frac = minus_one;
    queue_depth = 0;
    recent_tok_s = of_nat 0;
    state = degraded;
  }

-- An element of the list of `/slots`: an object, with its `is_processing` where it has one, or
-- something else.
pub data SlotEntry : Type 0 where
  slot : (is_processing : Option Bool) → SlotEntry
  no_object : SlotEntry

-- `sum(1 for s in slots if s.get("is_processing"))`; `none` is the AttributeError of an element that
-- is no object.
pub busy_of : List SlotEntry → Option ℕ
busy_of [] = some 0
busy_of (no_object ∷ rest) = none
busy_of (slot is_processing ∷ rest) = elim (busy_of rest) [
  | none ↦ none
  | some busy ↦ some (if or_else is_processing false then busy + 1 else busy)
]

-- What `/slots` gives: no answer, an answer with another code, one that is not JSON, or JSON that
-- is not a list or is one.
pub data SlotsAnswer : Type 0 where
  unreachable : SlotsAnswer
  refused : (code : ℕ) → SlotsAnswer
  no_json no_list : SlotsAnswer
  slots : List SlotEntry → SlotsAnswer

module _ (fl : Floats) where
  open fl use {Float, of_nat, minus_one, div}

  -- `kv_frac`, given how many of the slots are busy.
  abbrev pub kv_frac : List SlotEntry → (busy : ℕ) → Float
  kv_frac [] busy = minus_one
  kv_frac (s ∷ rest) busy = div (of_nat busy) (of_nat (length (s ∷ rest)))

  -- `live_state`; `none` is an exception, which nothing catches.
  pub live_state : SlotsAnswer → Option (LiveState Float)
  unfolding busy_of
  live_state unreachable = some (unavailable fl)
  live_state (refused code) = some (unavailable fl)
  live_state no_json = none
  live_state no_list = some (unavailable fl)
  live_state (slots []) = some (unavailable fl)
  live_state (slots (s ∷ rest)) = elim (busy_of (s ∷ rest)) [
    | none ↦ none
    | some busy ↦ some (record {
      inflight = busy;
      slots_total = length (s ∷ rest);
      kv_frac = kv_frac (s ∷ rest) busy;
      queue_depth = 0;
      recent_tok_s = of_nat 0;
      state = ready;
    })
  ]
