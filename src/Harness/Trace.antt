-- ===== src/Harness/Trace.antt =====
-- harness/gen_trace.py: what a trace config must say, and the checks by which a trace file is read
-- back. The match of a bucket's name, the file's hash and its lines as JSON are arguments; drawing
-- the arrivals and the bytes of a line are not modelled.
pub mod Configs
pub mod Loads
mod Tests
use llm_sched_study.Base.{
  ℕ, Bool, true, false, not, ◌&&◌, ◌||◌, String, Option, none, some, List, [], ◌∷◌, ◌==◌, nat_eq,
  string_eq, if◌then◌else◌, ltb, length, traverse, Dict, lookup, Result, ok, err, ◌>>=◌, ◌>>◌,
  raise_if, or_raise, Floats,
}

-- The ValueErrors of the module, by what their messages name.
pub data TraceError : Type 0 where
  unknown_process unknown_model bad_bucket zero_length beyond_envelope : String → TraceError
  wrong_vocab : (actual expected : ℕ) → TraceError
  wrong_reserved : (actual expected : Bool) → TraceError
  wrong_hash : (actual expected : String) → TraceError
  no_header : TraceError
  wrong_schema wrong_count : ℕ → ℕ → TraceError

-- An entry of `MODELS`.
pub record ModelFacts : Type 0 where
  pub vocab_size : ℕ
  pub reserved_ids_excluded : Bool

abbrev facts : ℕ → Bool → ModelFacts
facts vocab_size excluded = record { vocab_size = vocab_size; reserved_ids_excluded = excluded }

-- `MODELS`
pub models : Dict String ModelFacts
models =
    ("llama3-8b", facts 128000 true)
    ∷ ("llama32-3b", facts 128000 true)
    ∷ ("llama32-1b", facts 128000 true)
    ∷ ("mistral-7b-v03", facts 32768 false)
    ∷ ("gemma4-e4b", facts 262144 false)
    ∷ ("granite4-h-tiny", facts 100256 true)
    ∷ ("lfm2-2.6b", facts 65536 false)
    ∷ []

-- The keys of a config that `_check_model` reads.
pub record ModelConfig : Type 0 where
  pub model : Option String
  pub vocab_size : Option ℕ
  pub reserved_ids_excluded : Option Bool

abbrev pub same_bool : Bool → Bool → Bool
same_bool true b = b
same_bool false b = not b

-- `if actual is not None and actual != expected: raise`
abbrev pub check_vocab : Option ℕ → ℕ → Result TraceError (Unit {0})
check_vocab none expected = ok tt
check_vocab (some actual) expected =
    raise_if (not (actual == expected)) (wrong_vocab actual expected)

abbrev pub check_reserved : Option Bool → Bool → Result TraceError (Unit {0})
check_reserved none expected = ok tt
check_reserved (some actual) expected =
    raise_if (not (same_bool actual expected)) (wrong_reserved actual expected)

-- `_check_model`
pub check_model : ModelConfig → Result TraceError (Unit {0})
unfolding models
check_model config = elim config.model [
  | none ↦ ok tt
  | some name ↦ do
    known ← or_raise (lookup name models) (unknown_model name)
    check_vocab config.vocab_size known.vocab_size
    check_reserved config.reserved_ids_excluded known.reserved_ids_excluded
]

-- The admissible envelope (F-13).
pub record Envelope : Type 0 where
  pub max_prompt : ℕ
  pub max_output : ℕ

module _ (match_bucket : String → Option (ℕ × ℕ)) where
  -- `_parse_bucket`
  abbrev pub parse_bucket : String → Result TraceError (String × (ℕ × ℕ))
  parse_bucket bucket_id = do
    lengths ← or_raise (match_bucket bucket_id) (bad_bucket bucket_id)
    ok (bucket_id, lengths)

  -- The body of the loop over the buckets.
  abbrev pub check_bucket : Envelope → String × (ℕ × ℕ) → Result TraceError (Unit {0})
  check_bucket admissible (bucket_id, (p_len, o_len)) = do
    raise_if (ltb p_len 1 || ltb o_len 1) (zero_length bucket_id)
    raise_if (ltb admissible.max_prompt p_len || ltb admissible.max_output o_len)
        (beyond_envelope bucket_id)

  pub check_lengths : Envelope → List (String × (ℕ × ℕ)) → Result TraceError (Unit {0})
  check_lengths admissible [] = ok tt
  check_lengths admissible (b ∷ bs) = check_bucket admissible b >> check_lengths admissible bs

  -- The buckets of a config, parsed and checked, before anything is drawn.
  pub check_buckets : Envelope → List String → Result TraceError (List (String × (ℕ × ℕ)))
  unfolding check_lengths
  check_buckets admissible buckets = do
    lengths ← traverse parse_bucket buckets
    check_lengths admissible lengths
    ok lengths

-- `TRACE_SCHEMA_VERSION`
abbrev pub trace_schema_version : ℕ
trace_schema_version = 1

-- A line of a trace file: the header, with the two fields that `load` checks, or a request.
pub data Line (H R : Type 0) : Type 0 where
  header_line : (trace_schema n_requests : ℕ) → H → Line H R
  request_line : R → Line H R

-- The rest of `load`, once the first line is a header.
abbrev pub check_header :
    {H R : Type 0} → ℕ → ℕ → H → List (Line H R) → Result TraceError (H × List (Line H R))
check_header schema n header body = do
  raise_if (not (schema == trace_schema_version)) (wrong_schema schema trace_schema_version)
  raise_if (not (length body == n)) (wrong_count n (length body))
  ok (header, body)

abbrev pub check_hash : String → Option String → Result TraceError (Unit {0})
check_hash actual none = ok tt
check_hash actual (some expected) = raise_if (not (actual == expected)) (wrong_hash actual expected)

abbrev pub check_lines : {H R : Type 0} → List (Line H R) → Result TraceError (H × List (Line H R))
check_lines [] = err no_header
check_lines (request_line r ∷ body) = err no_header
check_lines (header_line schema n header ∷ body) = check_header schema n header body

pub load :
    {H R : Type 0}
    → (actual : String) (expect_sha256 : Option String) → List (Line H R)
    → Result TraceError (H × List (Line H R))
load actual expect_sha256 records = check_hash actual expect_sha256 >> check_lines records

module _ (fl : Floats) where
  open fl use {Float, add, mul, div}

  -- The arrival block of a trace: what each process reads.
  pub data Arrival : Type 0 where
    poisson : (lambda_base : Float) → Arrival
    mmpp : (lambda_base burst_lambda quiet_mean_s burst_mean_s : Float) → Arrival
    process : String → Arrival

  pub mean_rate : Arrival → Result TraceError Float
  mean_rate (poisson lambda_base) = ok lambda_base
  mean_rate (mmpp lambda_base burst_lambda q b) =
      ok (div (add (mul lambda_base q) (mul burst_lambda b)) (add q b))
  mean_rate (process name) = err (unknown_process name)
