-- ===== src/Harness/Trace/Tests.antt =====
-- Trace configs and trace files at small inputs.
use llm_sched_study.Base.{
  ℕ, ◌≡◌, ◌↔◌, String, Option, none, some, List, [], ◌∷◌, ok, All, lookup, string_eq,
}
use llm_sched_study.Harness.Trace.{
  ModelConfig, Envelope, check_buckets, Line, header_line, request_line, trace_schema_version, load,
}
use llm_sched_study.Harness.Trace.Configs.{Parsed, Admissible, check_buckets-eq-ok}
use llm_sched_study.Harness.Trace.Loads.{IsExpected, load-eq-ok}

abbrev two_lines : List (Line ℕ String)
two_lines = header_line 1 2 7 ∷ request_line "r0" ∷ request_line "r1" ∷ []

load-eq-ok_example :
    (load "ab" (some "ab") two_lines ≡ ok (7, request_line "r0" ∷ request_line "r1" ∷ [])) ↔ (
      IsExpected "ab" (some "ab")
      × (two_lines
          ≡ header_line trace_schema_version 2 7 ∷ request_line "r0" ∷ request_line "r1" ∷ []))
load-eq-ok_example =
    load-eq-ok "ab" (some "ab") two_lines 7 (request_line "r0" ∷ request_line "r1" ∷ [])

abbrev match_small : String → Option (ℕ × ℕ)
match_small b = lookup b (("p128_o64", (128, 64)) ∷ ("p512_o64", (512, 64)) ∷ [])

abbrev envelope : Envelope
envelope = record { max_prompt = 512; max_output = 256 }

abbrev bucket_names : List String
bucket_names = "p128_o64" ∷ "p512_o64" ∷ []

abbrev bucket_lengths : List (String × (ℕ × ℕ))
bucket_lengths = ("p128_o64", (128, 64)) ∷ ("p512_o64", (512, 64)) ∷ []

check_buckets-eq-ok_example :
    (check_buckets match_small envelope bucket_names ≡ ok bucket_lengths) ↔ (
      Parsed match_small bucket_names bucket_lengths
      × All (Admissible match_small envelope) bucket_lengths)
check_buckets-eq-ok_example = check_buckets-eq-ok match_small envelope bucket_names bucket_lengths

abbrev mistral : ModelConfig
mistral = record {
  model = some "mistral-7b-v03";
  vocab_size = some 128000;
  reserved_ids_excluded = none;
}
