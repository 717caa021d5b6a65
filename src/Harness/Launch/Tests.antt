-- ===== src/Harness/Launch/Tests.antt =====
-- The launcher's theorems at small pools and at two reads of an engine.
use llm_sched_study.Base.{
  ℕ, zero, suc, ◌≡◌, refl, false, String, Option, none, some, List, [], ◌∷◌, ok, err, Distinct,
  string_eq,
}
use llm_sched_study.Harness.Node.{Node}
use llm_sched_study.Harness.Launch.{
  Spec, engine_object, missing_fields, missing_keys, missing_engine_keys, fields_of,
  is_vllm_in_pool, build_nodes, from_dict, colocated_count, tally_hosts, Attempt,
}
use llm_sched_study.Harness.Launch.Colocation.{pool_hosts, colocated_count-zero}
use llm_sched_study.Harness.Launch.Pool.{IsValidPool, build_nodes-IsValidPool}
use llm_sched_study.Harness.Launch.Refusals.{Refuses, from_dict-Refuses}

abbrev spec : String → String → Spec
spec node_id host = record {
  node_id = some node_id;
  host = some host;
  engine = some "llama.cpp";
  engine_version = some "b6000";
  model = some "m";
  quant = some "q4";
  gpu = some "t4";
  engine_config =
      some (engine_object (record { ngl = some 99; threads = some 4; parallel = some 4 }));
  prefix_caching = some false;
  max_batch = some 4;
  role = none;
}

abbrev incomplete_spec : Spec
incomplete_spec = record (spec "n1" "h1") { host = none; gpu = none }

abbrev node : String → String → Node
node node_id host = record {
  node_id = node_id;
  host = host;
  engine = "llama.cpp";
  engine_version = "b6000";
  model = "m";
  quant = "q4";
  gpu = "t4";
  engine_config = record { ngl = 99; threads = 4; parallel = 4 };
  prefix_caching = false;
  max_batch = 4;
  role = some "pool";
}

abbrev shared_nodes : List Node
shared_nodes = node "n1" "h1" ∷ node "n2" "h2" ∷ node "n3" "h1" ∷ []

abbrev apart_nodes : List Node
apart_nodes = node "n1" "h1" ∷ node "n2" "h2" ∷ []

abbrev apart_specs : List Spec
apart_specs = spec "n1" "h1" ∷ spec "n2" "h2" ∷ []

shared_two : colocated_count shared_nodes ≡ 2
unfolding colocated_count tally_hosts
shared_two = refl

apart_none : colocated_count apart_nodes ≡ 0
unfolding colocated_count tally_hosts
apart_none = refl

apart_built : build_nodes apart_specs false ≡ ok apart_nodes
unfolding build_nodes from_dict missing_keys missing_engine_keys fields_of is_vllm_in_pool
    colocated_count tally_hosts
apart_built = refl

incomplete_refused : from_dict incomplete_spec ≡ err (missing_fields "n1" ("host" ∷ "gpu" ∷ []))
unfolding from_dict missing_keys
incomplete_refused = refl

colocated_count-zero_example : Distinct (pool_hosts apart_nodes)
colocated_count-zero_example = colocated_count-zero apart_nodes apart_none

build_nodes-IsValidPool_example : IsValidPool false apart_specs apart_nodes
build_nodes-IsValidPool_example = build_nodes-IsValidPool apart_specs false apart_nodes apart_built

from_dict-Refuses_example : Refuses incomplete_spec (missing_fields "n1" ("host" ∷ "gpu" ∷ []))
from_dict-Refuses_example =
    from_dict-Refuses incomplete_spec (missing_fields "n1" ("host" ∷ "gpu" ∷ [])) incomplete_refused

-- The first attempt fails, the second answers.
abbrev second_answers : ℕ → Attempt
second_answers zero = none
second_answers (suc _) = some (0, "llama-server")

abbrev running : Option String
running = some "4711"

abbrev gone : Option String
gone = some ""
