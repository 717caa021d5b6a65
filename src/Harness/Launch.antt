-- ===== src/Harness/Launch.antt =====
-- harness/launch.py: validating a pool description, and reading the engines of its nodes.
-- An exception is a value that carries what its message names.
pub mod Colocation
pub mod Pool
pub mod Refusals
pub mod Engines
mod Tests
use llm_sched_study.Base.{
  ℕ, zero, suc, ◌+◌, Bool, true, false, not, ◌&&◌, ◌||◌, String, Option, none, some, List, [], ◌∷◌,
  map, Result, ok, err, ◌>>=◌, ◌>>◌, raise_if, or_raise, traverse, ◌==◌, nat_eq, string_eq, or_else,
  is_some, ltb, if◌then◌else◌, length, truthy, keep, count, to_set, Dict, lookup, insert, sum_items,
}
use llm_sched_study.Harness.Node.{EngineConfig, Node, is_pool}

pub data LaunchError : Type 0 where
  -- Python's KeyError
  key_error : String → LaunchError
  missing_fields : String → List String → LaunchError
  missing_engine_config : String → List String → LaunchError
  vllm_in_pool : String → LaunchError
  empty_pool : LaunchError
  duplicate_node_ids : List String → LaunchError
  not_homogeneous : List String → List String → List String → LaunchError
  colocated : ℕ → LaunchError
  -- Python's TypeError: `in` on a value that has no elements
  type_error : LaunchError

-- The JSON object of an engine_config; `none` is a key that is not there.
pub record EngineSpec : Type 0 where
  pub ngl : Option ℕ
  pub threads : Option ℕ
  pub parallel : Option ℕ

-- What stands under `engine_config`: an object; or null, a number or a Boolean, on which `in` raises.
-- A list or a text is to the check of the keys what an object without keys is, unless it holds all
-- three names, which is not modelled.
pub data EngineValue : Type 0 where
  engine_object : EngineSpec → EngineValue
  no_container : EngineValue

abbrev pub object_of : EngineValue → Option EngineSpec
object_of (engine_object ec) = some ec
object_of no_container = none

-- The JSON object that describes a node.
pub record Spec : Type 0 where
  pub node_id : Option String
  pub host : Option String
  pub engine : Option String
  pub engine_version : Option String
  pub model : Option String
  pub quant : Option String
  pub gpu : Option String
  pub engine_config : Option EngineValue
  pub prefix_caching : Option Bool
  pub max_batch : Option ℕ
  pub role : Option String

-- `[k for k in (...) if k not in d]`
abbrev pub absent : List (String × Bool) → List String
absent keys = map (λ k. k.0) (keep (λ k. not k.1) keys)

abbrev pub spec_keys : Spec → List (String × Bool)
spec_keys d =
    ("node_id", is_some d.node_id)
    ∷ ("host", is_some d.host)
    ∷ ("engine", is_some d.engine)
    ∷ ("engine_version", is_some d.engine_version)
    ∷ ("model", is_some d.model)
    ∷ ("quant", is_some d.quant)
    ∷ ("gpu", is_some d.gpu)
    ∷ ("engine_config", is_some d.engine_config)
    ∷ ("prefix_caching", is_some d.prefix_caching)
    ∷ ("max_batch", is_some d.max_batch)
    ∷ []

unfoldable pub missing_keys : Spec → List String
missing_keys d = absent (spec_keys d)

-- `_REQUIRED_ENGINE_CONFIG`
abbrev pub engine_keys : EngineSpec → List (String × Bool)
engine_keys ec =
    ("ngl", is_some ec.ngl)
    ∷ ("threads", is_some ec.threads)
    ∷ ("parallel", is_some ec.parallel)
    ∷ []

unfoldable pub missing_engine_keys : EngineSpec → List String
missing_engine_keys ec = absent (engine_keys ec)

-- The fields of a checked description, each by its own key: `{"role": "pool", **d}`.
unfoldable pub fields_of : Spec → EngineSpec → Result LaunchError Node
fields_of d ec = do
  node_id ← or_raise d.node_id (key_error "node_id")
  host ← or_raise d.host (key_error "host")
  engine ← or_raise d.engine (key_error "engine")
  engine_version ← or_raise d.engine_version (key_error "engine_version")
  model ← or_raise d.model (key_error "model")
  quant ← or_raise d.quant (key_error "quant")
  gpu ← or_raise d.gpu (key_error "gpu")
  prefix_caching ← or_raise d.prefix_caching (key_error "prefix_caching")
  max_batch ← or_raise d.max_batch (key_error "max_batch")
  ngl ← or_raise ec.ngl (key_error "ngl")
  threads ← or_raise ec.threads (key_error "threads")
  parallel ← or_raise ec.parallel (key_error "parallel")
  ok (record {
    node_id = node_id;
    host = host;
    engine = engine;
    engine_version = engine_version;
    model = model;
    quant = quant;
    gpu = gpu;
    engine_config = record { ngl = ngl; threads = threads; parallel = parallel };
    prefix_caching = prefix_caching;
    max_batch = max_batch;
    role = some (or_else d.role "pool");
  })

-- `d["engine"] == "vllm" and d.get("role") != "engine_gap_probe"`
unfoldable pub is_vllm_in_pool : Spec → Bool
is_vllm_in_pool d = (or_else d.engine "" == "vllm") && not (or_else d.role "" == "engine_gap_probe")

-- `NodeSpec.from_dict`
unfoldable pub from_dict : Spec → Result LaunchError Node
from_dict d = do
  raise_if (truthy (missing_keys d)) (missing_fields (or_else d.node_id "?") (missing_keys d))
  value ← or_raise d.engine_config (key_error "engine_config")
  ec ← or_raise (object_of value) type_error
  node_id ← or_raise d.node_id (key_error "node_id")
  raise_if (truthy (missing_engine_keys ec))
      (missing_engine_config node_id (missing_engine_keys ec))
  raise_if (is_vllm_in_pool d) (vllm_in_pool node_id)
  fields_of d ec

-- The body of the loop of `colocated_count`: `hosts[n["host"]] = hosts.get(n["host"], 0) + 1`.
abbrev pub tally_host : Dict String ℕ → Node → Dict String ℕ
tally_host hosts n =
    if is_pool n then insert n.host (or_else (lookup n.host hosts) 0 + 1) hosts else hosts

unfoldable pub tally_hosts : Dict String ℕ → List Node → Dict String ℕ
tally_hosts hosts [] = hosts
tally_hosts hosts (n ∷ ns) = tally_hosts (tally_host hosts n) ns

unfoldable pub colocated_count : List Node → ℕ
colocated_count nodes =
    sum_items (λ host count. if ltb 1 count then count else 0) (tally_hosts [] nodes)

abbrev pub node_ids : List Node → List String
node_ids nodes = map (λ n. n.node_id) nodes

-- `{n["node_id"] for n in nodes if ids.count(n["node_id"]) > 1}`, as a list with repeats.
abbrev pub duplicates : List Node → List String
duplicates nodes = keep (λ i. ltb 1 (count i (node_ids nodes))) (node_ids nodes)

abbrev pub pool_of : List Node → List Node
pool_of nodes = keep is_pool nodes

abbrev pub distinct_of : (Node → String) → List Node → List String
distinct_of field nodes = to_set (map field (pool_of nodes))

-- `len(engines) > 1 or len(models) > 1 or len(quants) > 1`
abbrev pub is_mixed : List Node → Bool
is_mixed nodes =
    ltb 1 (length (distinct_of (λ n. n.engine) nodes))
    || ltb 1 (length (distinct_of (λ n. n.model) nodes))
    || ltb 1 (length (distinct_of (λ n. n.quant) nodes))

abbrev pub mixed : List Node → LaunchError
mixed nodes =
    not_homogeneous (distinct_of (λ n. n.engine) nodes) (distinct_of (λ n. n.model) nodes)
      (distinct_of (λ n. n.quant) nodes)

unfoldable pub build_nodes : List Spec → Bool → Result LaunchError (List Node)
build_nodes specs allow_colocation = do
  nodes ← traverse from_dict specs
  raise_if (not (truthy nodes)) empty_pool
  raise_if (truthy (duplicates nodes)) (duplicate_node_ids (duplicates nodes))
  raise_if (is_mixed nodes) (mixed nodes)
  raise_if (ltb 0 (colocated_count nodes) && not allow_colocation)
      (colocated (colocated_count nodes))
  ok nodes

pub data Verdict : Type 0 where
  same changed died unknown : Verdict

-- `not text`: None or empty.
abbrev pub is_blank : Option String → Bool
is_blank none = true
is_blank (some s) = s == ""

unfoldable pub engine_verdict : Option String → Option String → Verdict
engine_verdict before none = unknown
engine_verdict before (some after) =
    if is_blank before
    then unknown
    else if or_else before "" == after
    then same
    else if after == ""
    then died
    else changed

-- One run of a command: the exit code and the output, or `none` if the call itself raised.
abbrev pub Attempt : Type 0
Attempt = Option (ℕ × String)

-- `result is not None and result.returncode in (0, 1)`
abbrev pub answer_of : Attempt → Option String
answer_of none = none
answer_of (some (code, out)) = if code == 0 || code == 1 then some out else none

-- The `for attempt in range(attempts)` loop of `on_host`; `run i` is what attempt `i` gives.
pub on_host_from : (run : ℕ → Attempt) (attempt left : ℕ) → Option String
on_host_from run attempt zero = none
on_host_from run attempt (suc left) =
    let again = on_host_from run (attempt + 1) left in
    elim (answer_of (run attempt)) [ some out ↦ some out | none ↦ again ]

pub on_host : (run : ℕ → Attempt) (attempts : ℕ) → Option String
unfolding on_host_from
on_host run attempts = on_host_from run 0 attempts
