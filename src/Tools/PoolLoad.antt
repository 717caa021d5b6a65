-- ===== src/Tools/PoolLoad.antt =====
-- tools/pool_load.py: the capacity of a pool on a workload, read off the cost models, and the rate
-- that a load target asks for. The two lengths in a bucket's name are an argument.
use llm_sched_study.Base.{
  ℕ, Bool, true, false, not, ◌&&◌, String, Option, none, some, List, [], ◌∷◌, map, leb, length,
  truthy, or_else, Dict, lookup, insert, zero, suc, ◌==◌, nat_eq, string_eq, if◌then◌else◌, Result,
  ok, err, ◌>>=◌, ◌>>◌, or_raise, raise_if, traverse, best_from, Floats,
}
use llm_sched_study.Harness.Launch.{Spec, object_of}

-- A cell of a cost model (C-3).
pub record Entry (F : Type 0) : Type 0 where
  pub prompt_from : ℕ
  pub prompt_to : ℕ
  pub output_from : ℕ
  pub output_to : ℕ
  pub concurrency : ℕ
  pub tokens_per_s : F
  pub service_ms_mean : F
  pub decode_ms_mean : Option F

pub record CostModel (F : Type 0) : Type 0 where
  pub snapshot_id : String
  pub node_class : String
  pub measured_at_unix : ℕ
  pub entries : List (Entry F)

-- `length_dist`: the buckets with their weights.
abbrev pub LengthDist : Type 0 → Type 0
LengthDist F = List (String × F)

pub record Capacity (F : Type 0) : Type 0 where
  pub slots : ℕ
  pub capability_tok_s : F
  pub service_ms_c1 : F
  pub service_ms_full : F
  pub capacity_rps : F

-- What the functions raise; a ValueError but for the KeyError, the AttributeError of an engine_config
-- that is no object, the StopIteration of `next` and the ZeroDivisionError.
pub data LoadError : Type 0 where
  key_error : String → LoadError
  attribute_error : LoadError
  no_cell : (snapshot_id bucket : String) (concurrency : ℕ) → LoadError
  no_entries : LoadError
  no_first_cell : LoadError
  zero_division : LoadError
  empty_pool : LoadError
  bad_bucket : String → LoadError

-- A load target: its key and its number.
pub data Target (F : Type 0) : Type 0 where
  lambda_rps pool_utilisation slow_node_utilisation : F → Target F

module _ {F : Type 0} where
  abbrev pub covers : ℕ → ℕ → ℕ → Entry F → Bool
  covers prompt output concurrency e =
      e.concurrency == concurrency
      && (leb e.prompt_from prompt && leb prompt e.prompt_to)
      && (leb e.output_from output && leb output e.output_to)

  -- `locate`
  pub locate : List (Entry F) → ℕ → ℕ → ℕ → Option (Entry F)
  locate [] prompt output concurrency = none
  locate (e ∷ es) prompt output concurrency =
      if covers prompt output concurrency e then some e else locate es prompt output concurrency

  -- `next(e for e in entries if ...)`
  abbrev pub first_cell : ℕ → ℕ → List (Entry F) → Option (Entry F)
  first_cell prompt output [] = none
  first_cell prompt output (e ∷ es) =
      if e.prompt_from == prompt && e.output_from == output && e.concurrency == 1
      then some e
      else first_cell prompt output es

  abbrev pub least_of : (Entry F → ℕ) → List (Entry F) → ℕ
  least_of field [] = 0
  least_of field (e ∷ es) = best_from (λ a b. not (leb b a)) (field e) (map field es)

module _ (fl : Floats) where
  open fl use {Float, of_nat, add}

  -- `sum(xs)`, from `acc`.
  abbrev pub sum_from : Float → List Float → Float
  sum_from acc [] = acc
  sum_from acc (x ∷ xs) = sum_from (add acc x) xs

  abbrev pub total : List Float → Float
  total xs = sum_from (of_nat 0) xs

module _ (fl : Floats) (split_bucket : String → Option (ℕ × ℕ)) where
  open fl use {Float, of_nat, add, mul, div, lt, feq}

  -- `a / b`
  abbrev pub divide : Float → Float → Result LoadError Float
  divide a b = do raise_if (feq b (of_nat 0)) zero_division; ok (div a b)

  abbrev pub mix_entry : Float → String × Float → Result LoadError (String × ℕ × ℕ × Float)
  mix_entry whole (bucket, weight) = do
    (p, o) ← or_raise (split_bucket bucket) (bad_bucket bucket)
    w ← divide weight whole
    ok (bucket, p, o, w)

  pub bucket_mix : LengthDist Float → Result LoadError (List (String × ℕ × ℕ × Float))
  bucket_mix length_dist = traverse (mix_entry (total fl (map (λ b. b.1) length_dist))) length_dist

  -- `a and b` on numbers that may be None: both are there and neither is zero.
  abbrev pub both_set : Option Float → Float → Option Float
  both_set none b = none
  both_set (some a) b = if feq a (of_nat 0) then none else if feq b (of_nat 0) then none else some a

  -- `capability`, after the cell is found.
  abbrev pub capability_of : Entry Float → Float
  capability_of cell = elim (both_set cell.decode_ms_mean cell.service_ms_mean) [
    | none ↦ cell.tokens_per_s
    | some decode ↦ div (mul cell.tokens_per_s decode) cell.service_ms_mean
  ]

  pub capability : CostModel Float → Result LoadError Float
  capability snap = do
    raise_if (not (truthy snap.entries)) no_entries
    cell ←
        or_raise
          (first_cell (least_of (λ e. e.prompt_from) snap.entries)
            (least_of (λ e. e.output_from) snap.entries) snap.entries)
          no_first_cell
    ok (capability_of cell)

  -- The body of the loop of `mean_service_ms`.
  abbrev pub weighted_cell : CostModel Float → ℕ → String × ℕ × ℕ × Float → Result LoadError Float
  weighted_cell snap concurrency (bucket, p, o, w) = do
    cell ←
        or_raise (locate snap.entries p o concurrency) (no_cell snap.snapshot_id bucket concurrency)
    ok (mul w cell.service_ms_mean)

  pub mean_service_ms : CostModel Float → LengthDist Float → ℕ → Result LoadError Float
  unfolding bucket_mix locate
  mean_service_ms snap length_dist concurrency = do
    mix ← bucket_mix length_dist
    terms ← traverse (weighted_cell snap concurrency) mix
    ok (total fl terms)

  -- `node.get("max_batch") or node["engine_config"].get("parallel", 1)`
  abbrev pub slots_of : Spec → Result LoadError ℕ
  slots_of node = elim (or_else node.max_batch 0) [
    | zero ↦ do
      value ← or_raise node.engine_config (key_error "engine_config")
      engine_config ← or_raise (object_of value) attribute_error
      ok (or_else engine_config.parallel 1)
    | suc n ↦ ok (suc n)
  ]

  -- `capacity_rps`
  abbrev pub rate_of : ℕ → Float → Result LoadError Float
  rate_of slots service_ms = do
    seconds ← ok (div service_ms (of_nat 1000))
    divide (of_nat slots) seconds

  -- The entry of a pool node.
  pub node_capacity :
      Dict String String
      → LengthDist Float
      → Dict String (CostModel Float)
      → String
      → Spec
      → Result LoadError (Capacity Float)
  unfolding mean_service_ms capability
  node_capacity snapshots length_dist index node_id node = do
    snapshot_id ← or_raise (lookup node_id snapshots) (key_error node_id)
    snap ← or_raise (lookup snapshot_id index) (key_error snapshot_id)
    slots ← slots_of node
    s1 ← mean_service_ms snap length_dist 1
    sfull ← mean_service_ms snap length_dist slots
    capability_tok_s ← capability snap
    capacity_rps ← rate_of slots sfull
    ok (record {
      slots = slots;
      capability_tok_s = capability_tok_s;
      service_ms_c1 = s1;
      service_ms_full = sfull;
      capacity_rps = capacity_rps;
    })

  -- `node.get("role", "pool") == "pool"`
  abbrev pub is_pool_spec : Spec → Bool
  is_pool_spec node = or_else node.role "pool" == "pool"

  -- `pool_capacity`, onto the entries that are there.
  pub capacities_onto :
      Dict String String
      → LengthDist Float
      → Dict String (CostModel Float)
      → Dict String (Capacity Float)
      → List Spec
      → Result LoadError (Dict String (Capacity Float))
  unfolding node_capacity
  capacities_onto snapshots length_dist index out [] = ok out
  capacities_onto snapshots length_dist index out (node ∷ nodes) = elim (is_pool_spec node) [
    | false ↦ capacities_onto snapshots length_dist index out nodes
    | true ↦ do
      node_id ← or_raise node.node_id (key_error "node_id")
      capacity ← node_capacity snapshots length_dist index node_id node
      capacities_onto snapshots length_dist index (insert node_id capacity out) nodes
  ]

  pub pool_capacity :
      List Spec
      → Dict String String
      → LengthDist Float
      → Dict String (CostModel Float)
      → Result LoadError (Dict String (Capacity Float))
  unfolding capacities_onto
  pool_capacity nodes snapshots length_dist index =
      capacities_onto snapshots length_dist index [] nodes

module _ (fl : Floats) where
  open fl use {Float, of_nat, add, mul, lt}

  abbrev pub caps_of : Dict String (Capacity Float) → List Float
  caps_of capacity = map (λ c. c.1.capacity_rps) capacity

  abbrev pub lowest_cap : List Float → Result LoadError Float
  lowest_cap [] = err empty_pool
  lowest_cap (c ∷ cs) = ok (best_from lt c cs)

  -- `rate_for`, without its note.
  pub rate_for : Target Float → Dict String (Capacity Float) → Result LoadError Float
  rate_for (lambda_rps rate) capacity = ok rate
  rate_for (pool_utilisation u) capacity = ok (mul u (total fl (caps_of capacity)))
  rate_for (slow_node_utilisation u) capacity = do
    lowest ← lowest_cap (caps_of capacity)
    ok (mul (mul u lowest) (of_nat (length (caps_of capacity))))
