-- ===== src/Tools/HwRuns/Checks.antt =====
-- tools/hw_runs.py, `check_campaign`: what is refused before a run is made.
pub mod Seeds
pub mod Modes
pub mod Pool
pub mod Admits
mod Tests
use package.text.Mathlib.Text.{starts_with, find?}
use llm_sched_study.Base.{
  ℕ, zero, suc, ◌+◌, ◌^◌, Bool, true, false, not, ◌&&◌, ◌||◌, String, Option, none, some, List, [],
  ◌∷◌, map, keep, length, truthy, any, elem, or_else, is_some, to_set, Dict, lookup, ltb, leb, ◌==◌,
  nat_eq, string_eq, if◌then◌else◌, sort_by, str, ◌<>◌, best_from, ℤ, pos, negsuc, Eq, Result, ok,
  err, ◌>>=◌, ◌>>◌, raise_if, or_raise, arith, ◌≡◌, ◌↔◌,
}
use llm_sched_study.Harness.Launch.{Spec, EngineValue, object_of, LaunchError, build_nodes}
use llm_sched_study.Harness.Node.{Node}
use llm_sched_study.Tools.PoolLoad.{CostModel}
use llm_sched_study.Tools.HwRuns.{
  Setting, null, flag, int, real, text, ratios, all_policies, arm_keys, Arm, Source, from_config,
  from_trace, Workload, Worker, Campaign, HwError, key_error, type_error, in_launch,
  unknown_policies, no_repeats, no_repeat_seeds, repeat_seed_count, scheduler_seed_count,
  repeat_seed_twice, no_scheduler_seed, no_java_int, unknown_arm_keys, unknown_arm_policies,
  bad_ect_mode, no_ect_mode, no_ect_prior, arm_twice, unnamed_arm, workload_twice, unnamed_workload,
  no_advertise, no_endpoint, no_logs, no_snapshot, placeholder, unknown_snapshot, wrong_ngl,
  missed_promotion,
}

abbrev pub Checked : Type 0
Checked = Result HwError (Unit {0})

abbrev pub int_beq : ℤ → ℤ → Bool
int_beq (pos m) (pos n) = m == n
int_beq (negsuc m) (negsuc n) = m == n
int_beq _ _ = false

pub int_beq_iff : (a b : ℤ) → (int_beq a b ≡ true) ↔ (a ≡ b)
int_beq_iff (pos m) (pos n) = ground arith
int_beq_iff (negsuc m) (negsuc n) = ground arith
int_beq_iff (pos m) (negsuc n) = ground arith
int_beq_iff (negsuc m) (pos n) = ground arith

instance abbrev pub int_eq : Eq ℤ
int_eq = record { beq = int_beq; beq_iff = int_beq_iff }

-- `n < 1`
abbrev pub below_one : ℤ → Bool
below_one (pos n) = n == 0
below_one (negsuc n) = true

-- `n == repeats` for a length `n`.
abbrev pub is_count : ℕ → ℤ → Bool
is_count n (pos m) = n == m
is_count n (negsuc m) = false

-- `-(2**31) <= x < 2**31`
abbrev pub is_java_int : ℤ → Bool
is_java_int (pos n) = ltb n (2 ^ 31)
is_java_int (negsuc n) = ltb n (2 ^ 31)

abbrev pub has_repeats : {A : Type 0} ⦃e : Eq A⦄ → List A → Bool
has_repeats xs = not (length (to_set xs) == length xs)

-- `launch.build_nodes(...)`, for what it raises.
abbrev pub raised : Result LaunchError (List Node) → Checked
raised (ok nodes) = ok tt
raised (err e) = err (in_launch e)

-- `[n for n in c.nodes if n.get("role", "pool") == "pool"]`
abbrev pub pool_specs : List Spec → List Spec
pool_specs nodes = keep (λ n. or_else n.role "pool" == "pool") nodes

abbrev pub check_nodes : List Spec → Bool → Checked
check_nodes nodes allow_colocation = raised (build_nodes nodes allow_colocation)

abbrev pub check_repeat_seeds : ℤ → Option (List ℤ) → Bool → Checked
check_repeat_seeds repeats none seeded = raise_if seeded no_repeat_seeds
check_repeat_seeds repeats (some seeds) seeded = do
  raise_if (not (is_count (length seeds) repeats)) (repeat_seed_count (length seeds))
  raise_if (has_repeats seeds) repeat_seed_twice

abbrev pub check_scheduler_seeds : ℤ → Option (List ℤ) → Checked
check_scheduler_seeds repeats none = ok tt
check_scheduler_seeds repeats (some seeds) = do
  raise_if (not (is_count (length seeds) repeats)) (scheduler_seed_count (length seeds))
  raise_if (any (λ x. not (is_java_int x)) seeds) no_java_int

abbrev pub no_text : Option String → Bool
no_text none = true
no_text (some s) = s == ""

-- `f"_ngl{ngl}_" in f"_{node_class}_"`
abbrev pub names_ngl : ℕ → String → Bool
names_ngl ngl node_class = is_some (find? ("_" <> (node_class <> "_")) ("_ngl" <> (str ngl <> "_")))

abbrev pub check_worker : String → Option Worker → Checked
check_worker node_id none = err (no_endpoint node_id)
check_worker node_id (some worker) = do
  raise_if (not (is_some worker.endpoint)) (no_endpoint node_id)
  raise_if (not (is_some worker.logs)) (no_logs node_id)

module _ {F : Type 0} where
  abbrev pub is_seeded : Source F → Bool
  is_seeded (from_config _ _) = true
  is_seeded (from_trace _ _) = false

  -- The repeats and the seeds.
  pub check_seeds : Campaign F → Checked
  check_seeds c = do
    raise_if (below_one c.repeats) no_repeats
    check_repeat_seeds c.repeats c.repeat_seeds (any (λ w. is_seeded w.source) c.workloads)
    raise_if (not (is_some c.scheduler_seeds) && not (is_some c.repeat_seeds)) no_scheduler_seed
    check_scheduler_seeds c.repeats c.scheduler_seeds

  abbrev pub arm_policies_unknown : Campaign F → Arm F → List String
  arm_policies_unknown c a = keep (λ p. not (elem p c.policies)) (or_else a.policies [])

  abbrev pub arm_keys_unknown : Arm F → List String
  arm_keys_unknown a = keep (λ k. not (elem k arm_keys)) (map (λ e. e.0) a.config)

  pub check_arms : Campaign F → List (Arm F) → Checked
  check_arms c [] = ok tt
  check_arms c (a ∷ arms) = do
    raise_if (truthy (arm_keys_unknown a))
        (unknown_arm_keys a.name (sort_by (λ k. k) (arm_keys_unknown a)))
    raise_if (truthy (arm_policies_unknown c a))
        (unknown_arm_policies a.name (sort_by (λ p. p) (to_set (arm_policies_unknown c a))))
    check_arms c arms

  -- `mode is not None and mode not in ECT_MODES`
  abbrev pub is_bad_mode : Setting F → Bool
  is_bad_mode null = false
  is_bad_mode (flag _) = true
  is_bad_mode (int _) = true
  is_bad_mode (real _) = true
  is_bad_mode (text m) = not (m == "known" || m == "unknown")
  is_bad_mode (ratios _) = true

  abbrev pub check_stated : List (String × Setting F) → Checked
  check_stated [] = ok tt
  check_stated ((where_set, mode) ∷ stated) =
      raise_if (is_bad_mode mode) (bad_ect_mode where_set) >> check_stated stated

  abbrev pub is_null : Setting F → Bool
  is_null null = true
  is_null (flag _) = false
  is_null (int _) = false
  is_null (real _) = false
  is_null (text _) = false
  is_null (ratios _) = false

  abbrev pub is_unknown_mode : Setting F → Bool
  is_unknown_mode null = false
  is_unknown_mode (flag _) = false
  is_unknown_mode (int _) = false
  is_unknown_mode (real _) = false
  is_unknown_mode (text m) = m == "unknown"
  is_unknown_mode (ratios _) = false

  -- `isinstance(prior, int) and not isinstance(prior, bool) and prior > 0`
  abbrev pub is_positive_int : Setting F → Bool
  is_positive_int null = false
  is_positive_int (flag _) = false
  is_positive_int (int (pos n)) = ltb 0 n
  is_positive_int (int (negsuc n)) = false
  is_positive_int (real _) = false
  is_positive_int (text _) = false
  is_positive_int (ratios _) = false

  -- `arm.config.get(key, default)`
  abbrev pub arm_setting : Arm F → String → Setting F → Setting F
  arm_setting a key default = or_else (lookup key a.config) default

  abbrev pub runs_ect : Campaign F → Arm F → Bool
  runs_ect c a = elem "ect" (or_else a.policies c.policies)

  abbrev pub check_mode : String → Setting F → Setting F → Checked
  check_mode arm mode prior = do
    raise_if (is_null mode) (no_ect_mode arm)
    raise_if (is_unknown_mode mode && not (is_positive_int prior)) (no_ect_prior arm)

  pub check_arm_modes : Campaign F → List (Arm F) → Checked
  check_arm_modes c [] = ok tt
  check_arm_modes c (a ∷ arms) =
      (if runs_ect c a
        then check_mode a.name (arm_setting a "ect_mode" c.ect_mode)
            (arm_setting a "ect_prior_output_len" c.ect_prior_output_len)
        else ok tt)
      >> check_arm_modes c arms

  -- `_check_ect_modes`
  pub check_ect_modes : Campaign F → Checked
  unfolding check_arm_modes
  check_ect_modes c = do
    check_stated
        (("the campaign", c.ect_mode) ∷ map (λ a. (a.name, arm_setting a "ect_mode" null)) c.arms)
    check_arm_modes c c.arms

  abbrev pub arm_names : Campaign F → List String
  arm_names c = map (λ a. a.name) c.arms

  abbrev pub workload_names : Campaign F → List String
  workload_names c = map (λ w. w.name) c.workloads

  -- The names, and where the workers deliver to.
  pub check_names : Campaign F → Checked
  check_names c = do
    raise_if (has_repeats (arm_names c)) arm_twice
    raise_if (ltb 1 (length c.arms) && any (λ n. n == "") (arm_names c)) unnamed_arm
    raise_if (has_repeats (workload_names c)) workload_twice
    raise_if (ltb 1 (length c.workloads) && any (λ n. n == "") (workload_names c)) unnamed_workload
    raise_if (no_text c.advertise) no_advertise

  -- `max(..., key=lambda s: s["measured_at_unix"])`
  abbrev pub latest : List (CostModel F) → Option (CostModel F)
  latest [] = none
  latest (s ∷ ss) = some (best_from (λ a b. ltb b.measured_at_unix a.measured_at_unix) s ss)

  abbrev pub newest : String → Dict String (CostModel F) → Option (CostModel F)
  newest node_class index = latest (keep (λ s. s.node_class == node_class) (map (λ e. e.1) index))

  abbrev pub is_named : Option (CostModel F) → String → Bool
  is_named none snapshot_id = false
  is_named (some s) snapshot_id = s.snapshot_id == snapshot_id

  abbrev pub check_snapshot :
      Dict String (CostModel F) → String → String → Option EngineValue → CostModel F → Checked
  check_snapshot index node_id snapshot_id engine_value snap = do
    value ← or_raise engine_value (key_error "engine_config")
    engine_config ← or_raise (object_of value) type_error
    ngl ← or_raise engine_config.ngl (key_error "ngl")
    raise_if (not (names_ngl ngl snap.node_class)) (wrong_ngl node_id)
    raise_if (not (is_named (newest snap.node_class index) snapshot_id)) (missed_promotion node_id)

  -- A named snapshot: the note to a future self is let through in a dry run.
  abbrev pub check_named :
      Dict String (CostModel F) → Bool → String → Option EngineValue → String → Checked
  check_named index allow_placeholder node_id engine_value snapshot_id =
      if starts_with snapshot_id "REPLACE-WITH-THE-"
      then raise_if (not allow_placeholder) (placeholder node_id)
      else or_raise (lookup snapshot_id index) (unknown_snapshot node_id) >>= λ snap.
          check_snapshot index node_id snapshot_id engine_value snap

  -- The body of the loop over the pool.
  pub check_node : Campaign F → Dict String (CostModel F) → Bool → Spec → Checked
  check_node c index allow_placeholder node = do
    node_id ← or_raise node.node_id (key_error "node_id")
    check_worker node_id (lookup node_id c.workers)
    snapshot_id ← or_raise (lookup node_id c.cost_model_snapshots) (no_snapshot node_id)
    check_named index allow_placeholder node_id node.engine_config snapshot_id

  pub check_pool : Campaign F → Dict String (CostModel F) → Bool → List Spec → Checked
  unfolding check_node
  check_pool c index allow_placeholder [] = ok tt
  check_pool c index allow_placeholder (node ∷ nodes) =
      check_node c index allow_placeholder node >> check_pool c index allow_placeholder nodes

  abbrev pub policies_unknown : Campaign F → List String
  policies_unknown c = keep (λ p. not (elem p all_policies)) c.policies

  pub check_campaign :
      Campaign F → Dict String (CostModel F) → (allow_colocation allow_placeholder : Bool) → Checked
  unfolding check_seeds check_arms check_ect_modes check_names check_pool
  check_campaign c index allow_colocation allow_placeholder = do
    check_nodes c.nodes allow_colocation
    raise_if (truthy (policies_unknown c))
        (unknown_policies (sort_by (λ p. p) (to_set (policies_unknown c))))
    check_seeds c
    check_arms c c.arms
    check_ect_modes c
    check_names c
    check_pool c index allow_placeholder (pool_specs c.nodes)
