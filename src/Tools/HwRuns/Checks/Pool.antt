-- ===== src/Tools/HwRuns/Checks/Pool.antt =====
-- The nodes of a campaign's pool, their workers and their snapshots.
use package.text.Mathlib.Text.{starts_with}
use llm_sched_study.Base.{
  ℕ, ◌≡◌, refl, ap, ◌∙◌, ◌↔◌, ◌⊎◌, inl, inr, Bool, true, false, not, ◌&&◌, String, Option, none,
  some, List, [], ◌∷◌, map, arith, All, any, length, ltb, Distinct, is_some, Dict, lookup, ◌==◌,
  string_eq, if◌then◌else◌, Result, ok, ◌>>=◌, raise_if, raise_if_iff, raise_if->>-iff, >>-iff,
  or_raise,
}
use llm_sched_study.Harness.Launch.{
  Spec, EngineSpec, EngineValue, engine_object, no_container, object_of,
}
use llm_sched_study.Tools.PoolLoad.{CostModel}
use llm_sched_study.Tools.HwRuns.{
  Worker, Campaign, key_error, type_error, no_logs, no_snapshot, placeholder, unknown_snapshot,
  wrong_ngl, missed_promotion, arm_twice, unnamed_arm, workload_twice, unnamed_workload,
  no_advertise,
}
use llm_sched_study.Tools.HwRuns.Checks.{
  has_repeats, no_text, names_ngl, check_worker, newest, is_named, check_snapshot, check_named,
  check_node, check_pool, arm_names, workload_names, check_names,
}
use llm_sched_study.Tools.HwRuns.Checks.Seeds.{has_repeats_iff}

or_raise_iff :
    {E A B : Type 0} (o : Option A) (e : E) (k : A → Result E B) (b : B)
    → ((or_raise o e >>= k) ≡ ok b) ↔ ((a : A) × (o ≡ some a) × (k a ≡ ok b))
or_raise_iff none e k b = (λ h. cc, λ (a, e, _). cc)
or_raise_iff (some a) e k b =
    (λ h. (a, refl, h), λ (x, found, h). ap (λ o. or_raise o e >>= k) found ∙ h)

not-false_iff : (b : Bool) → (not b ≡ false) ↔ (b ≡ true)
not-false_iff b = ground arith

-- Where to reach the worker and where it writes its log.
abbrev pub IsReachable : Option Worker → Type 0
IsReachable none = ⊥
IsReachable (some worker) = (is_some worker.endpoint ≡ true) × (is_some worker.logs ≡ true)

check_worker_iff :
    (node_id : String) (worker : Option Worker)
    → (check_worker node_id worker ≡ ok tt) ↔ IsReachable worker
check_worker_iff node_id none = (λ h. cc, λ h. absurd h)
check_worker_iff node_id (some worker) = (
  λ h.
      let (i, j) = (raise_if->>-iff _ _ _).0 h in
      (
        (not-false_iff (is_some worker.endpoint)).0 i,
        (not-false_iff (is_some worker.logs)).0 ((raise_if_iff _ _).0 j),
      ),
  λ (i, j). (raise_if->>-iff _ _ _).1 (
    (not-false_iff (is_some worker.endpoint)).1 i,
    (raise_if_iff _ (no_logs node_id)).1 ((not-false_iff (is_some worker.logs)).1 j),
  ),
)

-- Names that tell the members of a list apart: no two alike, and none empty beside another.
abbrev pub NamesApart : List String → Type 0
NamesApart names = Distinct names × ((ltb 1 (length names) && any (λ n. n == "") names) ≡ false)

length-map : {A B : Type 0} (f : A → B) (xs : List A) → length (map f xs) ≡ length xs
length-map f [] = refl
length-map f (x ∷ xs) = omega (arith, length-map f xs)

object_of-some :
    (value : EngineValue) (ec : EngineSpec) → object_of value ≡ some ec → value ≡ engine_object ec
object_of-some (engine_object found) ec h = cc
object_of-some no_container ec h = cc

module _ {F : Type 0} where
  is_named_iff :
      (s : Option (CostModel F)) (snapshot_id : String)
      → (is_named s snapshot_id ≡ true)
        ↔ ((snap : CostModel F) × (s ≡ some snap) × (snap.snapshot_id ≡ snapshot_id))
  is_named_iff none snapshot_id = (λ h. cc, λ (snap, e, _). cc)
  is_named_iff (some snap) snapshot_id = (
    λ h. (snap, refl, (string_eq.beq_iff snap.snapshot_id snapshot_id).0 h),
    λ (s, e, n).
        ap (λ o. is_named o snapshot_id) e ∙ (string_eq.beq_iff s.snapshot_id snapshot_id).1 n,
  )

  -- The snapshot is of the class that the engine's layers on the GPU say, and the newest of it.
  abbrev pub IsCurrent :
      Dict String (CostModel F) → String → Option EngineValue → CostModel F → Type 0
  IsCurrent index snapshot_id engine_value snap =
      (engine_config : EngineSpec) × (engine_value ≡ some (engine_object engine_config))
      × (ngl : ℕ) × (engine_config.ngl ≡ some ngl)
      × (names_ngl ngl snap.node_class ≡ true)
      × (newest_snap : CostModel F) × (newest snap.node_class index ≡ some newest_snap)
      × (newest_snap.snapshot_id ≡ snapshot_id)

  check_snapshot_iff :
      (index : Dict String (CostModel F)) (node_id snapshot_id : String)
      (engine_value : Option EngineValue) (snap : CostModel F)
      → (check_snapshot index node_id snapshot_id engine_value snap ≡ ok tt)
        ↔ IsCurrent index snapshot_id engine_value snap
  check_snapshot_iff index node_id snapshot_id engine_value snap =
      let named = is_named_iff (newest snap.node_class index) snapshot_id in
      (
        λ h.
            let (value, e1, h0) =
              (or_raise_iff engine_value (key_error "engine_config") _ tt).0 h in
            let (engine_config, e2, h1) = (or_raise_iff (object_of value) type_error _ tt).0 h0 in
            let e = e1 ∙ ap some (object_of-some value engine_config e2) in
            let (ngl, n, h2) = (or_raise_iff engine_config.ngl (key_error "ngl") _ tt).0 h1 in
            let (i, h3) =
              (raise_if->>-iff (not (names_ngl ngl snap.node_class)) (wrong_ngl node_id) _).0 h2 in
            let j =
              (raise_if_iff (not (is_named (newest snap.node_class index) snapshot_id))
                  (missed_promotion node_id)).0
                h3 in
            let (newest_snap, k, l) = named.0 ((not-false_iff _).0 j) in
            (engine_config, e, ngl, n, (not-false_iff _).0 i, newest_snap, k, l),
        λ (engine_config, e, ngl, n, i, newest_snap, k, l).
            (or_raise_iff engine_value (key_error "engine_config") _ tt).1 (
              engine_object engine_config,
              e,
              (or_raise_iff engine_config.ngl (key_error "ngl") _ tt).1 (
                ngl,
                n,
                (raise_if->>-iff _ (wrong_ngl node_id) _).1 (
                  (not-false_iff _).1 i,
                  (raise_if_iff _ (missed_promotion node_id)).1
                      ((not-false_iff _).1 (named.1 (newest_snap, k, l))),
                ),
              ),
            ),
      )

  -- A note to a future self, in a dry run; or a snapshot of the index that is current.
  abbrev pub IsUsable : Dict String (CostModel F) → Bool → Option EngineValue → String → Type 0
  IsUsable index allow_placeholder engine_value snapshot_id =
      ((starts_with snapshot_id "REPLACE-WITH-THE-" ≡ true) × (allow_placeholder ≡ true))
      ⊎ ((starts_with snapshot_id "REPLACE-WITH-THE-" ≡ false)
          × (snap : CostModel F) × (lookup snapshot_id index ≡ some snap)
          × IsCurrent index snapshot_id engine_value snap)

  named_iff :
      (index : Dict String (CostModel F)) (allow_placeholder is_note : Bool)
      (node_id snapshot_id : String) (engine_value : Option EngineValue)
      → ((if is_note
            then raise_if (not allow_placeholder) (placeholder node_id)
            else or_raise (lookup snapshot_id index) (unknown_snapshot node_id) >>= λ snap.
                check_snapshot index node_id snapshot_id engine_value snap)
          ≡ ok tt)
        ↔ (((is_note ≡ true) × (allow_placeholder ≡ true))
            ⊎ ((is_note ≡ false)
                × (snap : CostModel F) × (lookup snapshot_id index ≡ some snap)
                × IsCurrent index snapshot_id engine_value snap))
  named_iff index allow_placeholder true node_id snapshot_id engine_value = (
    λ h. inl (
      refl,
      (not-false_iff _).0 ((raise_if_iff (not allow_placeholder) (placeholder node_id)).0 h),
    ),
    λ m. elim m [
      | inl both ↦
          (raise_if_iff (not allow_placeholder) (placeholder node_id)).1
            ((not-false_iff _).1 both.1)
      | inr m ↦ cc (m.0)
    ],
  )
  named_iff index allow_placeholder false node_id snapshot_id engine_value =
      let found =
        or_raise_iff (lookup snapshot_id index) (unknown_snapshot node_id)
          (λ snap. check_snapshot index node_id snapshot_id engine_value snap) tt in
      (
        λ h.
            let (snap, e, i) = found.0 h in
            inr
              (refl, snap, e, (check_snapshot_iff index node_id snapshot_id engine_value snap).0 i),
        λ m. elim m [
          | inl both ↦ cc (both.0)
          | inr m ↦
              let (_, snap, e, i) = m in
              found.1
                (snap, e, (check_snapshot_iff index node_id snapshot_id engine_value snap).1 i)
        ],
      )

  check_named_iff :
      (index : Dict String (CostModel F)) (allow_placeholder : Bool) (node_id : String)
      (engine_value : Option EngineValue) (snapshot_id : String)
      → (check_named index allow_placeholder node_id engine_value snapshot_id ≡ ok tt)
        ↔ IsUsable index allow_placeholder engine_value snapshot_id
  check_named_iff index allow_placeholder node_id engine_value snapshot_id =
      named_iff index allow_placeholder (starts_with snapshot_id "REPLACE-WITH-THE-") node_id
        snapshot_id engine_value

  -- A node of the pool has a name, a worker to reach and a snapshot to use.
  abbrev pub NodeReady : Campaign F → Dict String (CostModel F) → Bool → Spec → Type 0
  NodeReady c index allow_placeholder node =
      (node_id : String) × (node.node_id ≡ some node_id)
      × IsReachable (lookup node_id c.workers)
      × (snapshot_id : String) × (lookup node_id c.cost_model_snapshots ≡ some snapshot_id)
      × IsUsable index allow_placeholder node.engine_config snapshot_id

  check_node_iff :
      (c : Campaign F) (index : Dict String (CostModel F)) (allow_placeholder : Bool) (node : Spec)
      → (check_node c index allow_placeholder node ≡ ok tt)
        ↔ NodeReady c index allow_placeholder node
  unfolding check_node
  check_node_iff c index allow_placeholder node = (
    λ h.
        let (node_id, e, h1) = (or_raise_iff node.node_id (key_error "node_id") _ tt).0 h in
        let (i, h2) = (>>-iff (check_worker node_id (lookup node_id c.workers)) _).0 h1 in
        let (snapshot_id, n, h3) =
          (or_raise_iff (lookup node_id c.cost_model_snapshots) (no_snapshot node_id) _ tt).0 h2 in
        (
          node_id,
          e,
          (check_worker_iff node_id _).0 i,
          snapshot_id,
          n,
          (check_named_iff index allow_placeholder node_id node.engine_config snapshot_id).0 h3,
        ),
    λ (node_id, e, i, snapshot_id, n, j). (or_raise_iff node.node_id (key_error "node_id") _ tt).1 (
      node_id,
      e,
      (>>-iff (check_worker node_id (lookup node_id c.workers)) _).1 (
        (check_worker_iff node_id _).1 i,
        (or_raise_iff (lookup node_id c.cost_model_snapshots) (no_snapshot node_id) _ tt).1 (
          snapshot_id,
          n,
          (check_named_iff index allow_placeholder node_id node.engine_config snapshot_id).1 j,
        ),
      ),
    ),
  )

  pub check_pool_iff :
      (c : Campaign F) (index : Dict String (CostModel F)) (allow_placeholder : Bool)
      (nodes : List Spec)
      → (check_pool c index allow_placeholder nodes ≡ ok tt)
        ↔ All (NodeReady c index allow_placeholder) nodes
  unfolding check_pool
  check_pool_iff c index allow_placeholder [] = (λ _. tt, λ _. refl)
  check_pool_iff c index allow_placeholder (node ∷ nodes) =
      let here = check_node_iff c index allow_placeholder node in
      let rest = check_pool_iff c index allow_placeholder nodes in
      (
        λ h. let (i, j) = (>>-iff _ _).0 h in (here.0 i, rest.0 j),
        λ (i, j). (>>-iff _ _).1 (here.1 i, rest.1 j),
      )

  -- The names of the arms and of the workloads tell them apart, and there is an address to deliver to.
  abbrev pub NamesStated : Campaign F → Type 0
  NamesStated c =
      NamesApart (arm_names c) × NamesApart (workload_names c) × (no_text c.advertise ≡ false)

  pub check_names_iff : (c : Campaign F) → (check_names c ≡ ok tt) ↔ NamesStated c
  unfolding check_names
  check_names_iff c = (
    λ h.
        let (a, h1) = (raise_if->>-iff (has_repeats (arm_names c)) arm_twice _).0 h in
        let (b, h2) =
          (raise_if->>-iff (ltb 1 (length c.arms) && any (λ n. n == "") (arm_names c)) unnamed_arm
              _).0
            h1 in
        let (d, h3) = (raise_if->>-iff (has_repeats (workload_names c)) workload_twice _).0 h2 in
        let (e, h4) =
          (raise_if->>-iff (ltb 1 (length c.workloads) && any (λ n. n == "") (workload_names c))
              unnamed_workload _).0
            h3 in
        (
          ((has_repeats_iff (arm_names c)).0 a, rw (length-map (λ a. a.name) c.arms) b),
          ((has_repeats_iff (workload_names c)).0 d, rw (length-map (λ w. w.name) c.workloads) e),
          (raise_if_iff (no_text c.advertise) no_advertise).0 h4,
        ),
    λ ((a, b), (d, e), f). (raise_if->>-iff _ _ _).1 (
      (has_repeats_iff (arm_names c)).1 a,
      (raise_if->>-iff _ _ _).1 (
        rw (length-map (λ a. a.name) c.arms) at b,
        (raise_if->>-iff _ _ _).1 (
          (has_repeats_iff (workload_names c)).1 d,
          (raise_if->>-iff _ _ _).1
              (rw (length-map (λ w. w.name) c.workloads) at e, (raise_if_iff _ no_advertise).1 f),
        ),
      ),
    ),
  )
