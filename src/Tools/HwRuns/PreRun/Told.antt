-- ===== src/Tools/HwRuns/PreRun/Told.antt =====
-- What a policy is told by the config of its run.
use llm_sched_study.Base.{
  ◌≡◌, refl, sym, ap, ◌∙◌, subst, inl, inr, Bool, true, false, String, Option, none, some, List, [],
  ◌∷◌, arith, keep, elem, lookup, insert, lookup-insert, IsDict, ◌==◌, string_eq, if◌then◌else◌,
  Bool-cases, Result, ok, ◌>>=◌, or_raise, >>=-eq-ok, ok-injective, Floats,
}
use llm_sched_study.Tools.PoolLoad.{Target, divide}
use llm_sched_study.Tools.HwRuns.{Setting, null, flag, real, arm_keys, Campaign, Run, no_rate_scale}
use llm_sched_study.Tools.HwRuns.Checks.{is_null}
use llm_sched_study.Tools.HwRuns.Plan.{Outside, raise_load, raise_trace}
use llm_sched_study.Tools.HwRuns.PreRun.{
  ConfigValue, setting, TraceHeader, Config, put_setting, ratios_or_null, int_or_null, name_or_null,
  is_told, update, put_target, base_config, with_campaign, with_run, config_with, pre_run_config,
}

some-injective : {A : Type 0} (a b : A) → Path (Option A) (some a) (some b) → a ≡ b
some-injective a b h = cc

three_steps :
    {E A B C D : Type 0} (a : Result E A) (b : A → Result E B) (m : Result E C) (f : A → B → C → D)
    (d : D)
    → (a >>= λ x. b x >>= λ y. m >>= λ z. ok (f x y z)) ≡ ok d
    → (x : A) × (y : B) × (z : C) × (f x y z ≡ d)
three_steps a b m f d h =
    let (x, _, h1) = >>=-eq-ok a (λ x. b x >>= λ y. m >>= λ z. ok (f x y z)) h in
    let (y, _, h2) = >>=-eq-ok (b x) (λ y. m >>= λ z. ok (f x y z)) h1 in
    let (z, _, h3) = >>=-eq-ok m (λ z. ok (f x y z)) h2 in (x, y, z, ok-injective _ _ h3)

-- A key that no arm sets is not one that an arm sets.
arm_key_other : (x k : String) → elem x arm_keys ≡ false → elem k arm_keys ≡ true → (x == k) ≡ false
arm_key_other x k out within = elim (Bool-cases (x == k)) [
  | inl e ↦
      let same : x ≡ k = (string_eq.beq_iff x k).0 e in
      absurd (ground (arith, out, subst (λ y. elem y arm_keys ≡ true) (sym same) within))
  | inr e ↦ e
]

module _ {F : Type 0} where
  lookup-put_other :
      (k key : String) (v : Setting F) (config : Config F)
      → (key == k) ≡ false
      → lookup k (put_setting key v config) ≡ lookup k config
  lookup-put_other k key v config other = elim (Bool-cases (is_null v)) [
    | inl e ↦ rw e refl
    | inr e ↦ rw e (
        lookup-insert key k (setting v) config
        ∙ ap (λ b. if b then some (setting v) else lookup k config) other)
  ]

  lookup-insert_other :
      (k key : String) (v : ConfigValue F) (config : Config F)
      → (key == k) ≡ false
      → lookup k (insert key v config) ≡ lookup k config
  lookup-insert_other k key v config other =
      lookup-insert key k v config ∙ ap (λ b. if b then some v else lookup k config) other

  lookup-target_other :
      (k : String) (target : Option (Target F)) (config : Config F)
      → ("load_target" == k) ≡ false
      → lookup k (put_target target config) ≡ lookup k config
  lookup-target_other k none config other = refl
  lookup-target_other k (some target) config other =
      lookup-insert_other k "load_target" _ config other

  -- What an update leaves at a key that it does not have.
  lookup-update-none :
      (k : String) (config : Config F) (settings : List (String × Setting F))
      → lookup k settings ≡ none
      → lookup k (update config settings) ≡ lookup k config
  lookup-update-none k config [] h = refl
  lookup-update-none k config ((j, v) ∷ settings) h = elim (Bool-cases (j == k)) [
    | inl e ↦ cc (rw e at h)
    | inr e ↦
        lookup-update-none k (insert j (setting v) config) settings (rw e at h)
        ∙ lookup-insert_other k j (setting v) config e
  ]

  lookup-update-some :
      (k : String) (config : Config F) (settings : List (String × Setting F)) (v : Setting F)
      → IsDict settings
      → lookup k settings ≡ some v
      → lookup k (update config settings) ≡ some (setting v)
  lookup-update-some k config [] v d h = cc
  lookup-update-some k config ((j, w) ∷ settings) v (fresh, d) h = elim (Bool-cases (j == k)) [
    | inl e ↦
        lookup-update-none k (insert j (setting w) config) settings
          (subst (λ x. lookup x settings ≡ none) ((string_eq.beq_iff j k).0 e) fresh)
        ∙ lookup-insert j k (setting w) config
        ∙ ap (λ b. if b then some (setting w) else lookup k config) e
        ∙ ap (λ x. some (setting x)) (some-injective w v (rw e at h))
    | inr e ↦ lookup-update-some k (insert j (setting w) config) settings v d (rw e at h)
  ]

  lookup-keep :
      (p : String → Bool) (k : String) (settings : List (String × Setting F))
      → lookup k (keep (λ e. p e.0) settings) ≡ (if p k then lookup k settings else none)
  lookup-keep p k [] = ground arith
  lookup-keep p k ((j, v) ∷ settings) =
      let rest = lookup-keep p k settings in
      elim (Bool-cases (j == k)) [
        | inl e ↦
            let same = ap p ((string_eq.beq_iff j k).0 e) in
            elim (Bool-cases (p j)) [
              | inl kept ↦ rw (kept, e, sym same ∙ kept) refl
              | inr dropped ↦ rw (dropped, rest, sym same ∙ dropped) refl
            ]
        | inr e ↦ elim (Bool-cases (p j)) [
          | inl kept ↦ rw (kept, e) rest
          | inr dropped ↦ rw (dropped, e) rest
        ]
      ]

  keep-IsDict :
      (p : String → Bool) (settings : List (String × Setting F))
      → IsDict settings
      → IsDict (keep (λ e. p e.0) settings)
  keep-IsDict p [] d = tt
  keep-IsDict p ((j, v) ∷ settings) (fresh, d) = elim (Bool-cases (p j)) [
    | inl kept ↦
        rw kept (lookup-keep p j settings ∙ rw (kept, fresh) refl, keep-IsDict p settings d)
    | inr dropped ↦ rw dropped (keep-IsDict p settings d)
  ]

module _ (fl : Floats) (o : Outside fl) where
  open fl use {Float}

  -- What is written after the arm's settings leaves them alone.
  lookup-with_run :
      (k : String) (run : Run Float) (allow_dirty : Bool) (mean_lambda : Float)
      (config : Config Float)
      → elem k arm_keys ≡ true
      → lookup k (with_run fl o run allow_dirty mean_lambda config) ≡ lookup k config
  lookup-with_run k run allow_dirty mean_lambda config within =
      let c1 = put_target run.point.target config in
      let c2 = insert "mean_lambda" (setting (real mean_lambda)) c1 in
      let c3 = insert "seed" (setting (int_or_null run.scheduler_seed)) c2 in
      let c4 = put_setting "workload" (name_or_null run.workload.name) c3 in
      let dirty = if allow_dirty then flag true else null in
      lookup-put_other k "allow_dirty" dirty c4 (arm_key_other "allow_dirty" k refl within)
      ∙ lookup-put_other k "workload" (name_or_null run.workload.name) c3
          (arm_key_other "workload" k refl within)
      ∙ lookup-insert_other k "seed" (setting (int_or_null run.scheduler_seed)) c2
          (arm_key_other "seed" k refl within)
      ∙ lookup-insert_other k "mean_lambda" (setting (real mean_lambda)) c1
          (arm_key_other "mean_lambda" k refl within)
      ∙ lookup-target_other k run.point.target config (arm_key_other "load_target" k refl within)

  lookup-with_run_seed :
      (run : Run Float) (allow_dirty : Bool) (mean_lambda : Float) (config : Config Float)
      → lookup "seed" (with_run fl o run allow_dirty mean_lambda config)
        ≡ some (setting (int_or_null run.scheduler_seed))
  lookup-with_run_seed run allow_dirty mean_lambda config =
      let c1 = put_target run.point.target config in
      let c2 = insert "mean_lambda" (setting (real mean_lambda)) c1 in
      let c3 = insert "seed" (setting (int_or_null run.scheduler_seed)) c2 in
      let c4 = put_setting "workload" (name_or_null run.workload.name) c3 in
      let dirty = if allow_dirty then flag true else null in
      lookup-put_other "seed" "allow_dirty" dirty c4 refl
      ∙ lookup-put_other "seed" "workload" (name_or_null run.workload.name) c3 refl
      ∙ lookup-insert "seed" "seed" (setting (int_or_null run.scheduler_seed)) c2

  -- The settings of the campaign, at the keys of its mode and of its cutoff.
  lookup-put_same :
      (k : String) (v : Setting Float) (config : Config Float)
      → is_null v ≡ false
      → lookup k (put_setting k v config) ≡ some (setting v)
  lookup-put_same k v config given = rw given (
      lookup-insert k k (setting v) config
      ∙ ap (λ b. if b then some (setting v) else lookup k config) ((string_eq.beq_iff k k).1 refl))

  campaign_mode :
      (c : Campaign Float) (run : Run Float) (config : Config Float)
      → is_null c.ect_mode ≡ false
      → lookup "ect_mode" (with_campaign fl o c run config) ≡ some (setting c.ect_mode)
  campaign_mode c run config given =
      let c1 = put_setting "capability_override" (ratios_or_null c.capability_override) config in
      let c2 = put_setting "capability_concurrency" (int_or_null c.capability_concurrency) c1 in
      let c3 = put_setting "ect_mode" c.ect_mode c2 in
      let c4 = put_setting "ect_prior_output_len" c.ect_prior_output_len c3 in
      let c5 = put_setting "capability_arm" (name_or_null run.arm.name) c4 in
      lookup-put_other "ect_mode" "threshold_t"
        (if run.policy == "threshold" then real c.threshold_t else null) c5 refl
      ∙ lookup-put_other "ect_mode" "capability_arm" (name_or_null run.arm.name) c4 refl
      ∙ lookup-put_other "ect_mode" "ect_prior_output_len" c.ect_prior_output_len c3 refl
      ∙ lookup-put_same "ect_mode" c.ect_mode c2 given

  campaign_cutoff :
      (c : Campaign Float) (run : Run Float) (header : TraceHeader Float) (rate duration_s : Float)
      → (run.policy == "threshold") ≡ false
      → lookup "threshold_t"
          (with_campaign fl o c run (base_config fl o c run header rate duration_s))
        ≡ none
  campaign_cutoff c run header rate duration_s other =
      let config = base_config fl o c run header rate duration_s in
      let c1 = put_setting "capability_override" (ratios_or_null c.capability_override) config in
      let c2 = put_setting "capability_concurrency" (int_or_null c.capability_concurrency) c1 in
      let c3 = put_setting "ect_mode" c.ect_mode c2 in
      let c4 = put_setting "ect_prior_output_len" c.ect_prior_output_len c3 in
      let c5 = put_setting "capability_arm" (name_or_null run.arm.name) c4 in
      rw other (
        lookup-put_other "threshold_t" "capability_arm" (name_or_null run.arm.name) c4 refl
        ∙ lookup-put_other "threshold_t" "ect_prior_output_len" c.ect_prior_output_len c3 refl
        ∙ lookup-put_other "threshold_t" "ect_mode" c.ect_mode c2 refl
        ∙ lookup-put_other "threshold_t" "capability_concurrency"
            (int_or_null c.capability_concurrency) c1 refl
        ∙ lookup-put_other "threshold_t" "capability_override"
            (ratios_or_null c.capability_override) config refl)

  -- What the scheduler is told in the config of a run.
  pub record IsTold (c : Campaign Float) (run : Run Float) (config : Config Float) : Type 0 where
    -- the arm's settings, before the campaign's; its cutoff under `threshold` only
    pub arm :
        (k : String) (v : Setting Float)
        → elem k arm_keys ≡ true
        → lookup k run.arm.config ≡ some v
        → is_told run.policy k ≡ true
        → lookup k config ≡ some (setting v)
    -- the campaign's mode, where the arm has none
    pub mode :
        lookup "ect_mode" run.arm.config ≡ none
        → is_null c.ect_mode ≡ false
        → lookup "ect_mode" config ≡ some (setting c.ect_mode)
    -- no cutoff under another policy
    pub cutoff : (run.policy == "threshold") ≡ false → lookup "threshold_t" config ≡ none
    -- the seed
    pub seed : lookup "seed" config ≡ some (setting (int_or_null run.scheduler_seed))

  -- A run's config has each setting of its arm, over the campaign's own, and the campaign's mode where
  -- the arm has none; it has a cutoff under the threshold policy only, and the seed of the run. The
  -- arm's settings have no key twice.
  pub pre_run_config-IsTold :
      (c : Campaign Float) (run : Run Float) (header : TraceHeader Float) (allow_dirty : Bool)
      (config : Config Float)
      → IsDict run.arm.config
      → pre_run_config fl o c run header allow_dirty ≡ ok config
      → IsTold c run config
  unfolding pre_run_config
  pre_run_config-IsTold c run header allow_dirty config dict h =
      let (rate, duration_s, mean, made) =
        three_steps (or_raise run.point.rate_scale no_rate_scale)
          (λ rate. raise_load fl o (divide fl o.split_bucket header.duration_s rate))
          (raise_trace fl o header.mean_rate) (config_with fl o c run header allow_dirty) config
          h in
      let told = keep (λ e. is_told run.policy e.0) run.arm.config in
      let before = with_campaign fl o c run (base_config fl o c run header rate duration_s) in
      let mean_lambda = fl.round_to (fl.mul mean rate) 6 in
      let through = λ (k : String) (within : elem k arm_keys ≡ true).
        sym (ap (lookup k) made)
        ∙ lookup-with_run k run allow_dirty mean_lambda (update before told) within in
      record {
        arm = λ k v within has tells.
            through k within
            ∙ lookup-update-some k before told v
                (keep-IsDict (is_told run.policy) run.arm.config dict)
                (lookup-keep (is_told run.policy) k run.arm.config ∙ rw (tells, has) refl);
        mode = λ absent given.
            through "ect_mode" refl
            ∙ lookup-update-none "ect_mode" before told
                (lookup-keep (is_told run.policy) "ect_mode" run.arm.config ∙ rw absent refl)
            ∙ campaign_mode c run (base_config fl o c run header rate duration_s) given;
        cutoff = λ other.
            through "threshold_t" refl
            ∙ lookup-update-none "threshold_t" before told
                (lookup-keep (is_told run.policy) "threshold_t" run.arm.config ∙ rw other refl)
            ∙ campaign_cutoff c run header rate duration_s other;
        seed =
            sym (ap (lookup "seed") made)
            ∙ lookup-with_run_seed run allow_dirty mean_lambda (update before told);
      }
