-- ===== src/Pipeline/Join/Checks.antt =====
-- When `join` refuses its inputs, and which log it names.
use llm_sched_study.Base.{
  ok-injective, ◌≡◌, refl, ap, ◌↔◌, ◌≢◌, ◌⊎◌, inl, inr, Bool, true, false, not, ◌&&◌, String,
  Option, none, some, List, [], ◌∷◌, arith, ok, raise_if->>-iff, raise_if_iff, >>-iff, truthy_iff,
  ◌==◌, string_eq, or_else, All, All-imp, any, Floats, Option-cases,
}
use llm_sched_study.Logs.{SchedulerRecord}
use llm_sched_study.Worker.Log.{WorkerRecord}
use llm_sched_study.Pipeline.Records.{Manifest, ClientRecord, TraceLine, Row}
use llm_sched_study.Pipeline.Join.{
  is_foreign, policies_of, check_policy_agreement, is_other_trace, check_inputs, rows_of,
  pool_ids_of, joined_row, join,
}

is_foreign_iff :
    (run_id : String) (o : Option String) → (is_foreign run_id o ≡ false) ↔ (o ≡ some run_id)
is_foreign_iff run_id none = ground arith
is_foreign_iff run_id (some i) = ground (arith, string_eq.beq_iff i run_id)

none_foreign :
    {A : Type 0} (f : A → Option String) (run_id : String) (xs : List A)
    → (any (λ r. is_foreign run_id (f r)) xs ≡ false) ↔ All (λ r. f r ≡ some run_id) xs
none_foreign f run_id [] = (λ _. tt, λ _. refl)
none_foreign f run_id (x ∷ xs) =
    ground (arith, is_foreign_iff run_id (f x), none_foreign f run_id xs)

none_other :
    {A : Type 0} (f : A → String) (name : String) (xs : List A)
    → (any (λ r. not (f r == name)) xs ≡ false) ↔ All (λ r. f r ≡ name) xs
none_other f name [] = (λ _. tt, λ _. refl)
none_other f name (x ∷ xs) = ground (arith, string_eq.beq_iff (f x) name, none_other f name xs)

may_be_invalid :
    (allow : Bool) (valid : Option Bool)
    → (not allow && not (or_else valid true) ≡ false) ↔ ((allow ≡ true) ⊎ (valid ≢ some false))
may_be_invalid true v = (λ _. inl refl, λ _. refl)
may_be_invalid false none = ground arith
may_be_invalid false (some true) = ground arith
may_be_invalid false (some false) = ground arith

some-injective : (a b : String) → some a ≡ some b → a ≡ b
some-injective a b h = cc

module _ {F : Type 0} where
  -- The trace is the one that the manifest names, where a digest is given.
  abbrev pub IsItsTrace : Manifest F → Option String → Type 0
  IsItsTrace manifest none = Unit
  IsItsTrace manifest (some sha) = manifest.trace_sha256 ≡ some sha

  is_other_trace_iff :
      (manifest : Manifest F) (sha : Option String)
      → (is_other_trace manifest sha ≡ false) ↔ IsItsTrace manifest sha
  is_other_trace_iff manifest none = (λ _. tt, λ _. refl)
  is_other_trace_iff manifest (some sha) = elim (Option-cases manifest.trace_sha256) [
    | inl e ↦ ground (arith, e)
    | inr (named, e) ↦ ground (arith, e, string_eq.beq_iff named sha)
  ]

  abbrev IsOf : Manifest F → Option String → Type 0
  IsOf manifest run_id = run_id ≡ some manifest.run_id

  -- Inputs that belong together.
  abbrev pub BelongTogether :
      Manifest F
      → List (ClientRecord F)
      → List (SchedulerRecord F)
      → List (WorkerRecord F)
      → Option String
      → Bool
      → Type 0
  BelongTogether manifest client scheduler worker trace_sha256 allow_invalid =
      All (λ r. IsOf manifest r.run_id) client
      × All (λ r. IsOf manifest r.run_id) scheduler
      × All (λ r. r.run_id ≡ manifest.run_id) worker
      × IsItsTrace manifest trace_sha256
      × ((allow_invalid ≡ true) ⊎ (manifest.valid ≢ some false))
      × All (λ p. p ≡ manifest.policy) (policies_of scheduler)

  check_inputs_iff :
      (manifest : Manifest F) (client : List (ClientRecord F))
      (scheduler : List (SchedulerRecord F)) (worker : List (WorkerRecord F))
      (trace_sha256 : Option String) (allow_invalid : Bool)
      → (check_inputs manifest client scheduler worker trace_sha256 allow_invalid ≡ ok tt)
        ↔ BelongTogether manifest client scheduler worker trace_sha256 allow_invalid
  unfolding check_inputs check_policy_agreement
  check_inputs_iff m client scheduler worker sha allow = (
    λ h.
        let (a, h1) = (raise_if->>-iff _ _ _).0 h in
        let (b, h2) = (raise_if->>-iff _ _ _).0 h1 in
        let (c, h3) = (raise_if->>-iff _ _ _).0 h2 in
        let (d, h4) = (raise_if->>-iff _ _ _).0 h3 in
        let (e, h5) = (raise_if->>-iff _ _ _).0 h4 in
        (
          (none_foreign (λ r. r.run_id) m.run_id client).0 a,
          (none_foreign (λ r. r.run_id) m.run_id scheduler).0 b,
          All-imp _ _ worker (λ r same. some-injective _ _ same)
              ((none_foreign (λ r. some r.run_id) m.run_id worker).0 c),
          (is_other_trace_iff m sha).0 d,
          (may_be_invalid allow m.valid).0 e,
          (none_other (λ p. p) m.policy (policies_of scheduler)).0 ((raise_if_iff _ _).0 h5),
        ),
    λ (a, b, c, d, e, f). (raise_if->>-iff _ _ _).1 (
      (none_foreign (λ r. r.run_id) m.run_id client).1 a,
      (raise_if->>-iff _ _ _).1 (
        (none_foreign (λ r. r.run_id) m.run_id scheduler).1 b,
        (raise_if->>-iff _ _ _).1 (
          (none_foreign (λ r. some r.run_id) m.run_id worker).1
              (All-imp _ _ worker (λ r same. ap some same) c),
          (raise_if->>-iff _ _ _).1 (
            (is_other_trace_iff m sha).1 d,
            (raise_if->>-iff _ _ _).1 (
              (may_be_invalid allow m.valid).1 e,
              (raise_if_iff _ _).1 ((none_other (λ p. p) m.policy (policies_of scheduler)).1 f),
            ),
          ),
        ),
      ),
    ),
  )

module _ (fl : Floats) where
  open fl use {Float}

  -- The join of a run gives rows exactly if the client log is not empty, every record of the three
  -- logs has the manifest's run id, a trace whose digest is given is the one the manifest names, the
  -- run is not recorded as invalid unless that is allowed, and every policy that the scheduler's
  -- records name is the manifest's. The rows are then those of the client log.
  pub join-eq-ok :
      (manifest : Manifest Float) (client : List (ClientRecord Float))
      (scheduler : List (SchedulerRecord Float)) (worker : List (WorkerRecord Float))
      (trace : List TraceLine) (trace_sha256 : Option String) (r_value : Option Float)
      (allow_invalid : Bool) (rows : List (Row Float))
      → (join fl manifest client scheduler worker trace trace_sha256 r_value allow_invalid
          ≡ ok rows)
        ↔ ((client ≢ [])
            × BelongTogether manifest client scheduler worker trace_sha256 allow_invalid
            × (rows_of fl
                  (pool_ids_of fl manifest)
                  (joined_row fl manifest scheduler worker trace r_value)
                  client
                ≡ rows))
  unfolding join
  join-eq-ok m client scheduler worker trace sha r_value allow rows = (
    λ h.
        let (a, h1) = (raise_if->>-iff _ _ _).0 h in
        let (b, h2) = (>>-iff _ _).0 h1 in
        (
          (truthy_iff client).0 a,
          (check_inputs_iff m client scheduler worker sha allow).0 b,
          ok-injective _ _ h2,
        ),
    λ (a, b, h). (raise_if->>-iff _ _ _).1 (
      (truthy_iff client).1 a,
      (>>-iff _ _).1 ((check_inputs_iff m client scheduler worker sha allow).1 b, ap ok h),
    ),
  )
