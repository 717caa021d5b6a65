-- ===== src/Harness/Replay/Prerun.antt =====
-- When a replay is refused before it starts.
use llm_sched_study.Base.{
  ◌≡◌, ◌≢◌, refl, ◌↔◌, false, not, String, Option, none, some, [], arith, string_eq, ok, truthy_iff,
  raise_if->>-iff, raise_if_iff,
}
use llm_sched_study.Harness.Replay.{PreRun, disagree, is_run, check_pre_run}

-- Both are given, not empty, and they differ.
abbrev pub Disagree : Option String → Option String → Type 0
Disagree (some asked) (some named) = (asked ≢ "") × (named ≢ "") × (named ≢ asked)
Disagree _ _ = ⊥

disagree_iff :
    (asked named : Option String) → (disagree asked named ≡ false) ↔ (Disagree asked named → ⊥)
disagree_iff none named = (λ _ h. h, λ _. refl)
disagree_iff (some a) none = (λ _ h. h, λ _. refl)
disagree_iff (some a) (some n) =
    ground (arith, string_eq.beq_iff a "", string_eq.beq_iff n "", string_eq.beq_iff n a)

is_run_iff :
    (i : Option String) (run_id : String) → (not (is_run i run_id) ≡ false) ↔ (i ≡ some run_id)
is_run_iff none run_id = ground arith
is_run_iff (some i) run_id = ground (arith, string_eq.beq_iff i run_id)

-- A replay may start exactly if the pre-run manifest is that of its run, names no other trace and no
-- other policy than the ones asked for, where both sides name one, and has cost model snapshots.
pub check_pre_run-eq-ok :
    (pre : PreRun) (run_id : String) (sha256 policy : Option String)
    → (check_pre_run pre run_id sha256 policy ≡ ok tt) ↔ (
        (pre.run_id ≡ some run_id)
        × (Disagree sha256 pre.trace_sha256 → ⊥)
        × (Disagree policy pre.policy → ⊥)
        × (pre.cost_model_snapshots ≢ []))
unfolding check_pre_run
check_pre_run-eq-ok pre run_id sha256 policy = (
  λ h.
      let (a, h1) = (raise_if->>-iff _ _ _).0 h in
      let (b, h2) = (raise_if->>-iff _ _ _).0 h1 in
      let (c, h3) = (raise_if->>-iff _ _ _).0 h2 in
      (
        (is_run_iff pre.run_id run_id).0 a,
        (disagree_iff sha256 pre.trace_sha256).0 b,
        (disagree_iff policy pre.policy).0 c,
        (truthy_iff pre.cost_model_snapshots).0 ((raise_if_iff _ _).0 h3),
      ),
  λ (a, b, c, d). (raise_if->>-iff _ _ _).1 (
    (is_run_iff pre.run_id run_id).1 a,
    (raise_if->>-iff _ _ _).1 (
      (disagree_iff sha256 pre.trace_sha256).1 b,
      (raise_if->>-iff _ _ _).1 (
        (disagree_iff policy pre.policy).1 c,
        (raise_if_iff _ _).1 ((truthy_iff pre.cost_model_snapshots).1 d),
      ),
    ),
  ),
)
