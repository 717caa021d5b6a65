-- ===== src/Tools/HwRuns/Checks/Modes.antt =====
-- What the arms of a campaign may set, and the mode that ECT runs in.
use llm_sched_study.Base.{
  ◌<◌, ◌≡◌, refl, ◌↔◌, inl, inr, Bool, true, false, not, ◌&&◌, ◌⊎◌, String, List, [], ◌∷◌, map,
  arith, All, keep, truthy, elem, or_else, ◌==◌, string_eq, if◌then◌else◌, pos, negsuc, Result, ok,
  raise_if_iff, raise_if->>-iff, >>-iff, Bool-cases,
}
use llm_sched_study.Tools.HwRuns.{
  Setting, null, flag, int, real, text, ratios, arm_keys, Arm, Campaign, HwError, no_ect_prior,
}
use llm_sched_study.Tools.HwRuns.Checks.{
  check_arms, arm_keys_unknown, arm_policies_unknown, is_bad_mode, check_stated, is_positive_int,
  arm_setting, runs_ect, check_mode, check_arm_modes, check_ect_modes,
}

pub keep_none_iff :
    {A : Type 0} (p : A → Bool) (xs : List A)
    → (truthy (keep (λ x. not (p x)) xs) ≡ false) ↔ All (λ x. p x ≡ true) xs
keep_none_iff p [] = (λ _. tt, λ _. refl)
keep_none_iff p (x ∷ xs) = ground (arith, keep_none_iff p xs)

when_ect_iff :
    {P : Type 0} (runs : Bool) (check : Result HwError (Unit {0}))
    → (check ≡ ok tt) ↔ P
    → ((if runs then check else ok tt) ≡ ok tt) ↔ (runs ≡ true → P)
when_ect_iff true check both = (λ h _. both.0 h, λ h. both.1 (h refl))
when_ect_iff false check both = (λ h e. cc, λ _. refl)

module _ {F : Type 0} where
  -- Each key that the arm sets is one that a policy reads, and each policy that it names is one of the
  -- campaign's.
  abbrev pub ArmStated : Campaign F → Arm F → Type 0
  ArmStated c a =
      All (λ k. elem k arm_keys ≡ true) (map (λ e. e.0) a.config)
      × All (λ p. elem p c.policies ≡ true) (or_else a.policies [])

  pub check_arms_iff :
      (c : Campaign F) (arms : List (Arm F)) → (check_arms c arms ≡ ok tt) ↔ All (ArmStated c) arms
  unfolding check_arms
  check_arms_iff c [] = (λ _. tt, λ _. refl)
  check_arms_iff c (a ∷ arms) =
      let keys = keep_none_iff (λ k. elem k arm_keys) (map (λ e. e.0) a.config) in
      let policies = keep_none_iff (λ p. elem p c.policies) (or_else a.policies []) in
      let rest = check_arms_iff c arms in
      (
        λ h.
            let (i, h1) = (raise_if->>-iff (truthy (arm_keys_unknown a)) _ _).0 h in
            let (j, h2) = (raise_if->>-iff (truthy (arm_policies_unknown c a)) _ _).0 h1 in
            ((keys.0 i, policies.0 j), rest.0 h2),
        λ ((i, j), k).
            (raise_if->>-iff _ _ _).1
              (keys.1 i, (raise_if->>-iff _ _ _).1 (policies.1 j, rest.1 k)),
      )

  -- `None`, or a mode that ECT accepts.
  abbrev pub IsMode : Setting F → Type 0
  IsMode null = Unit
  IsMode (text m) = (m ≡ "known") ⊎ (m ≡ "unknown")
  IsMode (flag _) = ⊥
  IsMode (int _) = ⊥
  IsMode (real _) = ⊥
  IsMode (ratios _) = ⊥

  abbrev pub IsPositive : Setting F → Type 0
  IsPositive (int (pos n)) = 0 < n
  IsPositive (int (negsuc n)) = ⊥
  IsPositive null = ⊥
  IsPositive (flag _) = ⊥
  IsPositive (real _) = ⊥
  IsPositive (text _) = ⊥
  IsPositive (ratios _) = ⊥

  -- A mode is given, and with the unknown mode a prior.
  abbrev pub HasMode : (mode prior : Setting F) → Type 0
  HasMode null prior = ⊥
  HasMode (text m) prior = m ≡ "unknown" → IsPositive prior
  HasMode (flag _) prior = Unit
  HasMode (int _) prior = Unit
  HasMode (real _) prior = Unit
  HasMode (ratios _) prior = Unit

  is_bad_mode_iff : (mode : Setting F) → (is_bad_mode mode ≡ false) ↔ IsMode mode
  is_bad_mode_iff null = (λ _. tt, λ _. refl)
  is_bad_mode_iff (text m) =
      ground (arith, string_eq.beq_iff m "known", string_eq.beq_iff m "unknown")
  is_bad_mode_iff (flag _) = (λ h. cc, λ h. absurd h)
  is_bad_mode_iff (int _) = (λ h. cc, λ h. absurd h)
  is_bad_mode_iff (real _) = (λ h. cc, λ h. absurd h)
  is_bad_mode_iff (ratios _) = (λ h. cc, λ h. absurd h)

  is_positive_int_iff : (prior : Setting F) → (is_positive_int prior ≡ true) ↔ IsPositive prior
  is_positive_int_iff (int (pos n)) = ground arith
  is_positive_int_iff (int (negsuc n)) = (λ h. cc, λ h. absurd h)
  is_positive_int_iff null = (λ h. cc, λ h. absurd h)
  is_positive_int_iff (flag _) = (λ h. cc, λ h. absurd h)
  is_positive_int_iff (real _) = (λ h. cc, λ h. absurd h)
  is_positive_int_iff (text _) = (λ h. cc, λ h. absurd h)
  is_positive_int_iff (ratios _) = (λ h. cc, λ h. absurd h)

  check_stated_iff :
      (stated : List (String × Setting F))
      → (check_stated stated ≡ ok tt) ↔ All (λ s. IsMode s.1) stated
  check_stated_iff [] = (λ _. tt, λ _. refl)
  check_stated_iff ((where_set, mode) ∷ stated) =
      let rest = check_stated_iff stated in
      let here = is_bad_mode_iff mode in
      (
        λ h. let (i, h1) = (raise_if->>-iff (is_bad_mode mode) _ _).0 h in (here.0 i, rest.0 h1),
        λ (i, j). (raise_if->>-iff _ _ _).1 (here.1 i, rest.1 j),
      )

  check_mode_iff :
      (arm : String) (mode prior : Setting F)
      → (check_mode arm mode prior ≡ ok tt) ↔ HasMode mode prior
  check_mode_iff arm null prior = (λ h. cc, λ h. absurd h)
  check_mode_iff arm (flag _) prior = (λ _. tt, λ _. refl)
  check_mode_iff arm (int _) prior = (λ _. tt, λ _. refl)
  check_mode_iff arm (real _) prior = (λ _. tt, λ _. refl)
  check_mode_iff arm (ratios _) prior = (λ _. tt, λ _. refl)
  check_mode_iff arm (text m) prior =
      let known = string_eq.beq_iff m "unknown" in
      let given = is_positive_int_iff prior in
      let raised =
        raise_if_iff (m == "unknown" && not (is_positive_int prior)) (no_ect_prior arm) in
      (
        λ h e. given.0 (ground (arith, raised.0 h, known.1 e)),
        λ h. raised.1 (elim (Bool-cases (m == "unknown")) [
          | inl e ↦ ground (arith, e, given.1 (h (known.0 e)))
          | inr e ↦ ground (arith, e)
        ]),
      )

  -- An arm that runs ECT has a mode for it: its own setting before the campaign's.
  abbrev pub ArmHasMode : Campaign F → Arm F → Type 0
  ArmHasMode c a =
      runs_ect c a ≡ true
      → HasMode (arm_setting a "ect_mode" c.ect_mode)
          (arm_setting a "ect_prior_output_len" c.ect_prior_output_len)

  check_arm_modes_iff :
      (c : Campaign F) (arms : List (Arm F))
      → (check_arm_modes c arms ≡ ok tt) ↔ All (ArmHasMode c) arms
  unfolding check_arm_modes
  check_arm_modes_iff c [] = (λ _. tt, λ _. refl)
  check_arm_modes_iff c (a ∷ arms) =
      let here = when_ect_iff (runs_ect c a) _ (
        check_mode_iff a.name (arm_setting a "ect_mode" c.ect_mode)
          (arm_setting a "ect_prior_output_len" c.ect_prior_output_len)) in
      let rest = check_arm_modes_iff c arms in
      (
        λ h. let (i, j) = (>>-iff _ _).0 h in (here.0 i, rest.0 j),
        λ (i, j). (>>-iff _ _).1 (here.1 i, rest.1 j),
      )

  -- The modes that the campaign and its arms state are ones that ECT accepts, and each arm that runs
  -- ECT has one.
  abbrev pub ModesStated : Campaign F → Type 0
  ModesStated c =
      IsMode c.ect_mode
      × All {A = String × Setting F} (λ s. IsMode s.1)
          (map (λ a. (a.name, arm_setting a "ect_mode" null)) c.arms)
      × All (ArmHasMode c) c.arms

  pub check_ect_modes_iff : (c : Campaign F) → (check_ect_modes c ≡ ok tt) ↔ ModesStated c
  unfolding check_ect_modes
  check_ect_modes_iff c =
      let stated = check_stated_iff (
        ("the campaign", c.ect_mode) ∷ map (λ a. (a.name, arm_setting a "ect_mode" null)) c.arms) in
      let arms = check_arm_modes_iff c c.arms in
      (
        λ h. let (i, j) = (>>-iff _ _).0 h in let (a, b) = stated.0 i in (a, b, arms.0 j),
        λ (a, b, j). (>>-iff _ _).1 (stated.1 (a, b), arms.1 j),
      )
