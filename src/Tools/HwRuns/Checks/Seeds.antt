-- ===== src/Tools/HwRuns/Checks/Seeds.antt =====
-- The seeds that a campaign has to state.
use llm_sched_study.Base.{
  ℕ, ◌≤◌, ◌<◌, ◌^◌, ◌≡◌, refl, ◌↔◌, ◌⊎◌, Bool, true, false, not, ◌&&◌, Option, none, some, List, [],
  ◌∷◌, arith, All, any, length, Distinct, Distinct-iff, is_some, nat_eq, ℤ, pos, negsuc, Eq, ok,
  raise_if_iff, raise_if->>-iff, >>-iff,
}
use llm_sched_study.Tools.HwRuns.{
  Campaign, no_repeats, no_repeat_seeds, repeat_seed_twice, no_java_int, no_scheduler_seed,
}
use llm_sched_study.Tools.HwRuns.Checks.{
  int_eq, below_one, is_count, is_java_int, has_repeats, is_seeded, check_repeat_seeds,
  check_scheduler_seeds, check_seeds,
}

abbrev pub AtLeastOne : ℤ → Type 0
AtLeastOne (pos n) = 1 ≤ n
AtLeastOne (negsuc n) = ⊥

abbrev pub IsCount : ℕ → ℤ → Type 0
IsCount n (pos m) = n ≡ m
IsCount n (negsuc m) = ⊥

-- The range of Java's int.
abbrev pub IsJavaInt : ℤ → Type 0
IsJavaInt (pos n) = n < 2 ^ 31
IsJavaInt (negsuc n) = n < 2 ^ 31

abbrev pub RepeatSeeds : ℤ → Option (List ℤ) → Bool → Type 0
RepeatSeeds repeats none seeded = seeded ≡ false
RepeatSeeds repeats (some seeds) seeded = IsCount (length seeds) repeats × Distinct seeds

abbrev pub SchedulerSeeds : ℤ → Option (List ℤ) → Type 0
SchedulerSeeds repeats none = Unit
SchedulerSeeds repeats (some seeds) = IsCount (length seeds) repeats × All IsJavaInt seeds

below_one_iff : (n : ℤ) → (below_one n ≡ false) ↔ AtLeastOne n
below_one_iff (pos n) = ground arith
below_one_iff (negsuc n) = (λ h. cc, λ h. absurd h)

is_count_iff : (n : ℕ) (m : ℤ) → (not (is_count n m) ≡ false) ↔ IsCount n m
is_count_iff n (pos m) = ground arith
is_count_iff n (negsuc m) = (λ h. cc, λ h. absurd h)

is_java_int_iff : (x : ℤ) → (is_java_int x ≡ true) ↔ IsJavaInt x
is_java_int_iff (pos n) = ground arith
is_java_int_iff (negsuc n) = ground arith

All-java_iff : (xs : List ℤ) → (any (λ x. not (is_java_int x)) xs ≡ false) ↔ All IsJavaInt xs
All-java_iff [] = (λ _. tt, λ _. refl)
All-java_iff (x ∷ xs) = ground (arith, is_java_int_iff x, All-java_iff xs)

pub has_repeats_iff : {A : Type 0} ⦃e : Eq A⦄ (xs : List A) → (has_repeats xs ≡ false) ↔ Distinct xs
has_repeats_iff xs = ground (arith, Distinct-iff xs)

check_repeat_seeds_iff :
    (repeats : ℤ) (seeds : Option (List ℤ)) (seeded : Bool)
    → (check_repeat_seeds repeats seeds seeded ≡ ok tt) ↔ RepeatSeeds repeats seeds seeded
check_repeat_seeds_iff repeats none seeded = raise_if_iff seeded no_repeat_seeds
check_repeat_seeds_iff repeats (some seeds) seeded = (
  λ h.
      let (a, h1) = (raise_if->>-iff _ _ _).0 h in
      (
        (is_count_iff (length seeds) repeats).0 a,
        (has_repeats_iff seeds).0 ((raise_if_iff _ _).0 h1),
      ),
  λ (a, b). (raise_if->>-iff _ _ _).1 (
    (is_count_iff (length seeds) repeats).1 a,
    (raise_if_iff _ repeat_seed_twice).1 ((has_repeats_iff seeds).1 b),
  ),
)

check_scheduler_seeds_iff :
    (repeats : ℤ) (seeds : Option (List ℤ))
    → (check_scheduler_seeds repeats seeds ≡ ok tt) ↔ SchedulerSeeds repeats seeds
check_scheduler_seeds_iff repeats none = (λ _. tt, λ _. refl)
check_scheduler_seeds_iff repeats (some seeds) = (
  λ h.
      let (a, h1) = (raise_if->>-iff _ _ _).0 h in
      ((is_count_iff (length seeds) repeats).0 a, (All-java_iff seeds).0 ((raise_if_iff _ _).0 h1)),
  λ (a, b). (raise_if->>-iff _ _ _).1 (
    (is_count_iff (length seeds) repeats).1 a,
    (raise_if_iff _ no_java_int).1 ((All-java_iff seeds).1 b),
  ),
)

either_iff : (a b : Bool) → (not a && not b ≡ false) ↔ ((a ≡ true) ⊎ (b ≡ true))
either_iff a b = ground arith

module _ {F : Type 0} where
  -- One repeat at least; one seed for each repeat, none twice, where a workload is drawn; a seed for
  -- the scheduler from one list or the other, in the range that it reads.
  abbrev pub SeedsStated : Campaign F → Type 0
  SeedsStated c =
      AtLeastOne c.repeats
      × RepeatSeeds c.repeats c.repeat_seeds (any (λ w. is_seeded w.source) c.workloads)
      × ((is_some c.scheduler_seeds ≡ true) ⊎ (is_some c.repeat_seeds ≡ true))
      × SchedulerSeeds c.repeats c.scheduler_seeds

  pub check_seeds_iff : (c : Campaign F) → (check_seeds c ≡ ok tt) ↔ SeedsStated c
  unfolding check_seeds
  check_seeds_iff c =
      let repeat =
        check_repeat_seeds_iff c.repeats c.repeat_seeds
          (any (λ w. is_seeded w.source) c.workloads) in
      let scheduler = check_scheduler_seeds_iff c.repeats c.scheduler_seeds in
      let either = either_iff (is_some c.scheduler_seeds) (is_some c.repeat_seeds) in
      (
        λ h.
            let (a, h1) = (raise_if->>-iff (below_one c.repeats) no_repeats _).0 h in
            let (b, h2) = (>>-iff _ _).0 h1 in
            let (d, h3) =
              (raise_if->>-iff (not (is_some c.scheduler_seeds) && not (is_some c.repeat_seeds))
                  no_scheduler_seed _).0
                h2 in
            ((below_one_iff c.repeats).0 a, repeat.0 b, either.0 d, scheduler.0 h3),
        λ (a, b, d, e). (raise_if->>-iff _ _ _).1 (
          (below_one_iff c.repeats).1 a,
          (>>-iff _ _).1 (repeat.1 b, (raise_if->>-iff _ _ _).1 (either.1 d, scheduler.1 e)),
        ),
      )
