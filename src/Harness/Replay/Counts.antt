-- ===== src/Harness/Replay/Counts.antt =====
-- What makes a replay valid, from the records to the verdict.
use llm_sched_study.Base.{
  ◌≡◌, refl, ◌↔◌, Bool, true, false, not, Option, List, [], ◌∷◌, arith, ◌==◌, string_eq, nat_eq,
  All, count_if, keep, inl, inr, Bool-cases, Floats,
}
use llm_sched_study.Harness.Node.{Node}
use llm_sched_study.Harness.Launch.{colocated_count}
use llm_sched_study.Harness.Launch.Colocation.{HostsApart, colocated_count-HostsApart}
use llm_sched_study.Harness.Manifest.{ClockBlock, valid}
use llm_sched_study.Harness.Replay.{FireRecord, measure, post_run_validity}

pub count_if_zero_iff :
    {A : Type 0} (p : A → Bool) (xs : List A) → (count_if p xs ≡ 0) ↔ All (λ x. p x ≡ false) xs
count_if_zero_iff p [] = (λ _. tt, λ _. refl)
count_if_zero_iff p (x ∷ xs) = ground (arith, count_if_zero_iff p xs)

-- What holds of the elements that are kept holds of all that would be.
pub All-keep_iff :
    {A : Type 0} (p : A → Bool) (P : A → Type 0) (xs : List A)
    → All P (keep p xs) ↔ All (λ x. p x ≡ true → P x) xs
All-keep_iff p P [] = (λ h. h, λ h. h)
All-keep_iff p P (x ∷ xs) =
    let rest = All-keep_iff p P xs in
    elim (Bool-cases (p x)) [
      | inl e ↦ rw e (λ (h, hs). (λ _. h, rest.0 hs), λ (h, hs). (h refl, rest.1 hs))
      | inr e ↦ rw e (λ hs. (λ k. cc, rest.0 hs), λ (_, hs). rest.1 hs)
    ]

module _ (fl : Floats) where
  open fl use {Float, lt, le}

  pub counts_zero_iff :
      (threshold_ms : Float) (rs : List (FireRecord Float))
      → ((count_if (λ r. lt threshold_ms r.send_lag_ms) rs ≡ 0)
          × (count_if (λ r. not (r.status == "ok")) rs ≡ 0))
        ↔ All (λ r. (lt threshold_ms r.send_lag_ms ≡ false) × (r.status ≡ "ok")) rs
  counts_zero_iff threshold_ms [] = (λ _. tt, λ _. (refl, refl))
  counts_zero_iff threshold_ms (r ∷ rs) =
      ground (arith, counts_zero_iff threshold_ms rs, string_eq.beq_iff r.status "ok")

  counts-measure_iff :
      (warmup_s threshold_ms : Float) (records : List (FireRecord Float)) (nodes : List Node)
      (clock_sync : Option (ClockBlock Float))
      → (valid (post_run_validity fl (measure fl warmup_s threshold_ms records) nodes clock_sync)
          ≡ true)
        ↔ ((colocated_count nodes ≡ 0)
            × All
                (λ r. (lt threshold_ms r.send_lag_ms ≡ false) × (r.status ≡ "ok"))
                (keep (λ r. le warmup_s r.intended_offset_s) records))
  unfolding measure post_run_validity valid
  counts-measure_iff warmup_s threshold_ms records nodes clock_sync =
      ground
        (arith, counts_zero_iff threshold_ms (keep (λ r. le warmup_s r.intended_offset_s) records))

  -- The verdict after a replay: valid exactly if no two pool nodes share a host and every request of
  -- the measurement window, those whose offset is not below the warmup, came back ok and was sent
  -- within the threshold. Requests of the warmup do not count.
  pub valid-measure_iff :
      (warmup_s threshold_ms : Float) (records : List (FireRecord Float)) (nodes : List Node)
      (clock_sync : Option (ClockBlock Float))
      → (valid (post_run_validity fl (measure fl warmup_s threshold_ms records) nodes clock_sync)
          ≡ true)
        ↔ (HostsApart nodes
            × All
                (λ r.
                  le warmup_s r.intended_offset_s ≡ true
                  → (lt threshold_ms r.send_lag_ms ≡ false) × (r.status ≡ "ok"))
                records)
  valid-measure_iff warmup_s threshold_ms records nodes clock_sync =
      let counted = counts-measure_iff warmup_s threshold_ms records nodes clock_sync in
      let window =
        All-keep_iff (λ (r : FireRecord Float). le warmup_s r.intended_offset_s) _ records in
      let hosts = colocated_count-HostsApart nodes in
      (
        λ h. let (a, b) = counted.0 h in (hosts.0 a, window.0 b),
        λ (a, b). counted.1 (hosts.1 a, window.1 b),
      )
