-- ===== src/Harness/Clocksync/Hosts/Verdicts.antt =====
-- When the clocks of a pool are judged to agree.
use llm_sched_study.Base.{
  ◌≡◌, refl, sym, ◌∙◌, ◌↔◌, true, false, not, String, [], ◌∷◌, arith, truthy, keep, map, All,
  contains, Dict, string_eq, Floats, truthy-sort_by,
}
use llm_sched_study.Harness.Clocksync.Hosts.{
  HostClock, ClockSync, max_abs_offset_ms, max_rate_error_ppm, unsynchronised, max_offset,
  max_rate_error, is_ok, problems,
}

module _ (fl : Floats) where
  open fl use {Float, lt, le}

  kept-none :
      (hosts : Dict String (HostClock Float))
      → (truthy (map (λ e. e.0) (keep (λ e. not e.1.synchronised) hosts)) ≡ false)
        ↔ All (λ e. e.1.synchronised ≡ true) hosts
  kept-none [] = (λ _. tt, λ _. refl)
  kept-none (e ∷ hosts) = ground (arith, kept-none hosts)

  -- No comparison of the two spreads with their bounds meets a NaN: `<=` is the negation of `>`.
  abbrev pub Comparable : ClockSync Float → Type 0
  Comparable s =
      (le (max_abs_offset_ms fl s) (max_offset fl)
        ≡ not (lt (max_offset fl) (max_abs_offset_ms fl s)))
      × (le (max_rate_error_ppm fl s) (max_rate_error fl)
          ≡ not (lt (max_rate_error fl) (max_rate_error_ppm fl s)))

  -- The block is ok exactly if there is no problem to report, where no spread is NaN; and ok says
  -- that every host is synchronised, that the reference was measured, and that both spreads are
  -- within their bounds.
  pub is_ok-cases :
      (s : ClockSync Float)
      → Comparable s
      → ((is_ok fl s ≡ true) ↔ (problems fl s ≡ []))
        × (is_ok fl s ≡ true
            → All (λ e. e.1.synchronised ≡ true) s.hosts
              × (contains s.reference s.hosts ≡ true)
              × (le (max_abs_offset_ms fl s) (max_offset fl) ≡ true)
              × (le (max_rate_error_ppm fl s) (max_rate_error fl) ≡ true))
  unfolding is_ok problems
  is_ok-cases s (offset, rate) =
      let names = map (λ e. e.0) (keep (λ e. not e.1.synchronised) s.hosts) in
      (
        ground (arith, offset, rate),
        λ h.
            let none_unsynced : truthy (unsynchronised fl s) ≡ false = ground (arith, h) in
            (
              (kept-none s.hosts).0 (sym (truthy-sort_by (λ h. h) names) ∙ none_unsynced),
              ground (arith, h),
              ground (arith, h),
              ground (arith, h),
            ),
      )
