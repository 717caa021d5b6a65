-- ===== src/Harness/Clocksync.antt =====
-- harness/clocksync.py: which hosts' durations are rescaled, and by what.
pub mod Factors
pub mod Hosts
mod Tests
use llm_sched_study.Base.{
  ℕ, Bool, true, false, not, ◌&&◌, ◌||◌, String, Option, none, some, List, [], ◌∷◌, ◌==◌, string_eq,
  if◌then◌else◌, Dict, lookup, insert, Floats,
}
use llm_sched_study.Harness.Manifest.{HostEntry, ClockBlock}

module _ (fl : Floats) where
  open fl use {Float, of_nat, add, sub, mul, feq, decimal}

  -- The rate error of a host beyond that of the reference.
  abbrev pub delta_ppm : HostEntry Float → HostEntry Float → Float
  delta_ppm ref clock = sub clock.rate_error_ppm ref.rate_error_ppm

  -- `host == reference or not clock.get("synchronised")`, and then `if delta_ppm`.
  abbrev pub is_rescaled : String → HostEntry Float → String → HostEntry Float → Bool
  is_rescaled reference ref host clock =
      not (host == reference) && clock.synchronised && not (feq (delta_ppm ref clock) (of_nat 0))

  -- `1.0 + delta_ppm * 1e-6`
  abbrev pub factor : HostEntry Float → HostEntry Float → Float
  factor ref clock = add (of_nat 1) (mul (delta_ppm ref clock) (decimal 1 6))

  -- The loop over `hosts.items()`.
  pub collect_factors :
      String
      → HostEntry Float
      → Dict String Float
      → Dict String (HostEntry Float)
      → Dict String Float
  collect_factors reference ref factors [] = factors
  collect_factors reference ref factors ((host, clock) ∷ hosts) =
      collect_factors reference ref
        (if is_rescaled reference ref host clock
          then insert host (factor ref clock) factors
          else factors)
        hosts

  unfoldable pub rate_factors : Option (ClockBlock Float) → Dict String Float
  unfolding collect_factors
  rate_factors none = []
  rate_factors (some sync) = elim (lookup sync.reference sync.hosts) [
    | none ↦ []
    | some ref ↦ if ref.synchronised then collect_factors sync.reference ref [] sync.hosts else []
  ]
