-- ===== src/Harness/Clocksync/Hosts/Tests.antt =====
-- Two hosts, one of which is not synchronised.
use llm_sched_study.Base.{ℕ, refl, true, false, List, [], ◌∷◌, string_eq}
use llm_sched_study.Samples.{whole}
use llm_sched_study.Harness.Clocksync.Hosts.{
  HostClock, ClockSync, max_abs_offset_ms, max_rate_error_ppm,
}
use llm_sched_study.Harness.Clocksync.Hosts.Verdicts.{Comparable}

abbrev clocks : List (HostClock ℕ)
clocks =
    record {
      host = "client";
      synchronised = true;
      offset_ms = 3;
      rate_error_ppm = 2;
      measured_unix = 50;
    }
    ∷ record {
      host = "gpu1";
      synchronised = false;
      offset_ms = 0;
      rate_error_ppm = 0;
      measured_unix = 70;
    }
    ∷ []

abbrev sync : ClockSync ℕ
sync = record {
  reference = "client";
  hosts =
      (
        "client",
        record {
          host = "client";
          synchronised = true;
          offset_ms = 3;
          rate_error_ppm = 2;
          measured_unix = 50;
        },
      )
      ∷ (
        "gpu1",
        record {
          host = "gpu1";
          synchronised = false;
          offset_ms = 0;
          rate_error_ppm = 0;
          measured_unix = 70;
        },
      )
      ∷ [];
  measured_unix = 70;
}

comparable : Comparable whole sync
unfolding max_abs_offset_ms max_rate_error_ppm
comparable = (refl, refl)
