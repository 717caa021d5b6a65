-- ===== src/Harness/Clocksync/Hosts.antt =====
-- harness/clocksync.py: the clocks of the hosts of a pool, combined and judged. The reading of one
-- host's clock (`measure`, `parse_tracking`) is an input.
pub mod Verdicts
pub mod Combined
mod Tests
use llm_sched_study.Base.{
  ℕ, Bool, true, false, not, ◌&&◌, String, Option, none, some, List, [], ◌∷◌, ◌==◌, string_eq,
  nat_eq, or_else, is_some, if◌then◌else◌, ltb, length, truthy, keep, map, Dict, lookup, insert,
  contains, Result, ok, err, ◌>>=◌, ◌>>◌, raise_if, Floats, sort_by,
}
use llm_sched_study.Harness.Manifest.{HostEntry, ClockBlock}

-- The fields of a `HostClock` that are compared or reported on.
pub record HostClock (F : Type 0) : Type 0 where
  pub host : String
  pub synchronised : Bool
  pub offset_ms : F
  pub rate_error_ppm : F
  pub measured_unix : ℕ

pub record ClockSync (F : Type 0) : Type 0 where
  pub reference : String
  pub hosts : Dict String (HostClock F)
  pub measured_unix : ℕ

-- The sentences of `problems`, with what they quote.
pub data Problem (F : Type 0) : Type 0 where
  no_reference : String → Problem F
  unsynced : List String → Problem F
  apart : F → Problem F
  rates_differ : F → Problem F

-- The ValueErrors of `combine`.
pub data CombineError : Type 0 where
  no_hosts twice : CombineError

module _ (fl : Floats) where
  open fl use {Float, of_nat, sub, lt, le, round_to}

  -- `max(xs) - min(xs) if len(xs) > 1 else 0.0`; the first of equals stays.
  abbrev pub highest : Float → List Float → Float
  highest m [] = m
  highest m (x ∷ xs) = highest (if lt m x then x else m) xs

  abbrev pub lowest : Float → List Float → Float
  lowest m [] = m
  lowest m (x ∷ xs) = lowest (if lt x m then x else m) xs

  abbrev pub spread : List Float → Float
  spread [] = of_nat 0
  spread (x ∷ []) = of_nat 0
  spread (x ∷ y ∷ xs) = sub (highest x (y ∷ xs)) (lowest x (y ∷ xs))

  -- `[field(h) for h in self.hosts.values() if h.synchronised]`
  abbrev pub of_synced : (HostClock Float → Float) → Dict String (HostClock Float) → List Float
  of_synced field hosts = map (λ e. field e.1) (keep (λ e. e.1.synchronised) hosts)

  pub max_abs_offset_ms : ClockSync Float → Float
  max_abs_offset_ms s = spread (of_synced (λ h. h.offset_ms) s.hosts)

  pub max_rate_error_ppm : ClockSync Float → Float
  max_rate_error_ppm s = spread (of_synced (λ h. h.rate_error_ppm) s.hosts)

  abbrev pub unsynchronised : ClockSync Float → List String
  unsynchronised s = sort_by (λ h. h) (map (λ e. e.0) (keep (λ e. not e.1.synchronised) s.hosts))

  -- `MAX_OFFSET_MS`, `MAX_RATE_ERROR_PPM`
  abbrev pub max_offset : Float
  max_offset = of_nat 100

  abbrev pub max_rate_error : Float
  max_rate_error = of_nat 100

  -- `ok`
  pub is_ok : ClockSync Float → Bool
  unfolding max_abs_offset_ms max_rate_error_ppm
  is_ok s =
      not (truthy (unsynchronised s))
      && contains s.reference s.hosts
      && le (max_abs_offset_ms s) max_offset
      && le (max_rate_error_ppm s) max_rate_error

  -- `if c: out.append(p)`
  abbrev pub append_if : Bool → Problem Float → List (Problem Float) → List (Problem Float)
  append_if c p rest = if c then p ∷ rest else rest

  pub problems : ClockSync Float → List (Problem Float)
  problems s = append_if (not (contains s.reference s.hosts)) (no_reference s.reference) (
      append_if (truthy (unsynchronised s)) (unsynced (unsynchronised s)) (
        append_if (lt max_offset (max_abs_offset_ms s)) (apart (max_abs_offset_ms s)) (
          append_if (lt max_rate_error (max_rate_error_ppm s)) (rates_differ (max_rate_error_ppm s))
            [])))

  -- `{c.host: c for c in clocks}`
  pub by_host :
      Dict String (HostClock Float) → List (HostClock Float) → Dict String (HostClock Float)
  by_host d [] = d
  by_host d (c ∷ cs) = by_host (insert c.host c d) cs

  abbrev pub latest_unix : ℕ → List (HostClock Float) → ℕ
  latest_unix m [] = m
  latest_unix m (c ∷ cs) = latest_unix (if ltb m c.measured_unix then c.measured_unix else m) cs

  -- `reference or clocks[0].host`
  abbrev pub chosen_reference : Option String → String → String
  chosen_reference none first = first
  chosen_reference (some r) first = if r == "" then first else r

  pub combine : List (HostClock Float) → Option String → Result CombineError (ClockSync Float)
  unfolding by_host
  combine [] reference = err no_hosts
  combine (c ∷ cs) reference =
      let hosts = by_host [] (c ∷ cs) in
      do
        raise_if (not (length hosts == length (c ∷ cs))) twice
        ok (record {
          reference = chosen_reference reference c.host;
          hosts = hosts;
          measured_unix = latest_unix c.measured_unix cs;
        })

  -- `to_dict`, as far as `rate_factors` reads it: the entries in the order of their hosts.
  pub to_block : ClockSync Float → ClockBlock Float
  to_block s = record {
    reference = s.reference;
    hosts =
        map
          (λ (h, c). (
            h,
            record { synchronised = c.synchronised; rate_error_ppm = round_to c.rate_error_ppm 4 },
          ))
          (sort_by (λ e. e.0) s.hosts);
  }
