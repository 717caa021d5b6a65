-- ===== src/Pipeline/Loadband.antt =====
-- pipeline/loadband.py: the band of loads in which policies can differ, read off a sweep of runs.
pub mod Sorted
pub mod Edges
pub mod Percentiles
mod Tests
use llm_sched_study.Base.{
  ℕ, zero, suc, ◌+◌, ◌-◌, ◌*◌, Bool, true, false, not, ◌&&◌, ◌||◌, String, Option, none, some, List,
  [], ◌∷◌, map, keep, count_if, length, or_else, ltb, leb, ◌==◌, nat_eq, string_eq, if◌then◌else◌,
  Result, ok, err, ◌>>=◌, or_raise, traverse, best_from, Floats,
}
use llm_sched_study.Harness.Trace.{TraceError}

-- The functions of `math` and `statistics` that the module calls.
pub record Numerics (F : Type 0) : Type 0 where
  -- `math.sqrt(n)`
  pub sqrt : ℕ → F
  -- `math.ceil(x)` of a number that is not negative
  pub ceil : F → ℕ
  pub fmean : List F → F

-- A line of the client log, with the keys that are read here.
pub record ClientLine (F : Type 0) : Type 0 where
  pub intended_offset_s : Option F
  pub actual_send_offset_s : F
  pub status : Option String
  pub e2e_duration_ns : ℕ

pub record RunInfo (F : Type 0) : Type 0 where
  pub run_id : String
  pub operating_point : Option String
  pub warmup_s : Option F
  -- the role of each node, if it has one
  pub roles : List (Option String)
  -- `mean_rate(arrival)` where the config has an arrival block with a process
  pub mean_rate : Option (Result TraceError F)
  pub rate_scale : Option F
  pub lambda_rps : Option F

pub data BandError : Type 0 where
  no_offset : BandError
  no_lambda : BandError
  in_trace : TraceError → BandError
  no_points : BandError

pub record LoadPoint (F : Type 0) : Type 0 where
  pub name : String
  pub lambda_rps : F
  pub n : ℕ
  pub p50_ms : F
  pub p95_ms : F
  pub p99_ms : F
  pub drift_ms : F
  pub achieved_rps : F
  pub n_nodes : ℕ
  pub failures : ℕ
  pub offered_rps : F
  pub n_arrivals : ℕ

pub record LoadBand (F : Type 0) : Type 0 where
  pub lo_rps : Option F
  pub hi_rps : Option F
  pub reference_p50_ms : F
  pub reference_p99_ms : F
  pub points : List (LoadPoint F)
  pub policy_separable : Bool

-- `MIN_SAMPLES`
abbrev pub min_samples : ℕ
min_samples = 30

-- `xs[i]` for an index that is in range; `default` stands for the IndexError that cannot come.
abbrev pub nth : {A : Type 0} → A → List A → ℕ → A
nth default [] i = default
nth default (x ∷ xs) zero = x
nth default (x ∷ xs) (suc i) = nth default xs i

module _ {F : Type 0} where
  abbrev pub is_usable : LoadPoint F → Bool
  is_usable p = leb min_samples p.n

  -- `max(p.n_nodes for p in points)`
  abbrev pub most_nodes : List (LoadPoint F) → ℕ
  most_nodes [] = 0
  most_nodes (p ∷ ps) = best_from (λ a b. ltb b a) p.n_nodes (map (λ p. p.n_nodes) ps)

module _ (fl : Floats) where
  open fl use {Float, lt}

  module _ {A : Type 0} (key : A → Float) where
    abbrev pub insert_by_key : A → List A → List A
    insert_by_key a [] = a ∷ []
    insert_by_key a (b ∷ bs) = if lt (key b) (key a) then b ∷ insert_by_key a bs else a ∷ b ∷ bs

    -- `sorted(xs, key=key)`
    abbrev pub sort_by_key : List A → List A
    sort_by_key [] = []
    sort_by_key (a ∷ as') = insert_by_key a (sort_by_key as')

  -- `min(xs), max(xs)` of `x` and the others.
  abbrev pub extent : Float → List Float → Float × Float
  extent x xs = (best_from (λ a b. lt a b) x xs, best_from (λ a b. lt b a) x xs)

module _ (fl : Floats) (num : Numerics fl.Float) where
  open fl use {Float, of_nat, add, sub, mul, div, lt, le, decimal}

  pub shortfall_threshold : ℕ → Float
  shortfall_threshold zero = of_nat 0
  shortfall_threshold (suc n) =
      let bound = sub (of_nat 1) (div (of_nat 3) (num.sqrt (suc n))) in
      if lt (of_nat 0) bound then bound else of_nat 0

  abbrev pub is_climbing : LoadPoint Float → Bool
  is_climbing p = lt (of_nat 0) p.p50_ms && le (mul (of_nat 1) p.p50_ms) p.drift_ms

  abbrev pub is_short : LoadPoint Float → Bool
  is_short p =
      lt (of_nat 0) p.offered_rps
      && lt p.achieved_rps (mul (shortfall_threshold p.n_arrivals) p.offered_rps)

  pub is_saturated : LoadPoint Float → Bool
  is_saturated p = is_climbing p || is_short p

  -- `max(1, min(len(ordered), math.ceil(q * len(ordered))))`
  abbrev pub rank_of : Float → ℕ → ℕ
  rank_of q n =
      let wanted = num.ceil (mul q (of_nat n)) in
      let capped = if ltb wanted n then wanted else n in if ltb 1 capped then capped else 1

  pub percentile : List Float → Float → Float
  percentile [] q = of_nat 0
  percentile (x ∷ xs) q =
      nth (of_nat 0) (sort_by_key fl (λ y. y) (x ∷ xs)) (rank_of q (length (x ∷ xs)) - 1)

  abbrev pub sum_products : (mean_x mean_y acc : Float) → List (Float × Float) → Float
  sum_products mean_x mean_y acc [] = acc
  sum_products mean_x mean_y acc ((x, y) ∷ ps) =
      sum_products mean_x mean_y (add acc (mul (sub x mean_x) (sub y mean_y))) ps

  -- The slope of the fit over `(offset, latency)`, times the span.
  pub drift_ms : List (Float × Float) → Float
  drift_ms [] = of_nat 0
  drift_ms (p ∷ []) = of_nat 0
  drift_ms (p ∷ q ∷ ps) =
      let all_points = p ∷ q ∷ ps in
      let (first, last) = extent fl p.0 (map (λ x. x.0) (q ∷ ps)) in
      let span = sub last first in
      let mean_x = num.fmean (map (λ x. x.0) all_points) in
      let mean_y = num.fmean (map (λ x. x.1) all_points) in
      let sxx = sum_products mean_x mean_x (of_nat 0) (map (λ x. (x.0, x.0)) all_points) in
      let sxy = sum_products mean_x mean_y (of_nat 0) all_points in
      if le span (of_nat 0) then of_nat 0 else mul (div sxy sxx) span

  -- `_arrival_window`, of a list that is not empty.
  abbrev pub window_of : ClientLine Float → List (ClientLine Float) → Float × Float
  window_of r rs = extent fl r.actual_send_offset_s (map (λ r. r.actual_send_offset_s) rs)

  pub offered_rps : List (ClientLine Float) → Float
  offered_rps [] = of_nat 0
  offered_rps (r ∷ []) = of_nat 0
  offered_rps (r ∷ s ∷ rs) =
      let (first, last) = window_of r (s ∷ rs) in
      if lt first last then div (of_nat (length (r ∷ s ∷ rs))) (sub last first) else of_nat 0

  -- `r["e2e_duration_ns"] / 10 ** k`
  abbrev pub duration : ClientLine Float → ℕ → Float
  duration r k = div (of_nat r.e2e_duration_ns) (of_nat k)

  abbrev pub rate_in : List (ClientLine Float) → Float × Float → Float
  rate_in served (first, last) =
      if le last first
      then of_nat 0
      else div
          (of_nat
            (count_if (λ r. le (add r.actual_send_offset_s (duration r 1000000000)) last) served))
          (sub last first)

  -- `_achieved_rps`, in the window where requests were sent.
  pub achieved_rps : List (ClientLine Float) → List (ClientLine Float) → Float
  achieved_rps [] sent = of_nat 0
  achieved_rps (r ∷ []) sent = of_nat 0
  achieved_rps (r ∷ s ∷ rs) [] = rate_in (r ∷ s ∷ rs) (window_of r (s ∷ rs))
  achieved_rps (r ∷ s ∷ rs) (x ∷ xs) = rate_in (r ∷ s ∷ rs) (window_of x xs)

  -- `_lambda_rps`
  abbrev pub rate_asked :
      Option (Result TraceError Float)
      → (rate_scale lambda_rps : Option Float) → Result BandError Float
  rate_asked (some (ok rate)) (some scale) lambda_rps = ok (mul rate scale)
  rate_asked (some (err e)) (some scale) lambda_rps = err (in_trace e)
  rate_asked (some _) none none = err no_lambda
  rate_asked none _ none = err no_lambda
  rate_asked (some _) none (some rate) = ok rate
  rate_asked none _ (some rate) = ok rate

  -- The offset and the latency of a served request.
  abbrev pub timed_of : ClientLine Float → Result BandError (Float × Float)
  timed_of r = do offset ← or_raise r.intended_offset_s no_offset; ok (offset, duration r 1000000)

  pub point_from_run : RunInfo Float → List (ClientLine Float) → Result BandError (LoadPoint Float)
  unfolding percentile drift_ms offered_rps achieved_rps
  point_from_run manifest records = do
    let warmup_s = or_else manifest.warmup_s (of_nat 0)
    let windowed = keep (λ r. le warmup_s (or_else r.intended_offset_s (of_nat 0))) records
    let served = keep (λ r. or_else r.status "" == "ok") windowed
    let latencies = map (λ r. duration r 1000000) served
    timed ← traverse timed_of served
    rate ← rate_asked manifest.mean_rate manifest.rate_scale manifest.lambda_rps
    ok (record {
      name = or_else manifest.operating_point manifest.run_id;
      lambda_rps = rate;
      n = length served;
      p50_ms = percentile latencies (decimal 50 2);
      p95_ms = percentile latencies (decimal 95 2);
      p99_ms = percentile latencies (decimal 99 2);
      drift_ms = drift_ms timed;
      achieved_rps = achieved_rps served windowed;
      n_nodes = count_if (λ role. or_else role "pool" == "pool") manifest.roles;
      failures = length windowed - length served;
      offered_rps = offered_rps windowed;
      n_arrivals = length windowed;
    })

  abbrev pub by_rate : List (LoadPoint Float) → List (LoadPoint Float)
  by_rate points = sort_by_key fl (λ p. p.lambda_rps) points

  -- `p.p99_ms >= QUEUEING_ONSET * reference.p99_ms`
  abbrev pub is_queueing : LoadPoint Float → LoadPoint Float → Bool
  is_queueing reference p = le (mul (decimal 12 1) reference.p99_ms) p.p99_ms

  -- `next((p.lambda_rps for p in usable if ...), None)`
  abbrev pub first_rate : (LoadPoint Float → Bool) → List (LoadPoint Float) → Option Float
  first_rate test [] = none
  first_rate test (p ∷ ps) = if test p then some p.lambda_rps else first_rate test ps

  -- `max((p.lambda_rps for p in stable), default=None)`
  abbrev pub highest_rate_of : List (LoadPoint Float) → Option Float
  highest_rate_of [] = none
  highest_rate_of (p ∷ ps) =
      some (best_from (λ a b. lt b a) p.lambda_rps (map (λ p. p.lambda_rps) ps))

  -- The band of the usable points, in the order of their rates.
  abbrev pub band_of : List (LoadPoint Float) → List (LoadPoint Float) → LoadBand Float
  band_of points [] = record {
    lo_rps = none;
    hi_rps = none;
    reference_p50_ms = of_nat 0;
    reference_p99_ms = of_nat 0;
    points = by_rate points;
    policy_separable = ltb 1 (most_nodes points);
  }
  band_of points (reference ∷ usable) = record {
    lo_rps = first_rate (is_queueing reference) (reference ∷ usable);
    hi_rps = highest_rate_of (keep (λ p. not (is_saturated p)) (reference ∷ usable));
    reference_p50_ms = reference.p50_ms;
    reference_p99_ms = reference.p99_ms;
    points = by_rate points;
    policy_separable = ltb 1 (most_nodes points);
  }

  pub characterize : List (LoadPoint Float) → Result BandError (LoadBand Float)
  unfolding is_saturated
  characterize [] = err no_points
  characterize (p ∷ ps) = ok (band_of (p ∷ ps) (by_rate (keep is_usable (p ∷ ps))))
