-- ===== src/Tools/HwRuns/Plan.antt =====
-- tools/hw_runs.py, `plan`: the runs of a campaign in their order. What the plan reads from outside,
-- the random stream and the text of a float are an argument.
pub mod Slots
pub mod Rows
pub mod Ordered
pub mod Covers
pub mod Seeds
mod Tests
use llm_sched_study.Base.{
  ℕ, zero, suc, ◌+◌, ◌-◌, ◌%◌, ◌^◌, Bool, true, false, not, ◌&&◌, String, Option, none, some, List,
  [], ◌∷◌, ◌++◌, map, length, or_else, is_some, Dict, ◌==◌, nat_eq, string_eq, if◌then◌else◌, str,
  ◌<>◌, ℤ, pos, negsuc, Result, ok, err, ◌>>=◌, or_raise, Floats,
}
use llm_sched_study.Harness.Trace.{TraceError}
use llm_sched_study.Tools.PoolLoad.{
  LengthDist, Target, lambda_rps, pool_utilisation, slow_node_utilisation, LoadError, CostModel,
  pool_capacity, rate_for, divide,
}
use llm_sched_study.Tools.HwRuns.{
  Point, Arm, TraceConfig, Source, from_config, from_trace, Workload, Campaign, Run, HwError,
  index_error, in_load, in_trace,
}

pub record Outside (fl : Floats) : Type 1 where
  -- `random.Random(seed).shuffle(xs)`
  pub shuffle : (A : Type 0) → String → List A → List A
  -- `f"{x:g}"` and `f"{x}"`
  pub general : fl.Float → String
  pub plain : fl.Float → String
  pub split_bucket : String → Option (ℕ × ℕ)
  -- `snapshot_index(SNAPSHOT_ROOT)`
  pub index : Dict String (CostModel fl.Float)
  -- the header of `gen_trace.load(path, expect_sha256=sha256)`
  pub header_of : (path sha256 : String) → Result TraceError (TraceConfig fl.Float)

-- `xs[i]` for an `i` that is not negative.
abbrev pub item : {A : Type 0} → List A → ℕ → Result HwError A
item [] i = err index_error
item (x ∷ xs) zero = ok x
item (x ∷ xs) (suc i) = item xs i

-- `n % m` for a positive `m`.
abbrev pub int_mod : ℤ → ℕ → ℕ
int_mod (pos n) m = n % m
int_mod (negsuc n) m = m - 1 - n % m

-- `for x in xs: state = f(state, x)`, where `f` may raise.
abbrev pub each : {S A : Type 0} → (S → A → Result HwError S) → S → List A → Result HwError S
each f state [] = ok state
each f state (x ∷ xs) = f state x >>= λ next. each f next xs

-- `range(first, first + n)`
abbrev pub numbers : ℕ → ℕ → List ℕ
numbers first zero = []
numbers first (suc n) = first ∷ numbers (first + 1) n

-- `range(1, repeats + 1)`
abbrev pub rounds : ℤ → List ℕ
rounds (pos n) = numbers 1 n
rounds (negsuc n) = []

-- `seeds[rep - 1] if seeds is not None else None`
abbrev pub seed_at : Option (List ℤ) → ℕ → Result HwError (Option ℤ)
seed_at none rep = ok none
seed_at (some seeds) rep = item seeds (rep - 1) >>= λ seed. ok (some seed)

-- `gen_seed % (2**31)`, if there is one.
abbrev pub wrapped : Option ℤ → Option ℤ
wrapped none = none
wrapped (some seed) = some (pos (int_mod seed (2 ^ 31)))

abbrev pub scheduler_seed_at : Option (List ℤ) → Option ℤ → ℕ → Result HwError (Option ℤ)
scheduler_seed_at none gen_seed rep = ok (wrapped gen_seed)
scheduler_seed_at (some seeds) gen_seed rep = seed_at (some seeds) rep

module _ {F : Type 0} where
  -- `a.policies if a.policies is not None else c.policies`
  abbrev pub policies_of : Campaign F → Arm F → List String
  policies_of c a = or_else a.policies c.policies

  abbrev pub arm_rows :
      Campaign F → Workload F → List (Arm F) → List (Workload F × (Arm F × String))
  arm_rows c w [] = []
  arm_rows c w (a ∷ arms) = map (λ p. (w, (a, p))) (policies_of c a) ++ arm_rows c w arms

  abbrev pub product : Campaign F → List (Workload F) → List (Workload F × (Arm F × String))
  product c [] = []
  product c (w ∷ ws) = arm_rows c w c.arms ++ product c ws

module _ (fl : Floats) (o : Outside fl) where
  open fl use {Float, lt, div}
  open o use {shuffle, general, plain, split_bucket, index, header_of}

  abbrev pub target_value : Target Float → Float
  target_value (lambda_rps x) = x
  target_value (pool_utilisation x) = x
  target_value (slow_node_utilisation x) = x

  -- `Point.order`. A point has one or the other, which the parser sees to: one with neither fails the
  -- assertion of the source, and has the order 0 here.
  abbrev pub order_of : Option Float → Option (Target Float) → Float
  order_of (some rate) target = rate
  order_of none none = fl.of_nat 0
  order_of none (some target) = target_value target

  abbrev pub insert_point : Point Float → List (Point Float) → List (Point Float)
  insert_point p [] = p ∷ []
  insert_point p (q ∷ qs) =
      if lt (order_of q.rate_scale q.target) (order_of p.rate_scale p.target)
      then q ∷ insert_point p qs
      else p ∷ q ∷ qs

  -- `sorted(c.points, key=lambda p: p.order)`
  abbrev pub sort_points : List (Point Float) → List (Point Float)
  sort_points [] = []
  sort_points (p ∷ ps) = insert_point p (sort_points ps)

  -- `f"{c.tag}|{rep}|{point.name}|{staleness}"`
  abbrev pub shuffle_seed : Campaign Float → ℕ → Point Float → Float → String
  shuffle_seed c rep point staleness =
      c.tag <> ("|" <> (str rep <> ("|" <> (point.name <> ("|" <> plain staleness)))))

  -- The runs of one repeat at one point and one staleness, before they are numbered.
  abbrev pub order_for :
      Campaign Float
      → ℕ
      → Point Float
      → Float
      → List (Workload Float)
      → List (Arm Float)
      → List (Workload Float × (Arm Float × String))
  order_for c rep point staleness (w ∷ []) (a ∷ []) =
      map (λ p. (w, (a, p))) (shuffle String (shuffle_seed c rep point staleness) c.policies)
  order_for c rep point staleness ws arms =
      shuffle (Workload Float × (Arm Float × String)) (shuffle_seed c rep point staleness)
        (product c ws)

  abbrev pub raise_load : {A : Type 0} → Result LoadError A → Result HwError A
  raise_load (ok a) = ok a
  raise_load (err e) = err (in_load e)

  abbrev pub raise_trace : {A : Type 0} → Result TraceError A → Result HwError A
  raise_trace (ok a) = ok a
  raise_trace (err e) = err (in_trace e)

  -- The trace config of a workload, or the header of its trace.
  abbrev pub config_of : Source Float → Result TraceError (TraceConfig Float)
  config_of (from_config path config) = ok config
  config_of (from_trace path sha256) = header_of path sha256

  -- The rate of a target, as a scale of the workload's own.
  pub scale_for : Campaign Float → Target Float → Workload Float → Result HwError Float
  scale_for c target w = do
    config ← raise_trace (config_of w.source)
    base_rate ← raise_trace config.mean_rate
    capacity ←
        raise_load
          (pool_capacity fl split_bucket c.nodes c.cost_model_snapshots config.length_dist index)
    rate ← raise_load (rate_for fl target capacity)
    raise_load (divide fl split_bucket rate base_rate)

  abbrev pub with_rate :
      Campaign Float
      → Point Float
      → Workload Float
      → Option Float
      → Option (Target Float)
      → Result HwError (Point Float)
  with_rate c point w (some rate) target = ok point
  with_rate c point w none none = ok point
  with_rate c point w none (some target) = do
    rate ← scale_for c target w
    ok (record point { rate_scale = some rate })

  pub resolve_point : Campaign Float → Point Float → Workload Float → Result HwError (Point Float)
  unfolding scale_for
  resolve_point c point w = with_rate c point w point.rate_scale point.target

  abbrev pub tagged : String → String → String
  tagged tag name = if name == "" then tag else tag <> ("_" <> name)

  -- `f"_{arm.name}" if arm.name else ""`
  abbrev pub suffix : String → String
  suffix name = if name == "" then "" else "_" <> name

  abbrev pub run_id_of :
      Campaign Float → Workload Float → Arm Float → String → Float → Point Float → ℕ → String
  run_id_of c w a policy staleness point rep =
      tagged c.tag w.name
      <> ("_"
          <> (policy
              <> (suffix a.name
                  <> ("_s" <> (general staleness <> ("_" <> (point.name <> ("_r" <> str rep))))))))

  -- The body of the innermost loop.
  pub add_run :
      Campaign Float
      → ℕ
      → Option ℤ
      → Option ℤ
      → Point Float
      → Float
      → List (Run Float)
      → Workload Float × (Arm Float × String)
      → Result HwError (List (Run Float))
  unfolding resolve_point
  add_run c rep gen_seed scheduler_seed point staleness runs (w, (a, policy)) = do
    resolved ← resolve_point c point w
    ok (
        runs
        ++ record {
          run_id = run_id_of c w a policy staleness point rep;
          policy = policy;
          arm = a;
          point = resolved;
          staleness_s = staleness;
          repeat = rep;
          sequence_no = length runs;
          workload = w;
          gen_seed = gen_seed;
          scheduler_seed = scheduler_seed;
        }
          ∷ [])

  abbrev pub add_staleness :
      Campaign Float
      → ℕ
      → Option ℤ
      → Option ℤ
      → Point Float
      → List (Run Float)
      → Float
      → Result HwError (List (Run Float))
  add_staleness c rep gen_seed scheduler_seed point runs staleness =
      each (add_run c rep gen_seed scheduler_seed point staleness) runs
        (order_for c rep point staleness c.workloads c.arms)

  abbrev pub add_point :
      Campaign Float
      → ℕ
      → Option ℤ
      → Option ℤ
      → List (Run Float)
      → Point Float
      → Result HwError (List (Run Float))
  add_point c rep gen_seed scheduler_seed runs point =
      each (add_staleness c rep gen_seed scheduler_seed point) runs c.staleness_s

  abbrev pub add_repeat : Campaign Float → List (Run Float) → ℕ → Result HwError (List (Run Float))
  add_repeat c runs rep = do
    gen_seed ← seed_at c.repeat_seeds rep
    scheduler_seed ← scheduler_seed_at c.scheduler_seeds gen_seed rep
    each (add_point c rep gen_seed scheduler_seed) runs (sort_points c.points)

  pub plan : Campaign Float → Result HwError (List (Run Float))
  unfolding add_run
  plan c = each (add_repeat c) [] (rounds c.repeats)
