-- ===== src/Calibration/Ranges.antt =====
-- calibration/r_range.py: the ratio between node classes that a pool can be configured to, and the
-- one that it can be deployed at.
pub mod Pairs
pub mod Kept
pub mod Extents
mod Tests
use llm_sched_study.Base.{
  ℕ, Bool, true, false, not, String, Option, none, some, List, [], ◌∷◌, ◌++◌, map, keep, length,
  to_set, sort_by, ltb, ◌==◌, string_eq, if◌then◌else◌, Result, ok, err, ◌>>=◌, ◌>>◌, raise_if,
  best_from, Floats,
}

-- `engine_config` goes along unread and is left out.
pub record NodeClassThroughput (F : Type 0) : Type 0 where
  pub node_class : String
  pub host : String
  pub tokens_per_s : F
  pub model : String

-- The ValueErrors of the constructor and of `synthesizable_range`.
pub data RangeError : Type 0 where
  not_positive : String → RangeError
  too_few : ℕ → RangeError
  mixed_models : List String → RangeError

-- `combinations(xs, 2)`
pub combinations : {A : Type 0} → List A → List (A × A)
combinations [] = []
combinations (x ∷ xs) = map (λ y. (x, y)) xs ++ combinations xs

module _ (fl : Floats) where
  open fl use {Float, of_nat, div, lt, le}

  abbrev pub Class : Type 0
  Class = NodeClassThroughput Float

  -- `__post_init__`
  pub new_throughput : Class → Result RangeError Class
  new_throughput c = do raise_if (le c.tokens_per_s (of_nat 0)) (not_positive c.node_class); ok c

  pub record RRange : Type 0 where
    pub r_min : Float
    pub r_max_configured : Float
    pub r_max_deployable : Float
    pub fastest : Class
    pub slowest : Class
    pub deployable_pair : Option (Class × Class)
    pub n_classes : ℕ
    pub n_hosts : ℕ

  -- `max` and `min` by `tokens_per_s`.
  abbrev pub faster : Class → Class → Bool
  faster a b = lt b.tokens_per_s a.tokens_per_s

  abbrev pub slower : Class → Class → Bool
  slower a b = lt a.tokens_per_s b.tokens_per_s

  abbrev pub hi_of : Class × Class → Class
  hi_of (a, b) = best_from faster a (b ∷ [])

  abbrev pub lo_of : Class × Class → Class
  lo_of (a, b) = best_from slower a (b ∷ [])

  -- `max(a, b) / min(a, b)` of a pair's throughputs.
  abbrev pub ratio : Class × Class → Float
  ratio p = div (hi_of p).tokens_per_s (lo_of p).tokens_per_s

  abbrev pub wider : Class × Class → Class × Class → Bool
  wider p q = lt (ratio q) (ratio p)

  abbrev pub cross_host : List Class → List (Class × Class)
  cross_host classes = keep (λ p. not (p.0.host == p.1.host)) (combinations classes)

  abbrev pub widest : List (Class × Class) → Option (Class × Class)
  widest [] = none
  widest (p ∷ ps) = some (let pair = best_from wider p ps in (hi_of pair, lo_of pair))

  abbrev pub deployable : Option (Class × Class) → Float
  deployable none = of_nat 1
  deployable (some (hi, lo)) = div hi.tokens_per_s lo.tokens_per_s

  -- The range of the classes `c ∷ cs`.
  pub range_of : Class → List Class → RRange
  unfolding combinations
  range_of c cs =
      let fastest = best_from faster c cs in
      let slowest = best_from slower c cs in
      let pair = widest (cross_host (c ∷ cs)) in
      record {
        r_min = of_nat 1;
        r_max_configured = div fastest.tokens_per_s slowest.tokens_per_s;
        r_max_deployable = deployable pair;
        fastest = fastest;
        slowest = slowest;
        deployable_pair = pair;
        n_classes = length (c ∷ cs);
        n_hosts = length (to_set (map (λ x. x.host) (c ∷ cs)));
      }

  abbrev pub models_of : List Class → List String
  models_of classes = to_set (map (λ x. x.model) classes)

  pub synthesizable_range : List Class → Result RangeError RRange
  unfolding range_of
  synthesizable_range [] = err (too_few 0)
  synthesizable_range (c ∷ []) = err (too_few 1)
  synthesizable_range (c ∷ d ∷ cs) = do
    raise_if (ltb 1 (length (models_of (c ∷ d ∷ cs))))
        (mixed_models (sort_by (λ m. m) (models_of (c ∷ d ∷ cs))))
    ok (range_of c (d ∷ cs))
