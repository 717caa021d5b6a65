-- ===== src/Calibration/Envelopes.antt =====
-- calibration/admissible.py: the requests that every node of a pool serves in time, read off the
-- cost models, and the cliff outside of them.
pub mod Rectangles
pub mod Fitting
pub mod Largest
pub mod Pool
use llm_sched_study.Base.{
  ℕ, zero, suc, ◌+◌, ◌*◌, Bool, true, false, not, ◌&&◌, ◌||◌, String, Option, none, some, List, [],
  ◌∷◌, ◌++◌, map, keep, all, any, length, truthy, count_if, or_else, to_set, Dict, lookup, insert,
  ltb, leb, ◌==◌, nat_eq, string_eq, if◌then◌else◌, Result, ok, err, ◌>>=◌, ◌>>◌, raise_if,
  traverse, best_from, text_leb, sort_by, str, ◌<>◌, Floats,
}

-- A prompt and an output length, the upper ends of a cell's buckets.
abbrev pub Bucket : Type 0
Bucket = ℕ × ℕ

-- An entry of a C-3 snapshot.
pub record CostCell (F : Type 0) : Type 0 where
  pub prompt_hi : ℕ
  pub output_hi : ℕ
  pub concurrency : ℕ
  pub service_ms_p95 : F

pub record CostSnapshot (F : Type 0) : Type 0 where
  pub node_class : String
  pub timeout_ceiling_ms : ℕ
  pub entries : List (CostCell F)

pub data TieBreak : Type 0 where
  by_area by_prompt : TieBreak

-- The flat description that `determine` takes and `node_limit_from_snapshot` gives.
pub record NodeEnvelope (F : Type 0) : Type 0 where
  pub node_class : Option String
  pub max_prompt : ℕ
  pub max_output : ℕ
  pub timeout_ceiling_ms : ℕ
  pub limiting_concurrency : Option ℕ
  pub worst_p95_ms : Option F
  pub tie_break : Option TieBreak

pub record NodeLimit (F : Type 0) : Type 0 where
  pub node_class : String
  pub max_prompt : ℕ
  pub max_output : ℕ
  pub limiting_concurrency : ℕ
  pub worst_p95_ms : F

-- What `determine` returns.
pub record PoolEnvelope (F : Type 0) : Type 0 where
  pub max_prompt : ℕ
  pub max_output : ℕ
  pub timeout_ceiling_ms : ℕ
  pub limiting_node : Option String
  pub per_node : List (NodeLimit F)

pub data EnvelopeError : Type 0 where
  no_nodes : EnvelopeError
  no_common_envelope : (ceiling : ℕ) (node_class : String) → EnvelopeError
  no_runs : EnvelopeError
  many_models : List String → EnvelopeError
  no_snapshots : (path : String) → EnvelopeError

-- `BUCKET_LADDER`
abbrev pub bucket_ladder : List Bucket
bucket_ladder = (128, 64) ∷ (256, 64) ∷ (512, 128) ∷ (1024, 128) ∷ (2048, 256) ∷ []

abbrev pub same_bucket : Bucket → Bucket → Bool
same_bucket a b = a.0 == b.0 && a.1 == b.1

-- `q <= p and r <= o` for (q, r) in (p, o).
abbrev pub is_inside : Bucket → Bucket → Bool
is_inside (q, r) (p, o) = leb q p && leb r o

-- `(c[0] * c[1], c[0])`, in order.
abbrev pub ranks_below : Bucket → Bucket → Bool
ranks_below (q, r) (p, o) = ltb (q * r) (p * o) || (q * r == p * o && ltb q p)

-- `[... if ok and all(fit for (q, r), fit in fits.items() if q <= p and r <= o)]`
abbrev pub is_admitted : List (Bucket × Bool) → Bucket × Bool → Bool
is_admitted fits (b, fit) = fit && all (λ c. not (is_inside c.0 b) || c.1) fits

abbrev pub admitted : List (Bucket × Bool) → List Bucket
admitted fits = map (λ c. c.0) (keep (is_admitted fits) fits)

abbrev pub is_maximal : List Bucket → Bucket → Bool
is_maximal all_admitted b = not (any (λ c. not (same_bucket c b) && is_inside b c) all_admitted)

abbrev pub maximal : List Bucket → List Bucket
maximal all_admitted = keep (is_maximal all_admitted) all_admitted

abbrev pub insert_ranked : Bucket → List Bucket → List Bucket
insert_ranked b [] = b ∷ []
insert_ranked b (c ∷ cs) = if ranks_below b c then c ∷ insert_ranked b cs else b ∷ c ∷ cs

-- `sorted(maximal, key=..., reverse=True)`, which leaves equals in their order.
abbrev pub rank : List Bucket → List Bucket
rank [] = []
rank (b ∷ bs) = insert_ranked b (rank bs)

-- `ranked[0] if ranked else (0, 0)`
abbrev pub first_ranked : List Bucket → Bucket
first_ranked [] = (0, 0)
first_ranked (b ∷ bs) = b

abbrev pub tie_break_of : List Bucket → Option TieBreak
tie_break_of [] = none
tie_break_of (b ∷ []) = none
tie_break_of (b ∷ c ∷ bs) = some (if ltb (c.0 * c.1) (b.0 * b.1) then by_area else by_prompt)

-- A group of cells, of which there is one at least.
abbrev pub Group : Type 0 → Type 0
Group F = CostCell F × List (CostCell F)

module _ {F : Type 0} where
  abbrev pub bucket_of : CostCell F → Bucket
  bucket_of e = (e.prompt_hi, e.output_hi)

  -- `by_bucket.setdefault(bucket, []).append(e)`
  abbrev pub add_cell : List (Bucket × Group F) → CostCell F → List (Bucket × Group F)
  add_cell [] e = (bucket_of e, (e, [])) ∷ []
  add_cell ((b, (first, others)) ∷ groups) e =
      if same_bucket b (bucket_of e)
      then (b, (first, others ++ e ∷ [])) ∷ groups
      else (b, (first, others)) ∷ add_cell groups e

  abbrev pub by_bucket : List (Bucket × Group F) → List (CostCell F) → List (Bucket × Group F)
  by_bucket groups [] = groups
  by_bucket groups (e ∷ es) = by_bucket (add_cell groups e) es

-- `f"p{p}_o{o}"`
abbrev pub bucket_id : Bucket → String
bucket_id (p, o) = "p" <> (str p <> ("_o" <> str o))

pub buckets_within : (max_prompt max_output : ℕ) → List String
buckets_within max_prompt max_output =
    map bucket_id (keep (λ b. is_inside b (max_prompt, max_output)) bucket_ladder)

-- `min(xs)` of `x` and the others.
abbrev pub least : ℕ → List ℕ → ℕ
least x xs = best_from (λ a b. ltb a b) x xs

module _ (fl : Floats) where
  open fl use {Float, of_nat, lt, le, round_to}

  -- `max(entries, key=lambda e: e["service_ms_p95"])`
  abbrev pub worst_of : Group Float → CostCell Float
  worst_of (first, others) = best_from (λ x m. lt m.service_ms_p95 x.service_ms_p95) first others

  abbrev pub group_fits : ℕ → Group Float → Bool
  group_fits ceiling g = le (worst_of g).service_ms_p95 (of_nat ceiling)

  abbrev pub fits_of : ℕ → List (Bucket × Group Float) → List (Bucket × Bool)
  fits_of ceiling groups = map (λ (b, g). (b, group_fits ceiling g)) groups

  -- The worst p95 of the buckets that do not fit, and its concurrency.
  abbrev pub worst_from : ℕ → Float × ℕ → List (Bucket × Group Float) → Float × ℕ
  worst_from ceiling acc [] = acc
  worst_from ceiling (worst, limiting) ((b, g) ∷ groups) =
      worst_from ceiling
        (if not (group_fits ceiling g) && lt worst (worst_of g).service_ms_p95
          then ((worst_of g).service_ms_p95, (worst_of g).concurrency)
          else (worst, limiting))
        groups

  abbrev pub ranked_of : ℕ → CostSnapshot Float → List Bucket
  ranked_of ceiling s = rank (maximal (admitted (fits_of ceiling (by_bucket [] s.entries))))

  pub node_limit_from_snapshot : CostSnapshot Float → ℕ → NodeEnvelope Float
  node_limit_from_snapshot s ceiling =
      let ranked = ranked_of ceiling s in
      let best = first_ranked ranked in
      let limit = worst_from ceiling (of_nat 0, 0) (by_bucket [] s.entries) in
      record {
        node_class = some s.node_class;
        max_prompt = best.0;
        max_output = best.1;
        timeout_ceiling_ms = ceiling;
        limiting_concurrency = some limit.1;
        worst_p95_ms = some limit.0;
        tie_break = tie_break_of ranked;
      }

  -- The limit at index `i`.
  abbrev pub limit_of : ℕ → NodeEnvelope Float → NodeLimit Float
  limit_of i e = record {
    node_class = or_else e.node_class ("node_" <> str i);
    max_prompt = e.max_prompt;
    max_output = e.max_output;
    limiting_concurrency = or_else e.limiting_concurrency 0;
    worst_p95_ms = or_else e.worst_p95_ms (of_nat 0);
  }

  abbrev pub limits_from : ℕ → List (NodeEnvelope Float) → List (NodeLimit Float)
  limits_from i [] = []
  limits_from i (e ∷ es) = limit_of i e ∷ limits_from (i + 1) es

  abbrev pub is_tighter : NodeLimit Float → NodeLimit Float → Bool
  is_tighter a b =
      ltb a.max_prompt b.max_prompt
      || (a.max_prompt == b.max_prompt && ltb a.max_output b.max_output)

  abbrev pub rounded : NodeLimit Float → NodeLimit Float
  rounded limit = record limit { worst_p95_ms = round_to limit.worst_p95_ms 3 }

  -- `binding.node_class if len(limits) > 1 else None`
  abbrev pub limiting_of : String → List (NodeLimit Float) → Option String
  limiting_of name [] = none
  limiting_of name (_ ∷ _) = some name

  abbrev pub intersect :
      ℕ → NodeLimit Float → List (NodeLimit Float) → Result EnvelopeError (PoolEnvelope Float)
  intersect ceiling limit limits =
      let max_prompt = least limit.max_prompt (map (λ l. l.max_prompt) limits) in
      let max_output = least limit.max_output (map (λ l. l.max_output) limits) in
      let binding = best_from is_tighter limit limits in
      (raise_if (max_prompt == 0 || max_output == 0) (no_common_envelope ceiling binding.node_class)
        >> ok (record {
          max_prompt = max_prompt;
          max_output = max_output;
          timeout_ceiling_ms = ceiling;
          limiting_node = limiting_of binding.node_class limits;
          per_node = map rounded (limit ∷ limits);
        }))

  pub determine : List (NodeEnvelope Float) → Option ℕ → Result EnvelopeError (PoolEnvelope Float)
  determine [] timeout_ceiling_ms = err no_nodes
  determine (e ∷ es) timeout_ceiling_ms =
      intersect
        (or_else timeout_ceiling_ms
          (least e.timeout_ceiling_ms (map (λ x. x.timeout_ceiling_ms) es)))
        (limit_of 0 e) (limits_from 1 es)
