-- ===== src/Calibration/Envelopes/Pool/Served.antt =====
-- What the envelope of a pool says of each node's measurements.
use llm_sched_study.Base.{
  ℕ, ◌≤◌, ◌<◌, ◌≡◌, sym, ap, subst, inl, inr, true, Option, none, some, List, [], ◌∷◌, arith, All,
  All-imp, ok, ◌>>=◌, traverse, >>=-eq-ok, or_raise-eq-ok, raise_if->>-iff, ok-injective, Floats,
}
use llm_sched_study.Calibration.Envelopes.{
  CostSnapshot, NodeEnvelope, is_inside, bucket_of, node_limit_from_snapshot, determine,
}
use llm_sched_study.Calibration.Envelopes.Fitting.{Ordered, Fitting, AllNumbers}
use llm_sched_study.Calibration.Envelopes.Largest.{limit_bucket, node_limit-IsLargest}
use llm_sched_study.Calibration.Envelopes.Pool.{
  RunDir, Report, last_of, tightened, envelope_of, pool_envelope,
}
use llm_sched_study.Calibration.Envelopes.Pool.Meets.{determine-IsMeet}

is_inside_trans :
    (a b c : ℕ × ℕ) → is_inside a b ≡ true → b.0 ≤ c.0 → b.1 ≤ c.1 → is_inside a c ≡ true
is_inside_trans (q, r) (p, o) (s, t) h k l = ground arith

-- A ceiling that is not above the one asked for.
abbrev pub IsWithin : ℕ → Option ℕ → Type 0
IsWithin ceiling none = Unit
IsWithin ceiling (some limit) = ceiling ≤ limit

tightened-IsWithin :
    (ceiling : ℕ) (override : Option ℕ)
    → (tightened ceiling override ≤ ceiling) × IsWithin (tightened ceiling override) override
tightened-IsWithin ceiling none = (omega arith, tt)
tightened-IsWithin ceiling (some limit) = ground arith

module _ (fl : Floats) where
  open fl use {Float}

  -- The measurements of a node: its p95s are numbers, and its buckets have a width.
  abbrev pub IsMeasured : RunDir Float → Type 0
  IsMeasured d = All (λ s. AllNumbers fl s.entries × All (λ e. 0 < e.prompt_hi) s.entries) d.series

  -- A node serves each length that it measured in the envelope, under a ceiling that is neither above
  -- its own nor above the one that is asked for.
  abbrev pub Serves : Option ℕ → ℕ × ℕ → RunDir Float → Type 0
  Serves override b d =
      (s : CostSnapshot Float) × (last_of d.series ≡ some s)
      × (ceiling : ℕ) × (ceiling ≤ s.timeout_ceiling_ms)
      × IsWithin ceiling override
      × Fitting fl ceiling s.entries b

  module _ (ordered : Ordered fl) where
    last-All :
        {A : Type 0} (P : A → Type 0) (xs : List A) (x : A) → last_of xs ≡ some x → All P xs → P x
    last-All P [] x e h = cc
    last-All P (y ∷ []) x e (h, _) = subst P (cc e) h
    last-All P (y ∷ z ∷ zs) x e (_, h) = last-All P (z ∷ zs) x e h

    envelope_of-Serves :
        (override : Option ℕ) (b : ℕ × ℕ) (d : RunDir Float) (e : NodeEnvelope Float)
        → IsMeasured d
        → 0 < b.0
        → envelope_of fl override d ≡ ok e
        → (b.0 ≤ e.max_prompt) × (b.1 ≤ e.max_output)
        → Serves override b d
    unfolding envelope_of
    envelope_of-Serves override b d e measured positive h (wide, long) =
        let (s, found, made) = >>=-eq-ok _ _ h in
        let last = or_raise-eq-ok _ _ _ found in
        let (numbers, widths) = last-All _ d.series s last measured in
        let limit = node_limit_from_snapshot fl s (tightened s.timeout_ceiling_ms override) in
        let same : limit ≡ e = ok-injective _ _ made in
        let wide1 : b.0 ≤ limit.max_prompt = subst (λ x. b.0 ≤ x.max_prompt) (sym same) wide in
        let long1 : b.1 ≤ limit.max_output = subst (λ x. b.1 ≤ x.max_output) (sym same) long in
        (
          s,
          last,
          tightened s.timeout_ceiling_ms override,
          (tightened-IsWithin s.timeout_ceiling_ms override).0,
          (tightened-IsWithin s.timeout_ceiling_ms override).1,
          elim (node_limit-IsLargest fl ordered s (tightened s.timeout_ceiling_ms override) numbers
              widths) [
                | inl nothing ↦ absurd (ground (arith, ap (λ x. x.0) nothing.0, wide1, positive))
                | inr found ↦
                    All-imp _ _ s.entries
                      (λ x fits inside. fits (
                        is_inside_trans (bucket_of x) b (limit_bucket fl limit) inside wide1 long1))
                      found.0.1
              ],
        )

    traverse-Serves :
        (override : Option ℕ) (b : ℕ × ℕ) (dirs : List (RunDir Float))
        (es : List (NodeEnvelope Float))
        → 0 < b.0
        → All IsMeasured dirs
        → traverse (envelope_of fl override) dirs ≡ ok es
        → All (λ e. (b.0 ≤ e.max_prompt) × (b.1 ≤ e.max_output)) es
        → All (Serves override b) dirs
    traverse-Serves override b [] es positive measured h k = tt
    traverse-Serves override b (d ∷ dirs) es positive (m, ms) h k =
        let (e, first, h1) =
          >>=-eq-ok (envelope_of fl override d)
            (λ y. traverse (envelope_of fl override) dirs >>= λ ys. ok (y ∷ ys)) h in
        let (rest, later, h2) =
          >>=-eq-ok (traverse (envelope_of fl override) dirs) (λ ys. ok (e ∷ ys)) h1 in
        let (p, ps) =
          subst (All (λ e. (b.0 ≤ e.max_prompt) × (b.1 ≤ e.max_output))) (sym (ok-injective _ _ h2))
            k in
        (
          envelope_of-Serves override b d e m positive first p,
          traverse-Serves override b dirs rest positive ms later ps,
        )

    -- The envelope of a pool is one that every node serves: in the latest snapshot of each run, each
    -- cell that was measured in the envelope has a p95 under a ceiling that is neither above the one
    -- that the node was calibrated at nor above the one asked for, if one is. The p95s are numbers, the buckets have a width,
    -- and floats are in order.
    pub pool_envelope-Serves :
        (dirs : List (RunDir Float)) (override : Option ℕ) (r : Report Float)
        → All IsMeasured dirs
        → pool_envelope fl dirs override ≡ ok r
        → All (Serves override (r.envelope.max_prompt, r.envelope.max_output)) dirs
    unfolding pool_envelope
    pool_envelope-Serves [] override r measured h = tt
    pool_envelope-Serves (d ∷ dirs) override r measured h =
        let (_, h1) = (raise_if->>-iff _ _ _).0 h in
        let (es, of_nodes, h2) = >>=-eq-ok (traverse (envelope_of fl override) (d ∷ dirs)) _ h1 in
        let (p, meets, h3) = >>=-eq-ok (determine fl es override) _ h2 in
        let (within, _, _, wide, _) = determine-IsMeet fl es override p meets in
        let same : p ≡ r.envelope = ap (λ x. x.envelope) (ok-injective _ _ h3) in
        subst (λ q. All (Serves override (q.max_prompt, q.max_output)) (d ∷ dirs)) same
          (traverse-Serves override (p.max_prompt, p.max_output) (d ∷ dirs) es wide measured
            of_nodes within)
