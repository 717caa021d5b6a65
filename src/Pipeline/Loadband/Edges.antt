-- ===== src/Pipeline/Loadband/Edges.antt =====
-- The edges of the band: the lightest load that queues, and the heaviest one that clears.
use llm_sched_study.Base.{
  ◌≡◌, refl, sym, ap, ◌∙◌, subst, ◌↔◌, ◌⊎◌, inl, inr, Bool, true, false, not, Option, none, some,
  List, [], ◌∷◌, map, arith, keep, All, IsAmong, All-IsAmong, keep-All, IsAmong-keep_iff,
  IsAmong-map_iff, best_from, best_from-IsAmong, best_from-IsBest, Bool-cases, ok, ok-injective,
  Floats,
}
use llm_sched_study.Calibration.Ranges.Extents.{Laws, IsNumber}
use llm_sched_study.Pipeline.Loadband.{
  Numerics, LoadPoint, LoadBand, is_usable, is_queueing, is_saturated, by_rate, first_rate,
  highest_rate_of, band_of, characterize,
}
use llm_sched_study.Pipeline.Loadband.Sorted.{
  IsAscending, IsAmong-sort_by_key_iff, sort_by_key-All, sort_by_key-IsAscending,
}

module _ (fl : Floats) (num : Numerics fl.Float) where
  open fl use {Float, lt}

  -- The rate of a point that passes a test, of which none that passes it is below; or no point passes.
  abbrev pub IsLightest : (LoadPoint Float → Bool) → List (LoadPoint Float) → Option Float → Type 0
  IsLightest test points rate =
      ((rate ≡ none) × ((q : LoadPoint Float) → IsAmong q points → test q ≡ false))
      ⊎ ((p : LoadPoint Float) × IsAmong p points
          × (test p ≡ true)
          × (rate ≡ some p.lambda_rps)
          × ((q : LoadPoint Float)
              → IsAmong q points
              → test q ≡ true
              → lt q.lambda_rps p.lambda_rps ≡ false))

  -- The same with none above it.
  abbrev pub IsHeaviest : (LoadPoint Float → Bool) → List (LoadPoint Float) → Option Float → Type 0
  IsHeaviest test points rate =
      ((rate ≡ none) × ((q : LoadPoint Float) → IsAmong q points → test q ≡ false))
      ⊎ ((p : LoadPoint Float) × IsAmong p points
          × (test p ≡ true)
          × (rate ≡ some p.lambda_rps)
          × ((q : LoadPoint Float)
              → IsAmong q points
              → test q ≡ true
              → lt p.lambda_rps q.lambda_rps ≡ false))

  module _ (laws : Laws fl) where
    first_rate-IsLightest :
        (test : LoadPoint Float → Bool) (ps : List (LoadPoint Float))
        → IsAscending fl (λ p. p.lambda_rps) ps
        → IsLightest test ps (first_rate fl num test ps)
    first_rate-IsLightest test [] asc = inl (refl, λ q m. absurd m)
    first_rate-IsLightest test (p ∷ ps) (above, asc) = elim (Bool-cases (test p)) [
      | inl e ↦ inr (
        p,
        inl refl,
        e,
        rw e refl,
        λ q m k. elim m [
          | inl here ↦
              subst (λ y. lt y.lambda_rps p.lambda_rps ≡ false) (sym here)
                (laws.irrefl p.lambda_rps)
          | inr m ↦ All-IsAmong (λ b. lt b.lambda_rps p.lambda_rps ≡ false) q ps above m
        ],
      )
      | inr e ↦ elim (first_rate-IsLightest test ps asc) [
        | inl none_passes ↦ inl (
          rw e none_passes.0,
          λ q m. elim m [ inl here ↦ ap test here ∙ e | inr m ↦ none_passes.1 q m ],
        )
        | inr found ↦
            let (q, among, passes, rate, least) = found in
            inr (
              q,
              inr among,
              passes,
              rw e rate,
              λ r m k. elim m [
                | inl here ↦ absurd (ground (arith, sym k, ap test here, e))
                | inr m ↦ least r m k
              ],
            )
      ]
    ]

    rates_are_numbers :
        (ps : List (LoadPoint Float))
        → All (λ p. IsNumber fl p.lambda_rps) ps
        → All (IsNumber fl) (map (λ p. p.lambda_rps) ps)
    rates_are_numbers [] h = tt
    rates_are_numbers (p ∷ ps) (h, hs) = (h, rates_are_numbers ps hs)

    highest_rate_of-cases :
        (ps : List (LoadPoint Float))
        → All (λ p. IsNumber fl p.lambda_rps) ps
        → ((highest_rate_of fl num ps ≡ none) × (ps ≡ []))
          ⊎ ((p : LoadPoint Float) × IsAmong p ps
              × (highest_rate_of fl num ps ≡ some p.lambda_rps)
              × ((q : LoadPoint Float) → IsAmong q ps → lt p.lambda_rps q.lambda_rps ≡ false))
    highest_rate_of-cases [] n = inl (refl, refl)
    highest_rate_of-cases (x ∷ xs) (n, ns) =
        let beats : Float → Float → Bool = λ a b. lt b a in
        let rates = map (λ p. p.lambda_rps) xs in
        let best = best_from beats x.lambda_rps rates in
        let (p, among, e) =
          (IsAmong-map_iff (λ p. p.lambda_rps) best (x ∷ xs)).0
            (best_from-IsAmong beats x.lambda_rps rates) in
        let above =
          best_from-IsBest beats (IsNumber fl) laws.irrefl (λ a b h. laws.asym b a h)
            (λ a b c g h k. laws.trans c b a g k h) x.lambda_rps rates n
            (rates_are_numbers xs ns) in
        inr (
          p,
          among,
          ap (λ r. some r) e,
          λ q m.
              All-IsAmong (λ y. lt p.lambda_rps y ≡ false) q.lambda_rps (x.lambda_rps ∷ rates)
                (subst (λ b. All (λ y. lt b y ≡ false) (x.lambda_rps ∷ rates)) e above)
                ((IsAmong-map_iff (λ p. p.lambda_rps) q.lambda_rps (x ∷ xs)).1 (q, m, refl)),
        )

    highest_rate_of-IsHeaviest :
        (test : LoadPoint Float → Bool) (ps : List (LoadPoint Float))
        → All (λ p. IsNumber fl p.lambda_rps) (keep test ps)
        → IsHeaviest test ps (highest_rate_of fl num (keep test ps))
    highest_rate_of-IsHeaviest test ps n = elim (highest_rate_of-cases (keep test ps) n) [
      | inl empty ↦ inl (
        empty.0,
        λ q m. elim (Bool-cases (test q)) [
          | inl e ↦ absurd (subst (IsAmong q) empty.1 ((IsAmong-keep_iff test q ps).1 (m, e)))
          | inr e ↦ e
        ],
      )
      | inr found ↦
          let (p, among, rate, above) = found in
          let (in_ps, passes) = (IsAmong-keep_iff test p ps).0 among in
          inr (p, in_ps, passes, rate, λ q m k. above q ((IsAmong-keep_iff test q ps).1 (m, k)))
    ]

  -- What the band says of the usable points of a sweep.
  abbrev pub IsBand : List (LoadPoint Float) → List (LoadPoint Float) → LoadBand Float → Type 0
  IsBand points usable band =
      ((usable ≡ []) × (band.lo_rps ≡ none) × (band.hi_rps ≡ none))
      ⊎ ((reference : LoadPoint Float) × IsAmong reference usable
          × ((q : LoadPoint Float)
              → IsAmong q usable
              → lt q.lambda_rps reference.lambda_rps ≡ false)
          × (band.reference_p99_ms ≡ reference.p99_ms)
          × IsLightest (is_queueing fl num reference) usable band.lo_rps
          × IsHeaviest (λ p. not (is_saturated fl num p)) usable band.hi_rps)

  IsLightest-of_same :
      (test : LoadPoint Float → Bool) (xs ys : List (LoadPoint Float)) (rate : Option Float)
      → ((x : LoadPoint Float) → IsAmong x xs ↔ IsAmong x ys)
      → IsLightest test xs rate
      → IsLightest test ys rate
  IsLightest-of_same test xs ys rate same (inl (e, none_passes)) =
      inl (e, λ q m. none_passes q ((same q).1 m))
  IsLightest-of_same test xs ys rate same (inr (p, among, passes, e, least)) =
      inr (p, (same p).0 among, passes, e, λ q m k. least q ((same q).1 m) k)

  IsHeaviest-of_same :
      (test : LoadPoint Float → Bool) (xs ys : List (LoadPoint Float)) (rate : Option Float)
      → ((x : LoadPoint Float) → IsAmong x xs ↔ IsAmong x ys)
      → IsHeaviest test xs rate
      → IsHeaviest test ys rate
  IsHeaviest-of_same test xs ys rate same (inl (e, none_passes)) =
      inl (e, λ q m. none_passes q ((same q).1 m))
  IsHeaviest-of_same test xs ys rate same (inr (p, among, passes, e, above)) =
      inr (p, (same p).0 among, passes, e, λ q m k. above q ((same q).1 m) k)

  empty-of_same :
      (ys : List (LoadPoint Float)) → ((x : LoadPoint Float) → IsAmong x ys → ⊥) → ys ≡ []
  empty-of_same [] f = refl
  empty-of_same (y ∷ ys) f = absurd (f y (inl refl))

  module _ (laws : Laws fl) where
    band_of-IsBand :
        (points sorted usable : List (LoadPoint Float))
        → ((x : LoadPoint Float) → IsAmong x sorted ↔ IsAmong x usable)
        → IsAscending fl (λ p. p.lambda_rps) sorted
        → All (λ p. IsNumber fl p.lambda_rps) sorted
        → IsBand points usable (band_of fl num points sorted)
    band_of-IsBand points [] usable same asc n =
        inl (empty-of_same usable (λ x m. (same x).1 m), refl, refl)
    band_of-IsBand points (reference ∷ ps) usable same (above, asc) (n, ns) = inr (
      reference,
      (same reference).0 (inl refl),
      λ q m. elim ((same q).1 m) [
        | inl here ↦
            subst (λ y. lt y.lambda_rps reference.lambda_rps ≡ false) (sym here)
              (laws.irrefl reference.lambda_rps)
        | inr m ↦ All-IsAmong (λ b. lt b.lambda_rps reference.lambda_rps ≡ false) q ps above m
      ],
      refl,
      IsLightest-of_same (is_queueing fl num reference) (reference ∷ ps) usable _ same
          (first_rate-IsLightest laws (is_queueing fl num reference) (reference ∷ ps) (above, asc)),
      IsHeaviest-of_same (λ p. not (is_saturated fl num p)) (reference ∷ ps) usable _ same
          (highest_rate_of-IsHeaviest laws (λ p. not (is_saturated fl num p)) (reference ∷ ps)
            (keep-All (λ p. not (is_saturated fl num p)) (λ p. IsNumber fl p.lambda_rps)
              (reference ∷ ps) (n, ns))),
    )

    -- The band of a sweep is read off its usable points. Without one, it has no edge. Else its
    -- reference is a lightest usable point, its lower edge is the rate of a lightest usable point whose
    -- p99 is over the onset of the reference's, and its upper edge the rate of a heaviest usable point
    -- that is not saturated; an edge is missing only where no usable point is such. The rates are
    -- numbers, and floats are in order.
    pub characterize-IsBand :
        (points : List (LoadPoint Float)) (band : LoadBand Float)
        → All (λ p. IsNumber fl p.lambda_rps) points
        → characterize fl num points ≡ ok band
        → IsBand points (keep is_usable points) band
    unfolding characterize
    characterize-IsBand [] band n h = cc
    characterize-IsBand (p ∷ ps) band n h =
        let usable = keep is_usable (p ∷ ps) in
        let numbers = keep-All is_usable (λ p. IsNumber fl p.lambda_rps) (p ∷ ps) n in
        subst (IsBand (p ∷ ps) usable) (ok-injective _ _ h) (
          band_of-IsBand (p ∷ ps) (by_rate fl num usable) usable
            (λ x. IsAmong-sort_by_key_iff fl (λ p. p.lambda_rps) x usable)
            (sort_by_key-IsAscending fl (λ p. p.lambda_rps) laws usable numbers)
            (sort_by_key-All fl (λ p. p.lambda_rps) (λ p. IsNumber fl p.lambda_rps) usable numbers))
