-- ===== src/Calibration/Ranges/Extents.antt =====
-- The extremes that a range names, and its deployable pair.
use llm_sched_study.Base.{
  ◌≡◌, ◌≢◌, refl, sym, ap, ◌∙◌, subst, ◌⊎◌, inl, inr, Bool, true, false, not, String, none, some,
  List, [], ◌∷◌, map, arith, length, to_set, ◌==◌, string_eq, All, All-imp, to_set-le_one, ok,
  raise_if->>-iff, ok-injective, IsAmong, All-IsAmong, IsBest, best_from, best_from-IsAmong,
  best_from-IsBest, Floats, Bool-cases,
}
use llm_sched_study.Calibration.Ranges.Pairs.{
  Pairwise, Pairwise-of_combinations, IsAmong-combinations,
}
use llm_sched_study.Calibration.Ranges.{
  Class, combinations, RRange, faster, slower, hi_of, lo_of, ratio, wider, cross_host, widest,
  deployable, range_of, synthesizable_range,
}
use llm_sched_study.Calibration.Ranges.Kept.{
  kept-none, le_one, elem_head, kept-All, All-unkeep, IsAmong-keep, All-of_IsAmong,
}

module _ (fl : Floats) where
  open fl use {Float, of_nat, div, lt, feq}

  -- No class of the list is faster than the fastest one, and none is slower than the slowest one.
  abbrev pub HasExtremes : List (Class fl) → RRange fl → Type 0
  HasExtremes classes r =
      IsAmong r.fastest classes
      × All (λ x. lt r.fastest.tokens_per_s x.tokens_per_s ≡ false) classes
      × IsAmong r.slowest classes
      × All (λ x. lt x.tokens_per_s r.slowest.tokens_per_s ≡ false) classes
      × (r.r_max_configured ≡ div r.fastest.tokens_per_s r.slowest.tokens_per_s)

  abbrev pub IsNumber : Float → Type 0
  IsNumber x = feq x x ≡ true

  -- The laws of comparison that the extremes rest on, as IEEE floats have them.
  pub record Laws : Type 0 where
    pub irrefl : (a : Float) → lt a a ≡ false
    pub asym : (a b : Float) → lt a b ≡ true → lt b a ≡ false
    pub trans : (a b c : Float) → IsNumber b → lt a b ≡ false → lt b c ≡ false → lt a c ≡ false

  -- `hi` and `lo` are the faster and the slower one of `x` and `y`; where these are equally fast, both
  -- are `x`.
  pub data Orders (x y : Class fl) : (hi lo : Class fl) → Type 0 where
    second_faster : lt x.tokens_per_s y.tokens_per_s ≡ true → Orders x y y x
    first_faster : lt y.tokens_per_s x.tokens_per_s ≡ true → Orders x y x y
    as_fast :
        lt x.tokens_per_s y.tokens_per_s ≡ false
        → lt y.tokens_per_s x.tokens_per_s ≡ false
        → Orders x y x x

  -- The part of a range that F-9a allows: no pair of classes on two hosts, or the pair of the
  -- greatest ratio.
  abbrev pub HasDeployable : List (Class fl) → RRange fl → Type 0
  HasDeployable classes r =
      (Pairwise (λ x y. x.host ≡ y.host) classes
        × (r.deployable_pair ≡ none)
        × (r.r_max_deployable ≡ of_nat 1))
      ⊎ ((x : Class fl) × (y : Class fl) × (hi : Class fl) × (lo : Class fl) × IsAmong x classes
          × IsAmong y classes
          × (x.host ≢ y.host)
          × Orders x y hi lo
          × (r.deployable_pair ≡ some (hi, lo))
          × (r.r_max_deployable ≡ div hi.tokens_per_s lo.tokens_per_s)
          × Pairwise
              (λ u v.
                u.host ≢ v.host
                → (h l : Class fl) → Orders u v h l
                → lt r.r_max_deployable (div h.tokens_per_s l.tokens_per_s) ≡ false)
              classes)

  abbrev Unbeaten : List (Class fl) → Float → Type 0
  Unbeaten classes highest =
      Pairwise
        (λ u v.
          u.host ≢ v.host
          → (h l : Class fl) → Orders u v h l
          → lt highest (div h.tokens_per_s l.tokens_per_s) ≡ false)
        classes

  module _ (laws : Laws) where
    range_of-HasExtremes :
        (c : Class fl) (cs : List (Class fl))
        → All (λ x. IsNumber x.tokens_per_s) (c ∷ cs)
        → HasExtremes (c ∷ cs) (range_of fl c cs)
    unfolding range_of
    range_of-HasExtremes c cs (n, ns) = (
      best_from-IsAmong (faster fl) c cs,
      best_from-IsBest (faster fl) (λ x. IsNumber x.tokens_per_s) (λ x. laws.irrefl x.tokens_per_s)
          (λ x y. laws.asym y.tokens_per_s x.tokens_per_s)
          (λ x y z g h k. laws.trans z.tokens_per_s y.tokens_per_s x.tokens_per_s g k h) c cs n ns,
      best_from-IsAmong (slower fl) c cs,
      best_from-IsBest (slower fl) (λ x. IsNumber x.tokens_per_s) (λ x. laws.irrefl x.tokens_per_s)
          (λ x y. laws.asym x.tokens_per_s y.tokens_per_s)
          (λ x y z g h k. laws.trans x.tokens_per_s y.tokens_per_s z.tokens_per_s g h k) c cs n ns,
      refl,
    )

    Orders-hi_of : (x y : Class fl) → Orders x y (hi_of fl (x, y)) (lo_of fl (x, y))
    Orders-hi_of x y = elim (Bool-cases (lt x.tokens_per_s y.tokens_per_s)) [
      | inl up ↦ rw (up, laws.asym x.tokens_per_s y.tokens_per_s up) (second_faster up)
      | inr flat ↦ elim (Bool-cases (lt y.tokens_per_s x.tokens_per_s)) [
        | inl down ↦ rw (flat, down) (first_faster down)
        | inr level ↦ rw (flat, level) (as_fast flat level)
      ]
    ]

    ratio_of :
        (x y hi lo : Class fl)
        → hi_of fl (x, y) ≡ hi
        → lo_of fl (x, y) ≡ lo
        → div hi.tokens_per_s lo.tokens_per_s ≡ ratio fl (x, y)
    ratio_of x y hi lo e f = sym (
        ap (λ (h : Class fl). div h.tokens_per_s (lo_of fl (x, y)).tokens_per_s) e
        ∙ ap (λ (l : Class fl). div hi.tokens_per_s l.tokens_per_s) f)

    Orders-ratio :
        (x y hi lo : Class fl)
        → Orders x y hi lo
        → div hi.tokens_per_s lo.tokens_per_s ≡ ratio fl (x, y)
    Orders-ratio x y _ _ (second_faster up) =
        ratio_of x y y x (rw up refl) (rw (laws.asym x.tokens_per_s y.tokens_per_s up) refl)
    Orders-ratio x y _ _ (first_faster down) =
        ratio_of x y x y (rw (laws.asym y.tokens_per_s x.tokens_per_s down) refl) (rw down refl)
    Orders-ratio x y _ _ (as_fast flat level) = ratio_of x y x x (rw flat refl) (rw level refl)

    widest-cases :
        (ps : List (Class fl × Class fl))
        → All (λ p. IsNumber (ratio fl p)) ps
        → ((ps ≡ []) × (widest fl ps ≡ none))
          ⊎ ((p : Class fl × Class fl) × IsAmong p ps
              × IsBest (wider fl) p ps
              × (widest fl ps ≡ some (hi_of fl p, lo_of fl p)))
    widest-cases [] ns = inl (refl, refl)
    widest-cases (p ∷ ps) (n, ns) = inr (
      best_from (wider fl) p ps,
      best_from-IsAmong (wider fl) p ps,
      best_from-IsBest (wider fl) (λ x. IsNumber (ratio fl x)) (λ x. laws.irrefl (ratio fl x))
          (λ x y. laws.asym (ratio fl y) (ratio fl x))
          (λ x y z g h k. laws.trans (ratio fl z) (ratio fl y) (ratio fl x) g k h) p ps n ns,
      refl,
    )

    range_of-HasDeployable :
        (c : Class fl) (cs : List (Class fl))
        → All (λ p. IsNumber (ratio fl p)) (cross_host fl (c ∷ cs))
        → HasDeployable (c ∷ cs) (range_of fl c cs)
    unfolding range_of
    range_of-HasDeployable c cs ns =
        let pairs = combinations (c ∷ cs) in
        elim (widest-cases (cross_host fl (c ∷ cs)) ns) [
          | inl (empty, e) ↦ inl (
            Pairwise-of_combinations (λ p. p.0.host ≡ p.1.host) (c ∷ cs)
                (All-imp _ _ pairs
                  (λ p same. ground (arith, string_eq.beq_iff p.0.host p.1.host, same))
                  (kept-none (λ p. not (p.0.host == p.1.host)) pairs empty)),
            e,
            ap (deployable fl) e,
          )
          | inr (p, member, best, e) ↦
              let is_cross : Class fl × Class fl → Bool = λ q. not (q.0.host == q.1.host) in
              let differ =
                All-IsAmong (λ q. is_cross q ≡ true) p (cross_host fl (c ∷ cs))
                  (kept-All is_cross pairs) member in
              let (first, second) =
                IsAmong-combinations p (c ∷ cs) (IsAmong-keep is_cross p pairs member) in
              let apart : p.0.host ≢ p.1.host =
                λ same. ground (arith, differ, same, string_eq.beq_iff p.0.host p.1.host) in
              let highest : ratio fl p ≡ (range_of fl c cs).r_max_deployable =
                sym (ap (deployable fl) e) in
              inr (
                p.0,
                p.1,
                hi_of fl p,
                lo_of fl p,
                first,
                second,
                apart,
                Orders-hi_of p.0 p.1,
                e,
                ap (deployable fl) e,
                subst (Unbeaten (c ∷ cs)) highest (
                    Pairwise-of_combinations
                      (λ q.
                        q.0.host ≢ q.1.host
                        → (h l : Class fl) → Orders q.0 q.1 h l
                        → lt (ratio fl p) (div h.tokens_per_s l.tokens_per_s) ≡ false)
                      (c ∷ cs)
                      (All-imp _ _ pairs
                        (λ q unbeaten differs h l o.
                          subst (λ v. lt (ratio fl p) v ≡ false) (sym (Orders-ratio q.0 q.1 h l o))
                            (unbeaten
                              (ground (arith, differs, string_eq.beq_iff q.0.host q.1.host))))
                        (All-unkeep is_cross (λ q. wider fl q p ≡ false) pairs best))),
              )
        ]

    ratios-IsNumber :
        (classes : List (Class fl))
        → ((x y : Class fl)
            → IsAmong x classes
            → IsAmong y classes
            → IsNumber (div x.tokens_per_s y.tokens_per_s))
        → (p : Class fl × Class fl) → IsAmong p (cross_host fl classes)
        → IsNumber (ratio fl p)
    ratios-IsNumber classes numbers p m =
        let is_cross : Class fl × Class fl → Bool = λ q. not (q.0.host == q.1.host) in
        let (first, second) =
          IsAmong-combinations p classes (IsAmong-keep is_cross p (combinations classes) m) in
        numbers (hi_of fl p) (lo_of fl p) (either_of (faster fl) p.0 p.1 first second)
          (either_of (slower fl) p.0 p.1 first second)
      where
        either_of :
            (beats : Class fl → Class fl → Bool) (a b : Class fl)
            → IsAmong a classes
            → IsAmong b classes
            → IsAmong (best_from beats a (b ∷ [])) classes
        either_of beats a b m n = elim (Bool-cases (beats b a)) [ inl e ↦ rw e n | inr e ↦ rw e m ]

    -- A range names a fastest and a slowest class: no class is faster than the one or slower than the
    -- other, and the configured ratio is the one's throughput by the other's. If every two classes
    -- share a host there is no deployable pair, and the deployable ratio is 1. Otherwise the pair is
    -- the faster and the slower one of two classes on two hosts, or the first of them twice if they
    -- are equally fast; the deployable ratio is the pair's, and no two classes on two hosts have a
    -- greater one. All classes have one model. Supposed are three laws of comparison and that no
    -- throughput and no quotient of two is NaN.
    pub synthesizable_range-extents :
        (classes : List (Class fl)) (r : RRange fl)
        → All (λ x. IsNumber x.tokens_per_s) classes
        → ((x y : Class fl)
            → IsAmong x classes
            → IsAmong y classes
            → IsNumber (div x.tokens_per_s y.tokens_per_s))
        → synthesizable_range fl classes ≡ ok r
        → HasExtremes classes r
          × HasDeployable classes r
          × ((m : String) × All (λ y. y ≡ m) (map (λ x. x.model) classes))
    unfolding synthesizable_range
    synthesizable_range-extents [] r ns ps h = cc
    synthesizable_range-extents (c ∷ []) r ns ps h = cc
    synthesizable_range-extents (c ∷ d ∷ cs) r ns ps h =
        let (few, made) = (raise_if->>-iff _ _ _).0 h in
        let same : range_of fl c (d ∷ cs) ≡ r = ok-injective _ _ made in
        let models = map (λ x. x.model) (c ∷ d ∷ cs) in
        (
          subst (HasExtremes (c ∷ d ∷ cs)) same (range_of-HasExtremes c (d ∷ cs) ns),
          subst (HasDeployable (c ∷ d ∷ cs)) same (
              range_of-HasDeployable c (d ∷ cs)
                (All-of_IsAmong (cross_host fl (c ∷ d ∷ cs)) (ratios-IsNumber (c ∷ d ∷ cs) ps))),
          (
            c.model,
            to_set-le_one c.model models (le_one (length (to_set models)) few)
                (elem_head c.model (map (λ x. x.model) (d ∷ cs))),
          ),
        )
