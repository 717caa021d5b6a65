-- ===== src/Calibration/Envelopes/Fitting.antt =====
-- Which rectangles `admitted` lets through.
use llm_sched_study.Base.{
  ℕ, ◌≡◌, refl, sym, ap, ◌∙◌, subst, ◌↔◌, inl, inr, Bool, true, false, not, ◌&&◌, ◌||◌, List, [],
  ◌∷◌, arith, keep, all, All, All-imp, IsAmong, All-IsAmong, IsAmong-keep_iff, IsAmong-map_iff,
  best_from-IsAmong, best_from-IsBest, Floats,
}
use llm_sched_study.Calibration.Ranges.Extents.{Laws, IsNumber}
use llm_sched_study.Calibration.Envelopes.{
  Bucket, CostCell, Group, is_inside, is_admitted, admitted, bucket_of, by_bucket, worst_of,
  group_fits, fits_of,
}
use llm_sched_study.Calibration.Envelopes.Rectangles.{
  all_iff, InGroup, KeyRight, HasKey, by_bucket-InGroup_iff, by_bucket-KeyRight, by_bucket-HasKey,
}

is_inside_refl : (b : Bucket) → is_inside b b ≡ true
is_inside_refl (p, o) = ground arith

implies_iff : (a b : Bool) → ((not a || b) ≡ true) ↔ (a ≡ true → b ≡ true)
implies_iff true b = (λ h _. h, λ h. h refl)
implies_iff false b = (λ _ e. cc, λ _. refl)

and_both : (a b : Bool) → a ≡ true → b ≡ true → (a && b) ≡ true
and_both a b h k = ground arith

IsAmong-All : {A : Type 0} (xs : List A) → All (λ a. IsAmong a xs) xs
IsAmong-All [] = tt
IsAmong-All (x ∷ xs) = (inl refl, All-imp _ _ xs (λ a m. inr m) (IsAmong-All xs))

module _ (fl : Floats) where
  open fl use {Float, of_nat, lt, le}

  -- What a p95 at most a ceiling says of a smaller one, as IEEE floats have it.
  pub record Ordered : Type 0 where
    pub laws : Laws fl
    pub le_of : (a b c : Float) → IsNumber fl a → lt b a ≡ false → le b c ≡ true → le a c ≡ true

  -- The cell is served under the ceiling.
  abbrev pub Fits : ℕ → CostCell Float → Type 0
  Fits ceiling e = le e.service_ms_p95 (of_nat ceiling) ≡ true

  -- Each measured cell in the rectangle is, at each concurrency that it was measured at.
  abbrev pub Fitting : ℕ → List (CostCell Float) → Bucket → Type 0
  Fitting ceiling entries b = All (λ e. is_inside (bucket_of e) b ≡ true → Fits ceiling e) entries

  abbrev pub IsCorner : List (CostCell Float) → Bucket → Type 0
  IsCorner entries b = (e : CostCell Float) × IsAmong e entries × (bucket_of e ≡ b)

  -- A rectangle whose corner was measured and in which every measured cell fits.
  abbrev pub IsAdmissible : ℕ → List (CostCell Float) → Bucket → Type 0
  IsAdmissible ceiling entries b = IsCorner entries b × Fitting ceiling entries b

  abbrev pub AllNumbers : List (CostCell Float) → Type 0
  AllNumbers = All (λ e. IsNumber fl e.service_ms_p95)

  module _ (ordered : Ordered) where
    worst-IsBest :
        (first : CostCell Float) (others : List (CostCell Float))
        → AllNumbers (first ∷ others)
        → All
            (λ x. lt (worst_of fl (first, others)).service_ms_p95 x.service_ms_p95 ≡ false)
            (first ∷ others)
    worst-IsBest first others (n, ns) =
        best_from-IsBest (λ x m. lt m.service_ms_p95 x.service_ms_p95)
          (λ e. IsNumber fl e.service_ms_p95) (λ a. ordered.laws.irrefl a.service_ms_p95)
          (λ a b h. ordered.laws.asym b.service_ms_p95 a.service_ms_p95 h)
          (λ a b c g h k.
            ordered.laws.trans c.service_ms_p95 b.service_ms_p95 a.service_ms_p95 g k h)
          first others n ns

    All-Fits :
        (ceiling : ℕ) (worst : Float) (xs : List (CostCell Float))
        → AllNumbers xs
        → All (λ x. lt worst x.service_ms_p95 ≡ false) xs
        → le worst (of_nat ceiling) ≡ true
        → All (Fits ceiling) xs
    All-Fits ceiling worst [] n h k = tt
    All-Fits ceiling worst (x ∷ xs) (n, ns) (h, hs) k = (
      ordered.le_of x.service_ms_p95 worst (of_nat ceiling) n h k,
      All-Fits ceiling worst xs ns hs k,
    )

    -- A bucket fits exactly if each of its cells does.
    group_fits_iff :
        (ceiling : ℕ) (g : Group Float)
        → AllNumbers (g.0 ∷ g.1)
        → (group_fits fl ceiling g ≡ true) ↔ All (Fits ceiling) (g.0 ∷ g.1)
    group_fits_iff ceiling (first, others) n = (
      λ h.
          All-Fits ceiling (worst_of fl (first, others)).service_ms_p95 (first ∷ others) n
            (worst-IsBest first others n) h,
      λ h.
          All-IsAmong (Fits ceiling) (worst_of fl (first, others)) (first ∷ others) h
            (best_from-IsAmong (λ x m. lt m.service_ms_p95 x.service_ms_p95) first others),
    )

    under :
        (ceiling : ℕ) (b c : Bucket) (xs : List (CostCell Float))
        → All (λ e. bucket_of e ≡ c) xs
        → (is_inside c b ≡ true → All (Fits ceiling) xs)
        → All (λ e. is_inside (bucket_of e) b ≡ true → Fits ceiling e) xs
    under ceiling b c [] k h = tt
    under ceiling b c (x ∷ xs) (k, ks) h =
        (λ i. (h (subst (λ y. is_inside y b ≡ true) k i)).0, under ceiling b c xs ks (λ i. (h i).1))

    over :
        (ceiling : ℕ) (b c : Bucket) (xs : List (CostCell Float))
        → All (λ e. bucket_of e ≡ c) xs
        → All (λ e. is_inside (bucket_of e) b ≡ true → Fits ceiling e) xs
        → is_inside c b ≡ true
        → All (Fits ceiling) xs
    over ceiling b c [] k h i = tt
    over ceiling b c (x ∷ xs) (k, ks) (h, hs) i =
        (h (subst (λ y. is_inside y b ≡ true) (sym k) i), over ceiling b c xs ks hs i)

    -- All groups in a rectangle fit exactly if all their cells in it do.
    Fits-iff :
        (ceiling : ℕ) (b : Bucket) (groups : List (Bucket × Group Float))
        → All (InGroup (λ e. IsNumber fl e.service_ms_p95)) groups
        → All KeyRight groups
        → All {A = Bucket × Bool}
            (λ c. (not (is_inside c.0 b) || c.1) ≡ true)
            (fits_of fl ceiling groups)
          ↔ All (InGroup (λ e. is_inside (bucket_of e) b ≡ true → Fits ceiling e)) groups
    Fits-iff ceiling b [] n k = (λ _. tt, λ _. tt)
    Fits-iff ceiling b ((c, (first, others)) ∷ groups) (n, ns) ((k, ks), kss) =
        let rest = Fits-iff ceiling b groups ns kss in
        let here = group_fits_iff ceiling (first, others) n in
        let both = implies_iff (is_inside c b) (group_fits fl ceiling (first, others)) in
        (
          λ (h, hs).
              (under ceiling b c (first ∷ others) (k, ks) (λ i. here.0 (both.0 h i)), rest.0 hs),
          λ ((h, hs), hss). (
            both.1 (λ i. here.1 (over ceiling b c (first ∷ others) (k, ks) (h, hs) i)),
            rest.1 hss,
          ),
        )

    module _ (ceiling : ℕ) (entries : List (CostCell Float)) (numbers : AllNumbers entries) where
      all-Fits_iff :
          (b : Bucket)
          → (all (λ c. not (is_inside c.0 b) || c.1) (fits_of fl ceiling (by_bucket [] entries))
              ≡ true)
            ↔ Fitting ceiling entries b
      all-Fits_iff b =
          let named =
            all_iff (λ c. not (is_inside c.0 b) || c.1)
              (fits_of fl ceiling (by_bucket [] entries)) in
          let of_groups =
            Fits-iff ceiling b (by_bucket [] entries)
              ((by_bucket-InGroup_iff (λ e. IsNumber fl e.service_ms_p95) [] entries).1
                (tt, numbers))
              (by_bucket-KeyRight [] entries tt) in
          let of_cells =
            by_bucket-InGroup_iff (λ e. is_inside (bucket_of e) b ≡ true → Fits ceiling e) []
              entries in
          (
            λ h. (of_cells.0 (of_groups.0 (named.0 h))).1,
            λ h. named.1 (of_groups.1 (of_cells.1 (tt, h))),
          )

      -- A key of the groups is the bucket of a cell, and the other way round.
      HasKey-iff : (b : Bucket) → HasKey b (by_bucket [] entries) ↔ IsCorner entries b
      HasKey-iff b = (
        λ m.
            let ((c, (first, others)), among, e) =
              (IsAmong-map_iff (λ g. g.0) b (by_bucket [] entries)).0 m in
            let cells =
              (by_bucket-InGroup_iff (λ e. IsAmong e entries) [] entries).1
                (tt, IsAmong-All entries) in
            (
              first,
              (All-IsAmong (InGroup (λ e. IsAmong e entries)) (c, (first, others))
                  (by_bucket [] entries) cells among).0,
              (All-IsAmong KeyRight (c, (first, others)) (by_bucket [] entries)
                    (by_bucket-KeyRight [] entries tt) among).0
                  ∙ sym e,
            ),
        λ (e, among, k).
            subst (λ y. HasKey y (by_bucket [] entries)) k (by_bucket-HasKey [] entries e among),
      )

      -- The admitted rectangles are the admissible ones.
      pub admitted_iff :
          (b : Bucket)
          → IsAmong b (admitted (fits_of fl ceiling (by_bucket [] entries)))
            ↔ IsAdmissible ceiling entries b
      admitted_iff b =
          let fits = fits_of fl ceiling (by_bucket [] entries) in
          let outer = IsAmong-map_iff (λ c. c.0) b (keep (is_admitted fits) fits) in
          (
            λ m.
                let ((c, fit), among, e) = outer.0 m in
                let (in_fits, passes) =
                  (IsAmong-keep_iff (is_admitted fits) (c, fit) fits).0 among in
                let ((d, g), in_groups, k) =
                  (IsAmong-map_iff (λ (b, g). (b, group_fits fl ceiling g)) (c, fit)
                      (by_bucket [] entries)).0
                    in_fits in
                (
                  (HasKey-iff b).0 (
                      (IsAmong-map_iff (λ g. g.0) b (by_bucket [] entries)).1
                        ((d, g), in_groups, e ∙ ap (λ x. x.0) k)),
                  subst (Fitting ceiling entries) (sym e)
                      ((all-Fits_iff c).0 (ground (arith, passes))),
                ),
            λ (corner, fitting).
                let ((c, g), in_groups, e) =
                  (IsAmong-map_iff (λ g. g.0) b (by_bucket [] entries)).0
                    ((HasKey-iff b).1 corner) in
                let fit = group_fits fl ceiling g in
                let in_fits : IsAmong {A = Bucket × Bool} (c, fit) fits =
                  (IsAmong-map_iff (λ (b, g). (b, group_fits fl ceiling g)) (c, fit)
                      (by_bucket [] entries)).1
                    ((c, g), in_groups, refl) in
                let all_fit = (all-Fits_iff c).1 (subst (Fitting ceiling entries) e fitting) in
                let own =
                  All-IsAmong {A = Bucket × Bool} (λ x. (not (is_inside x.0 c) || x.1) ≡ true)
                    (c, fit) fits ((all_iff (λ x. not (is_inside x.0 c) || x.1) fits).0 all_fit)
                    in_fits in
                outer.1 (
                  (c, fit),
                  (IsAmong-keep_iff (is_admitted fits) (c, fit) fits).1 (
                    in_fits,
                    and_both fit _ ((implies_iff (is_inside c c) fit).0 own (is_inside_refl c))
                        all_fit,
                  ),
                  e,
                ),
          )
