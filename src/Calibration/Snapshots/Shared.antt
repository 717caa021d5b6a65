-- ===== src/Calibration/Snapshots/Shared.antt =====
-- The ratio is taken at a cell that every node class was measured at.
use llm_sched_study.Base.{
  ◌≤◌, ◌≡◌, refl, sym, ap, ◌∙◌, subst, inl, inr, not, String, Option, some, List, [], ◌∷◌, map,
  arith, Dict, length, truthy, lookup, ltb, Result, ok, ◌>>=◌, traverse, >>=-eq-ok, or_raise-eq-ok,
  raise_if->>-iff, ok-injective, IsAmong, best_from-IsAmong, Floats,
}
use llm_sched_study.Calibration.Snapshots.{
  Cell, cell_eq, Snapshot, too_few_classes, no_common_cell, by_class, common_cells, rate_at,
  highest_rate, lowest_rate, ratio_of, cell_ratio, greatest, class_names, widest_over, range_over,
  synthesizable,
}

module _ {E A B : Type 0} where
  -- What a traversal gives for each element.
  traverse-all_some :
      (f : A → Result E B) (g : A → Option B)
      → ((a : A) (b : B) → f a ≡ ok b → g a ≡ some b)
      → (xs : List A) (ys : List B) → traverse f xs ≡ ok ys
      → map g xs ≡ map some ys
  traverse-all_some f g sound [] ys h = rw (← ok-injective _ _ h) refl
  traverse-all_some f g sound (x ∷ xs) ys h =
      let (y, first, h1) = >>=-eq-ok (f x) _ h in
      let (rest, others, h2) = >>=-eq-ok (traverse f xs) _ h1 in
      let tail = traverse-all_some f g sound xs rest others in
      rw (← ok-injective _ _ h2, sound x y first, tail) refl

  traverse-IsAmong :
      (f : A → Result E B) (b : B) (xs : List A) (ys : List B)
      → traverse f xs ≡ ok ys
      → IsAmong b ys
      → (a : A) × IsAmong a xs × (f a ≡ ok b)
  traverse-IsAmong f b [] ys h m = absurd (subst (IsAmong b) (sym (ok-injective _ _ h)) m)
  traverse-IsAmong f b (x ∷ xs) ys h m =
      let (y, first, h1) = >>=-eq-ok (f x) _ h in
      let (rest, others, h2) = >>=-eq-ok (traverse f xs) _ h1 in
      elim (subst (IsAmong b) (sym (ok-injective _ _ h2)) m) [
        | inl same ↦ (x, inl refl, rw same first)
        | inr later ↦
            let (a, among, gives) = traverse-IsAmong f b xs rest others later in
            (a, inr among, gives)
      ]

module _ (fl : Floats) where
  open fl use {Float, of_nat, div}

  -- The number is the ratio at a cell: each class has a rate there, in the order of the classes, and
  -- it is the highest of them by the lowest.
  abbrev pub IsRatioAt : Dict String (Dict Cell Float) → Float → Type 0
  IsRatioAt classes r =
      (cell : Cell) × (m : Float) × (ms : List Float) × (map (λ p. lookup cell p.1) classes
        ≡ map some (m ∷ ms))
      × (r ≡ div (highest_rate fl m ms) (lowest_rate fl m ms))

  rate_at-eq-ok :
      (cell : Cell) (p : String × Dict Cell Float) (rate : Float)
      → rate_at cell p ≡ ok rate
      → lookup cell p.1 ≡ some rate
  rate_at-eq-ok cell (node_class, cells) rate h = or_raise-eq-ok (lookup cell cells) _ rate h

  ratio_of-eq-ok :
      (rates : List Float) (r : Float)
      → ratio_of fl rates ≡ ok r
      → (m : Float) × (ms : List Float) × (rates ≡ m ∷ ms)
        × (r ≡ div (highest_rate fl m ms) (lowest_rate fl m ms))
  ratio_of-eq-ok [] r h = cc
  ratio_of-eq-ok (m ∷ ms) r h =
      (m, ms, refl, sym (ok-injective _ _ ((raise_if->>-iff _ _ _).0 h).1))

  cell_ratio-IsRatioAt :
      (classes : Dict String (Dict Cell Float)) (cell : Cell) (r : Float)
      → cell_ratio fl classes cell ≡ ok r
      → IsRatioAt classes r
  cell_ratio-IsRatioAt classes cell r h =
      let (rates, found, h1) = >>=-eq-ok (traverse (rate_at cell) classes) _ h in
      let (m, ms, are, is) = ratio_of-eq-ok rates r h1 in
      (
        cell,
        m,
        ms,
        traverse-all_some (rate_at cell) (λ p. lookup cell p.1) (rate_at-eq-ok cell) classes rates
              found
            ∙ ap (map some) are,
        is,
      )

  greatest-IsAmong :
      (ratios : List Float) (r : Float) → greatest fl ratios ≡ ok r → IsAmong r ratios
  greatest-IsAmong [] r h = cc
  greatest-IsAmong (x ∷ xs) r h =
      subst (λ y. IsAmong y (x ∷ xs)) (ok-injective _ _ h) (best_from-IsAmong _ x xs)

  widest_over-IsRatioAt :
      (classes : Dict String (Dict Cell Float)) (lo hi : Float)
      → widest_over fl classes ≡ ok (lo, hi)
      → (lo ≡ of_nat 1) × IsRatioAt classes hi
  widest_over-IsRatioAt classes lo hi h =
      let (ratios, over_cells, h3) =
        >>=-eq-ok (traverse (cell_ratio fl classes) (common_cells classes))
          (λ found. greatest fl found >>= λ r_max. ok (of_nat 1, r_max)) h in
      let (r_max, is_greatest, h4) = >>=-eq-ok (greatest fl ratios) (λ r. ok (of_nat 1, r)) h3 in
      let same = ok-injective _ _ h4 in
      let (cell, _, is_ratio) =
        traverse-IsAmong (cell_ratio fl classes) r_max (common_cells classes) ratios over_cells
          (greatest-IsAmong ratios r_max is_greatest) in
      (
        sym (ap (λ p. p.0) same),
        subst (IsRatioAt classes) (ap (λ p. p.1) same)
            (cell_ratio-IsRatioAt classes cell r_max is_ratio),
      )

  range_over-ratio :
      (classes : Dict String (Dict Cell Float)) (lo hi : Float)
      → range_over fl classes ≡ ok (lo, hi)
      → (lo ≡ of_nat 1) × (2 ≤ length classes) × IsRatioAt classes hi
  range_over-ratio classes lo hi h =
      let (many, h1) =
        (raise_if->>-iff (ltb (length classes) 2) (too_few_classes (class_names classes)) _).0 h in
      let (_, h2) =
        (raise_if->>-iff (not (truthy (common_cells classes)))
            (no_common_cell (class_names classes)) (widest_over fl classes)).0
          h1 in
      let (starts, is_ratio) = widest_over-IsRatioAt classes lo hi h2 in
      (starts, ground (arith, many), is_ratio)

  -- A range that comes back starts at one, at least two node classes are in the snapshots, and its
  -- upper end is the ratio of the highest to the lowest rate at one cell at which every node class
  -- was measured; it is never taken across two cells.
  pub synthesizable-ratio :
      (snapshots : List (Snapshot Float)) (lo hi : Float)
      → synthesizable fl snapshots ≡ ok (lo, hi)
      → (lo ≡ of_nat 1) × (2 ≤ length (by_class snapshots)) × IsRatioAt (by_class snapshots) hi
  unfolding synthesizable
  synthesizable-ratio snapshots lo hi h = range_over-ratio (by_class snapshots) lo hi h
