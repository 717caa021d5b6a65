-- ===== src/Pipeline/Loadband/Percentiles.antt =====
-- A percentile by nearest rank is a value that was measured.
use llm_sched_study.Base.{
  ℕ, zero, suc, ◌-◌, ◌≤◌, ◌<◌, ◌≡◌, refl, ap, ◌∙◌, inl, inr, List, [], ◌∷◌, arith, length, IsAmong,
  Bool-cases, Floats,
}
use llm_sched_study.Pipeline.Loadband.{
  Numerics, nth, insert_by_key, sort_by_key, rank_of, percentile,
}
use llm_sched_study.Pipeline.Loadband.Sorted.{IsAmong-sort_by_key_iff}

nth-IsAmong :
    {A : Type 0} (default : A) (xs : List A) (i : ℕ) → i < length xs → IsAmong (nth default xs i) xs
nth-IsAmong default [] i h = absurd (omega (arith, h))
nth-IsAmong default (x ∷ xs) zero h = inl refl
nth-IsAmong default (x ∷ xs) (suc i) h = inr (nth-IsAmong default xs i (omega (arith, h)))

module _ (fl : Floats) {A : Type 0} (key : A → fl.Float) where
  length-insert_by_key :
      (a : A) (bs : List A) → length (insert_by_key fl key a bs) ≡ suc (length bs)
  length-insert_by_key a [] = refl
  length-insert_by_key a (b ∷ bs) = elim (Bool-cases (fl.lt (key b) (key a))) [
    | inl e ↦ rw e (ap (λ n. suc n) (length-insert_by_key a bs))
    | inr e ↦ rw e refl
  ]

  length-sort_by_key : (xs : List A) → length (sort_by_key fl key xs) ≡ length xs
  length-sort_by_key [] = refl
  length-sort_by_key (a ∷ as') =
      length-insert_by_key a (sort_by_key fl key as') ∙ ap (λ n. suc n) (length-sort_by_key as')

module _ (fl : Floats) (num : Numerics fl.Float) where
  open fl use {Float}

  rank_of-le :
      (q : Float) (n : ℕ) → (rank_of fl num q (suc n) ≤ suc n) × (1 ≤ rank_of fl num q (suc n))
  rank_of-le q n = ground arith

  -- A percentile of a list that has an element is one of its elements.
  pub percentile-IsAmong :
      (x : Float) (xs : List Float) (q : Float) → IsAmong (percentile fl num (x ∷ xs) q) (x ∷ xs)
  unfolding percentile
  percentile-IsAmong x xs q =
      let sorted = sort_by_key fl (λ y. y) (x ∷ xs) in
      let (high, low) = rank_of-le q (length xs) in
      let size = length-sort_by_key fl (λ y. y) (x ∷ xs) in
      (IsAmong-sort_by_key_iff fl (λ y. y) _ (x ∷ xs)).0 (
        nth-IsAmong (fl.of_nat 0) sorted (rank_of fl num q (length (x ∷ xs)) - 1)
          (omega (arith, high, low, size)))
