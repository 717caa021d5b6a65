-- ===== src/Calibration/Ranges/Pairs.antt =====
-- The pairs that `combinations` makes: each two elements, in their order.
use llm_sched_study.Base.{◌≡◌, inl, inr, List, [], ◌∷◌, ◌++◌, map, All, IsAmong, ap, ◌⊎◌}
use llm_sched_study.Calibration.Ranges.{combinations}

module _ {A : Type 0} where
  -- `R` of every two elements, the earlier one first.
  abbrev pub Pairwise : (A → A → Type 0) → List A → Type 0
  Pairwise R [] = Unit
  Pairwise R (x ∷ xs) = All (R x) xs × Pairwise R xs

  All-map :
      (P : A × A → Type 0) (x : A) (ys : List A)
      → All P (map (λ y. (x, y)) ys)
      → All (λ y. P (x, y)) ys
  All-map P x [] h = tt
  All-map P x (y ∷ ys) (h, hs) = (h, All-map P x ys hs)

  All-split : (P : A × A → Type 0) (xs ys : List (A × A)) → All P (xs ++ ys) → All P xs × All P ys
  All-split P [] ys h = (tt, h)
  All-split P (x ∷ xs) ys (h, hs) = let (a, b) = All-split P xs ys hs in ((h, a), b)

  pub Pairwise-of_combinations :
      (P : A × A → Type 0) (xs : List A) → All P (combinations xs) → Pairwise (λ x y. P (x, y)) xs
  unfolding combinations
  Pairwise-of_combinations P [] h = tt
  Pairwise-of_combinations P (x ∷ xs) h =
      let (first, rest) = All-split P (map (λ y. (x, y)) xs) (combinations xs) h in
      (All-map P x xs first, Pairwise-of_combinations P xs rest)

  IsAmong-map :
      (p : A × A) (x : A) (ys : List A)
      → IsAmong p (map (λ y. (x, y)) ys)
      → (p.0 ≡ x) × IsAmong p.1 ys
  IsAmong-map p x [] h = absurd h
  IsAmong-map p x (y ∷ ys) (inl e) = (ap (λ q. q.0) e, inl (ap (λ q. q.1) e))
  IsAmong-map p x (y ∷ ys) (inr h) = let (a, b) = IsAmong-map p x ys h in (a, inr b)

  IsAmong-split :
      (p : A × A) (xs ys : List (A × A)) → IsAmong p (xs ++ ys) → IsAmong p xs ⊎ IsAmong p ys
  IsAmong-split p [] ys h = inr h
  IsAmong-split p (x ∷ xs) ys (inl e) = inl (inl e)
  IsAmong-split p (x ∷ xs) ys (inr h) = elim (IsAmong-split p xs ys h) [
    | inl a ↦ inl (inr a)
    | inr b ↦ inr b
  ]

  pub IsAmong-combinations :
      (p : A × A) (xs : List A) → IsAmong p (combinations xs) → IsAmong p.0 xs × IsAmong p.1 xs
  unfolding combinations
  IsAmong-combinations p [] h = absurd h
  IsAmong-combinations p (x ∷ xs) h =
      elim (IsAmong-split p (map (λ y. (x, y)) xs) (combinations xs) h) [
        | inl first ↦ (let (a, b) = IsAmong-map p x xs first in (inl a, inr b))
        | inr rest ↦ (let (a, b) = IsAmong-combinations p xs rest in (inr a, inr b))
      ]
