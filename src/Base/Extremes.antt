-- ===== src/Base/Extremes.antt =====
-- Python's `max` and `min` with a key: the first element that no other one beats.
use mathlib.Core.Path.{◌≡◌, refl, sym, subst}
use mathlib.Core.Logic.{◌⊎◌, inl, inr}
use mathlib.Core.Bool.{Bool, true, false}
use mathlib.Core.List.{List, [], ◌∷◌}
use llm_sched_study.Base.Tests.{if◌then◌else◌, Bool-cases}
use llm_sched_study.Base.Lists.{All}

module _ {A : Type 0} where
  abbrev pub IsAmong : A → List A → Type 0
  IsAmong a [] = ⊥
  IsAmong a (b ∷ bs) = (a ≡ b) ⊎ IsAmong a bs

  pub All-IsAmong : (P : A → Type 0) (a : A) (xs : List A) → All P xs → IsAmong a xs → P a
  All-IsAmong P a [] h m = absurd m
  All-IsAmong P a (b ∷ bs) (h, hs) (inl e) = subst P (sym e) h
  All-IsAmong P a (b ∷ bs) (h, hs) (inr m) = All-IsAmong P a bs hs m

module _ {A : Type 0} (beats : A → A → Bool) where
  abbrev pub best_from : A → List A → A
  best_from m [] = m
  best_from m (x ∷ xs) = best_from (if beats x m then x else m) xs

  best_from-beats :
      (m x : A) (xs : List A) → beats x m ≡ true → best_from m (x ∷ xs) ≡ best_from x xs
  best_from-beats m x xs e = rw e refl

  best_from-stays :
      (m x : A) (xs : List A) → beats x m ≡ false → best_from m (x ∷ xs) ≡ best_from m xs
  best_from-stays m x xs e = rw e refl

  pub best_from-IsAmong : (m : A) (xs : List A) → IsAmong (best_from m xs) (m ∷ xs)
  best_from-IsAmong m [] = inl refl
  best_from-IsAmong m (x ∷ xs) = elim (Bool-cases (beats x m)) [
    | inl new ↦
        subst (λ b. IsAmong b (m ∷ x ∷ xs)) (sym (best_from-beats m x xs new))
          (inr (best_from-IsAmong x xs))
    | inr old ↦
        subst (λ b. IsAmong b (m ∷ x ∷ xs)) (sym (best_from-stays m x xs old))
          (elim (best_from-IsAmong m xs) [ inl e ↦ inl e | inr h ↦ inr (inr h) ])
  ]

  abbrev pub IsBest : A → List A → Type 0
  IsBest b = All (λ x. beats x b ≡ false)

  -- Of elements that compare, the best one is beaten by none.
  module _ (Good : A → Type 0) (irrefl : (a : A) → beats a a ≡ false)
      (asym : (a b : A) → beats a b ≡ true → beats b a ≡ false)
      (trans : (a b c : A)
        → Good b
        → beats a b ≡ false
        → beats b c ≡ false
        → beats a c ≡ false) where
    pub best_from-IsBest :
        (m : A) (xs : List A) → Good m → All Good xs → IsBest (best_from m xs) (m ∷ xs)
    best_from-IsBest m [] g gs = (irrefl m, tt)
    best_from-IsBest m (x ∷ xs) g (gx, gs) = elim (Bool-cases (beats x m)) [
      | inl new ↦
          let (of_x, rest) = best_from-IsBest x xs gx gs in
          subst (λ b. IsBest b (m ∷ x ∷ xs)) (sym (best_from-beats m x xs new))
            (trans m x (best_from x xs) gx (asym x m new) of_x, (of_x, rest))
      | inr old ↦
          let (of_m, rest) = best_from-IsBest m xs g gs in
          subst (λ b. IsBest b (m ∷ x ∷ xs)) (sym (best_from-stays m x xs old))
            (of_m, (trans x m (best_from m xs) g old of_m, rest))
    ]
