-- ===== src/Base/Sets.antt =====
-- Python sets of keys and `list.count`.
use Prim.Native.Nat.{ℕ, ◌≤◌, ◌<◌}
use mathlib.Core.Path.{◌≡◌, refl, sym, subst}
use mathlib.Core.Logic.{◌↔◌, inl, inr}
use mathlib.Core.Bool.{Bool, true, false}
use mathlib.Core.List.{List, [], ◌∷◌}
use native.Mathlib.Omega.{arith}
use llm_sched_study.Base.Tests.{Bool-cases, Eq, ◌==◌, if◌then◌else◌, ltb}
use llm_sched_study.Base.Lists.{length, any, All, count_if, All-imp, count_if_zero}

module _ {ℓ} {A : Type ℓ} ⦃e : Eq A⦄ where
  -- `x in xs`
  abbrev pub elem : A → List A → Bool
  elem a xs = any (λ x. x == a) xs

  -- `xs.count(a)`
  abbrev pub count : A → List A → ℕ
  count a xs = count_if (λ x. x == a) xs

  -- `set(xs)`, each element where it last stands.
  abbrev pub to_set : List A → List A
  to_set [] = []
  to_set (x ∷ xs) = if elem x xs then to_set xs else x ∷ to_set xs

  abbrev pub Distinct : List A → Type 0
  Distinct [] = Unit
  Distinct (x ∷ xs) = (elem x xs ≡ false) × Distinct xs

  elem-to_set : (a : A) (xs : List A) → elem a (to_set xs) ≡ elem a xs
  elem-to_set a [] = refl
  elem-to_set a (x ∷ xs) = ground (arith, e.beq_iff x a, elem-to_set a xs)

  pub All-elem {κ} : (P : A → Type κ) (a : A) (xs : List A) → All P xs → elem a xs ≡ true → P a
  All-elem P a [] h m = cc
  All-elem P a (x ∷ xs) h m = elim (Bool-cases (x == a)) [
    | inl here ↦ rw (← (e.beq_iff x a).0 here) h.0
    | inr there ↦ All-elem P a xs h.1 (rw there at m)
  ]

  to_set-eq_nil : (xs : List A) → length (to_set xs) ≡ 0 → xs ≡ []
  to_set-eq_nil [] h = refl
  to_set-eq_nil (x ∷ xs) h = ground (arith, to_set-eq_nil xs)

  -- The elements of a set of one element at most are all equal.
  pub to_set-le_one :
      (a : A) (xs : List A) → length (to_set xs) ≤ 1 → elem a xs ≡ true → All (λ y. y ≡ a) xs
  to_set-le_one a [] h m = tt
  to_set-le_one a (x ∷ xs) h m = elim (Bool-cases (elem x xs)) [
    | inl again ↦
        let shorter = rw again at h in
        let like_x = to_set-le_one x xs shorter again in
        let a_eq : x ≡ a = elim (Bool-cases (x == a)) [
          | inl here ↦ (e.beq_iff x a).0 here
          | inr there ↦ sym (All-elem (λ y. y ≡ x) a xs like_x (rw there at m))
        ] in
        (a_eq, subst (λ v. All (λ y. y ≡ v) xs) a_eq like_x)
    | inr new ↦
        let rest : xs ≡ [] = to_set-eq_nil xs (let k = rw new at h in omega arith) in
        rw rest (ground (arith, rest, e.beq_iff x a))
  ]

  pub elem-count : (a : A) (xs : List A) → elem a xs ≡ false → count a xs ≡ 0
  elem-count a [] h = refl
  elem-count a (x ∷ xs) h = ground (arith, elem-count a xs)

  elem-count_pos : (a : A) (xs : List A) → elem a xs ≡ true → 0 < count a xs
  elem-count_pos a [] h = cc
  elem-count_pos a (x ∷ xs) h = ground (arith, elem-count_pos a xs)

  -- Elements that count at most once are distinct.
  pub Distinct-of_count :
      (c : A → ℕ) (xs : List A) → ((a : A) → count a xs ≤ c a) → All (λ x. c x ≤ 1) xs → Distinct xs
  Distinct-of_count c [] bound once = tt
  Distinct-of_count c (x ∷ xs) bound once = (
    elim (Bool-cases (elem x xs)) [
      | inl again ↦
          absurd (ground (arith, bound x, once.0, elem-count_pos x xs again, e.beq_iff x x))
      | inr new ↦ new
    ],
    Distinct-of_count c xs (λ a. ground (arith, bound a)) once.1,
  )

  -- No element that counts more than once: all are distinct.
  pub no_repeats-Distinct : (xs : List A) → count_if (λ x. ltb 1 (count x xs)) xs ≡ 0 → Distinct xs
  no_repeats-Distinct xs h =
      Distinct-of_count (λ x. count x xs) xs (λ a. omega arith)
        (All-imp _ _ xs (λ x small. ground arith) (count_if_zero (λ x. ltb 1 (count x xs)) xs h))

  length-to_set-le : (xs : List A) → length (to_set xs) ≤ length xs
  length-to_set-le [] = omega arith
  length-to_set-le (x ∷ xs) = ground (arith, length-to_set-le xs)

  -- `len(set(xs)) == len(xs)`: no element stands twice.
  pub Distinct-iff : (xs : List A) → (length (to_set xs) ≡ length xs) ↔ Distinct xs
  Distinct-iff [] = (λ _. tt, λ _. refl)
  Distinct-iff (x ∷ xs) = ground (arith, length-to_set-le xs, Distinct-iff xs)
