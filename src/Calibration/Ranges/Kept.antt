-- ===== src/Calibration/Ranges/Kept.antt =====
-- Lists that a comprehension keeps a part of, as the pairs on two hosts are.
use llm_sched_study.Base.{
  ℕ, ◌≤◌, ◌≡◌, refl, inl, inr, Bool, true, false, String, List, [], ◌∷◌, arith, keep, ltb,
  string_eq, All, elem, beq_self, IsAmong, Bool-cases,
}

pub kept-none :
    {A : Type 0} (p : A → Bool) (xs : List A) → keep p xs ≡ [] → All (λ x. p x ≡ false) xs
kept-none p [] h = tt
kept-none p (x ∷ xs) h = elim (Bool-cases (p x)) [
  | inl e ↦ cc (rw e at h)
  | inr e ↦ (e, kept-none p xs (rw e at h))
]

pub le_one : (n : ℕ) → ltb 1 n ≡ false → n ≤ 1
le_one n h = ground arith

pub elem_head : (a : String) (xs : List String) → elem a (a ∷ xs) ≡ true
elem_head a xs = ground (arith, beq_self a)

pub kept-All : {A : Type 0} (p : A → Bool) (xs : List A) → All (λ x. p x ≡ true) (keep p xs)
kept-All p [] = tt
kept-All p (x ∷ xs) = elim (Bool-cases (p x)) [
  | inl e ↦ rw e (e, kept-All p xs)
  | inr e ↦ rw e (kept-All p xs)
]

-- What holds of the elements that are kept holds of all that would be.
pub All-unkeep :
    {A : Type 0} (p : A → Bool) (P : A → Type 0) (xs : List A)
    → All P (keep p xs)
    → All (λ x. p x ≡ true → P x) xs
All-unkeep p P [] h = tt
All-unkeep p P (x ∷ xs) h = elim (Bool-cases (p x)) [
  | inl e ↦ (let (a, b) = rw e at h in (λ _. a, All-unkeep p P xs b))
  | inr e ↦ (λ e1. cc, All-unkeep p P xs (rw e at h))
]

pub IsAmong-keep :
    {A : Type 0} (p : A → Bool) (a : A) (xs : List A) → IsAmong a (keep p xs) → IsAmong a xs
IsAmong-keep p a [] h = h
IsAmong-keep p a (x ∷ xs) h = elim (Bool-cases (p x)) [
  | inl e ↦ elim (rw e at h) [ inl same ↦ inl same | inr rest ↦ inr (IsAmong-keep p a xs rest) ]
  | inr e ↦ inr (IsAmong-keep p a xs (rw e at h))
]

pub All-of_IsAmong :
    {A : Type 0} {P : A → Type 0} (xs : List A) → ((a : A) → IsAmong a xs → P a) → All P xs
All-of_IsAmong [] each = tt
All-of_IsAmong (x ∷ xs) each = (each x (inl refl), All-of_IsAmong xs (λ a m. each a (inr m)))
