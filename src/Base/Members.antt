-- ===== src/Base/Members.antt =====
-- What is among the elements of a list that a comprehension makes.
use mathlib.Core.Path.{◌≡◌, refl, sym, ap, ◌∙◌, subst}
use mathlib.Core.Logic.{◌↔◌, ◌⊎◌, inl, inr}
use mathlib.Core.List.{List, [], ◌∷◌, ◌++◌, map}
use mathlib.Core.Bool.{Bool, true}
use native.Mathlib.Omega.{arith}
use llm_sched_study.Base.Tests.{Bool-cases}
use llm_sched_study.Base.Lists.{All, keep}
use llm_sched_study.Base.Extremes.{IsAmong}

-- `[y for x in xs for y in f(x)]`
abbrev pub flat_map : {A B : Type 0} → (A → List B) → List A → List B
flat_map f [] = []
flat_map f (x ∷ xs) = f x ++ flat_map f xs

pub flat_map-singleton :
    {A B : Type 0} (f : A → B) (xs : List A) → flat_map (λ x. f x ∷ []) xs ≡ map f xs
flat_map-singleton f [] = refl
flat_map-singleton f (x ∷ xs) = ap (λ ys. f x ∷ ys) (flat_map-singleton f xs)

module _ {A : Type 0} where
  pub IsAmong-append_iff :
      (a : A) (xs ys : List A) → IsAmong a (xs ++ ys) ↔ (IsAmong a xs ⊎ IsAmong a ys)
  IsAmong-append_iff a [] ys =
      (λ m. inr m, λ m. elim m [ inl none_here ↦ absurd none_here | inr m ↦ m ])
  IsAmong-append_iff a (x ∷ xs) ys = (
    λ m. elim m [
      | inl e ↦ inl (inl e)
      | inr m ↦ elim ((IsAmong-append_iff a xs ys).0 m) [ inl m ↦ inl (inr m) | inr m ↦ inr m ]
    ],
    λ m. elim m [
      | inl m ↦ elim m [ inl e ↦ inl e | inr m ↦ inr ((IsAmong-append_iff a xs ys).1 (inl m)) ]
      | inr m ↦ inr ((IsAmong-append_iff a xs ys).1 (inr m))
    ],
  )

module _ {A B : Type 0} where
  pub IsAmong-map_iff :
      (f : A → B) (b : B) (xs : List A)
      → IsAmong b (map f xs) ↔ ((a : A) × IsAmong a xs × (b ≡ f a))
  IsAmong-map_iff f b [] = (λ m. absurd m, λ (_, m, _). absurd m)
  IsAmong-map_iff f b (x ∷ xs) = (
    λ m. elim m [
      | inl e ↦ (x, inl refl, e)
      | inr m ↦ let (a, m, e) = (IsAmong-map_iff f b xs).0 m in (a, inr m, e)
    ],
    λ (a, m, e). elim m [
      | inl here ↦ inl (subst (λ y. b ≡ f y) here e)
      | inr m ↦ inr ((IsAmong-map_iff f b xs).1 (a, m, e))
    ],
  )

  pub IsAmong-flat_map_iff :
      (f : A → List B) (b : B) (xs : List A)
      → IsAmong b (flat_map f xs) ↔ ((a : A) × IsAmong a xs × IsAmong b (f a))
  IsAmong-flat_map_iff f b [] = (λ m. absurd m, λ (_, m, _). absurd m)
  IsAmong-flat_map_iff f b (x ∷ xs) = (
    λ m. elim ((IsAmong-append_iff b (f x) (flat_map f xs)).0 m) [
      | inl here ↦ (x, inl refl, here)
      | inr m ↦ let (a, m, k) = (IsAmong-flat_map_iff f b xs).0 m in (a, inr m, k)
    ],
    λ (a, m, k). (IsAmong-append_iff b (f x) (flat_map f xs)).1 (elim m [
      | inl here ↦ inl (subst (λ y. IsAmong b (f y)) here k)
      | inr m ↦ inr ((IsAmong-flat_map_iff f b xs).1 (a, m, k))
    ]),
  )

pub IsAmong-keep_iff :
    {A : Type 0} (p : A → Bool) (a : A) (xs : List A)
    → IsAmong a (keep p xs) ↔ (IsAmong a xs × (p a ≡ true))
IsAmong-keep_iff p a [] = (λ m. absurd m, λ (m, _). absurd m)
IsAmong-keep_iff p a (x ∷ xs) =
    let rest = IsAmong-keep_iff p a xs in
    elim (Bool-cases (p x)) [
      | inl e ↦ rw e (
        λ m. elim m [
          | inl here ↦ (inl here, ap p here ∙ e)
          | inr m ↦ (inr (rest.0 m).0, (rest.0 m).1)
        ],
        λ (m, k). elim m [ inl here ↦ inl here | inr m ↦ inr (rest.1 (m, k)) ],
      )
      | inr e ↦ rw e (
        λ m. (inr (rest.0 m).0, (rest.0 m).1),
        λ (m, k). elim m [
          | inl here ↦ absurd (ground (arith, sym k, ap p here, e))
          | inr m ↦ rest.1 (m, k)
        ],
      )
    ]

pub keep-All :
    {A : Type 0} (p : A → Bool) (Q : A → Type 0) (xs : List A) → All Q xs → All Q (keep p xs)
keep-All p Q [] h = tt
keep-All p Q (x ∷ xs) (h, hs) = elim (Bool-cases (p x)) [
  | inl e ↦ rw e (h, keep-All p Q xs hs)
  | inr e ↦ rw e (keep-All p Q xs hs)
]
