-- ===== src/Base/Dicts/Defs.antt =====
-- The dict's operations and the law of a lookup after a write.
use mathlib.Core.Path.{◌≡◌, refl}
use mathlib.Core.Bool.{Bool}
use mathlib.Core.Option.{Option, none, some}
use mathlib.Core.List.{List, [], ◌∷◌}
use native.Mathlib.Omega.{arith}
use llm_sched_study.Base.Tests.{Eq, ◌==◌, if◌then◌else◌, is_some}
use llm_sched_study.Base.Lists.{All}

abbrev pub Dict {ℓ κ} : Type ℓ → Type κ → Type (ℓ ⊔ κ)
Dict K V = List (K × V)

module _ {ℓ κ} {K : Type ℓ} {V : Type κ} ⦃e : Eq K⦄ where
  -- `d.get(k)`
  abbrev pub lookup : K → Dict K V → Option V
  lookup k [] = none
  lookup k ((j, v) ∷ d) = if j == k then some v else lookup k d

  -- `d[k] = v`
  abbrev pub insert : K → V → Dict K V → Dict K V
  insert k v [] = (k, v) ∷ []
  insert k v ((j, w) ∷ d) = if j == k then (j, v) ∷ d else (j, w) ∷ insert k v d

  -- `d.pop(k, None)`, without its value.
  abbrev pub remove : K → Dict K V → Dict K V
  remove k [] = []
  remove k ((j, v) ∷ d) = if j == k then d else (j, v) ∷ remove k d

  -- `k in d`
  abbrev pub contains : K → Dict K V → Bool
  contains k d = is_some (lookup k d)

  -- No key stands twice.
  abbrev pub IsDict : Dict K V → Type (ℓ ⊔ κ)
  IsDict [] = Unit
  IsDict ((k, v) ∷ d) = (lookup k d ≡ none) × IsDict d

  pub lookup-insert :
      (k j : K) (v : V) (d : Dict K V)
      → lookup j (insert k v d) ≡ (if k == j then some v else lookup j d)
  lookup-insert k j v [] = refl
  lookup-insert k j v ((i, w) ∷ d) =
      ground (arith, e.beq_iff k j, e.beq_iff i k, e.beq_iff i j, lookup-insert k j v d)

  pub insert-IsDict : (k : K) (v : V) (d : Dict K V) → IsDict d → IsDict (insert k v d)
  insert-IsDict k v [] h = (refl, tt)
  insert-IsDict k v ((j, w) ∷ d) h =
      ground (arith, e.beq_iff j k, e.beq_iff k j, insert-IsDict k v d h.1, lookup-insert k j v d)

  pub lookup-remove :
      (k j : K) (d : Dict K V)
      → IsDict d
      → lookup j (remove k d) ≡ (if k == j then none else lookup j d)
  lookup-remove k j [] h = ground arith
  lookup-remove k j ((i, w) ∷ d) h =
      ground (arith, e.beq_iff k j, e.beq_iff i k, e.beq_iff i j, lookup-remove k j d h.1)

  pub remove-IsDict : (k : K) (d : Dict K V) → IsDict d → IsDict (remove k d)
  remove-IsDict k [] h = tt
  remove-IsDict k ((j, w) ∷ d) h =
      ground (arith, e.beq_iff j k, e.beq_iff k j, remove-IsDict k d h.1, lookup-remove k j d h.1)

  lookup-All :
      (j : K) (u : V) (d xs : Dict K V)
      → lookup j xs ≡ none
      → All (λ (k, v). lookup k d ≡ some v) xs
      → All (λ (k, v). lookup k ((j, u) ∷ d) ≡ some v) xs
  lookup-All j u d [] fresh h = tt
  lookup-All j u d ((k, v) ∷ xs) fresh h =
      ground (arith, e.beq_iff j k, e.beq_iff k j, lookup-All j u d xs)

  -- In a dict every entry is what its key looks up.
  pub IsDict-entries : (d : Dict K V) → IsDict d → All (λ (k, v). lookup k d ≡ some v) d
  IsDict-entries [] h = tt
  IsDict-entries ((j, u) ∷ d) (fresh, h) =
      (ground (arith, e.beq_iff j j), lookup-All j u d d fresh (IsDict-entries d h))
