-- ===== src/Base/Dicts/Sums.antt =====
-- Sums over the entries of a dict, and how a write changes them.
use Prim.Native.Nat.{ℕ, ◌+◌}
use mathlib.Core.Path.{◌≡◌, refl}
use mathlib.Core.Bool.{Bool, ◌||◌}
use mathlib.Core.Option.{none, some}
use mathlib.Core.List.{[], ◌∷◌}
use native.Mathlib.Omega.{arith}
use llm_sched_study.Base.Tests.{Eq, ◌==◌, if◌then◌else◌}
use llm_sched_study.Base.Lists.{All}
use llm_sched_study.Base.Dicts.Defs.{Dict, lookup, insert, IsDict}

-- `sum(f(k, v) for k, v in d.items())`
abbrev pub sum_items {ℓ κ} : {K : Type ℓ} {V : Type κ} → (K → V → ℕ) → Dict K V → ℕ
sum_items f [] = 0
sum_items f ((k, v) ∷ d) = f k v + sum_items f d

-- Two weights that agree at every entry have one sum.
pub sum_items-congr {ℓ κ} :
    {K : Type ℓ} {V : Type κ} (f g : K → V → ℕ) (d : Dict K V)
    → All (λ (k, v). f k v ≡ g k v) d
    → sum_items f d ≡ sum_items g d
sum_items-congr f g [] h = refl
sum_items-congr f g ((k, v) ∷ d) h = omega (arith, h.0, sum_items-congr f g d h.1)

module _ {ℓ κ} {K : Type ℓ} {V : Type κ} ⦃e : Eq K⦄ (f : K → V → ℕ) where
  abbrev pub weight_at : K → Dict K V → ℕ
  weight_at k d = elim (lookup k d) [ none ↦ 0 | some v ↦ f k v ]

  -- Overwriting replaces the old weight of the key by the new one.
  pub sum_items-insert :
      (k : K) (v : V) (d : Dict K V)
      → sum_items f (insert k v d) + weight_at k d ≡ sum_items f d + f k v
  sum_items-insert k v [] = omega arith
  sum_items-insert k v ((j, w) ∷ d) = ground (arith, e.beq_iff j k, sum_items-insert k v d)

  -- The sum without the keys that `p` picks.
  abbrev pub sum_except : (K → Bool) → Dict K V → ℕ
  sum_except p [] = 0
  sum_except p ((k, v) ∷ d) = (if p k then 0 else f k v) + sum_except p d

  sum_except_absent :
      (p : K → Bool) (k : K) (d : Dict K V)
      → lookup k d ≡ none
      → sum_except (λ j. j == k || p j) d ≡ sum_except p d
  sum_except_absent p k [] h = refl
  sum_except_absent p k ((j, w) ∷ d) h = ground (arith, sum_except_absent p k d)

  pub sum_except-insert :
      (p : K → Bool) (k : K) (v : V) (d : Dict K V)
      → IsDict d
      → sum_except p (insert k v d) ≡ sum_except (λ j. j == k || p j) d + (if p k then 0 else f k v)
  sum_except-insert p k v [] h = omega arith
  sum_except-insert p k v ((j, w) ∷ d) h =
      ground (
        arith,
        e.beq_iff j k,
        e.beq_iff k j,
        sum_except_absent p k d,
        sum_except-insert p k v d h.1,
      )
