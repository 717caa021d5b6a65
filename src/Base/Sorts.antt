-- ===== src/Base/Sorts.antt =====
-- Python's `sorted` on texts and on the items of a dict.
use mathlib.Core.Path.{◌≡◌, refl}
use mathlib.Core.Bool.{Bool, true}
use mathlib.Core.List.{List, [], ◌∷◌}
use Prim.Native.String.{String, compare}
use text.Mathlib.Text.{is_le}
use native.Mathlib.Omega.{arith}
use llm_sched_study.Base.Tests.{if◌then◌else◌}
use llm_sched_study.Base.Lists.{truthy}

-- `a <= b`, by code points.
abbrev pub text_leb : String → String → Bool
text_leb a b = is_le (compare a b)

module _ {ℓ} {A : Type ℓ} (key : A → String) where
  abbrev pub insert_by : A → List A → List A
  insert_by a [] = a ∷ []
  insert_by a (b ∷ bs) = if text_leb (key a) (key b) then a ∷ b ∷ bs else b ∷ insert_by a bs

  -- `sorted(xs, key=key)`: an element goes before its equals that follow it.
  abbrev pub sort_by : List A → List A
  sort_by [] = []
  sort_by (a ∷ as') = insert_by a (sort_by as')

  truthy-insert_by : (a : A) (bs : List A) → truthy (insert_by a bs) ≡ true
  truthy-insert_by a [] = refl
  truthy-insert_by a (b ∷ bs) = ground arith

  pub truthy-sort_by : (xs : List A) → truthy (sort_by xs) ≡ truthy xs
  truthy-sort_by [] = refl
  truthy-sort_by (a ∷ as') = truthy-insert_by a (sort_by as')
