-- ===== src/Pipeline/Loadband/Sorted.antt =====
-- Points in the order of a number.
use llm_sched_study.Base.{
  ◌≡◌, ◌↔◌, ◌⊎◌, inl, inr, false, List, [], ◌∷◌, All, All-imp, IsAmong, Bool-cases, Floats,
}
use llm_sched_study.Calibration.Ranges.Extents.{Laws, IsNumber}
use llm_sched_study.Pipeline.Loadband.{insert_by_key, sort_by_key}

module _ (fl : Floats) {A : Type 0} (key : A → fl.Float) where
  open fl use {lt}

  -- No element is below one that stands before it.
  abbrev pub IsAscending : List A → Type 0
  IsAscending [] = Unit
  IsAscending (a ∷ as') = All (λ b. lt (key b) (key a) ≡ false) as' × IsAscending as'

  IsAmong-insert_by_key_iff :
      (x a : A) (bs : List A) → IsAmong x (insert_by_key fl key a bs) ↔ ((x ≡ a) ⊎ IsAmong x bs)
  IsAmong-insert_by_key_iff x a [] = (λ m. m, λ m. m)
  IsAmong-insert_by_key_iff x a (b ∷ bs) =
      let rest = IsAmong-insert_by_key_iff x a bs in
      elim (Bool-cases (lt (key b) (key a))) [
        | inl e ↦ rw e (
          λ m. elim m [
            | inl here ↦ inr (inl here)
            | inr m ↦ elim (rest.0 m) [ inl here ↦ inl here | inr m ↦ inr (inr m) ]
          ],
          λ m. elim m [
            | inl here ↦ inr (rest.1 (inl here))
            | inr m ↦ elim m [ inl here ↦ inl here | inr m ↦ inr (rest.1 (inr m)) ]
          ],
        )
        | inr e ↦ rw e (λ m. m, λ m. m)
      ]

  pub IsAmong-sort_by_key_iff :
      (x : A) (xs : List A) → IsAmong x (sort_by_key fl key xs) ↔ IsAmong x xs
  IsAmong-sort_by_key_iff x [] = (λ m. m, λ m. m)
  IsAmong-sort_by_key_iff x (a ∷ as') =
      let rest = IsAmong-sort_by_key_iff x as' in
      let placed = IsAmong-insert_by_key_iff x a (sort_by_key fl key as') in
      (
        λ m. elim (placed.0 m) [ inl here ↦ inl here | inr m ↦ inr (rest.0 m) ],
        λ m. placed.1 (elim m [ inl here ↦ inl here | inr m ↦ inr (rest.1 m) ]),
      )

  insert_by_key-All :
      (Q : A → Type 0) (a : A) (bs : List A) → Q a → All Q bs → All Q (insert_by_key fl key a bs)
  insert_by_key-All Q a [] q h = (q, tt)
  insert_by_key-All Q a (b ∷ bs) q (h, hs) = elim (Bool-cases (lt (key b) (key a))) [
    | inl e ↦ rw e (h, insert_by_key-All Q a bs q hs)
    | inr e ↦ rw e (q, (h, hs))
  ]

  pub sort_by_key-All : (Q : A → Type 0) (xs : List A) → All Q xs → All Q (sort_by_key fl key xs)
  sort_by_key-All Q [] h = tt
  sort_by_key-All Q (a ∷ as') (h, hs) =
      insert_by_key-All Q a (sort_by_key fl key as') h (sort_by_key-All Q as' hs)

  module _ (laws : Laws fl) where
    insert_by_key-IsAscending :
        (a : A) (bs : List A)
        → All (λ b. IsNumber fl (key b)) bs
        → IsAscending bs
        → IsAscending (insert_by_key fl key a bs)
    insert_by_key-IsAscending a [] n h = (tt, tt)
    insert_by_key-IsAscending a (b ∷ bs) (n, ns) (h, hs) = elim (Bool-cases (lt (key b) (key a))) [
      | inl e ↦ rw e (
        insert_by_key-All (λ y. lt (key y) (key b) ≡ false) a bs (laws.asym (key b) (key a) e) h,
        insert_by_key-IsAscending a bs ns hs,
      )
      | inr e ↦
          rw e ((e, All-imp _ _ bs (λ y k. laws.trans (key y) (key b) (key a) n k e) h), (h, hs))
    ]

    pub sort_by_key-IsAscending :
        (xs : List A) → All (λ x. IsNumber fl (key x)) xs → IsAscending (sort_by_key fl key xs)
    sort_by_key-IsAscending [] n = tt
    sort_by_key-IsAscending (a ∷ as') (n, ns) =
        insert_by_key-IsAscending a (sort_by_key fl key as')
          (sort_by_key-All (λ x. IsNumber fl (key x)) as' ns) (sort_by_key-IsAscending as' ns)
