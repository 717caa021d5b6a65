-- ===== src/Calibration/Envelopes/Rectangles.antt =====
-- The rectangles of lengths that a node serves in time: what `admitted` says of the measured cells.
use llm_sched_study.Base.{
  ◌≡◌, refl, sym, subst, ◌↔◌, inl, inr, Bool, true, List, [], ◌∷◌, ◌++◌, map, arith, all, All,
  nat_eq, IsAmong, Bool-cases,
}
use llm_sched_study.Calibration.Envelopes.{
  Bucket, CostCell, Group, same_bucket, bucket_of, add_cell, by_bucket,
}

pub same_bucket_iff : (a b : Bucket) → (same_bucket a b ≡ true) ↔ (a ≡ b)
same_bucket_iff (q, r) (p, o) = ground (arith, nat_eq.beq_iff q p, nat_eq.beq_iff r o)

All-snoc_iff :
    {A : Type 0} (Q : A → Type 0) (xs : List A) (x : A) → All Q (xs ++ x ∷ []) ↔ (All Q xs × Q x)
All-snoc_iff Q [] x = (λ (q, _). (tt, q), λ (_, q). (q, tt))
All-snoc_iff Q (y ∷ xs) x =
    let rest = All-snoc_iff Q xs x in
    (λ (h, hs). ((h, (rest.0 hs).0), (rest.0 hs).1), λ ((h, hs), q). (h, rest.1 (hs, q)))

pub all_iff :
    {A : Type 0} (p : A → Bool) (xs : List A) → (all p xs ≡ true) ↔ All (λ x. p x ≡ true) xs
all_iff p [] = (λ _. tt, λ _. refl)
all_iff p (x ∷ xs) = ground (arith, all_iff p xs)

module _ {F : Type 0} where
  abbrev pub InGroup : (CostCell F → Type 0) → Bucket × Group F → Type 0
  InGroup Q (b, (first, others)) = Q first × All Q others

  abbrev pub KeyRight : Bucket × Group F → Type 0
  KeyRight (b, (first, others)) = (bucket_of first ≡ b) × All (λ e. bucket_of e ≡ b) others

  abbrev pub HasKey : Bucket → List (Bucket × Group F) → Type 0
  HasKey b groups = IsAmong b (map (λ g. g.0) groups)

  -- The groups hold the cells that they held and the new one.
  add_cell-InGroup_iff :
      (Q : CostCell F → Type 0) (groups : List (Bucket × Group F)) (e : CostCell F)
      → All (InGroup Q) (add_cell groups e) ↔ (All (InGroup Q) groups × Q e)
  add_cell-InGroup_iff Q [] e = (λ ((q, _), _). (tt, q), λ (_, q). ((q, tt), tt))
  add_cell-InGroup_iff Q ((b, (first, others)) ∷ groups) e =
      let rest = add_cell-InGroup_iff Q groups e in
      let here = All-snoc_iff Q others e in
      elim (Bool-cases (same_bucket b (bucket_of e))) [
        | inl same ↦ rw same (
          λ ((q, h), hs). (((q, (here.0 h).0), hs), (here.0 h).1),
          λ (((q, h), hs), k). ((q, here.1 (h, k)), hs),
        )
        | inr other ↦
            rw other
              (λ (h, hs). ((h, (rest.0 hs).0), (rest.0 hs).1), λ ((h, hs), k). (h, rest.1 (hs, k)))
      ]

  pub by_bucket-InGroup_iff :
      (Q : CostCell F → Type 0) (groups : List (Bucket × Group F)) (es : List (CostCell F))
      → All (InGroup Q) (by_bucket groups es) ↔ (All (InGroup Q) groups × All Q es)
  by_bucket-InGroup_iff Q groups [] = (λ h. (h, tt), λ (h, _). h)
  by_bucket-InGroup_iff Q groups (e ∷ es) =
      let rest = by_bucket-InGroup_iff Q (add_cell groups e) es in
      let here = add_cell-InGroup_iff Q groups e in
      (
        λ h. let (a, b) = rest.0 h in let (c, d) = here.0 a in (c, (d, b)),
        λ (c, (d, b)). rest.1 (here.1 (c, d), b),
      )

  add_cell-KeyRight :
      (groups : List (Bucket × Group F)) (e : CostCell F)
      → All KeyRight groups
      → All KeyRight (add_cell groups e)
  add_cell-KeyRight [] e h = ((refl, tt), tt)
  add_cell-KeyRight ((b, (first, others)) ∷ groups) e ((k, ks), h) =
      elim (Bool-cases (same_bucket b (bucket_of e))) [
        | inl same ↦ rw same (
          (
            k,
            (All-snoc_iff (λ e. bucket_of e ≡ b) others e).1
                (ks, sym ((same_bucket_iff b (bucket_of e)).0 same)),
          ),
          h,
        )
        | inr other ↦ rw other ((k, ks), add_cell-KeyRight groups e h)
      ]

  pub by_bucket-KeyRight :
      (groups : List (Bucket × Group F)) (es : List (CostCell F))
      → All KeyRight groups
      → All KeyRight (by_bucket groups es)
  by_bucket-KeyRight groups [] h = h
  by_bucket-KeyRight groups (e ∷ es) h =
      by_bucket-KeyRight (add_cell groups e) es (add_cell-KeyRight groups e h)

  add_cell-HasKey :
      (groups : List (Bucket × Group F)) (e : CostCell F) → HasKey (bucket_of e) (add_cell groups e)
  add_cell-HasKey [] e = inl refl
  add_cell-HasKey ((b, (first, others)) ∷ groups) e =
      elim (Bool-cases (same_bucket b (bucket_of e))) [
        | inl same ↦ rw same (inl (sym ((same_bucket_iff b (bucket_of e)).0 same)))
        | inr other ↦ rw other (inr (add_cell-HasKey groups e))
      ]

  add_cell-keeps :
      (b : Bucket) (groups : List (Bucket × Group F)) (e : CostCell F)
      → HasKey b groups
      → HasKey b (add_cell groups e)
  add_cell-keeps b [] e m = absurd m
  add_cell-keeps b ((c, (first, others)) ∷ groups) e m =
      elim (Bool-cases (same_bucket c (bucket_of e))) [
        | inl same ↦ rw same m
        | inr other ↦
            rw other (elim m [ inl here ↦ inl here | inr m ↦ inr (add_cell-keeps b groups e m) ])
      ]

  by_bucket-keeps :
      (b : Bucket) (groups : List (Bucket × Group F)) (es : List (CostCell F))
      → HasKey b groups
      → HasKey b (by_bucket groups es)
  by_bucket-keeps b groups [] m = m
  by_bucket-keeps b groups (e ∷ es) m =
      by_bucket-keeps b (add_cell groups e) es (add_cell-keeps b groups e m)

  -- Each cell's bucket is a key.
  pub by_bucket-HasKey :
      (groups : List (Bucket × Group F)) (es : List (CostCell F)) (e : CostCell F)
      → IsAmong e es
      → HasKey (bucket_of e) (by_bucket groups es)
  by_bucket-HasKey groups [] e m = absurd m
  by_bucket-HasKey groups (x ∷ es) e (inl here) =
      by_bucket-keeps (bucket_of e) (add_cell groups x) es (
        subst (λ y. HasKey (bucket_of y) (add_cell groups x)) (sym here) (add_cell-HasKey groups x))
  by_bucket-HasKey groups (x ∷ es) e (inr m) = by_bucket-HasKey (add_cell groups x) es e m
