-- ===== src/Calibration/Envelopes/Largest.antt =====
-- The rectangle that a node is given: the largest of the admissible ones.
use llm_sched_study.Base.{
  ℕ, ◌*◌, ◌≤◌, ◌<◌, ◌≡◌, refl, sym, subst, ◌↔◌, ◌⊎◌, inl, inr, Bool, true, false, not, ◌&&◌, List,
  [], ◌∷◌, arith, any, All, All-imp, nat_eq, IsAmong, All-IsAmong, IsAmong-keep_iff, best_from,
  best_from-IsAmong, best_from-IsBest, Bool-cases, Floats, dec_lt,
}
use native.Mathlib.Nat.{le_trans, mul-le-mul_left, mul-le-mul_right, mul-lt-mul_of_pos_left}
use llm_sched_study.Calibration.Envelopes.{
  Bucket, CostCell, CostSnapshot, NodeEnvelope, same_bucket, is_inside, ranks_below, admitted,
  is_maximal, maximal, insert_ranked, rank, first_ranked, by_bucket, fits_of,
  node_limit_from_snapshot,
}
use llm_sched_study.Calibration.Envelopes.Fitting.{Ordered, IsAdmissible, AllNumbers, admitted_iff}

ranks_below_irrefl : (a : Bucket) → ranks_below a a ≡ false
ranks_below_irrefl (p, o) = ground arith

ranks_below_asym : (a b : Bucket) → ranks_below a b ≡ true → ranks_below b a ≡ false
ranks_below_asym (p, o) (q, r) h = ground arith

ranks_below_trans :
    (a b c : Bucket) → ranks_below b a ≡ false → ranks_below c b ≡ false → ranks_below c a ≡ false
ranks_below_trans (p, o) (q, r) (s, t) h k = ground arith

ranks_of_area : (a b : Bucket) → a.0 * a.1 < b.0 * b.1 → ranks_below a b ≡ true
ranks_of_area (p, o) (q, r) h = ground arith

-- A rectangle that holds another one ranks above it, if that one has a width.
holds-ranks :
    (b c : Bucket)
    → 0 < b.0
    → is_inside b c ≡ true
    → (same_bucket c b ≡ true) ⊎ (ranks_below b c ≡ true)
holds-ranks (p, o) (q, r) positive inside =
    let wider : p ≤ q = ground arith in
    let longer : o ≤ r = ground arith in
    let area : p * o ≤ q * r = le_trans (mul-le-mul_right o wider) (mul-le-mul_left q longer) in
    elim (dec_lt p q) [
      | yes apart ↦ inr (ground (arith, area, apart))
      | no alike ↦
          let same_width : q ≡ p = omega arith in
          elim (dec_lt o r) [
            | yes apart ↦ inr (
                ranks_of_area (p, o) (q, r)
                  (subst (λ w. p * o < w * r) (sym same_width)
                    (mul-lt-mul_of_pos_left apart positive)))
            | no equal ↦
                inl (
                  ground (arith, same_width, longer, equal, nat_eq.beq_iff q p, nat_eq.beq_iff r o))
          ]
    ]

IsAmong-insert_ranked_iff :
    (x b : Bucket) (cs : List Bucket) → IsAmong x (insert_ranked b cs) ↔ ((x ≡ b) ⊎ IsAmong x cs)
IsAmong-insert_ranked_iff x b [] = (λ m. m, λ m. m)
IsAmong-insert_ranked_iff x b (c ∷ cs) =
    let rest = IsAmong-insert_ranked_iff x b cs in
    elim (Bool-cases (ranks_below b c)) [
      | inl e ↦ rw e (
        λ m. elim m [
          | inl here ↦ inr (inl here)
          | inr m ↦ elim (rest.0 m) [ inl here ↦ inl here | inr m ↦ inr (inr m) ]
        ],
        λ m. elim m [
          | inl here ↦ inr (rest.1 (inl here))
          | inr m ↦ elim m [ inl here ↦ inl here | inr m ↦ inr (rest.1 (inr m)) ]
        ],
      )
      | inr e ↦ rw e (λ m. m, λ m. m)
    ]

IsAmong-rank_iff : (x : Bucket) (bs : List Bucket) → IsAmong x (rank bs) ↔ IsAmong x bs
IsAmong-rank_iff x [] = (λ m. m, λ m. m)
IsAmong-rank_iff x (b ∷ bs) =
    let rest = IsAmong-rank_iff x bs in
    let placed = IsAmong-insert_ranked_iff x b (rank bs) in
    (
      λ m. elim (placed.0 m) [ inl here ↦ inl here | inr m ↦ inr (rest.0 m) ],
      λ m. placed.1 (elim m [ inl here ↦ inl here | inr m ↦ inr (rest.1 m) ]),
    )

-- No element ranks above the first.
abbrev IsTop : List Bucket → Type 0
IsTop [] = Unit
IsTop (b ∷ bs) = All (λ c. ranks_below b c ≡ false) bs

insert_ranked-All :
    (Q : Bucket → Type 0) (b : Bucket) (cs : List Bucket)
    → Q b
    → All Q cs
    → All Q (insert_ranked b cs)
insert_ranked-All Q b [] q h = (q, tt)
insert_ranked-All Q b (c ∷ cs) q (h, hs) = elim (Bool-cases (ranks_below b c)) [
  | inl e ↦ rw e (h, insert_ranked-All Q b cs q hs)
  | inr e ↦ rw e (q, (h, hs))
]

insert_ranked-IsTop : (b : Bucket) (cs : List Bucket) → IsTop cs → IsTop (insert_ranked b cs)
insert_ranked-IsTop b [] h = tt
insert_ranked-IsTop b (c ∷ cs) h = elim (Bool-cases (ranks_below b c)) [
  | inl e ↦ rw e (insert_ranked-All (λ x. ranks_below c x ≡ false) b cs (ranks_below_asym b c e) h)
  | inr e ↦ rw e (e, All-imp _ _ cs (λ x k. ranks_below_trans x c b k e) h)
]

rank-IsTop : (bs : List Bucket) → IsTop (rank bs)
rank-IsTop [] = tt
rank-IsTop (b ∷ bs) = insert_ranked-IsTop b (rank bs) (rank-IsTop bs)

-- The first of a list that has an element is an element, and none ranks above it.
first_ranked-IsTop :
    (cs : List Bucket)
    → IsTop cs
    → ((cs ≡ [])
        ⊎ (IsAmong (first_ranked cs) cs × All (λ c. ranks_below (first_ranked cs) c ≡ false) cs))
first_ranked-IsTop [] h = inl refl
first_ranked-IsTop (c ∷ cs) h = inr (inl refl, (ranks_below_irrefl c, h))

any_none : {A : Type 0} (p : A → Bool) (xs : List A) → All (λ x. p x ≡ false) xs → any p xs ≡ false
any_none p [] h = refl
any_none p (x ∷ xs) (h, hs) = ground (arith, h, any_none p xs hs)

-- A rectangle of some width that none ranks above is held by no other.
top-IsMaximal :
    (b : Bucket) (bs : List Bucket)
    → 0 < b.0
    → All (λ c. ranks_below b c ≡ false) bs
    → is_maximal bs b ≡ true
top-IsMaximal b bs positive top =
    let none_holds =
      any_none (λ c. not (same_bucket c b) && is_inside b c) bs
        (All-imp _ _ bs
          (λ c k. elim (Bool-cases (is_inside b c)) [
            | inl i ↦ elim (holds-ranks b c positive i) [
              | inl same ↦ ground (arith, same)
              | inr ranks ↦ absurd (ground (arith, ranks, k))
            ]
            | inr i ↦ ground (arith, i)
          ])
          top) in
    ground (arith, none_holds)

pub All-of_IsAmong :
    {A : Type 0} (P : A → Type 0) (xs : List A) → ((x : A) → IsAmong x xs → P x) → All P xs
All-of_IsAmong P [] f = tt
All-of_IsAmong P (x ∷ xs) f = (f x (inl refl), All-of_IsAmong P xs (λ y m. f y (inr m)))

largest :
    (bs : List Bucket)
    → All (λ b. 0 < b.0) bs
    → ((bs ≡ []) × (first_ranked (rank (maximal bs)) ≡ (0, 0)))
      ⊎ (IsAmong (first_ranked (rank (maximal bs))) bs
          × All (λ c. ranks_below (first_ranked (rank (maximal bs))) c ≡ false) bs)
largest [] positive = inl (refl, refl)
largest (b ∷ bs) positive =
    let beats : Bucket → Bucket → Bool = λ x m. ranks_below m x in
    let top = best_from beats b bs in
    let among = best_from-IsAmong beats b bs in
    let above =
      best_from-IsBest beats (λ _. Unit) ranks_below_irrefl (λ x y h. ranks_below_asym y x h)
        (λ x y z _ h k. ranks_below_trans x y z h k) b bs tt
        (All-of_IsAmong (λ _. Unit) bs (λ _ _. tt)) in
    let is_max =
      top-IsMaximal top (b ∷ bs) (All-IsAmong (λ c. 0 < c.0) top (b ∷ bs) positive among) above in
    let kept = (IsAmong-keep_iff (is_maximal (b ∷ bs)) top (b ∷ bs)).1 (among, is_max) in
    let ranked = (IsAmong-rank_iff top (maximal (b ∷ bs))).1 kept in
    elim (first_ranked-IsTop (rank (maximal (b ∷ bs))) (rank-IsTop (maximal (b ∷ bs)))) [
      | inl empty ↦ absurd (subst (IsAmong top) empty ranked)
      | inr found ↦
          let (first, below) = found in
          inr (
            ((IsAmong-keep_iff (is_maximal (b ∷ bs)) _ (b ∷ bs)).0
                ((IsAmong-rank_iff _ (maximal (b ∷ bs))).0 first)).0,
            All-imp _ _ (b ∷ bs)
                (λ x k. ranks_below_trans x top (first_ranked (rank (maximal (b ∷ bs)))) k (
                  All-IsAmong (λ c. ranks_below (first_ranked (rank (maximal (b ∷ bs)))) c ≡ false)
                    top (rank (maximal (b ∷ bs))) below ranked))
                above,
          )
    ]

module _ (fl : Floats) where
  open fl use {Float}

  abbrev pub limit_bucket : NodeEnvelope Float → Bucket
  limit_bucket e = (e.max_prompt, e.max_output)

  -- The largest admissible rectangle by area, then by prompt; without one, the empty one.
  abbrev pub IsLargest : ℕ → List (CostCell Float) → Bucket → Type 0
  IsLargest ceiling entries limit =
      ((limit ≡ (0, 0)) × ((b : Bucket) → IsAdmissible fl ceiling entries b → ⊥))
      ⊎ (IsAdmissible fl ceiling entries limit
          × ((b : Bucket) → IsAdmissible fl ceiling entries b → ranks_below limit b ≡ false))

  module _ (ordered : Ordered fl) where
    -- A node's limit is the largest rectangle of lengths whose corner was measured and in which each
    -- measured cell has a p95 under the ceiling at each concurrency: none that is admissible has a
    -- greater area, or the same area and a longer prompt. Where no rectangle is admissible, it is
    -- zero by zero. The p95s are numbers, the buckets have a width, and floats are in order.
    pub node_limit-IsLargest :
        (s : CostSnapshot Float) (ceiling : ℕ)
        → AllNumbers fl s.entries
        → All (λ e. 0 < e.prompt_hi) s.entries
        → IsLargest ceiling s.entries (limit_bucket (node_limit_from_snapshot fl s ceiling))
    unfolding node_limit_from_snapshot
    node_limit-IsLargest s ceiling numbers positive =
        let bs = admitted (fits_of fl ceiling (by_bucket [] s.entries)) in
        let known = admitted_iff fl ordered ceiling s.entries numbers in
        let wide : All (λ b. 0 < b.0) bs =
          All-of_IsAmong (λ b. 0 < b.0) bs
            (λ b m.
              let ((e, among, k), _) = (known b).0 m in
              subst (λ y. 0 < y.0) k
                (All-IsAmong (λ e. 0 < e.prompt_hi) e s.entries positive among)) in
        elim (largest bs wide) [
          | inl nothing ↦ inl (nothing.1, λ b h. subst (IsAmong b) nothing.0 ((known b).1 h))
          | inr found ↦ inr (
            (known _).0 found.0,
            λ b h.
                All-IsAmong (λ c. ranks_below (first_ranked (rank (maximal bs))) c ≡ false) b bs
                  found.1 ((known b).1 h),
          )
        ]
