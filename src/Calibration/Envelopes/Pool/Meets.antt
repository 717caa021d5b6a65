-- ===== src/Calibration/Envelopes/Pool/Meets.antt =====
-- The envelope of a pool is the meet of its nodes' envelopes.
use llm_sched_study.Base.{
  ℕ, ◌+◌, ◌≤◌, ◌<◌, ◌≡◌, refl, sym, ap, ◌∙◌, subst, ◌⊎◌, inl, inr, Bool, true, false, ◌||◌, Option,
  List, [], ◌∷◌, map, arith, All, All-imp, ltb, ◌==◌, nat_eq, IsAmong, IsAmong-map_iff, Bool-cases,
  best_from-IsAmong, best_from-IsBest, Result, ok, err, ◌>>◌, raise_if, raise_if->>-iff,
  ok-injective, Floats,
}
use llm_sched_study.Calibration.Envelopes.{
  NodeEnvelope, PoolEnvelope, EnvelopeError, limits_from, least, determine,
}
use llm_sched_study.Calibration.Envelopes.Largest.{All-of_IsAmong}

raised_of :
    {E A : Type 0} (c : Bool) (x : E) (m : Result E A)
    → c ≡ true
    → (e : E) × ((raise_if c x >> m) ≡ err e)
raised_of c x m h = (x, ap (λ c. raise_if c x >> m) h)

made_of :
    {E A : Type 0} (c : Bool) (x : E) (a : A)
    → c ≡ false
    → (b : A) × ((raise_if c x >> ok a) ≡ ok b)
made_of c x a h = (a, (raise_if->>-iff c x (ok a)).1 (h, refl))

-- The least of numbers is one of them, and at most each.
pub least-IsLeast :
    (x : ℕ) (xs : List ℕ) → IsAmong (least x xs) (x ∷ xs) × All (λ y. least x xs ≤ y) (x ∷ xs)
least-IsLeast x xs = (
  best_from-IsAmong (λ a b. ltb a b) x xs,
  All-imp _ _ (x ∷ xs) (λ y k. ground (arith, k))
      (best_from-IsBest (λ a b. ltb a b) (λ _. Unit) (λ a. ground arith) (λ a b h. ground arith)
        (λ a b c _ h k. ground arith) x xs tt (All-of_IsAmong (λ _. Unit) xs (λ _ _. tt))),
)

module _ (fl : Floats) where
  open fl use {Float}

  limits_from-prompts :
      (i : ℕ) (es : List (NodeEnvelope Float))
      → map (λ l. l.max_prompt) (limits_from fl i es) ≡ map (λ e. e.max_prompt) es
  limits_from-prompts i [] = refl
  limits_from-prompts i (e ∷ es) = ap (λ xs. e.max_prompt ∷ xs) (limits_from-prompts (i + 1) es)

  limits_from-outputs :
      (i : ℕ) (es : List (NodeEnvelope Float))
      → map (λ l. l.max_output) (limits_from fl i es) ≡ map (λ e. e.max_output) es
  limits_from-outputs i [] = refl
  limits_from-outputs i (e ∷ es) = ap (λ xs. e.max_output ∷ xs) (limits_from-outputs (i + 1) es)

  -- The envelope holds in each node's, and on each axis some node has no more.
  abbrev pub IsMeet : List (NodeEnvelope Float) → PoolEnvelope Float → Type 0
  IsMeet es p =
      All (λ e. (p.max_prompt ≤ e.max_prompt) × (p.max_output ≤ e.max_output)) es
      × IsAmong p.max_prompt (map (λ e. e.max_prompt) es)
      × IsAmong p.max_output (map (λ e. e.max_output) es)
      × (0 < p.max_prompt)
      × (0 < p.max_output)

  both_axes :
      (m n : ℕ) (es : List (NodeEnvelope Float))
      → All (λ y. m ≤ y) (map (λ e. e.max_prompt) es)
      → All (λ y. n ≤ y) (map (λ e. e.max_output) es)
      → All (λ e. (m ≤ e.max_prompt) × (n ≤ e.max_output)) es
  both_axes m n [] h k = tt
  both_axes m n (e ∷ es) (h, hs) (k, ks) = ((h, k), both_axes m n es hs ks)

  positive_axes :
      (m n : ℕ) (e : EnvelopeError) (q p : PoolEnvelope Float)
      → (raise_if (m == 0 || n == 0) e >> ok q) ≡ ok p
      → (0 < m) × (0 < n) × (q ≡ p)
  positive_axes m n e q p h =
      let (positive, made) = (raise_if->>-iff (m == 0 || n == 0) e (ok q)).0 h in
      (ground (arith, positive), ground (arith, positive), ok-injective q p made)

  pub determine-IsMeet :
      (es : List (NodeEnvelope Float)) (override : Option ℕ) (p : PoolEnvelope Float)
      → determine fl es override ≡ ok p
      → IsMeet es p
  unfolding determine
  determine-IsMeet [] override p h = cc
  determine-IsMeet (e ∷ es) override p h =
      let limits = limits_from fl 1 es in
      let (wide, long, made) =
        positive_axes (least e.max_prompt (map (λ l. l.max_prompt) limits))
          (least e.max_output (map (λ l. l.max_output) limits)) _ _ p h in
      let of_prompt =
        sym (ap (λ x. x.max_prompt) made) ∙ ap (least e.max_prompt) (limits_from-prompts 1 es) in
      let of_output =
        sym (ap (λ x. x.max_output) made) ∙ ap (least e.max_output) (limits_from-outputs 1 es) in
      let prompts_of = map (λ x. x.max_prompt) (e ∷ es) in
      let outputs_of = map (λ x. x.max_output) (e ∷ es) in
      let (p_among, p_least) = least-IsLeast e.max_prompt (map (λ x. x.max_prompt) es) in
      let (o_among, o_least) = least-IsLeast e.max_output (map (λ x. x.max_output) es) in
      (
        both_axes p.max_prompt p.max_output (e ∷ es)
            (subst (λ n. All (λ y. n ≤ y) prompts_of) (sym of_prompt) p_least)
            (subst (λ n. All (λ y. n ≤ y) outputs_of) (sym of_output) o_least),
        subst (λ n. IsAmong n prompts_of) (sym of_prompt) p_among,
        subst (λ n. IsAmong n outputs_of) (sym of_output) o_among,
        subst (λ n. 0 < n) (ap (λ x. x.max_prompt) made) wide,
        subst (λ n. 0 < n) (ap (λ x. x.max_output) made) long,
      )

  -- A pool with no common envelope: no node, or one that serves nothing.
  abbrev pub IsEmptyMeet : List (NodeEnvelope Float) → Type 0
  IsEmptyMeet es =
      (es ≡ [])
      ⊎ ((e : NodeEnvelope Float) × IsAmong e es × ((e.max_prompt ≡ 0) ⊎ (e.max_output ≡ 0)))

  zero_axis :
      (m n : ℕ) (es : List (NodeEnvelope Float))
      → IsAmong m (map (λ e. e.max_prompt) es)
      → IsAmong n (map (λ e. e.max_output) es)
      → (m == 0 || n == 0) ≡ true
      → (e : NodeEnvelope Float) × IsAmong e es × ((e.max_prompt ≡ 0) ⊎ (e.max_output ≡ 0))
  zero_axis m n es wide long h =
      let (e, among, k) = (IsAmong-map_iff (λ e. e.max_prompt) m es).0 wide in
      let (f, among', l) = (IsAmong-map_iff (λ e. e.max_output) n es).0 long in
      elim (Bool-cases (m == 0)) [
        | inl none_wide ↦ (e, among, inl (sym k ∙ (nat_eq.beq_iff m 0).0 none_wide))
        | inr some_wide ↦ (f, among', inr (ground (arith, l, h, some_wide)))
      ]

  -- Either the pool has no node or one that serves nothing, and `determine` raises; or it gives the
  -- greatest envelope that holds in each node's, with a positive length on both axes.
  pub determine-cases :
      (es : List (NodeEnvelope Float)) (override : Option ℕ)
      → (IsEmptyMeet es × ((x : EnvelopeError) × (determine fl es override ≡ err x)))
        ⊎ ((p : PoolEnvelope Float) × (determine fl es override ≡ ok p) × IsMeet es p)
  unfolding determine
  determine-cases [] override = inl (inl refl, (_, refl))
  determine-cases (e ∷ es) override =
      let limits = limits_from fl 1 es in
      let m = least e.max_prompt (map (λ l. l.max_prompt) limits) in
      let n = least e.max_output (map (λ l. l.max_output) limits) in
      elim (Bool-cases (m == 0 || n == 0)) [
        | inl zero_one ↦ inl (
          inr (
              zero_axis m n (e ∷ es)
                (subst (λ xs. IsAmong m (e.max_prompt ∷ xs)) (limits_from-prompts 1 es)
                  (least-IsLeast e.max_prompt (map (λ l. l.max_prompt) limits)).0)
                (subst (λ xs. IsAmong n (e.max_output ∷ xs)) (limits_from-outputs 1 es)
                  (least-IsLeast e.max_output (map (λ l. l.max_output) limits)).0)
                zero_one),
          raised_of (m == 0 || n == 0) _ _ zero_one,
        )
        | inr positive ↦
            let (p, made) = made_of (m == 0 || n == 0) _ _ positive in
            inr (p, made, determine-IsMeet (e ∷ es) override p made)
      ]
