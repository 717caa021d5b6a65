-- ===== src/Pipeline/Candidates/Alternatives.antt =====
-- The counterfactual of a decision: which alternatives count, and that the best of them is taken.
use llm_sched_study.Base.{
  ◌↔◌, sym, ap, subst, ◌∙◌, All-IsAmong, Option-cases, ℕ, ◌≡◌, refl, ◌⊎◌, inl, inr, Bool, true,
  false, none, some, List, [], ◌∷◌, arith, string_eq, All, IsAmong, best_from, best_from-IsAmong,
  best_from-IsBest, Floats,
}
use llm_sched_study.Logs.{Candidate, Decision}
use llm_sched_study.Pipeline.Candidates.{
  alternative, est_ms, is_chosen, alternatives, best_of, candidate_view,
}

some-injective : {A : Type 0} (a b : A) → some a ≡ some b → a ≡ b
some-injective a b h = cc

module _ (fl : Floats) where
  open fl use {Float, of_nat, lt, feq, sub}

  -- `x` is a number: NaN is not equal to itself.
  abbrev pub IsNumber : Float → Type 0
  IsNumber x = feq x x ≡ true

  -- Of a number `b` and any `a` and `c`: where `b` is not below `a` and `c` not below `b`, `c` is not
  -- below `a`. IEEE comparison has this law.
  abbrev pub LtLaw : Type 0
  LtLaw = (a b c : Float) → IsNumber b → lt b a ≡ false → lt c b ≡ false → lt c a ≡ false

  abbrev pub LtIrrefl : Type 0
  LtIrrefl = (a : Float) → lt a a ≡ false

  -- From a test that holds the opposite test fails.
  abbrev pub LtAsymm : Type 0
  LtAsymm = (a b : Float) → lt a b ≡ true → lt b a ≡ false

  -- No alternative of the list has an estimate below `x`.
  abbrev pub NoneBelow : Float → List (Candidate Float × Float) → Type 0
  NoneBelow x = All (λ a. lt a.1 x ≡ false)

  abbrev pub AllNumbers : List (Candidate Float × Float) → Type 0
  AllNumbers = All (λ a. IsNumber a.1)

  abbrev pub IsAlternative : Decision Float → ℕ → Candidate Float × Float → Type 0
  IsAlternative d output_len (c, est) =
      (c.admissible ≡ true) × (is_chosen fl d c ≡ false) × (est_ms fl output_len c ≡ some est)

  -- `P` of each candidate that is an alternative, with its estimate.
  abbrev pub Each :
      (Candidate Float × Float → Type 0) → Decision Float → ℕ → List (Candidate Float) → Type 0
  Each P d output_len = All (λ c. (est : Float) → IsAlternative d output_len (c, est) → P (c, est))

  alternative-eq-some :
      (d : Decision Float) (output_len : ℕ) (c : Candidate Float) (a : Candidate Float × Float)
      → alternative fl d output_len c ≡ some a
      → (a.0 ≡ c) × IsAlternative d output_len (c, a.1)
  alternative-eq-some d output_len c a h = ground (arith, h)

  alternative-of_is :
      (d : Decision Float) (output_len : ℕ) (c : Candidate Float) (est : Float)
      → IsAlternative d output_len (c, est)
      → alternative fl d output_len c ≡ some (c, est)
  alternative-of_is d output_len c est h = ground (arith, h)

  alternatives-skips :
      (d : Decision Float) (output_len : ℕ) (c : Candidate Float) (cs : List (Candidate Float))
      → alternative fl d output_len c ≡ none
      → alternatives fl d output_len (c ∷ cs) ≡ alternatives fl d output_len cs
  unfolding alternatives
  alternatives-skips d output_len c cs e = rw (e, alternatives) refl

  alternatives-takes :
      (d : Decision Float) (output_len : ℕ) (c : Candidate Float) (cs : List (Candidate Float))
      (a : Candidate Float × Float)
      → alternative fl d output_len c ≡ some a
      → alternatives fl d output_len (c ∷ cs) ≡ a ∷ alternatives fl d output_len cs
  unfolding alternatives
  alternatives-takes d output_len c cs a e = rw (e, alternatives) refl

  -- What holds of each alternative among the candidates holds of all that the code collects, and
  -- the other way round.
  Each-alternatives :
      (P : Candidate Float × Float → Type 0) (d : Decision Float) (output_len : ℕ)
      (cs : List (Candidate Float))
      → Each P d output_len cs ↔ All P (alternatives fl d output_len cs)
  unfolding alternatives
  Each-alternatives P d output_len [] = (λ h. h, λ h. h)
  Each-alternatives P d output_len (c ∷ cs) =
      let rest = Each-alternatives P d output_len cs in
      elim (Option-cases (alternative fl d output_len c)) [
        | inl e ↦ (
          λ (h, hs). subst (All P) (sym (alternatives-skips d output_len c cs e)) (rest.0 hs),
          λ h. (
            λ est is. cc (e, alternative-of_is d output_len c est is),
            rest.1 (subst (All P) (alternatives-skips d output_len c cs e) h),
          ),
        )
        | inr (a, e) ↦
            let (same, is) = alternative-eq-some d output_len c a e in
            (
              λ (h, hs).
                  subst (All P) (sym (alternatives-takes d output_len c cs a e))
                    (subst (λ x. P (x, a.1)) (sym same) (h a.1 is), rest.0 hs),
              λ h.
                  let (ha, hs) = subst (All P) (alternatives-takes d output_len c cs a e) h in
                  (
                    λ est is1.
                        let found : a ≡ (c, est) =
                          some-injective a (c, est)
                            (sym e ∙ alternative-of_is d output_len c est is1) in
                        subst P found ha,
                    rest.1 hs,
                  ),
            )
      ]

  alternatives-IsAlternative :
      (d : Decision Float) (output_len : ℕ) (cs : List (Candidate Float))
      → All (λ a. IsAlternative d output_len a) (alternatives fl d output_len cs)
  alternatives-IsAlternative d output_len cs =
      (Each-alternatives (IsAlternative d output_len) d output_len cs).0 (each cs)
    where
      each : (cs : List (Candidate Float)) → Each (IsAlternative d output_len) d output_len cs
      each [] = tt
      each (c ∷ cs) = (λ est is. is, each cs)

  IsAmong-alternatives :
      (d : Decision Float) (output_len : ℕ) (a : Candidate Float × Float)
      (cs : List (Candidate Float))
      → IsAmong a (alternatives fl d output_len cs)
      → IsAmong a.0 cs
  unfolding alternatives
  IsAmong-alternatives d output_len a [] h = h
  IsAmong-alternatives d output_len a (c ∷ cs) h =
      elim (Option-cases (alternative fl d output_len c)) [
        | inl e ↦ inr (
            IsAmong-alternatives d output_len a cs
              (subst (IsAmong a) (alternatives-skips d output_len c cs e) h))
        | inr (b, e) ↦ elim (subst (IsAmong a) (alternatives-takes d output_len c cs b e) h) [
          | inl same ↦ inl (ap (λ x. x.0) same ∙ (alternative-eq-some d output_len c b e).0)
          | inr later ↦ inr (IsAmong-alternatives d output_len a cs later)
        ]
      ]

  abbrev less : Candidate Float × Float → Candidate Float × Float → Bool
  less x y = lt x.1 y.1

  module _ (law : LtLaw) (irrefl : LtIrrefl) (asymm : LtAsymm) where
    best_of-least :
        (alts : List (Candidate Float × Float))
        → AllNumbers alts
        → ((alts ≡ []) × (best_of fl alts ≡ none))
          ⊎ ((a : Candidate Float × Float) × IsAmong a alts
              × NoneBelow a.1 alts
              × (best_of fl alts ≡ some a))
    best_of-least [] numbers = inl (refl, refl)
    best_of-least (a ∷ rest) (n, ns) = inr (
      best_from less a rest,
      best_from-IsAmong less a rest,
      best_from-IsBest less (λ x. IsNumber x.1) (λ x. irrefl x.1) (λ x y. asymm x.1 y.1)
          (λ x y z g h k. law z.1 y.1 x.1 g k h) a rest n ns,
      refl,
    )

    -- The best alternative that a row names is a candidate of the decision which is an alternative,
    -- and no alternative among the candidates has a lower estimate; the columns are null exactly
    -- where no candidate is an alternative. An alternative is an admissible candidate that was not
    -- chosen and that has an estimate. Supposed are three laws of comparison and that no
    -- alternative's estimate is NaN.
    pub candidate_view-best :
        (d : Decision Float) (output_len : ℕ)
        → Each (λ a. IsNumber a.1) d output_len d.candidates
        → let view = candidate_view fl d output_len in
          (Each (λ _. ⊥) d output_len d.candidates
            × (view.best_alt_node ≡ none)
            × (view.best_alt_est_service_ms ≡ none))
          ⊎ ((a : Candidate Float × Float) × IsAmong a.0 d.candidates
              × IsAlternative d output_len a
              × Each (λ b. lt b.1 a.1 ≡ false) d output_len d.candidates
              × (view.best_alt_node ≡ some a.0.node_id)
              × (view.best_alt_est_service_ms ≡ some a.1))
    unfolding candidate_view
    candidate_view-best d output_len numbers =
        let alts = alternatives fl d output_len d.candidates in
        let collected =
          λ (P : Candidate Float × Float → Type 0). Each-alternatives P d output_len d.candidates in
        elim (best_of-least alts ((collected (λ a. IsNumber a.1)).0 numbers)) [
          | inl (empty, e) ↦ inl (
            (collected (λ _. ⊥)).1 (subst (All (λ _. ⊥)) (sym empty) tt),
            rw (e, candidate_view) refl,
            rw (e, candidate_view) refl,
          )
          | inr (a, member, below, e) ↦ inr (
            a,
            IsAmong-alternatives d output_len a d.candidates member,
            All-IsAmong (IsAlternative d output_len) a alts
                (alternatives-IsAlternative d output_len d.candidates) member,
            (collected (λ b. lt b.1 a.1 ≡ false)).1 below,
            rw (e, candidate_view) refl,
            rw (e, candidate_view) refl,
          )
        ]
