-- ===== src/Harness/Trace/Configs.antt =====
-- Which configs a trace is made from.
use llm_sched_study.Base.{
  ℕ, ◌≤◌, ◌≡◌, refl, sym, ap, ◌∙◌, subst, ◌↔◌, ◌⊎◌, inl, inr, Bool, true, false, String, Option,
  none, some, List, [], ◌∷◌, arith, nat_eq, string_eq, lookup, All, ok, ◌>>=◌, ◌>>◌, or_raise,
  traverse, >>=-eq-ok, >>-iff, ok-injective, Option-cases,
}
use llm_sched_study.Harness.Trace.{
  TraceError, unknown_model, ModelFacts, models, ModelConfig, check_vocab, check_reserved,
  check_model, Envelope, parse_bucket, check_bucket, check_lengths, check_buckets,
}

module _ (match_bucket : String → Option (ℕ × ℕ)) where
  -- The list pairs each bucket with the lengths that its name says.
  abbrev pub Parsed : List String → List (String × (ℕ × ℕ)) → Type 0
  Parsed [] [] = Unit
  Parsed [] (_ ∷ _) = ⊥
  Parsed (_ ∷ _) [] = ⊥
  Parsed (b ∷ bs) ((name, lengths) ∷ ls) =
      (name ≡ b) × (match_bucket b ≡ some lengths) × Parsed bs ls

  -- Both lengths are positive and within the envelope.
  abbrev pub Admissible : Envelope → String × (ℕ × ℕ) → Type 0
  Admissible admissible (name, (p_len, o_len)) =
      (1 ≤ p_len) × (1 ≤ o_len) × (p_len ≤ admissible.max_prompt) × (o_len ≤ admissible.max_output)

  check_bucket_iff :
      (admissible : Envelope) (b : String × (ℕ × ℕ))
      → (check_bucket match_bucket admissible b ≡ ok tt) ↔ Admissible admissible b
  check_bucket_iff admissible (name, (p_len, o_len)) = ground arith

  check_lengths_iff :
      (admissible : Envelope) (bs : List (String × (ℕ × ℕ)))
      → (check_lengths match_bucket admissible bs ≡ ok tt) ↔ All (Admissible admissible) bs
  unfolding check_lengths
  check_lengths_iff admissible [] = (λ _. tt, λ _. refl)
  check_lengths_iff admissible (b ∷ bs) = (
    λ h.
        let (a, rest) = (>>-iff _ _).0 h in
        ((check_bucket_iff admissible b).0 a, (check_lengths_iff admissible bs).0 rest),
    λ (a, rest).
        (>>-iff _ _).1
          ((check_bucket_iff admissible b).1 a, (check_lengths_iff admissible bs).1 rest),
  )

  parse_bucket_iff :
      (b name : String) (lengths : ℕ × ℕ)
      → (parse_bucket match_bucket b ≡ ok (name, lengths))
        ↔ ((name ≡ b) × (match_bucket b ≡ some lengths))
  parse_bucket_iff b name lengths = elim (Option-cases (match_bucket b)) [
    | inl e ↦ (λ h. cc (rw e at h), λ (_, found). cc)
    | inr (l, e) ↦ rw e (
      λ h. let same = ok-injective _ _ h in (ap (λ x. x.0) (sym same), ap (λ x. some x.1) same),
      λ (a, found). cc,
    )
  ]

  traverse-Parsed :
      (bs : List String) (ls : List (String × (ℕ × ℕ)))
      → (traverse (parse_bucket match_bucket) bs ≡ ok ls) ↔ Parsed bs ls
  traverse-Parsed [] [] = (λ _. tt, λ _. refl)
  traverse-Parsed [] (l ∷ ls) = (λ h. cc, λ h. absurd h)
  traverse-Parsed (b ∷ bs) [] = (
    λ h.
        let (y, _, h1) = >>=-eq-ok (parse_bucket match_bucket b) _ h in
        let (ys, _, h2) = >>=-eq-ok (traverse (parse_bucket match_bucket) bs) _ h1 in cc,
    λ h. absurd h,
  )
  traverse-Parsed (b ∷ bs) ((name, lengths) ∷ ls) = (
    λ h.
        let (y, first, h1) = >>=-eq-ok (parse_bucket match_bucket b) _ h in
        let (ys, rest, h2) = >>=-eq-ok (traverse (parse_bucket match_bucket) bs) _ h1 in
        let here : parse_bucket match_bucket b ≡ ok (name, lengths) = cc (first, h2) in
        let there : traverse (parse_bucket match_bucket) bs ≡ ok ls = cc (rest, h2) in
        let (same, found) = (parse_bucket_iff b name lengths).0 here in
        (same, found, (traverse-Parsed bs ls).0 there),
    λ (same, found, rest).
        rw ((parse_bucket_iff b name lengths).1 (same, found), (traverse-Parsed bs ls).1 rest) refl,
  )

  -- The buckets of a config are accepted exactly if each name says two lengths, both positive and
  -- within the admissible envelope; what comes back pairs each bucket with its lengths, in order.
  pub check_buckets-eq-ok :
      (admissible : Envelope) (buckets : List String) (ls : List (String × (ℕ × ℕ)))
      → (check_buckets match_bucket admissible buckets ≡ ok ls)
        ↔ (Parsed buckets ls × All (Admissible admissible) ls)
  unfolding check_buckets
  check_buckets-eq-ok admissible buckets ls = (
    λ h.
        let (xs, parsed, h1) = >>=-eq-ok (traverse (parse_bucket match_bucket) buckets) _ h in
        let (checked, h2) = (>>-iff (check_lengths match_bucket admissible xs) _).0 h1 in
        let same : xs ≡ ls = ok-injective _ _ h2 in
        (
          (traverse-Parsed buckets ls).0 (parsed ∙ ap ok same),
          subst (All (Admissible admissible)) same ((check_lengths_iff admissible xs).0 checked),
        ),
    λ (parsed, fits).
        rw ((traverse-Parsed buckets ls).1 parsed, (check_lengths_iff admissible ls).1 fits) refl,
  )

-- What a config says, where it says anything, is what is expected.
abbrev pub Agrees : {A : Type 0} → Option A → A → Type 0
Agrees none expected = Unit
Agrees (some actual) expected = actual ≡ expected

check_vocab_iff :
    (actual : Option ℕ) (expected : ℕ)
    → (check_vocab actual expected ≡ ok tt) ↔ Agrees actual expected
check_vocab_iff none expected = (λ _. tt, λ _. refl)
check_vocab_iff (some actual) expected = ground (arith, nat_eq.beq_iff actual expected)

check_reserved_iff :
    (actual : Option Bool) (expected : Bool)
    → (check_reserved actual expected ≡ ok tt) ↔ Agrees actual expected
check_reserved_iff none expected = (λ _. tt, λ _. refl)
check_reserved_iff (some true) true = (λ _. refl, λ _. refl)
check_reserved_iff (some true) false = (λ h. cc, λ h. cc)
check_reserved_iff (some false) true = (λ h. cc, λ h. cc)
check_reserved_iff (some false) false = (λ _. refl, λ _. refl)

checked_iff :
    (found : Option ModelFacts) (vocab_size : Option ℕ) (excluded : Option Bool) (e : TraceError)
    → ((or_raise found e >>= λ known.
          check_vocab vocab_size known.vocab_size
          >> check_reserved excluded known.reserved_ids_excluded)
        ≡ ok tt)
      ↔ ((known : ModelFacts) × (found ≡ some known)
          × Agrees vocab_size known.vocab_size
          × Agrees excluded known.reserved_ids_excluded)
checked_iff none vocab_size excluded e = (λ h. cc, λ (known, f, a, b). cc)
checked_iff (some facts) vocab_size excluded e = (
  λ h.
      let (a, b) = (>>-iff _ _).0 h in
      (facts, refl, (check_vocab_iff vocab_size _).0 a, (check_reserved_iff excluded _).0 b),
  λ (known, f, a, b).
      let same : facts ≡ known = cc in
      rw same
        ((>>-iff _ _).1 ((check_vocab_iff vocab_size _).1 a, (check_reserved_iff excluded _).1 b)),
)

named :
    (config : ModelConfig) (name : String)
    → (config.model ≡ some name)
    → check_model config ≡ (
        or_raise (lookup name models) (unknown_model name) >>= λ known.
        check_vocab config.vocab_size known.vocab_size
        >> check_reserved config.reserved_ids_excluded known.reserved_ids_excluded)
unfolding check_model models
named config name e = rw e refl

unnamed : (config : ModelConfig) → config.model ≡ none → check_model config ≡ ok tt
unfolding check_model
unnamed config e = rw e refl

-- A config is accepted exactly if it names no model, or names one of the table and says nothing of
-- its vocabulary and of its reserved ids that the table does not say.
pub check_model-eq-ok :
    (config : ModelConfig)
    → (check_model config ≡ ok tt) ↔ (
        (config.model ≡ none)
        ⊎ ((name : String) × (known : ModelFacts) × (config.model ≡ some name)
            × (lookup name models ≡ some known)
            × Agrees config.vocab_size known.vocab_size
            × Agrees config.reserved_ids_excluded known.reserved_ids_excluded))
check_model-eq-ok config = elim (Option-cases config.model) [
  | inl e ↦ (λ h. inl e, λ h. unnamed config e)
  | inr (name, e) ↦ (
    λ h.
        let (known, found, a, b) =
          (checked_iff (lookup name models) _ _ (unknown_model name)).0
            (sym (named config name e) ∙ h) in
        inr (name, known, e, found, a, b),
    λ h. elim h [
      | inl none_is ↦ cc
      | inr (other, known, is_other, found, a, b) ↦
          let same : other ≡ name = cc in
          named config name e
          ∙ (checked_iff (lookup name models) _ _ (unknown_model name)).1
              (known, subst (λ n. lookup n models ≡ some known) same found, a, b)
    ],
  )
]
