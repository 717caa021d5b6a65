-- ===== src/Harness/Launch/Engines.antt =====
-- Reading an engine twice: the verdict on the two answers, and the retries of `on_host`.
use llm_sched_study.Base.{
  ℕ, zero, suc, ◌+◌, ◌≤◌, ◌<◌, ◌≡◌, refl, ◌≢◌, ◌↔◌, ◌⊎◌, inl, inr, String, Option, none, some,
  arith, string_eq, Option-cases, ℕ_discrete,
}
use llm_sched_study.Harness.Launch.{
  same, died, unknown, engine_verdict, Attempt, answer_of, on_host_from, on_host,
}

-- Both answers are there, the first is not empty, and they stand in the relation `R`.
abbrev pub ReadBoth : (String → String → Type 0) → Option String → Option String → Type 0
ReadBoth R before after =
    (b : String) × (a : String) × (before ≡ some b) × (after ≡ some a) × (b ≢ "") × R b a

pub verdict-same :
    (before after : Option String)
    → (engine_verdict before after ≡ same) ↔ ReadBoth (λ b a. b ≡ a) before after
unfolding engine_verdict
verdict-same before none = (λ h. cc, λ (b, a, _, e, _, _). cc)
verdict-same none (some a) = (λ h. cc, λ (b, a, e, _, _, _). cc)
verdict-same (some b) (some a) = (
  λ h. (
    b,
    a,
    refl,
    refl,
    ground (arith, string_eq.beq_iff b "", string_eq.beq_iff b a),
    ground (arith, string_eq.beq_iff b "", string_eq.beq_iff b a),
  ),
  λ (b', a', e, f, n, r). ground (arith, string_eq.beq_iff b "", string_eq.beq_iff b a),
)

verdict-died :
    (before after : Option String)
    → (engine_verdict before after ≡ died) ↔ ReadBoth (λ b a. a ≡ "") before after
unfolding engine_verdict
verdict-died before none = (λ h. cc, λ (b, a, _, e, _, _). cc)
verdict-died none (some a) = (λ h. cc, λ (b, a, e, _, _, _). cc)
verdict-died (some b) (some a) = (
  λ h. (
    b,
    a,
    refl,
    refl,
    ground (arith, string_eq.beq_iff b "", string_eq.beq_iff b a),
    ground (arith, string_eq.beq_iff b "", string_eq.beq_iff b a, string_eq.beq_iff a ""),
  ),
  λ (b', a', e, f, n, r).
      ground (arith, string_eq.beq_iff b "", string_eq.beq_iff b a, string_eq.beq_iff a ""),
)

-- The loop of `on_host`: the answer is that of the first attempt that has one.
abbrev pub IsFirst : (ℕ → Attempt) → ℕ → ℕ → String → Type 0
IsFirst run start stop out =
    (i : ℕ) × (start ≤ i)
    × (i < stop)
    × (answer_of (run i) ≡ some out)
    × ((j : ℕ) → start ≤ j → j < i → answer_of (run j) ≡ none)

on_host_from-cases :
    (run : ℕ → Attempt) (start left : ℕ)
    → ((on_host_from run start left ≡ none)
        × ((j : ℕ) → start ≤ j → j < start + left → answer_of (run j) ≡ none))
      ⊎ ((out : String) × (on_host_from run start left ≡ some out)
          × IsFirst run start (start + left) out)
unfolding on_host_from
on_host_from-cases run start zero = inl (refl, λ j lo hi. absurd (omega arith))
on_host_from-cases run start (suc left) = elim (Option-cases (answer_of (run start))) [
  | inr (out, e) ↦ inr (
    out,
    rw (e, on_host_from),
    (start, omega arith, omega arith, e, λ j lo hi. absurd (omega arith)),
  )
  | inl silent ↦ elim (on_host_from-cases run (start + 1) left) [
    | inl (ends, all_silent) ↦ inl (
      rw (silent, on_host_from) ends,
      from_start silent (start + suc left) (λ j lo hi. all_silent j lo (omega arith)),
    )
    | inr (out, found, (i, lo, hi, e, before)) ↦ inr (
      out,
      rw (silent, on_host_from) found,
      (i, omega arith, omega arith, e, from_start silent i before),
    )
  ]
]
  where
    from_start :
        answer_of (run start) ≡ none
        → (stop : ℕ) → ((j : ℕ) → start + 1 ≤ j → j < stop → answer_of (run j) ≡ none)
        → (j : ℕ) → start ≤ j
        → j < stop
        → answer_of (run j) ≡ none
    from_start silent stop h j lo hi = elim (ℕ_discrete start j) [
      | yes e ↦ rw (← e) silent
      | no n ↦ h j (omega arith) hi
    ]

-- `on_host` gives the output of the first attempt that exits with 0 or 1, and None exactly if no
-- attempt within the limit does.
pub on_host-cases :
    (run : ℕ → Attempt) (attempts : ℕ)
    → ((on_host run attempts ≡ none) × ((j : ℕ) → j < attempts → answer_of (run j) ≡ none))
      ⊎ ((out : String) × (on_host run attempts ≡ some out) × IsFirst run 0 attempts out)
unfolding on_host
on_host-cases run attempts = elim (on_host_from-cases run 0 attempts) [
  | inl (e, silent) ↦ inl (e, λ j lt. silent j (omega arith) (omega arith))
  | inr (out, e, (i, lo, hi, a, before)) ↦ inr (out, e, (i, lo, omega arith, a, before))
]

verdict-unknown :
    (before after : Option String)
    → (engine_verdict before after ≡ unknown)
      ↔ ((after ≡ none) ⊎ (before ≡ none) ⊎ (before ≡ some ""))
unfolding engine_verdict
verdict-unknown before none = (λ _. inl refl, λ _. refl)
verdict-unknown none (some a) = (λ _. inr (inl refl), λ _. refl)
verdict-unknown (some b) (some a) =
    ground (arith, string_eq.beq_iff b "", string_eq.beq_iff b a, string_eq.beq_iff a "")

-- `same` exactly if both reads gave one and the same text, not empty; `died` exactly if a running
-- engine left an empty answer; `unknown` exactly if a read failed or the first one was empty.
pub engine_verdict-cases :
    (before after : Option String)
    → ((engine_verdict before after ≡ same) ↔ ReadBoth (λ b a. b ≡ a) before after)
      × ((engine_verdict before after ≡ died) ↔ ReadBoth (λ b a. a ≡ "") before after)
      × ((engine_verdict before after ≡ unknown)
          ↔ ((after ≡ none) ⊎ (before ≡ none) ⊎ (before ≡ some "")))
engine_verdict-cases before after =
    (verdict-same before after, verdict-died before after, verdict-unknown before after)
