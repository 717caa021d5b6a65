-- ===== src/Worker/Service/Probes.antt =====
-- `probe` against its description: a node is told degraded after three ready probes in a row that
-- each saw the engine busier than the wrapper.
use llm_sched_study.Base.{
  ℕ, ◌+◌, ◌≡◌, refl, ◌↔◌, Bool, true, false, not, ◌&&◌, List, [], ◌∷◌, arith, ltb, if◌then◌else◌,
  keep, Floats,
}
use llm_sched_study.Worker.Adapter.{ready, degraded, LiveState}
use llm_sched_study.Worker.Service.{Service, probe, is_ready}

-- A probe as it was made: the wrapper's `inflight` then, and the engine's answer.
abbrev pub Round : Type 0 → Type 0
Round F = ℕ × LiveState F

abbrev pub has_excess : {F : Type 0} → Round F → Bool
has_excess (inflight, answer) = ltb inflight answer.inflight

module _ {A : Type 0} (p : A → Bool) where
  -- The first three are there, and `p` holds of each.
  abbrev pub first_three : List A → Bool
  first_three (x ∷ y ∷ z ∷ _) = p x && p y && p z
  first_three (_ ∷ _ ∷ []) = false
  first_three (_ ∷ []) = false
  first_three [] = false

  abbrev leading : List A → ℕ
  leading [] = 0
  leading (x ∷ xs) = if p x then leading xs + 1 else 0

  leading-first_three : (xs : List A) → ltb (leading xs) 3 ≡ not (first_three xs)
  leading-first_three [] = refl
  leading-first_three (x ∷ []) = ground arith
  leading-first_three (x ∷ y ∷ []) = ground arith
  leading-first_three (x ∷ y ∷ z ∷ xs) = ground arith

module _ (fl : Floats) where
  open fl use {Float}

  abbrev pub at_inflight : Service Float → ℕ → Service Float
  at_inflight s n = record s { counters = record (s.counters) { inflight = n } }

  abbrev pub is_ready_round : Round Float → Bool
  is_ready_round (_, answer) = is_ready fl answer.state

  -- The service after the rounds of the list, the newest of which stands first.
  pub after_rounds : Service Float → List (Round Float) → Service Float
  after_rounds s [] = s
  after_rounds s ((n, answer) ∷ older) = (probe fl (at_inflight (after_rounds s older) n) answer).0

  leak_streak-eq :
      (s : Service Float) (rounds : List (Round Float))
      → s.leak_streak ≡ 0
      → (after_rounds s rounds).leak_streak ≡ leading has_excess (keep is_ready_round rounds)
  unfolding after_rounds probe
  leak_streak-eq s [] h = h
  leak_streak-eq s ((n, answer) ∷ older) h = ground (arith, leak_streak-eq s older h)

  -- An engine that answers ready is told degraded exactly if this and the two ready probes before
  -- it all saw more requests in the engine than the wrapper had sent; one that does not is told
  -- as it answered.
  pub probe-degraded_iff :
      (s : Service Float) (n : ℕ) (answer : LiveState Float) (older : List (Round Float))
      → s.leak_streak ≡ 0
      → let told = (probe fl (at_inflight (after_rounds s older) n) answer).1 in
        (answer.state ≡ ready
          → (told.state ≡ degraded)
            ↔ (first_three has_excess (keep is_ready_round ((n, answer) ∷ older)) ≡ true))
        × (is_ready fl answer.state ≡ false → told ≡ answer)
  unfolding probe
  probe-degraded_iff s n answer older h =
      let streak = leak_streak-eq s older h in
      let three = leading-first_three has_excess ((n, answer) ∷ keep is_ready_round older) in
      (λ now. (λ told. ground arith, λ seen. ground arith), λ not_ready. ground arith)
