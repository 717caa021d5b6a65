-- ===== src/Worker/Llamacpp/Slots.antt =====
-- What the adapter says of the engine, from the list of its slots.
use llm_sched_study.Base.{
  ℕ, ◌+◌, ◌≡◌, ◌≢◌, refl, ap, subst, ◌↔◌, ◌⊎◌, inl, inr, Bool, true, false, Option, none, some,
  List, [], ◌∷◌, arith, length, IsAmong, Floats,
}
use llm_sched_study.Worker.Adapter.{ready, LiveState}
use llm_sched_study.Worker.Llamacpp.{
  SlotEntry, slot, no_object, busy_of, SlotsAnswer, unreachable, refused, no_json, no_list, slots,
  live_state, unavailable,
}

-- So many of the slots are busy and so many idle, where each is an object.
pub data Tally : List SlotEntry → (busy idle : ℕ) → Type 0 where
  no_slot : Tally [] 0 0
  busy_slot :
      {rest : List SlotEntry} {busy idle : ℕ}
      → Tally rest busy idle
      → Tally (slot (some true) ∷ rest) (busy + 1) idle
  idle_slot :
      {rest : List SlotEntry} {busy idle : ℕ} (flag : Option Bool)
      → flag ≢ some true
      → Tally rest busy idle
      → Tally (slot flag ∷ rest) busy (idle + 1)

busy_of-Tally :
    (items : List SlotEntry)
    → ((busy_of items ≡ none) × IsAmong no_object items)
      ⊎ ((busy : ℕ) × (idle : ℕ) × (busy_of items ≡ some busy)
          × Tally items busy idle
          × (length items ≡ busy + idle)
          × ¬ IsAmong no_object items)
unfolding busy_of
busy_of-Tally [] = inr (0, 0, refl, no_slot, refl, λ m. m)
busy_of-Tally (no_object ∷ items) = inl (refl, inl refl)
busy_of-Tally (slot flag ∷ items) = elim (busy_of-Tally items) [
  | inl (raises, among) ↦ inl (rw raises refl, inr among)
  | inr (busy, idle, e, t, n, objects) ↦
      let others : ¬ IsAmong no_object (slot flag ∷ items) =
        λ m. elim m [ inl here ↦ cc | inr m ↦ objects m ] in
      inr (with_flag flag busy idle e t n others)
]
  where
    with_flag :
        (flag : Option Bool) (busy idle : ℕ)
        → busy_of items ≡ some busy
        → Tally items busy idle
        → length items ≡ busy + idle
        → ¬ IsAmong no_object (slot flag ∷ items)
        → (b : ℕ) × (i : ℕ) × (busy_of (slot flag ∷ items) ≡ some b)
          × Tally (slot flag ∷ items) b i
          × (length (slot flag ∷ items) ≡ b + i)
          × ¬ IsAmong no_object (slot flag ∷ items)
    with_flag none busy idle e t n others =
        (busy, idle + 1, rw e refl, idle_slot none (λ h. cc) t, omega (arith, n), others)
    with_flag (some false) busy idle e t n others =
        (busy, idle + 1, rw e refl, idle_slot (some false) (λ h. cc) t, omega (arith, n), others)
    with_flag (some true) busy idle e t n others =
        (busy + 1, idle, rw e refl, busy_slot t, omega (arith, n), others)

-- Why reading the slots raises.
pub data Raises : SlotsAnswer → Type 0 where
  not_json : Raises no_json
  not_object : {items : List SlotEntry} → IsAmong no_object items → Raises (slots items)

-- The engine tells nothing of its slots.
pub data TellsNothing : SlotsAnswer → Type 0 where
  no_answer : TellsNothing unreachable
  other_code : {code : ℕ} → TellsNothing (refused code)
  other_json : TellsNothing no_list
  without_slots : TellsNothing (slots [])

some-ne-none : {A : Type 0} (a : A) → ◌≢◌ {A = Option A} none (some a)
some-ne-none a h = cc

none-ne-some : {A : Type 0} (a : A) → ◌≢◌ {A = Option A} (some a) none
none-ne-some a h = cc

some_inj : {A : Type 0} {a b : A} → ◌≡◌ {A = Option A} (some a) (some b) → a ≡ b
some_inj h = cc

module _ (fl : Floats) where
  open fl use {Float, of_nat, div}

  -- The state is one of an engine whose slots were counted.
  abbrev pub IsCounted : List SlotEntry → LiveState Float → Type 0
  IsCounted items s =
      (items ≢ [])
      × ((idle : ℕ) × Tally items s.inflight idle
          × (s.slots_total ≡ s.inflight + idle)
          × (s.kv_frac ≡ div (of_nat s.inflight) (of_nat (s.inflight + idle))))
      × (s.state ≡ ready)

  -- The adapter raises exactly if the body is not JSON or is a list with an element that is no object.
  -- Any state it reports is one of two: the one that says the numbers are missing, and then the engine
  -- told nothing of its slots; or, where the engine listed some slots, it is ready, with as many in
  -- flight as slots are processing, a total of these and of the idle ones, and the fraction of the
  -- two.
  pub live_state-cases :
      (answer : SlotsAnswer)
      → ((live_state fl answer ≡ none) ↔ Raises answer)
        × ((s : LiveState Float)
            → live_state fl answer ≡ some s
            → (TellsNothing answer × (s ≡ unavailable fl))
              ⊎ ((items : List SlotEntry) × (answer ≡ slots items) × IsCounted items s))
  unfolding live_state
  live_state-cases unreachable = ((λ h. cc, λ r. elim r [ ]), λ s h. inl (no_answer, cc))
  live_state-cases (refused code) = ((λ h. cc, λ r. elim r [ ]), λ s h. inl (other_code, cc))
  live_state-cases no_json = ((λ _. not_json, λ _. refl), λ s h. cc)
  live_state-cases no_list = ((λ h. cc, λ r. elim r [ ]), λ s h. inl (other_json, cc))
  live_state-cases (slots []) =
      ((λ h. cc, λ r. elim r [ not_object m ↦ absurd m ]), λ s h. inl (without_slots, cc))
  live_state-cases (slots (x ∷ rest)) = elim (busy_of-Tally (x ∷ rest)) [
    | inl (raises, among) ↦ (
      (λ _. not_object among, λ _. rw (raises, live_state) refl),
      λ s h. absurd (some-ne-none s (rw (raises, live_state) at h)),
    )
    | inr (busy, idle, e, t, n, objects) ↦ (
      (
        λ h. absurd (none-ne-some _ (rw (e, live_state) at h)),
        λ r. elim r [ not_object m ↦ absurd (objects m) ],
      ),
      λ s h. inr (
        x ∷ rest,
        refl,
        subst (IsCounted (x ∷ rest)) (some_inj (rw (e, live_state) at h))
            (λ k. cc, (idle, t, n, ap (λ total. div (of_nat busy) (of_nat total)) n), refl),
      ),
    )
  ]
