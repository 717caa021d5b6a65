-- ===== src/Worker/Llamacpp/Tests.antt =====
-- One completion that ran short, and an engine of four slots.
use llm_sched_study.Base.{ℕ, ◌≡◌, ◌↔◌, ◌⊎◌, true, false, String, none, some, List, [], ◌∷◌}
use llm_sched_study.Samples.{whole}
use llm_sched_study.Worker.Adapter.{LiveState}
use llm_sched_study.Worker.Llamacpp.{
  Answer, responded, object, Complaint, SlotEntry, slot, SlotsAnswer, slots, live_state,
  unavailable,
}
use llm_sched_study.Worker.Llamacpp.Slots.{Raises, TellsNothing, IsCounted, live_state-cases}

abbrev short_answer : Answer ℕ
short_answer = responded 200 "{}" (
    object (record {
      timings = record { prompt_ms = some 4; predicted_ms = some 9; cache_n = none };
      tokens_evaluated = some 10;
      tokens_predicted = some 60;
      id_slot = none;
    }))

abbrev same_text : String → String
same_text text = text

abbrev wordless : Complaint → String
wordless _ = "wrong"

abbrev four : SlotsAnswer
four = slots (slot (some true) ∷ slot (some false) ∷ slot (some true) ∷ slot none ∷ [])

live_state-cases_example :
    ((live_state whole four ≡ none) ↔ Raises four)
    × ((s : LiveState ℕ)
        → live_state whole four ≡ some s
        → (TellsNothing four × (s ≡ unavailable whole))
          ⊎ ((items : List SlotEntry) × (four ≡ slots items) × IsCounted whole items s))
live_state-cases_example = live_state-cases whole four
