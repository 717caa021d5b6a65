-- ===== src/Harness/Manifest/Verdicts.antt =====
-- The verdict of a validity block, its sentences, and what a manifest keeps of it.
use llm_sched_study.Base.{◌≡◌, ◌↔◌, true, [], arith, string_eq}
use llm_sched_study.Harness.Manifest.{Validity, valid, reasons}

-- A run is valid exactly if there is no sentence that says why it is not.
pub valid_iff_no_reason : {F : Type 0} (v : Validity F) → (valid v ≡ true) ↔ (reasons v ≡ [])
unfolding valid reasons
valid_iff_no_reason v = ground arith
