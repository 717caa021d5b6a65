-- ===== src/Pipeline/Runset/Sets.antt =====
-- Which runs a set holds, and which it leaves out.
use llm_sched_study.Base.{
  ◌≡◌, ◌≢◌, refl, sym, ◌∙◌, subst, ◌↔◌, Bool, true, not, String, List, [], ◌∷◌, ◌++◌, arith, Dict,
  All, length, truthy, truthy_iff, Result, ok, err, ◌>>=◌, >>=-eq-ok, raise_if->>-iff, ok-injective,
  Floats,
}
use mathlib.Core.List.{append-nil, append_assoc}
use llm_sched_study.Calibration.Snapshots.{Snapshot}
use llm_sched_study.Pipeline.Runset.{
  RunError, caught, RunDir, SetRow, RunSet, load_run, Seen, take_run, see_runs, concat_frames,
  no_run, to_set_error, set_of, nothing_seen, aggregate,
}

-- What a run gives to each list of the set.
abbrev pub names_if : {A : Type 0} → String → Result RunError A → List String
names_if name (ok _) = name ∷ []
names_if name (err _) = []

abbrev pub frames_if : {A : Type 0} → Result RunError A → List A
frames_if (ok rows) = rows ∷ []
frames_if (err _) = []

abbrev pub errors_if : {A : Type 0} → String → Result RunError A → List (String × RunError)
errors_if name (ok _) = []
errors_if name (err e) = (name, e) ∷ []

-- The run is read, or refused with an exception that is caught.
abbrev pub IsHandled : {A : Type 0} → Result RunError A → Type 0
IsHandled (ok _) = Unit
IsHandled (err e) = caught e ≡ true

module _ (fl : Floats) where
  open fl use {Float}

  module _ (loaded : RunDir Float → Result RunError (List (SetRow Float))) where
    abbrev pub names_of : List (RunDir Float) → List String
    names_of [] = []
    names_of (d ∷ ds) = names_if d.name (loaded d) ++ names_of ds

    abbrev pub frames_of : List (RunDir Float) → List (List (SetRow Float))
    frames_of [] = []
    frames_of (d ∷ ds) = frames_if (loaded d) ++ frames_of ds

    abbrev pub errors_of : List (RunDir Float) → List (String × RunError)
    errors_of [] = []
    errors_of (d ∷ ds) = errors_if d.name (loaded d) ++ errors_of ds

    abbrev with_run : Seen fl → String → Result RunError (List (SetRow Float)) → Seen fl
    with_run seen name r = record {
      frames = seen.frames ++ frames_if r;
      included = seen.included ++ names_if name r;
      excluded = seen.excluded ++ errors_if name r;
    }

    abbrev with_runs : Seen fl → List (RunDir Float) → Seen fl
    with_runs seen ds = record {
      frames = seen.frames ++ frames_of ds;
      included = seen.included ++ names_of ds;
      excluded = seen.excluded ++ errors_of ds;
    }

    take_run-with_run :
        (seen : Seen fl) (name : String) (r : Result RunError (List (SetRow Float)))
        → IsHandled r
        → take_run fl seen name r ≡ ok (with_run seen name r)
    take_run-with_run seen name (ok rows) h = rw (append-nil seen.excluded) refl
    take_run-with_run seen name (err e) h =
        rw (h, append-nil seen.frames, append-nil seen.included) refl

    take_run-IsHandled :
        (seen next : Seen fl) (name : String) (r : Result RunError (List (SetRow Float)))
        → take_run fl seen name r ≡ ok next
        → IsHandled r
    take_run-IsHandled seen next name (ok rows) h = tt
    take_run-IsHandled seen next name (err e) h =
        let (a, _) = (raise_if->>-iff (not (caught e)) e _).0 h in ground (arith, a)

    see_runs-with_runs :
        (seen : Seen fl) (ds : List (RunDir Float))
        → All (λ d. IsHandled (loaded d)) ds
        → see_runs fl loaded seen ds ≡ ok (with_runs seen ds)
    unfolding see_runs
    see_runs-with_runs seen [] h =
        rw (append-nil seen.frames, append-nil seen.included, append-nil seen.excluded) refl
    see_runs-with_runs seen (d ∷ ds) (h, hs) =
        rw
          (
            take_run-with_run seen d.name (loaded d) h,
            see_runs-with_runs (with_run seen d.name (loaded d)) ds hs,
            append_assoc seen.frames (frames_if (loaded d)) (frames_of ds),
            append_assoc seen.included (names_if d.name (loaded d)) (names_of ds),
            append_assoc seen.excluded (errors_if d.name (loaded d)) (errors_of ds),
          )
          refl

    see_runs-IsHandled :
        (seen last : Seen fl) (ds : List (RunDir Float))
        → see_runs fl loaded seen ds ≡ ok last
        → All (λ d. IsHandled (loaded d)) ds
    unfolding see_runs
    see_runs-IsHandled seen last [] h = tt
    see_runs-IsHandled seen last (d ∷ ds) h =
        let (next, first, rest) =
          >>=-eq-ok (take_run fl seen d.name (loaded d)) (λ n. see_runs fl loaded n ds) h in
        (take_run-IsHandled seen next d.name (loaded d) first, see_runs-IsHandled next last ds rest)

  to_set_error-eq-ok :
      {A : Type 0} (r : Result RunError A) (a : A) → to_set_error fl r ≡ ok a → r ≡ ok a
  to_set_error-eq-ok (ok b) a h = cc
  to_set_error-eq-ok (err e) a h = cc

  gathered_iff :
      (loaded : RunDir Float → Result RunError (List (SetRow Float))) (ds : List (RunDir Float))
      (set : RunSet Float)
      → ((to_set_error fl (see_runs fl loaded (nothing_seen fl) ds) >>= set_of fl (length ds))
          ≡ ok set)
        ↔ (All (λ d. IsHandled (loaded d)) ds
            × (frames_of loaded ds ≢ [])
            × (set ≡ record {
              frame = concat_frames fl (frames_of loaded ds);
              included = names_of loaded ds;
              excluded = errors_of loaded ds;
            }))
  gathered_iff loaded ds set = (
    λ h.
        let start = nothing_seen fl in
        let (seen, h1, h2) =
          >>=-eq-ok (to_set_error fl (see_runs fl loaded start ds)) (set_of fl (length ds)) h in
        let runs = to_set_error-eq-ok (see_runs fl loaded start ds) seen h1 in
        let handled = see_runs-IsHandled loaded start seen ds runs in
        let same : seen ≡ with_runs loaded start ds =
          ok-injective _ _ (sym runs ∙ see_runs-with_runs loaded start ds handled) in
        let h3 = subst (λ s. set_of fl (length ds) s ≡ ok set) same h2 in
        let (some_frame, h4) =
          (raise_if->>-iff (not (truthy (frames_of loaded ds)))
              (no_run (length (errors_of loaded ds)) (length ds)) _).0
            h3 in
        (handled, (truthy_iff _).0 some_frame, sym (ok-injective _ _ h4)),
    λ (handled, some_frame, is).
        rw
          (
            see_runs-with_runs loaded (nothing_seen fl) ds handled,
            (truthy_iff (frames_of loaded ds)).1 some_frame,
            is,
          )
          refl,
  )

  -- A set comes back exactly if every run directory is read or refused with one of the exceptions
  -- that `aggregate` catches, and at least one is read. The set holds the rows of the runs that are
  -- read, one after the other in the order of the directories, and their names; each of the others
  -- stands among the excluded with its exception, in the same order.
  pub aggregate-eq-ok :
      (index : Dict String (Snapshot Float)) (allow_invalid : Bool) (ds : List (RunDir Float))
      (set : RunSet Float)
      → (aggregate fl index allow_invalid ds ≡ ok set) ↔ (
          All (λ d. IsHandled (load_run fl index allow_invalid d)) ds
          × (frames_of (load_run fl index allow_invalid) ds ≢ [])
          × (set ≡ record {
            frame = concat_frames fl (frames_of (load_run fl index allow_invalid) ds);
            included = names_of (load_run fl index allow_invalid) ds;
            excluded = errors_of (load_run fl index allow_invalid) ds;
          }))
  unfolding aggregate
  aggregate-eq-ok index allow_invalid ds set = gathered_iff (load_run fl index allow_invalid) ds set
