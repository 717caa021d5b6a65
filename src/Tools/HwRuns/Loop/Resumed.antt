-- ===== src/Tools/HwRuns/Loop/Resumed.antt =====
-- What an exit code of zero says of the campaign, and what the next start of it does.
use llm_sched_study.Base.{
  ℕ, ◌≡◌, ◌≢◌, refl, sym, ap, ◌∙◌, subst, inl, inr, Bool, true, false, String, Option, none, some,
  List, [], ◌∷◌, ◌++◌, arith, All, truthy, IsDict, lookup, insert, lookup-insert, beq_self,
  string_eq, if◌then◌else◌, Option-cases, ok, ◌>>=◌, ok-injective,
}
use llm_sched_study.Tools.HwRuns.{Run}
use llm_sched_study.Tools.HwRuns.Loop.{
  ManifestFile, saved, unparsable, Folder, Disk, done, read_state, resume_state, Attempt,
  unreadable, raised, finished, crashed, Flags, Log, finished_folder, rename, dir_of, call, visit,
  run_loop, start, exit_code,
}
use llm_sched_study.Tools.HwRuns.Loop.Visits.{
  Visited, skipped, left, made, remade, Visited-IsDict, GoesOn, run_loop-cons,
}
use llm_sched_study.Tools.HwRuns.Loop.Kept.{IsFinished, state_at, run_loop-Place}

-- The run has a directory whose manifest says that it is valid.
abbrev pub IsDone : {F : Type 0} → Disk → Run F → Type 0
IsDone disk r = resume_state disk (dir_of r) ≡ ok done

append_last-ne_nil : {A : Type 0} (xs : List A) (x : A) → xs ++ x ∷ [] ≢ []
append_last-ne_nil [] x h = cc
append_last-ne_nil (y ∷ ys) x h = cc

done-folder :
    (disk : Disk) (p : String)
    → resume_state disk p ≡ ok done
    → (folder : Folder) × IsFinished folder (some true) × (lookup p disk ≡ some folder)
unfolding resume_state
done-folder disk p h = elim (Option-cases (lookup p disk)) [
  | inl e ↦ absurd (cc (rw e at h))
  | inr (folder, e) ↦ (folder, read_done p folder.manifest folder.client (rw e at h), e)
]
  where
    read_done :
        (path : String) (manifest : Option ManifestFile) (client : Bool)
        → read_state path manifest client ≡ ok done
        → (client ≡ true) × (manifest ≡ some (saved (some true)))
    read_done path none client h = cc
    read_done path (some manifest) false h = cc
    read_done path (some unparsable) true h = cc
    read_done path (some (saved none)) true h = cc
    read_done path (some (saved (some true))) true h = (refl, refl)
    read_done path (some (saved (some false))) true h = cc

written_done :
    (disk : Disk) (p : String) → resume_state (insert p (finished_folder true) disk) p ≡ ok done
unfolding resume_state
written_done disk p = rw (lookup-insert p p (finished_folder true) disk, beq_self p) refl

module _ {F : Type 0} (flags : Flags) where
  -- A call that fails no run ends with its directory done, and the loop goes on.
  call-IsDone :
      (attempt : Attempt) (log next : Log) (stop : Bool) (r : Run F)
      → call flags attempt log r ≡ ok (next, stop)
      → next.failed ≡ []
      → IsDone next.disk r × (stop ≡ false) × (log.failed ≡ [])
  call-IsDone unreadable log next stop r h none_failed = absurd (
      append_last-ne_nil log.failed r.run_id
        (ap (λ x. x.0.failed) (ok-injective _ _ h) ∙ none_failed))
  call-IsDone (raised folder) log next stop r h none_failed = absurd (
      append_last-ne_nil log.failed r.run_id
        (ap (λ x. x.0.failed) (ok-injective _ _ h) ∙ none_failed))
  call-IsDone (finished false) log next stop r h none_failed = absurd (
      append_last-ne_nil log.failed r.run_id
        (ap (λ x. x.0.failed) (ok-injective _ _ h) ∙ none_failed))
  call-IsDone (finished true) log next stop r h none_failed =
      let same = ok-injective _ _ h in
      (
        subst (λ l. IsDone l.disk r) (ap (λ x. x.0) same) (written_done log.disk (dir_of r)),
        ap (λ x. x.1) (sym same),
        ap (λ x. x.0.failed) same ∙ none_failed,
      )
  call-IsDone crashed log next stop r h none_failed = cc

  Visited-IsDone :
      {attempt : Attempt} {log next : Log} {stop : Bool} {r : Run F}
      → Visited flags attempt log r next stop
      → next.failed ≡ []
      → IsDone next.disk r × (stop ≡ false) × (log.failed ≡ [])
  Visited-IsDone {attempt} {log} {next} {stop} {r} (skipped is_done same goes) none_failed = (
    subst (λ l. IsDone l.disk r) (sym same) is_done,
    goes,
    ap (λ l. l.failed) (sym same) ∙ none_failed,
  )
  Visited-IsDone {attempt} {log} {next} {stop} {r} (left _ _ same _) none_failed =
      absurd (append_last-ne_nil log.failed r.run_id (ap (λ l. l.failed) (sym same) ∙ none_failed))
  Visited-IsDone {attempt} {log} {next} {stop} {r} (made _ calls) none_failed =
      call-IsDone attempt log next stop r calls none_failed
  Visited-IsDone {attempt} {log} {next} {stop} {r} (remade aside _ _ _ calls) none_failed =
      call-IsDone attempt (record log { disk = rename log.disk (dir_of r) aside }) next stop r calls
        none_failed

  -- A run that is done stays done.
  run_loop-stays :
      (attempts : ℕ → Attempt) (log last : Log) (r : Run F) (rs : List (Run F))
      → IsDict log.disk
      → IsDone log.disk r
      → run_loop flags attempts log rs ≡ ok last
      → IsDone last.disk r
  run_loop-stays attempts log last r rs d is_done h =
      let (folder, fin, at) = done-folder log.disk (dir_of r) is_done in
      elim (run_loop-Place flags folder (some true) fin (dir_of r) attempts log last rs d at h) [
        | inl there ↦ state_at (dir_of r) folder (some true) fin last.disk there
        | inr (_, bad, _) ↦ absurd (cc bad)
      ]

  on_AllDone :
      (attempts : ℕ → Attempt) (log last : Log) (r : Run F) (rs : List (Run F)) (next : Log)
      (stop : Bool)
      → Visited flags (attempts r.sequence_no) log r next stop
      → IsDict next.disk
      → GoesOn flags attempts next stop rs last
      → last.failed ≡ []
      → ((l : Log)
          → IsDict l.disk
          → run_loop flags attempts l rs ≡ ok last
          → last.failed ≡ []
          → All (IsDone last.disk) rs × (l.failed ≡ []))
      → All (IsDone last.disk) (r ∷ rs) × (log.failed ≡ [])
  on_AllDone attempts log last r rs next true visited d on none_failed ih =
      let (_, goes, _) = Visited-IsDone visited (ap (λ l. l.failed) on ∙ none_failed) in
      absurd (cc goes)
  on_AllDone attempts log last r rs next false visited d on none_failed ih =
      let (rest, next_failed) = ih next d on none_failed in
      let (is_done, _, log_failed) = Visited-IsDone visited next_failed in
      ((run_loop-stays attempts next last r rs d is_done on, rest), log_failed)

  run_loop-AllDone :
      (attempts : ℕ → Attempt) (log last : Log) (rs : List (Run F))
      → IsDict log.disk
      → run_loop flags attempts log rs ≡ ok last
      → last.failed ≡ []
      → All (IsDone last.disk) rs × (log.failed ≡ [])
  run_loop-AllDone attempts log last [] d h none_failed =
      (tt, unfold run_loop in ap (λ l. l.failed) (ok-injective _ _ h) ∙ none_failed)
  run_loop-AllDone attempts log last (r ∷ rs) d h none_failed =
      let (next, stop, visited, on) = run_loop-cons flags attempts log last r rs h in
      on_AllDone attempts log last r rs next stop visited (Visited-IsDict flags d visited) on
        none_failed (λ l. run_loop-AllDone attempts l last rs)

no_failed : (failed : List String) → ◌≡◌ {A = ℕ} (if truthy failed then 1 else 0) 0 → failed ≡ []
no_failed [] h = refl
no_failed (r ∷ rs) h = absurd (omega (arith, h))

-- Runs that are all done are skipped.
skip-All :
    {F : Type 0} (flags : Flags) (attempts : ℕ → Attempt) (log : Log) (rs : List (Run F))
    → All (IsDone log.disk) rs
    → run_loop flags attempts log rs ≡ ok log
unfolding run_loop visit
skip-All flags attempts log [] h = refl
skip-All flags attempts log (r ∷ rs) (h, hs) = rw (h, ◌>>=◌) (skip-All flags attempts log rs hs)

-- A campaign whose exit code is zero has made all of its runs: each has a directory with a valid
-- manifest. When it is started again on that disk, with any flags, it calls `run_one` for none of
-- them, changes nothing and its exit code is zero.
pub exit_code-resumed :
    {F : Type 0} (flags : Flags) (attempts : ℕ → Attempt) (disk : Disk) (rs : List (Run F))
    (last : Log) (flags' : Flags) (attempts' : ℕ → Attempt)
    → IsDict disk
    → run_loop flags attempts (start disk) rs ≡ ok last
    → exit_code last ≡ 0
    → All (IsDone last.disk) rs
      × (run_loop flags' attempts' (start last.disk) rs ≡ ok (start last.disk))
      × (exit_code (start last.disk) ≡ 0)
exit_code-resumed flags attempts disk rs last flags' attempts' d h code =
    let (all_done, _) =
      run_loop-AllDone flags attempts (start disk) last rs d h (no_failed last.failed code) in
    (all_done, skip-All flags' attempts' (start last.disk) rs all_done, refl)
