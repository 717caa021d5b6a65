-- ===== src/Tools/HwRuns/Loop/Visits.antt =====
-- What a visit of the loop does, by the state of the run.
use llm_sched_study.Base.{
  ℕ, ◌≡◌, refl, sym, ap, ◌∙◌, subst, ◌⊎◌, inl, inr, Bool, true, false, String, none, some, List,
  ◌∷◌, IsDict, lookup, insert, remove, lookup-insert, lookup-remove, insert-IsDict, remove-IsDict,
  string_eq, ◌==◌, if◌then◌else◌, Option-cases, Result, ok, ◌>>=◌, >>=-eq-ok, ok-injective,
}
use llm_sched_study.Tools.HwRuns.{Run}
use llm_sched_study.Tools.HwRuns.Loop.{
  Folder, Disk, State, todo, done, invalid, LoopError, resume_state, aside_name, rename, move_aside,
  Attempt, unreadable, raised, finished, crashed, Flags, Log, dir_of, fail, call, visit_invalid,
  visit_state, visit, run_loop,
}
use llm_sched_study.Tools.HwRuns.Loop.Aside.{move_aside-ends}

-- A call writes into the directory of its run, if anywhere.
abbrev pub WritesAt : Disk → Disk → String → Type 0
WritesAt disk next path = (next ≡ disk) ⊎ ((folder : Folder) × (next ≡ insert path folder disk))

rename-IsDict : (disk : Disk) (path aside : String) → IsDict disk → IsDict (rename disk path aside)
rename-IsDict disk path aside h = elim (Option-cases (lookup path disk)) [
  | inl e ↦ rw (e, rename) h
  | inr (f, e) ↦
      rw (e, rename) (insert-IsDict aside f (remove path disk) (remove-IsDict path disk h))
]

-- What stood at the path stands at its new name, and all else where it was.
pub lookup-rename :
    (disk : Disk) (path aside q : String) (f : Folder)
    → IsDict disk
    → lookup aside disk ≡ none
    → lookup path disk ≡ some f
    → lookup q (rename disk path aside)
      ≡ (if aside == q then some f else if path == q then none else lookup q disk)
lookup-rename disk path aside q f d free at =
    rw (at, rename)
      (lookup-insert aside q f (remove path disk)
        ∙ ap (λ x. if aside == q then some f else x) (lookup-remove path q disk d))

WritesAt-IsDict :
    (disk next : Disk) (path : String) → IsDict disk → WritesAt disk next path → IsDict next
WritesAt-IsDict disk next path d (inl same) = subst IsDict (sym same) d
WritesAt-IsDict disk next path d (inr (f, same)) =
    subst IsDict (sym same) (insert-IsDict path f disk d)

module _ {F : Type 0} (flags : Flags) where
  pub call-WritesAt :
      (attempt : Attempt) (log next : Log) (stop : Bool) (r : Run F)
      → call flags attempt log r ≡ ok (next, stop)
      → WritesAt log.disk next.disk (dir_of r)
  call-WritesAt unreadable log next stop r h = inl (ap (λ x. x.0.disk) (ok-injective _ _ (sym h)))
  call-WritesAt (raised folder) log next stop r h =
      inr (folder, ap (λ x. x.0.disk) (ok-injective _ _ (sym h)))
  call-WritesAt (finished true) log next stop r h =
      inr (_, ap (λ x. x.0.disk) (ok-injective _ _ (sym h)))
  call-WritesAt (finished false) log next stop r h =
      inr (_, ap (λ x. x.0.disk) (ok-injective _ _ (sym h)))
  call-WritesAt crashed log next stop r h = cc

  -- The ways a visit may go.
  pub data Visited (attempt : Attempt) (log : Log) (r : Run F) (next : Log) (stop : Bool)
      : Type 0 where
    skipped :
        resume_state log.disk (dir_of r) ≡ ok done
        → next ≡ log
        → stop ≡ false
        → Visited attempt log r next stop
    left :
        resume_state log.disk (dir_of r) ≡ ok invalid
        → flags.rerun_invalid ≡ false
        → next ≡ fail log r
        → stop ≡ false
        → Visited attempt log r next stop
    made :
        resume_state log.disk (dir_of r) ≡ ok todo
        → call flags attempt log r ≡ ok (next, stop)
        → Visited attempt log r next stop
    remade :
        (aside : String)
        → resume_state log.disk (dir_of r) ≡ ok invalid
        → flags.rerun_invalid ≡ true
        → lookup aside log.disk ≡ none
        → call flags attempt (record log { disk = rename log.disk (dir_of r) aside }) r
          ≡ ok (next, stop)
        → Visited attempt log r next stop

  moved_call :
      (attempt : Attempt) (log next : Log) (stop : Bool) (r : Run F)
      → (move_aside log.disk (dir_of r) >>= λ disk.
          call flags attempt (record log { disk = disk }) r)
        ≡ ok (next, stop)
      → (aside : String) × (lookup aside log.disk ≡ none)
        × (call flags attempt (record log { disk = rename log.disk (dir_of r) aside }) r
            ≡ ok (next, stop))
  moved_call attempt log next stop r h =
      let (found, (_, free, _), _, moves) = move_aside-ends log.disk (dir_of r) in
      (
        aside_name (dir_of r) found,
        free,
        subst
            (λ m.
              (m >>= λ disk. call flags attempt (record log { disk = disk }) r) ≡ ok (next, stop))
            moves h,
      )

  visit_invalid-Visited :
      (attempt : Attempt) (log next : Log) (stop : Bool) (r : Run F) (again : Bool)
      → resume_state log.disk (dir_of r) ≡ ok invalid
      → flags.rerun_invalid ≡ again
      → visit_invalid flags attempt log r again ≡ ok (next, stop)
      → Visited attempt log r next stop
  visit_invalid-Visited attempt log next stop r true at again h =
      let (aside, free, calls) = moved_call attempt log next stop r h in
      remade aside at again free calls
  visit_invalid-Visited attempt log next stop r false at not_again h =
      let same = ok-injective _ _ (sym h) in
      left at not_again (ap (λ x. x.0) same) (ap (λ x. x.1) same)

  visit_state-Visited :
      (attempt : Attempt) (log next : Log) (stop : Bool) (r : Run F) (state : State)
      → resume_state log.disk (dir_of r) ≡ ok state
      → visit_state flags attempt log r state ≡ ok (next, stop)
      → Visited attempt log r next stop
  visit_state-Visited attempt log next stop r todo at h = made at h
  visit_state-Visited attempt log next stop r done at h =
      let same = ok-injective _ _ (sym h) in skipped at (ap (λ x. x.0) same) (ap (λ x. x.1) same)
  visit_state-Visited attempt log next stop r invalid at h =
      visit_invalid-Visited attempt log next stop r flags.rerun_invalid at refl h

  pub visit-Visited :
      (attempt : Attempt) (log next : Log) (stop : Bool) (r : Run F)
      → visit flags attempt log r ≡ ok (next, stop)
      → Visited attempt log r next stop
  unfolding visit
  visit-Visited attempt log next stop r h =
      let (state, at, rest) =
        >>=-eq-ok (resume_state log.disk (dir_of r))
          (λ state. visit_state flags attempt log r state) h in
      visit_state-Visited attempt log next stop r state at rest

  pub Visited-IsDict :
      {attempt : Attempt} {log next : Log} {stop : Bool} {r : Run F}
      → IsDict log.disk
      → Visited attempt log r next stop
      → IsDict next.disk
  Visited-IsDict d (skipped _ same _) = subst (λ l. IsDict l.disk) (sym same) d
  Visited-IsDict d (left _ _ same _) = subst (λ l. IsDict l.disk) (sym same) d
  Visited-IsDict {attempt} {log} {next} {stop} {r} d (made _ h) =
      WritesAt-IsDict log.disk next.disk (dir_of r) d (call-WritesAt attempt log next stop r h)
  Visited-IsDict {attempt} {log} {next} {stop} {r} d (remade aside _ _ _ h) =
      WritesAt-IsDict (rename log.disk (dir_of r) aside) next.disk (dir_of r)
        (rename-IsDict log.disk (dir_of r) aside d)
        (call-WritesAt attempt (record log { disk = rename log.disk (dir_of r) aside }) next stop r
          h)

  -- How the loop goes on after a visit.
  abbrev pub GoesOn : (ℕ → Attempt) → Log → Bool → List (Run F) → Log → Type 0
  GoesOn attempts next true rs last = next ≡ last
  GoesOn attempts next false rs last = run_loop flags attempts next rs ≡ ok last

  goes_on :
      (attempts : ℕ → Attempt) (next last : Log) (stop : Bool) (rs : List (Run F))
      → Path
          (Result LoopError Log)
          (elim stop [ true ↦ ok next | false ↦ run_loop flags attempts next rs ])
          (ok last)
      → GoesOn attempts next stop rs last
  goes_on attempts next last true rs h = ok-injective _ _ h
  goes_on attempts next last false rs h = h

  pub run_loop-cons :
      (attempts : ℕ → Attempt) (log last : Log) (r : Run F) (rs : List (Run F))
      → run_loop flags attempts log (r ∷ rs) ≡ ok last
      → (next : Log) × (stop : Bool) × Visited (attempts r.sequence_no) log r next stop
        × GoesOn attempts next stop rs last
  unfolding run_loop
  run_loop-cons attempts log last r rs h =
      let ((next, stop), visits, rest) =
        >>=-eq-ok (visit flags (attempts r.sequence_no) log r)
          (λ step. elim step.1 [ true ↦ ok step.0 | false ↦ run_loop flags attempts step.0 rs ])
          h in
      (
        next,
        stop,
        visit-Visited (attempts r.sequence_no) log next stop r visits,
        goes_on attempts next last stop rs rest,
      )
