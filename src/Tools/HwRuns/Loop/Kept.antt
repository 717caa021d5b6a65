-- ===== src/Tools/HwRuns/Loop/Kept.antt =====
-- What the loop does to the run directories: a finished run is never lost.
use llm_sched_study.Base.{
  ℕ, ◌≡◌, ◌≢◌, refl, sym, ◌∙◌, subst, ◌⊎◌, inl, inr, Bool, true, false, String, Option, none, some,
  List, [], ◌∷◌, IsDict, lookup, insert, lookup-insert, beq_ne, beq_self, string_eq, ◌==◌,
  Bool-cases, Option-cases, ok, ok-injective,
}
use llm_sched_study.Tools.HwRuns.{Run}
use llm_sched_study.Tools.HwRuns.Loop.{
  ManifestFile, saved, unparsable, Folder, Disk, todo, invalid, state_of, read_state, resume_state,
  rename, Attempt, Flags, Log, dir_of, call, run_loop, start,
}
use llm_sched_study.Tools.HwRuns.Loop.Visits.{
  WritesAt, call-WritesAt, lookup-rename, Visited, skipped, left, made, remade, Visited-IsDict,
  GoesOn, run_loop-cons,
}

-- The run finished: its client log is there, and its manifest, with this verdict.
abbrev pub IsFinished : Folder → Option Bool → Type 0
IsFinished folder valid = (folder.client ≡ true) × (folder.manifest ≡ some (saved valid))

read_state-todo :
    (path : String) (manifest : Option ManifestFile) (client : Bool) (valid : Option Bool)
    → read_state path manifest client ≡ ok todo
    → client ≡ true
    → manifest ≡ some (saved valid)
    → ⊥
read_state-todo path none client valid h c m = cc
read_state-todo path (some manifest) false valid h c m = cc
read_state-todo path (some unparsable) true valid h c m = cc
read_state-todo path (some (saved none)) true valid h c m = cc
read_state-todo path (some (saved (some true))) true valid h c m = cc
read_state-todo path (some (saved (some false))) true valid h c m = cc

module _ (p : String) (folder : Folder) (valid : Option Bool)
    (finished_before : IsFinished folder valid) where
  -- A directory where a finished run stands is not one of a run that is to do.
  not_todo : (disk : Disk) → lookup p disk ≡ some folder → resume_state disk p ≢ ok todo
  unfolding resume_state
  not_todo disk at h =
      read_state-todo p folder.manifest folder.client valid (rw at at h) finished_before.0
        finished_before.1

  pub state_at :
      (disk : Disk) → lookup p disk ≡ some folder → resume_state disk p ≡ ok (state_of valid)
  unfolding resume_state
  state_at disk at = rw (at, finished_before.0, finished_before.1) refl

  insert-kept :
      (disk : Disk) (q : String) (new : Folder)
      → q ≢ p
      → lookup p disk ≡ some folder
      → lookup p (insert q new disk) ≡ some folder
  insert-kept disk q new ne at = rw (lookup-insert q p new disk, beq_ne q p ne) at

  some-free :
      (disk : Disk) (q : String) → lookup p disk ≡ some folder → lookup q disk ≡ none → q ≢ p
  some-free disk q at free same = cc

  WritesAt-kept :
      (disk next : Disk) (q : String)
      → WritesAt disk next q
      → q ≢ p
      → lookup p disk ≡ some folder
      → lookup p next ≡ some folder
  WritesAt-kept disk next q (inl same) ne at = rw same at
  WritesAt-kept disk next q (inr (new, same)) ne at = rw same (insert-kept disk q new ne at)

-- Where the folder of a finished run is after a part of the loop: where it was, or elsewhere if it
-- was invalid and such runs are made again.
abbrev pub Place : Flags → String → Folder → Option Bool → Disk → Type 0
Place flags p folder valid disk =
    (lookup p disk ≡ some folder)
    ⊎ ((flags.rerun_invalid ≡ true)
        × (state_of valid ≡ invalid)
        × ((q : String) × (lookup q disk ≡ some folder)))

after :
    (flags : Flags) (folder : Folder) (valid : Option Bool) (p q : String) (disk : Disk)
    → flags.rerun_invalid ≡ true
    → state_of valid ≡ invalid
    → Place flags q folder valid disk
    → Place flags p folder valid disk
after flags folder valid p q disk again bad (inl at) = inr (again, bad, (q, at))
after flags folder valid p q disk again bad (inr (_, _, there)) = inr (again, bad, there)

invalid-some :
    (disk : Disk) (q : String)
    → resume_state disk q ≡ ok invalid
    → (g : Folder) × (lookup q disk ≡ some g)
unfolding resume_state
invalid-some disk q h = elim (Option-cases (lookup q disk)) [
  | inl e ↦ absurd (cc (rw e at h))
  | inr found ↦ found
]

module _ {F : Type 0} (flags : Flags) (folder : Folder) (valid : Option Bool)
    (fin : IsFinished folder valid) where
  remade-Place :
      (p aside : String) (attempt : Attempt) (log next : Log) (stop : Bool) (r : Run F)
      → IsDict log.disk
      → lookup p log.disk ≡ some folder
      → resume_state log.disk (dir_of r) ≡ ok invalid
      → flags.rerun_invalid ≡ true
      → lookup aside log.disk ≡ none
      → call flags attempt (record log { disk = rename log.disk (dir_of r) aside }) r
        ≡ ok (next, stop)
      → Place flags p folder valid next.disk
  remade-Place p aside attempt log next stop r d at is_invalid again free calls =
      let writes =
        call-WritesAt flags attempt (record log { disk = rename log.disk (dir_of r) aside }) next
          stop r calls in
      elim (Bool-cases (dir_of r == p)) [
        | inl e ↦
            let here : dir_of r ≡ p = (string_eq.beq_iff (dir_of r) p).0 e in
            let at_dir : lookup (dir_of r) log.disk ≡ some folder =
              subst (λ q. lookup q log.disk ≡ some folder) (sym here) at in
            let ne : dir_of r ≢ aside = λ same. cc in
            let moved : lookup aside (rename log.disk (dir_of r) aside) ≡ some folder =
              lookup-rename log.disk (dir_of r) aside aside folder d free at_dir
              ∙ rw (beq_self aside) refl in
            inr (
              again,
              ok-injective _ _
                  (sym (state_at (dir_of r) folder valid fin log.disk at_dir) ∙ is_invalid),
              (aside, WritesAt-kept aside folder valid fin _ next.disk (dir_of r) writes ne moved),
            )
        | inr e ↦
            let (g, at_dir) = invalid-some log.disk (dir_of r) is_invalid in
            let elsewhere : lookup p (rename log.disk (dir_of r) aside) ≡ some folder =
              lookup-rename log.disk (dir_of r) aside p g d free at_dir
              ∙ rw (beq_ne aside p (some-free p folder valid fin log.disk aside at free), e) at in
            inl (
              WritesAt-kept p folder valid fin _ next.disk (dir_of r) writes
                (λ same. cc (beq_self p)) elsewhere)
      ]

  Visited-Place :
      (p : String) {attempt : Attempt} {log next : Log} {stop : Bool} {r : Run F}
      → IsDict log.disk
      → lookup p log.disk ≡ some folder
      → Visited flags attempt log r next stop
      → Place flags p folder valid next.disk
  Visited-Place p d at (skipped _ same _) = inl (rw same at)
  Visited-Place p d at (left _ _ same _) = inl (rw same at)
  Visited-Place p {attempt} {log} {next} {stop} {r} d at (made is_todo calls) = inl (
      WritesAt-kept p folder valid fin log.disk next.disk (dir_of r)
        (call-WritesAt flags attempt log next stop r calls)
        (λ same.
          not_todo p folder valid fin log.disk at
            (subst (λ q. resume_state log.disk q ≡ ok todo) same is_todo))
        at)
  Visited-Place p {attempt} {log} {next} {stop} {r} d at
        (remade aside is_invalid again free calls) =
      remade-Place p aside attempt log next stop r d at is_invalid again free calls

  on_Place :
      (attempts : ℕ → Attempt) (last : Log) (rs : List (Run F)) (q : String) (next : Log)
      (stop : Bool)
      → lookup q next.disk ≡ some folder
      → IsDict next.disk
      → GoesOn flags attempts next stop rs last
      → ((p : String) (l : Log)
          → IsDict l.disk
          → lookup p l.disk ≡ some folder
          → run_loop flags attempts l rs ≡ ok last
          → Place flags p folder valid last.disk)
      → Place flags q folder valid last.disk
  on_Place attempts last rs q next true there d on ih =
      inl (subst (λ l. lookup q l.disk ≡ some folder) on there)
  on_Place attempts last rs q next false there d on ih = ih q next d there on

  pub run_loop-Place :
      (p : String) (attempts : ℕ → Attempt) (log last : Log) (rs : List (Run F))
      → IsDict log.disk
      → lookup p log.disk ≡ some folder
      → run_loop flags attempts log rs ≡ ok last
      → Place flags p folder valid last.disk
  run_loop-Place p attempts log last [] d at h =
      inl (unfold run_loop in subst (λ l. lookup p l.disk ≡ some folder) (ok-injective _ _ h) at)
  run_loop-Place p attempts log last (r ∷ rs) d at h =
      let (next, stop, visited, on) = run_loop-cons flags attempts log last r rs h in
      let d' = Visited-IsDict flags d visited in
      elim (Visited-Place p d at visited) [
        | inl still ↦
            on_Place attempts last rs p next stop still d' on
              (λ q l. run_loop-Place q attempts l last rs)
        | inr (again, bad, (q, there)) ↦ after flags folder valid p q last.disk again bad (
            on_Place attempts last rs q next stop there d' on
              (λ q l. run_loop-Place q attempts l last rs))
      ]

-- A finished run is never lost: whatever the calls of `run_one` come to, the directory of a run that
-- finished before the loop is after it as it was and where it was; if its manifest is not valid and
-- such runs are made again, it may stand under another name, still as it was.
pub finished-kept :
    {F : Type 0} (flags : Flags) (attempts : ℕ → Attempt) (disk : Disk) (rs : List (Run F))
    (last : Log) (p : String) (folder : Folder) (valid : Option Bool)
    → IsDict disk
    → IsFinished folder valid
    → lookup p disk ≡ some folder
    → run_loop flags attempts (start disk) rs ≡ ok last
    → Place flags p folder valid last.disk
finished-kept flags attempts disk rs last p folder valid d fin at h =
    run_loop-Place flags folder valid fin p attempts (start disk) last rs d at h
