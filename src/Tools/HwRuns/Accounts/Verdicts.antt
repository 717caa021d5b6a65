-- ===== src/Tools/HwRuns/Accounts/Verdicts.antt =====
-- When a run of the campaign counts as valid.
use llm_sched_study.Base.{
  ◌≡◌, ◌≢◌, refl, sym, ap, ◌∙◌, ◌↔◌, Bool, true, false, not, String, Option, none, some, List, [],
  ◌∷◌, arith, map, keep, All, length, truthy, count_if, Dict, lookup, truthy-sort_by, ◌==◌, nat_eq,
  string_eq, if◌then◌else◌, ok, raise_if->>-iff, ok-injective, Floats,
}
use llm_sched_study.Harness.Node.{Node}
use llm_sched_study.Harness.Launch.{
  Verdict, same, changed, died, unknown, engine_verdict, is_blank, colocated_count,
}
use llm_sched_study.Harness.Launch.Colocation.{HostsApart, colocated_count-HostsApart}
use llm_sched_study.Harness.Launch.Engines.{verdict-same}
use llm_sched_study.Harness.Manifest.{Validity, ClockBlock, valid}
use llm_sched_study.Harness.Replay.{FireRecord, measure, post_run_validity}
use llm_sched_study.Harness.Replay.Counts.{count_if_zero_iff, All-keep_iff}
use llm_sched_study.Tools.HwRuns.Accounts.{
  unreadable_nodes, tally_acks, log_counts, incomplete, read_of, is_restart, is_unknown, verdicts,
  Evidence, lost_of, account, run_one,
}
use llm_sched_study.Tools.HwRuns.Accounts.Logged.{
  LogsMatch, logs_iff, All-map_iff, All-iff, truthy_zero_iff, count_if-keep-le,
}

-- Neither a restart nor an engine that could not be read.
engines_same_iff :
    (checks : List (String × Verdict))
    → ((length (keep (λ e. is_restart e.1) checks) ≡ 0)
        × (length (keep (λ e. is_unknown e.1) checks) ≡ 0))
      ↔ All (λ e. e.1 ≡ same) checks
engines_same_iff [] = (λ _. tt, λ _. (refl, refl))
engines_same_iff ((n, same) ∷ checks) =
    (λ h. (refl, (engines_same_iff checks).0 h), λ (h, hs). (engines_same_iff checks).1 hs)
engines_same_iff ((n, changed) ∷ checks) = (λ (h, _). absurd (omega (arith, h)), λ (h, _). cc)
engines_same_iff ((n, died) ∷ checks) = (λ (h, _). absurd (omega (arith, h)), λ (h, _). cc)
engines_same_iff ((n, unknown) ∷ checks) = (λ (_, h). absurd (omega (arith, h)), λ (h, _). cc)

-- The engine of every node was read, not as empty, and was read again as the same.
abbrev pub EnginesSame : Dict String (Option String) → Dict String (Option String) → Type 0
EnginesSame before after =
    All
      (λ e.
        (line : String) × (e.1 ≡ some line) × (line ≢ "") × (lookup e.0 after ≡ some (some line)))
      before

read_of-some :
    (o : Option (Option String)) (line : String) → read_of o ≡ some line → o ≡ some (some line)
read_of-some none line h = cc
read_of-some (some read) line h = ap some h

same_iff :
    (after : Dict String (Option String)) (e : String × Option String)
    → (engine_verdict e.1 (read_of (lookup e.0 after)) ≡ same)
      ↔ ((line : String) × (e.1 ≡ some line) × (line ≢ "") × (lookup e.0 after ≡ some (some line)))
same_iff after (node_id, before) =
    let verdict = verdict-same before (read_of (lookup node_id after)) in
    (
      λ h.
          let (b, a, before_is, after_is, some_text, equal) = verdict.0 h in
          (
            b,
            before_is,
            some_text,
            read_of-some (lookup node_id after) b (after_is ∙ ap some (sym equal)),
          ),
      λ (line, before_is, some_text, found).
          verdict.1 (line, line, before_is, ap read_of found, some_text, refl),
    )

module _ (fl : Floats) where
  open fl use {Float, lt, le}

  -- The counts of an account are all zero.
  account_iff :
      (warmup_s threshold_ms : Float) (e : Evidence Float) (nodes : List Node)
      (clock_sync : Option (ClockBlock Float))
      → (valid (post_run_validity fl (account fl warmup_s threshold_ms e) nodes clock_sync) ≡ true)
        ↔ ((colocated_count nodes ≡ 0)
            × (count_if
                  (λ r. lt threshold_ms r.send_lag_ms)
                  (keep (λ r. le warmup_s r.intended_offset_s) e.records)
                ≡ 0)
            × (lost_of fl e.records ≡ 0)
            × (length (incomplete (log_counts (tally_acks [] e.records) e.worker_counts)) ≡ 0)
            × ((length (keep (λ e. is_restart e.1) (verdicts e.engines_before e.engines_after)) ≡ 0)
                × (length (keep (λ e. is_unknown e.1) (verdicts e.engines_before e.engines_after))
                    ≡ 0)))
  unfolding account measure post_run_validity valid
  account_iff warmup_s threshold_ms e nodes clock_sync =
      let checks = verdicts e.engines_before e.engines_after in
      let short = incomplete (log_counts (tally_acks [] e.records) e.worker_counts) in
      ground (
        arith,
        truthy_zero_iff short,
        truthy_zero_iff (keep (λ e. is_restart e.1) checks),
        truthy_zero_iff (keep (λ e. is_unknown e.1) checks),
        count_if-keep-le (λ r. not (r.status == "ok")) (λ r. le warmup_s r.intended_offset_s)
            e.records,
      )

readable :
    (before : Option String) (line : String)
    → before ≡ some line
    → line ≢ ""
    → is_blank before ≡ false
readable before line e some_text = rw e (ground (arith, some_text, string_eq.beq_iff line ""))

none_blank :
    (engines after : Dict String (Option String))
    → EnginesSame engines after
    → truthy (map (λ e. e.0) (keep (λ e. is_blank e.1) engines)) ≡ false
none_blank [] after h = refl
none_blank ((n, before) ∷ engines) after ((line, e, some_text, _), hs) =
    rw (readable before line e some_text) (none_blank engines after hs)

-- The engines that a run is checked against: none, where the check is off.
abbrev pub checked_engines : {F : Type 0} → Bool → Evidence F → Dict String (Option String)
checked_engines check e = if check then e.engines_before else []

module _ (fl : Floats) where
  open fl use {Float, lt, le}

  -- What a valid run of the campaign is.
  abbrev pub IsSound : Bool → (warmup_s threshold_ms : Float) → List Node → Evidence Float → Type 0
  IsSound check warmup_s threshold_ms nodes e =
      HostsApart nodes
      × All (λ r. le warmup_s r.intended_offset_s ≡ true → lt threshold_ms r.send_lag_ms ≡ false)
          e.records
      × All (λ r. r.status ≡ "ok") e.records
      × LogsMatch e.records e.worker_counts
      × EnginesSame (checked_engines check e) e.engines_after

  All-ok_iff : (rs : List (FireRecord Float)) → (lost_of fl rs ≡ 0) ↔ All (λ r. r.status ≡ "ok") rs
  All-ok_iff [] = (λ _. tt, λ _. refl)
  All-ok_iff (r ∷ rs) = ground (arith, All-ok_iff rs, string_eq.beq_iff r.status "ok")

  verdicts_iff :
      (before after : Dict String (Option String))
      → All (λ e. e.1 ≡ same) (verdicts before after) ↔ EnginesSame before after
  unfolding verdicts
  verdicts_iff before after =
      let each = All-map_iff _ (λ e. e.1 ≡ same) before in
      let read = All-iff _ _ before (same_iff after) in
      (λ h. read.0 (each.0 h), λ h. each.1 (read.1 h))

  IsSound-iff :
      (check : Bool) (warmup_s threshold_ms : Float) (nodes : List Node)
      (clock_sync : Option (ClockBlock Float)) (e : Evidence Float)
      → (valid (
            post_run_validity fl
              (account fl warmup_s threshold_ms
                (record e { engines_before = checked_engines check e }))
              nodes
              clock_sync)
          ≡ true)
        ↔ IsSound check warmup_s threshold_ms nodes e
  IsSound-iff check warmup_s threshold_ms nodes clock_sync e =
      let engines = checked_engines check e in
      let counts =
        account_iff fl warmup_s threshold_ms (record e { engines_before = engines }) nodes
          clock_sync in
      let in_window : FireRecord Float → Bool = λ r. le warmup_s r.intended_offset_s in
      let in_time : FireRecord Float → Type 0 = λ r. lt threshold_ms r.send_lag_ms ≡ false in
      let lag = count_if_zero_iff (λ r. lt threshold_ms r.send_lag_ms) (keep in_window e.records) in
      let window = All-keep_iff in_window in_time e.records in
      let hosts = colocated_count-HostsApart nodes in
      let answered = All-ok_iff e.records in
      let logs = logs_iff e.records e.worker_counts in
      let engine = engines_same_iff (verdicts engines e.engines_after) in
      let read = verdicts_iff engines e.engines_after in
      (
        λ h.
            let (a, b, c, d, v) = counts.0 h in
            (hosts.0 a, window.0 (lag.0 b), answered.0 c, logs.0 d, read.0 (engine.0 v)),
        λ (a, b, c, d, v).
            counts.1 (hosts.1 a, lag.1 (window.1 b), answered.1 c, logs.1 d, engine.1 (read.1 v)),
      )

  -- `run_one` returns true exactly if no two pool nodes share a host, every request whose offset is
  -- not below the warmup was sent in time, every request of the whole run came back ok, each worker's
  -- log has as many lines as there are requests that the scheduler said it had sent to that worker,
  -- and, where the engines are checked, each was read before the run, as a text that is not empty,
  -- and again after it, as the same text.
  pub run_one_iff :
      (check : Bool) (warmup_s threshold_ms : Float) (nodes : List Node)
      (clock_sync : Option (ClockBlock Float)) (e : Evidence Float)
      → ((v : Validity Float) × (run_one fl check warmup_s threshold_ms nodes clock_sync e
            ≡ ok (true, v)))
        ↔ IsSound check warmup_s threshold_ms nodes e
  unfolding run_one
  run_one_iff check warmup_s threshold_ms nodes clock_sync e =
      let sound = IsSound-iff check warmup_s threshold_ms nodes clock_sync e in
      (
        λ (v, h). sound.0 (ap (λ x. x.0) (ok-injective _ _ ((raise_if->>-iff _ _ _).0 h).1)),
        λ h.
            let engines = checked_engines check e in
            let v =
              post_run_validity fl
                (account fl warmup_s threshold_ms (record e { engines_before = engines })) nodes
                clock_sync in
            (
              v,
              (raise_if->>-iff (truthy (unreadable_nodes engines)) _ _).1 (
                truthy-sort_by (λ n. n) (map (λ x. x.0) (keep (λ x. is_blank x.1) engines))
                    ∙ none_blank engines e.engines_after h.4,
                ap (λ b. ok (b, v)) (sound.1 h),
              ),
            ),
      )
