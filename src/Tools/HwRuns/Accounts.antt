-- ===== src/Tools/HwRuns/Accounts.antt =====
-- tools/hw_runs.py, `run_one`: the account of a run, from what the replay, the logs and the two reads
-- of the engines say to the validity that its manifest carries. Starting the scheduler, sending the
-- requests and copying the logs are not modelled: what they give is the arguments.
pub mod Logged
pub mod Verdicts
mod Tests
use llm_sched_study.Base.{
  ℕ, ◌+◌, Bool, true, false, not, ◌||◌, String, Option, none, some, List, [], ◌∷◌, map, keep,
  length, truthy, count_if, or_else, Dict, lookup, insert, sort_by, ltb, ◌==◌, nat_eq, string_eq,
  if◌then◌else◌, Result, ok, err, ◌>>=◌, ◌>>◌, raise_if, Floats,
}
use llm_sched_study.Logs.{SchedulerRecord}
use llm_sched_study.Harness.Node.{Node}
use llm_sched_study.Harness.Launch.{Verdict, same, changed, died, unknown, engine_verdict, is_blank}
use llm_sched_study.Harness.Manifest.{Validity, ClockBlock, valid, heartbeat_gaps_from}
use llm_sched_study.Harness.Replay.{FireRecord, measure, post_run_validity}

-- `EngineUnreadable`, with the nodes.
pub data RunOneError : Type 0 where
  engine_unreadable : List String → RunOneError

-- `[n for n, line in engines_before.items() if not line]`, sorted.
abbrev pub unreadable_nodes : Dict String (Option String) → List String
unreadable_nodes engines = sort_by (λ n. n) (map (λ e. e.0) (keep (λ e. is_blank e.1) engines))

-- An entry of `worker_log_counts`.
pub record LogCount : Type 0 where
  pub dispatched : ℕ
  pub logged : ℕ

module _ {F : Type 0} where
  -- `dispatched[node] = dispatched.get(node, 0) + 1` for a record with a node in its ack.
  abbrev pub tally_ack : Dict String ℕ → FireRecord F → Dict String ℕ
  tally_ack dispatched r =
      if r.chosen_node_from_ack == ""
      then dispatched
      else insert r.chosen_node_from_ack (or_else (lookup r.chosen_node_from_ack dispatched) 0 + 1)
          dispatched

  pub tally_acks : Dict String ℕ → List (FireRecord F) → Dict String ℕ
  tally_acks dispatched [] = dispatched
  tally_acks dispatched (r ∷ rs) = tally_acks (tally_ack dispatched r) rs

  -- `replace(v, worker_log_incomplete=len(incomplete))`, if there are any.
  abbrev pub note_incomplete : List String → Validity F → Validity F
  note_incomplete nodes v =
      if truthy nodes then record v { worker_log_incomplete = length nodes } else v

  -- The requests lost in the whole run, if they are more than those of the window.
  abbrev pub note_lost : ℕ → Validity F → Validity F
  note_lost lost v = if ltb v.dropped_requests lost then record v { dropped_requests = lost } else v

-- `worker_log_counts`
abbrev pub log_counts : Dict String ℕ → Dict String ℕ → List (String × LogCount)
log_counts dispatched worker_counts =
    map
      (λ (node_id, n).
        (node_id, record { dispatched = or_else (lookup node_id dispatched) 0; logged = n }))
      (sort_by (λ e. e.0) worker_counts)

abbrev pub incomplete : List (String × LogCount) → List String
incomplete counts = map (λ e. e.0) (keep (λ e. not (e.1.dispatched == e.1.logged)) counts)

-- `engines_after.get(node_id)`
abbrev pub read_of : Option (Option String) → Option String
read_of none = none
read_of (some line) = line

abbrev pub is_restart : Verdict → Bool
is_restart same = false
is_restart changed = true
is_restart died = true
is_restart unknown = false

abbrev pub is_unknown : Verdict → Bool
is_unknown same = false
is_unknown changed = false
is_unknown died = false
is_unknown unknown = true

-- `engine_check`, by node.
pub verdicts : Dict String (Option String) → Dict String (Option String) → List (String × Verdict)
verdicts before after =
    map (λ (node_id, line). (node_id, engine_verdict line (read_of (lookup node_id after)))) before

abbrev pub note_engines : {F : Type 0} → List (String × Verdict) → Validity F → Validity F
note_engines checks v =
    if truthy (keep (λ e. is_restart e.1) checks) || truthy (keep (λ e. is_unknown e.1) checks)
    then record v {
      engine_restarts = v.engine_restarts + length (keep (λ e. is_restart e.1) checks);
      engine_unchecked = v.engine_unchecked + length (keep (λ e. is_unknown e.1) checks);
    }
    else v

-- What a run leaves behind: the client's records, the lines of each worker's log, the scheduler's
-- records, and the engines as they were read before and after it.
pub record Evidence (F : Type 0) : Type 0 where
  pub records : List (FireRecord F)
  pub worker_counts : Dict String ℕ
  pub scheduler_records : List (SchedulerRecord F)
  pub engines_before : Dict String (Option String)
  pub engines_after : Dict String (Option String)

module _ (fl : Floats) where
  open fl use {Float}

  abbrev pub lost_of : List (FireRecord Float) → ℕ
  lost_of records = count_if (λ r. not (r.status == "ok")) records

  -- The validity that `run_one` hands to `post_run_manifest`.
  pub account : (warmup_s threshold_ms : Float) → Evidence Float → Validity Float
  account warmup_s threshold_ms e =
      let counts = log_counts (tally_acks [] e.records) e.worker_counts in
      let measured =
        note_incomplete (incomplete counts) (measure fl warmup_s threshold_ms e.records) in
      let counted = record measured { heartbeat_gaps = heartbeat_gaps_from e.scheduler_records } in
      note_engines (verdicts e.engines_before e.engines_after)
        (note_lost (lost_of e.records) counted)

  -- `run_one`, after the run: what it returns, with the validity of the manifest it wrote.
  pub run_one :
      (check_engine_restarts : Bool) (warmup_s threshold_ms : Float)
      → List Node
      → Option (ClockBlock Float)
      → Evidence Float
      → Result RunOneError (Bool × Validity Float)
  unfolding account
  run_one check_engine_restarts warmup_s threshold_ms nodes clock_sync e = do
    let engines = if check_engine_restarts then e.engines_before else []
    raise_if (truthy (unreadable_nodes engines)) (engine_unreadable (unreadable_nodes engines))
    let v =
        post_run_validity fl (account warmup_s threshold_ms (record e { engines_before = engines }))
          nodes clock_sync
    ok (valid v, v)
