-- ===== src/Pipeline/Runset.antt =====
-- pipeline/runset.py: the ratio a run was at, a run directory as rows, and the set of the runs of a
-- root with the runs left out. A run directory is what its files hold.
pub mod Deployed
pub mod Sets
mod Tests
use llm_sched_study.Base.{
  ℕ, Bool, true, false, not, String, Option, none, some, List, [], ◌∷◌, ◌++◌, map, keep, ltb,
  length, truthy, to_set, Dict, lookup, string_eq, if◌then◌else◌, Result, ok, err, ◌>>=◌, ◌>>◌,
  raise_if, or_raise, traverse, Floats,
}
use llm_sched_study.Logs.{SchedulerRecord}
use llm_sched_study.Harness.Node.{Node, is_pool}
use llm_sched_study.Worker.Log.{WorkerRecord}
use llm_sched_study.Calibration.Snapshots.{
  Snapshot, SnapshotError, no_cell, empty_max, zero_division, too_few_classes, no_common_cell,
  synthesizable,
}
use llm_sched_study.Pipeline.Records.{Manifest, ClientRecord, TraceLine, JoinError, key_error, Row}
use llm_sched_study.Pipeline.Join.{join}

-- What `load_run` raises.
pub data RunError : Type 0 where
  -- json.JSONDecodeError, in the file of that name
  not_json : String → RunError
  -- FileNotFoundError
  no_trace : (run_id : String) → RunError
  no_snapshot : (node_id : String) → RunError
  unknown_snapshot : (node_id snapshot_id : String) → RunError
  in_range : SnapshotError → RunError
  in_join : JoinError → RunError

-- Whether `except (ValueError, FileNotFoundError)` catches it.
pub caught : RunError → Bool
caught (not_json _) = false
caught (no_trace _) = true
caught (no_snapshot _) = true
caught (unknown_snapshot _ _) = true
caught (in_range (too_few_classes _)) = true
caught (in_range (no_common_cell _)) = true
caught (in_range (no_cell _)) = false
caught (in_range empty_max) = true
caught (in_range zero_division) = false
caught (in_join (key_error _)) = false
caught (in_join _) = true

-- The exception of a part, as the exception of the whole.
abbrev pub raise_as : {E A : Type 0} → (E → RunError) → Result E A → Result RunError A
raise_as wrap (ok a) = ok a
raise_as wrap (err e) = err (wrap e)

pub record RunManifest (F : Type 0) : Type 0 where
  pub base : Manifest F
  pub vehicle : String
  pub cost_model_snapshots : Dict String String

pub record TraceFile : Type 0 where
  pub sha256 : String
  -- `none` where a line is not JSON.
  pub lines : Option (List TraceLine)

-- What stands in a run directory, `none` where a file is not JSON; a trace that is not there is none.
pub record RunDir (F : Type 0) : Type 0 where
  pub name : String
  pub manifest : Option (RunManifest F)
  pub trace : Option TraceFile
  pub client : Option (List (ClientRecord F))
  pub scheduler : Option (List (SchedulerRecord F))
  pub worker : Option (List (WorkerRecord F))

-- A row of a set: a row of the join with `SET_COLUMNS`.
pub record SetRow (F : Type 0) : Type 0 where
  pub row : Row F
  pub vehicle : String
  pub trace_sha256 : String

pub record RunSet (F : Type 0) : Type 0 where
  pub frame : List (SetRow F)
  pub included : List String
  pub excluded : List (String × RunError)

module _ (fl : Floats) where
  open fl use {Float, of_nat}

  -- The snapshot that a node of the pool was under.
  abbrev pub snapshot_of :
      Dict String String → Dict String (Snapshot Float) → Node → Result RunError (Snapshot Float)
  snapshot_of named index node = do
    snapshot_id ← or_raise (lookup node.node_id named) (no_snapshot node.node_id)
    or_raise (lookup snapshot_id index) (unknown_snapshot node.node_id snapshot_id)

  abbrev pub is_one_class : List (Snapshot Float) → Bool
  is_one_class snapshots = ltb (length (to_set (map (λ s. s.node_class) snapshots))) 2

  -- `r_range.synthesizable(snapshots)[1]`
  abbrev pub upper_end : List (Snapshot Float) → Result RunError Float
  upper_end snapshots = do bounds ← raise_as in_range (synthesizable fl snapshots); ok bounds.1

  abbrev pub r_of : List (Snapshot Float) → Result RunError Float
  r_of snapshots = elim (is_one_class snapshots) [
    | true ↦ ok (of_nat 1)
    | false ↦ upper_end snapshots
  ]

  pub deployed_r : RunManifest Float → Dict String (Snapshot Float) → Result RunError Float
  deployed_r manifest index = do
    snapshots ←
        traverse (snapshot_of manifest.cost_model_snapshots index)
          (keep is_pool manifest.base.nodes)
    r_of snapshots

  -- `load_run`
  pub load_run :
      Dict String (Snapshot Float) → Bool → RunDir Float → Result RunError (List (SetRow Float))
  load_run index allow_invalid run_dir = do
    manifest ← or_raise run_dir.manifest (not_json "manifest.json")
    trace_file ← or_raise run_dir.trace (no_trace manifest.base.run_id)
    trace ← or_raise trace_file.lines (not_json "trace")
    client ← or_raise run_dir.client (not_json "client")
    scheduler ← or_raise run_dir.scheduler (not_json "scheduler")
    worker ← or_raise run_dir.worker (not_json "worker")
    r_value ← deployed_r manifest index
    rows ← raise_as in_join (
        join fl manifest.base client scheduler worker trace (some trace_file.sha256) (some r_value)
          allow_invalid)
    ok (
        map
          (λ row. record {
            row = row;
            vehicle = manifest.vehicle;
            trace_sha256 = trace_file.sha256;
          })
          rows)

  -- The lists of `aggregate`: the frames, what is included, and what is excluded.
  pub record Seen : Type 0 where
    pub frames : List (List (SetRow Float))
    pub included : List String
    pub excluded : List (String × RunError)

  -- The body of the loop of `aggregate`, after `load_run`.
  abbrev pub take_run : Seen → String → Result RunError (List (SetRow Float)) → Result RunError Seen
  take_run seen name (ok rows) =
      ok (record seen { frames = seen.frames ++ rows ∷ []; included = seen.included ++ name ∷ [] })
  take_run seen name (err e) =
      raise_if (not (caught e)) e >> ok (record seen { excluded = seen.excluded ++ (name, e) ∷ [] })

  pub see_runs :
      (RunDir Float → Result RunError (List (SetRow Float)))
      → Seen
      → List (RunDir Float)
      → Result RunError Seen
  see_runs loaded seen [] = ok seen
  see_runs loaded seen (run_dir ∷ run_dirs) =
      take_run seen run_dir.name (loaded run_dir) >>= λ next. see_runs loaded next run_dirs

  abbrev pub concat_frames : List (List (SetRow Float)) → List (SetRow Float)
  concat_frames [] = []
  concat_frames (rows ∷ frames) = rows ++ concat_frames frames

  -- What `aggregate` raises: what `load_run` does, or that no run is left.
  pub data SetError : Type 0 where
    raised : RunError → SetError
    no_run : (n_excluded n_seen : ℕ) → SetError

  abbrev pub to_set_error : {A : Type 0} → Result RunError A → Result SetError A
  to_set_error (ok a) = ok a
  to_set_error (err e) = err (raised e)

  -- The end of `aggregate`, from the number of the run directories.
  abbrev pub set_of : ℕ → Seen → Result SetError (RunSet Float)
  set_of n_seen seen = do
    raise_if (not (truthy seen.frames)) (no_run (length seen.excluded) n_seen)
    ok (record {
      frame = concat_frames seen.frames;
      included = seen.included;
      excluded = seen.excluded;
    })

  abbrev pub nothing_seen : Seen
  nothing_seen = record { frames = []; included = []; excluded = [] }

  -- `aggregate`, on the run directories that `discover` finds.
  pub aggregate :
      Dict String (Snapshot Float) → Bool → List (RunDir Float) → Result SetError (RunSet Float)
  unfolding see_runs load_run
  aggregate index allow_invalid run_dirs = do
    seen ← to_set_error (see_runs (load_run index allow_invalid) nothing_seen run_dirs)
    set_of (length run_dirs) seen
