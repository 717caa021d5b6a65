-- ===== src/Tools/HwRuns/Loop.antt =====
-- tools/hw_runs.py, the loop of `main` over the plan: which runs are skipped, moved aside and made.
-- The disk is the run directories by their paths; what one call of `run_one` comes to is an argument.
pub mod Aside
pub mod Visits
pub mod Kept
pub mod Resumed
mod Tests
use llm_sched_study.Base.{
  ℕ, zero, suc, ◌+◌, Bool, true, false, not, String, Option, none, some, List, [], ◌∷◌, ◌++◌,
  length, truthy, Dict, lookup, insert, remove, contains, string_eq, if◌then◌else◌, str, ◌<>◌,
  Result, ok, err, ◌>>=◌, or_raise,
}
use llm_sched_study.Tools.HwRuns.{Run}

-- A `manifest.json`: not JSON, or what stands at `validity.valid`, if anything does.
pub data ManifestFile : Type 0 where
  unparsable : ManifestFile
  saved : (valid : Option Bool) → ManifestFile

-- A run directory: whether `client_<run_id>.jsonl` is there, and the manifest.
pub record Folder : Type 0 where
  pub client : Bool
  pub manifest : Option ManifestFile

abbrev pub Disk : Type 0
Disk = Dict String Folder

pub data State : Type 0 where
  todo done invalid : State

-- What ends the loop with a traceback: a manifest that is not JSON, or an exception of `run_one`
-- that is not caught. `no_free_name` stands for fuel that ran out.
pub data LoopError : Type 0 where
  broken_manifest : (path : String) → LoopError
  uncaught : (run_id : String) → LoopError
  no_free_name : LoopError

-- `"done" if man.get("validity", {}).get("valid") is True else "invalid"`
abbrev pub state_of : Option Bool → State
state_of none = invalid
state_of (some false) = invalid
state_of (some true) = done

abbrev pub read_state : String → Option ManifestFile → Bool → Result LoopError State
read_state path none client = ok todo
read_state path (some manifest) false = ok todo
read_state path (some unparsable) true = err (broken_manifest path)
read_state path (some (saved valid)) true = ok (state_of valid)

abbrev pub folder_state : String → Option Folder → Result LoopError State
folder_state path none = ok todo
folder_state path (some folder) = read_state path folder.manifest folder.client

pub resume_state : Disk → String → Result LoopError State
resume_state disk path = folder_state path (lookup path disk)

-- The names that `_move_aside` tries, in order.
pub aside_name : String → ℕ → String
unfolding str
aside_name path zero = path <> ".invalid"
aside_name path (suc n) = path <> (".invalid" <> str (n + 2))

-- `while aside.exists()`
pub free_name : (fuel k : ℕ) → String → Disk → Option String
unfolding aside_name
free_name zero k path disk = none
free_name (suc fuel) k path disk =
    let later = free_name fuel (k + 1) path disk in
    if contains (aside_name path k) disk then later else some (aside_name path k)

-- `run_dir.rename(aside)`
abbrev pub rename : Disk → String → String → Disk
rename disk path aside = elim (lookup path disk) [
  | none ↦ disk
  | some folder ↦ insert aside folder (remove path disk)
]

-- `_move_aside`; each directory takes one name at most, so one more is enough.
pub move_aside : Disk → String → Result LoopError Disk
unfolding free_name
move_aside disk path = do
  aside ← or_raise (free_name (length disk + 1) 0 path disk) no_free_name
  ok (rename disk path aside)

-- What a call of `run_one` comes to. A caught exception may leave anything in the directory; a run
-- that finishes writes its manifest last, and returns the verdict that it wrote.
pub data Attempt : Type 0 where
  unreadable : Attempt
  raised : Folder → Attempt
  finished : (valid : Bool) → Attempt
  crashed : Attempt

abbrev pub finished_folder : Bool → Folder
finished_folder valid = record { client = true; manifest = some (saved (some valid)) }

pub record Flags : Type 0 where
  pub rerun_invalid : Bool
  pub keep_going : Bool

pub record Log : Type 0 where
  pub disk : Disk
  pub failed : List String
  pub called : List String

module _ {F : Type 0} where
  -- `r.workload.out_root / r.run_id`
  abbrev pub dir_of : Run F → String
  dir_of r = r.workload.out_root <> ("/" <> r.run_id)

  abbrev pub fail : Log → Run F → Log
  fail log r = record log { failed = log.failed ++ r.run_id ∷ [] }

  abbrev pub write : Log → Run F → Folder → Log
  write log r folder = record log { disk = insert (dir_of r) folder log.disk }

  -- After `run_one`: the log, and whether the loop breaks.
  abbrev pub settle : Flags → Log → Run F → Attempt → Result LoopError (Log × Bool)
  settle flags log r unreadable = ok (fail log r, true)
  settle flags log r (raised folder) = ok (fail (write log r folder) r, not flags.keep_going)
  settle flags log r (finished true) = ok (write log r (finished_folder true), false)
  settle flags log r (finished false) =
      ok (fail (write log r (finished_folder false)) r, not flags.keep_going)
  settle flags log r crashed = err (uncaught r.run_id)

  abbrev pub call : Flags → Attempt → Log → Run F → Result LoopError (Log × Bool)
  call flags attempt log r =
      settle flags (record log { called = log.called ++ r.run_id ∷ [] }) r attempt

  -- A run whose manifest is invalid, by whether `--rerun-invalid` is given.
  abbrev pub visit_invalid : Flags → Attempt → Log → Run F → Bool → Result LoopError (Log × Bool)
  visit_invalid flags attempt log r false = ok (fail log r, false)
  visit_invalid flags attempt log r true = do
    disk ← move_aside log.disk (dir_of r)
    call flags attempt (record log { disk = disk }) r

  abbrev pub visit_state : Flags → Attempt → Log → Run F → State → Result LoopError (Log × Bool)
  visit_state flags attempt log r todo = call flags attempt log r
  visit_state flags attempt log r done = ok (log, false)
  visit_state flags attempt log r invalid = visit_invalid flags attempt log r flags.rerun_invalid

  -- The body of the loop.
  pub visit : Flags → Attempt → Log → Run F → Result LoopError (Log × Bool)
  unfolding resume_state move_aside
  visit flags attempt log r =
      resume_state log.disk (dir_of r) >>= λ state. visit_state flags attempt log r state

  pub run_loop : Flags → (ℕ → Attempt) → Log → List (Run F) → Result LoopError Log
  unfolding visit
  run_loop flags attempts log [] = ok log
  run_loop flags attempts log (r ∷ rs) = visit flags (attempts r.sequence_no) log r >>= λ step.
      elim step.1 [ true ↦ ok step.0 | false ↦ run_loop flags attempts step.0 rs ]

-- A loop that has visited nothing yet.
abbrev pub start : Disk → Log
start disk = record { disk = disk; failed = []; called = [] }

-- `return 1 if failed else 0`
abbrev pub exit_code : Log → ℕ
exit_code log = if truthy log.failed then 1 else 0
