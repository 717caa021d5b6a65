-- ===== src/Tools/HwRuns/Loop/Tests.antt =====
-- The loop at a plan of three runs, one of which is done and one of which is invalid.
use llm_sched_study.Base.{
  ℕ, ◌≤◌, ◌≡◌, refl, Bool, true, false, String, none, some, List, [], ◌∷◌, All, length, string_eq,
  str, ok,
}
use llm_sched_study.Tools.HwRuns.{Run, Workload, from_trace}
use llm_sched_study.Tools.HwRuns.Loop.{
  saved, Folder, Disk, Attempt, finished, Flags, Log, aside_name, rename, move_aside, run_loop,
  start, exit_code,
}
use llm_sched_study.Tools.HwRuns.Loop.Aside.{FirstFree, move_aside-ends}
use llm_sched_study.Tools.HwRuns.Loop.Kept.{Place, finished-kept}
use llm_sched_study.Tools.HwRuns.Loop.Resumed.{IsDone, exit_code-resumed}

abbrev workload : Workload ℕ
workload = record { name = ""; out_root = "runs"; source = from_trace "t.jsonl" "abc" }

abbrev planned : String → ℕ → Run ℕ
planned run_id n = record {
  run_id = run_id;
  policy = "jsq";
  arm = record { name = ""; config = []; policies = none };
  point = record { name = "mid"; rate_scale = some 1; target = none };
  staleness_s = 0;
  repeat = 1;
  sequence_no = n;
  workload = workload;
  gen_seed = none;
  scheduler_seed = none;
}

abbrev runs : List (Run ℕ)
runs = planned "a" 0 ∷ planned "b" 1 ∷ planned "c" 2 ∷ []

abbrev recorded : Bool → Folder
recorded valid = record { client = true; manifest = some (saved (some valid)) }

abbrev disk : Disk
disk =
    ("runs/a", recorded true) ∷ ("runs/b", recorded false) ∷ ("runs/b.invalid", recorded false) ∷ []

abbrev rerun : Flags
rerun = record { rerun_invalid = true; keep_going = false }

abbrev all_finish : ℕ → Attempt
all_finish _ = finished true

abbrev after_loop : Log
after_loop = record {
  disk =
      ("runs/a", recorded true)
      ∷ ("runs/b.invalid", recorded false)
      ∷ ("runs/b.invalid2", recorded false)
      ∷ ("runs/b", recorded true)
      ∷ ("runs/c", recorded true)
      ∷ [];
  failed = [];
  called = "b" ∷ "c" ∷ [];
}

looped : run_loop rerun all_finish (start disk) runs ≡ ok after_loop
unfolding run_loop str
looped = refl

move_aside-ends_example :
    (found : ℕ) × FirstFree "runs/b" disk 0 found
    × (found ≤ length disk)
    × (move_aside disk "runs/b" ≡ ok (rename disk "runs/b" (aside_name "runs/b" found)))
move_aside-ends_example = move_aside-ends disk "runs/b"

finished-kept_example : Place rerun "runs/b" (recorded false) (some false) after_loop.disk
finished-kept_example =
    finished-kept rerun all_finish disk runs after_loop "runs/b" (recorded false) (some false)
      (refl, (refl, (refl, tt))) (refl, refl) refl looped

exit_code-resumed_example :
    All (IsDone after_loop.disk) runs
    × (run_loop rerun all_finish (start after_loop.disk) runs ≡ ok (start after_loop.disk))
    × (exit_code (start after_loop.disk) ≡ 0)
exit_code-resumed_example =
    exit_code-resumed rerun all_finish disk runs after_loop rerun all_finish
      (refl, (refl, (refl, tt))) looped refl
