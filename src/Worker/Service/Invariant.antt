-- ===== src/Worker/Service/Invariant.antt =====
-- What holds of a service in every reachable state.
mod Defs
mod Calls
mod Moves
pub use Defs.*
use Calls.{abandon-Inv, new_service-Inv, begin-Inv, execute-Inv, beat-Inv}
use Moves.{Moved-Inv, admit-Moved, probed-Moved, complete-Moved, deliver-Moved, unwind-Moved}
use llm_sched_study.Base.{
  ℕ, ◌+◌, ◌-◌, ◌≤◌, ◌<◌, ◌≡◌, refl, sym, Bool, true, false, String, Option, none, some, List, [],
  ◌∷◌, ◌++◌, map, arith, if◌then◌else◌, length, length-append, count_if, count_if-append, All,
  All-append, Bool-cases, inl, inr, ◌&&◌, ◌==◌, string_eq, is_some, Floats,
}
use llm_sched_study.Worker.Adapter.{LiveState, ServiceResult, decode_tokens_per_s}
use llm_sched_study.Worker.Heartbeat.{
  start_run, observe_completion, set_queue_depth, next, HeartbeatEmitter,
}
use llm_sched_study.Worker.Log.{WorkerLog, open_log, log_record}
use llm_sched_study.Worker.Service.{
  Request, Phase, created, waiting, probing, serving, delivering, reporting, Task, Service, cancel,
  abandon, new_service, begin, execute, enqueue, dequeue, take_permit, release, enter_engine,
  leave_engine, count_result, deliver, write, report, unwind, probe, beat, close_log,
}
use llm_sched_study.Worker.Service.Steps.{
  live, with_tasks, reporting_task, Step, begun, executed, entered, admitted, probed, completed,
  delivered, unlogged, reported, unwound, beaten, abandoned, closed, Reach, start, later,
}
use llm_sched_study.Worker.Service.Counts.{
  waits, holds, serves, delivers, counts_move, counts_cancel, All-move,
}

module _ (fl : Floats) where
  open fl use {Float}

  -- Every step keeps the invariant.
  pub Step-Inv : {s t : Service Float} → Step fl s t → Inv s → Inv t
  unfolding close_log
  Step-Inv (begun run_id) v = begin-Inv fl run_id v
  Step-Inv (executed request) v = execute-Inv fl request v
  Step-Inv {s} (entered pre post request now e) v =
      Moved-Inv pre (live request (waiting now) ∷ []) post _ e v (enqueue fl s)
        (unfold enqueue in ground arith)
  Step-Inv (admitted pre post request since now e free) v =
      Moved-Inv pre (live request (probing (now - since)) ∷ []) post _ e v _
        (admit-Moved fl pre post request v since (now - since) e free)
  Step-Inv (probed pre post request wait state e) v =
      Moved-Inv pre (live request (serving wait state) ∷ []) post _ e v _
        (probed-Moved fl pre post request v wait state e)
  Step-Inv (completed pre post request wait state result e) v =
      Moved-Inv pre (live request (delivering wait state result) ∷ []) post _ e v _
        (complete-Moved fl pre post request v wait state result e)
  Step-Inv {s} (delivered pre post request wait state result log arrived e opened) v =
      Moved-Inv pre (reporting_task fl s request result) post _ e v _
        (deliver-Moved fl pre post request v wait state result log arrived opened)
  Step-Inv {s} (unlogged pre post request wait state result arrived e no_log) v =
      Moved-Inv pre [] post _ e v (deliver fl s arrived) (unfold deliver in ground arith)
  Step-Inv {s} (reported pre post request result arrived e) v =
      Moved-Inv pre [] post _ e v (report fl s arrived) (unfold report in ground arith)
  Step-Inv (unwound pre post task e) v =
      Moved-Inv pre [] post task e v _ (unwind-Moved fl pre post task e v)
  Step-Inv (beaten answer now) v = beat-Inv fl _ answer now v
  Step-Inv abandoned v = abandon-Inv v
  Step-Inv closed v = record {
    queued = v.queued;
    inflight = v.inflight;
    permits = v.permits;
    depth = v.depth;
    failed = v.failed;
    written = v.written;
    owned = v.owned;
    log_run = tt;
  }

  -- In every reachable state, whatever the order of the steps: `queued` and `inflight` count the
  -- tasks that wait for the semaphore and those in the engine, the permits that are out are held
  -- by tasks, the heartbeat's queue depth is at most `queued`, every record was counted in
  -- `served`, and a task that was not cancelled belongs to the current run.
  pub Reach-Inv :
      (node_id : String) (slots : ℕ) (has_scheduler : Bool) {s : Service Float}
      → Reach fl node_id slots has_scheduler s
      → Inv s
  Reach-Inv node_id slots has_scheduler start = new_service-Inv fl node_id slots has_scheduler
  Reach-Inv node_id slots has_scheduler (later r st) =
      Step-Inv st (Reach-Inv node_id slots has_scheduler r)
