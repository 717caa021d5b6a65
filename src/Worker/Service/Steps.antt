-- ===== src/Worker/Service/Steps.antt =====
-- What may happen next at a service: any of its tasks goes on, a call arrives, a heartbeat falls
-- due. A task that was cancelled can only unwind, and any task may, since a call may raise.
use llm_sched_study.Base.{
  ℕ, ◌-◌, ◌<◌, ◌≡◌, Bool, false, String, none, some, List, [], ◌∷◌, ◌++◌, if◌then◌else◌, Floats,
}
use llm_sched_study.Worker.Adapter.{ServiceResult, LiveState}
use llm_sched_study.Worker.Log.{WorkerLog}
use llm_sched_study.Worker.Service.{
  Request, Phase, created, waiting, probing, serving, delivering, reporting, Task, Service, abandon,
  new_service, begin, execute, enqueue, dequeue, take_permit, release, enter_engine, leave_engine,
  count_result, deliver, write, report, unwind, beat, close_log,
}

-- A task that nobody cancelled.
abbrev pub live : {F : Type 0} → Request → Phase F → Task F
live request phase = record { request = request; phase = phase; cancelled = false }

abbrev pub with_tasks : {F : Type 0} → Service F → List (Task F) → Service F
with_tasks s tasks = record s { tasks = tasks }

module _ (fl : Floats) where
  open fl use {Float}

  -- What is left of a task after its record is written: it reports, or it is done.
  abbrev pub reporting_task : Service Float → Request → ServiceResult → List (Task Float)
  reporting_task s request result =
      if s.has_scheduler then live request (reporting result) ∷ [] else []

  pub data Step (s : Service Float) : Service Float → Type 0 where
    begun : (run_id : String) → Step s (begin fl s run_id)
    executed : (request : Request) → Step s (execute fl s request)
    entered :
        (pre post : List (Task Float)) (request : Request) (now : ℕ)
        → s.tasks ≡ pre ++ live request created ∷ post
        → Step s (with_tasks (enqueue fl s) (pre ++ live request (waiting now) ∷ post))
    admitted :
        (pre post : List (Task Float)) (request : Request) (since now : ℕ)
        → s.tasks ≡ pre ++ live request (waiting since) ∷ post
        → 0 < s.permits
        → Step s (
            with_tasks
              (take_permit fl (dequeue fl s))
              (pre ++ live request (probing (now - since)) ∷ post))
    probed :
        (pre post : List (Task Float)) (request : Request) (wait : ℕ) (state : LiveState Float)
        → s.tasks ≡ pre ++ live request (probing wait) ∷ post
        → Step s (with_tasks (enter_engine fl s) (pre ++ live request (serving wait state) ∷ post))
    completed :
        (pre post : List (Task Float)) (request : Request) (wait : ℕ) (state : LiveState Float)
        (result : ServiceResult)
        → s.tasks ≡ pre ++ live request (serving wait state) ∷ post
        → Step s (
            with_tasks
              (count_result fl (release fl (leave_engine fl s)) result)
              (pre ++ live request (delivering wait state result) ∷ post))
    delivered :
        (pre post : List (Task Float)) (request : Request) (wait : ℕ) (state : LiveState Float)
        (result : ServiceResult) (log : WorkerLog) (arrived : Bool)
        → s.tasks ≡ pre ++ live request (delivering wait state result) ∷ post
        → s.log ≡ some log
        → Step s (
            with_tasks
              (write fl (deliver fl s arrived) log request.req_id result wait state)
              (pre ++ (reporting_task s request result ++ post)))
    -- `assert self._log is not None` fails.
    unlogged :
        (pre post : List (Task Float)) (request : Request) (wait : ℕ) (state : LiveState Float)
        (result : ServiceResult) (arrived : Bool)
        → s.tasks ≡ pre ++ live request (delivering wait state result) ∷ post
        → s.log ≡ none
        → Step s (with_tasks (deliver fl s arrived) (pre ++ post))
    reported :
        (pre post : List (Task Float)) (request : Request) (result : ServiceResult) (arrived : Bool)
        → s.tasks ≡ pre ++ live request (reporting result) ∷ post
        → Step s (with_tasks (report fl s arrived) (pre ++ post))
    unwound :
        (pre post : List (Task Float)) (task : Task Float)
        → s.tasks ≡ pre ++ task ∷ post
        → Step s (with_tasks (unwind fl s task.phase) (pre ++ post))
    beaten : (answer : LiveState Float) (mono_ns : ℕ) → Step s (beat fl s answer mono_ns).0
    abandoned : Step s (abandon s)
    closed : Step s (close_log fl s)

  -- The states that a service started with `node_id`, `slots` and `has_scheduler` can come to.
  pub data Reach (node_id : String) (slots : ℕ) (has_scheduler : Bool)
      : Service Float → Type 0 where
    start : Reach node_id slots has_scheduler (new_service fl node_id slots has_scheduler)
    later :
        {s t : Service Float}
        → Reach node_id slots has_scheduler s
        → Step s t
        → Reach node_id slots has_scheduler t
