-- ===== src/Worker/Service/Admission.antt =====
-- What the invariant gives the node's users: the admission width, no permit lost, and each record
-- in the log of its own run.
use llm_sched_study.Base.{
  ℕ, ◌≤◌, ◌≡◌, ◌≢◌, refl, sym, subst, ◌∙◌, Bool, String, some, List, [], ◌∷◌, ◌++◌, arith, count_if,
  All, string_eq, Floats,
}
use llm_sched_study.Worker.Adapter.{ServiceResult, LiveState}
use llm_sched_study.Worker.Log.{WorkerLog, log_record}
use llm_sched_study.Worker.Service.{
  Request, delivering, Task, Service, new_service, abandon, begin, execute, enqueue, dequeue,
  take_permit, release, enter_engine, leave_engine, count_result, deliver, write, report, unwind,
  beat, probe, close_log,
}
use llm_sched_study.Worker.Service.Steps.{
  live, Step, begun, executed, entered, admitted, probed, completed, delivered, unlogged, reported,
  unwound, beaten, abandoned, closed, Reach, start, later,
}
use llm_sched_study.Worker.Service.Counts.{holds, serves, All-split}
use llm_sched_study.Worker.Service.Invariant.{IsOwned, Reach-Inv}

serves-le-holds : {F : Type 0} (ts : List (Task F)) → count_if serves ts ≤ count_if holds ts
serves-le-holds [] = omega arith
serves-le-holds (t ∷ ts) = ground (arith, serves-le-holds ts)

module _ (fl : Floats) where
  open fl use {Float}

  Step-slots : {s t : Service Float} → Step fl s t → t.slots ≡ s.slots
  unfolding begin execute abandon enqueue dequeue take_permit release enter_engine leave_engine
      count_result deliver write report close_log beat probe unwind
  Step-slots {s} (begun run_id) = ground arith
  Step-slots {s} (executed request) = ground arith
  Step-slots (entered pre post request now e) = refl
  Step-slots (admitted pre post request since now e free) = refl
  Step-slots (probed pre post request wait state e) = refl
  Step-slots (completed pre post request wait state result e) = refl
  Step-slots (delivered pre post request wait state result log arrived e opened) = refl
  Step-slots (unlogged pre post request wait state result arrived e no_log) = refl
  Step-slots (reported pre post request result arrived e) = refl
  Step-slots {s} (unwound pre post task e) = ground arith
  Step-slots {s} (beaten answer now) = ground arith
  Step-slots abandoned = refl
  Step-slots closed = refl

  module _ (node_id : String) (slots : ℕ) (has_scheduler : Bool) where
    Reach-slots : {s : Service Float} → Reach fl node_id slots has_scheduler s → s.slots ≡ slots
    unfolding new_service
    Reach-slots start = refl
    Reach-slots (later r st) = Step-slots st ∙ Reach-slots r

    -- No more tasks than `slots` are between the semaphore and its release, and the `inflight`
    -- that the node tells is no more than that either.
    pub admission_width :
        {s : Service Float}
        → Reach fl node_id slots has_scheduler s
        → (count_if holds s.tasks ≤ slots) × (s.counters.inflight ≤ slots)
    admission_width {s} r =
        let v = Reach-Inv fl node_id slots has_scheduler r in
        let n = Reach-slots r in
        (
          omega (arith, v.permits, n),
          omega (arith, v.permits, v.inflight, n, serves-le-holds s.tasks),
        )

    -- Once no task is left, by whatever mixture of answers, exceptions and cancellations, every
    -- permit is back and the node tells an empty queue and an idle engine.
    pub nothing_leaks :
        {s : Service Float}
        → Reach fl node_id slots has_scheduler s
        → s.tasks ≡ []
        → (s.permits ≡ slots)
          × (s.counters.queued ≡ 0)
          × (s.counters.inflight ≡ 0)
          × (s.emitter.queue_depth ≡ 0)
    nothing_leaks {s} r e =
        let v = Reach-Inv fl node_id slots has_scheduler r in
        let n = Reach-slots r in
        let permits = rw e at v.permits in
        let queued = rw e at v.queued in
        let inflight = rw e at v.inflight in
        (omega arith, omega arith, omega arith, omega (arith, v.depth))

    -- A task that delivers while a log is open writes its line at the end of the file of its own
    -- request's run, and leaves the file of every other run as it was.
    pub write-own_run :
        {s : Service Float} (pre post : List (Task Float)) (request : Request) (wait : ℕ)
        (state : LiveState Float) (result : ServiceResult) (log : WorkerLog) (arrived : Bool)
        → Reach fl node_id slots has_scheduler s
        → s.tasks ≡ pre ++ live request (delivering wait state result) ∷ post
        → s.log ≡ some log
        → let line = (log_record fl log request.req_id result wait state).1 in
          let t = write fl (deliver fl s arrived) log request.req_id result wait state in
          (line.run_id ≡ request.run_id)
          × (t.files request.run_id ≡ s.files request.run_id ++ line ∷ [])
          × ((run : String) → run ≢ request.run_id → t.files run ≡ s.files run)
    unfolding write deliver
    write-own_run {s} pre post request wait state result log arrived r e opened =
        let v = Reach-Inv fl node_id slots has_scheduler r in
        let (_, mine, _) =
          All-split (IsOwned s.run_id) pre post (live request (delivering wait state result))
            (subst (All (IsOwned s.run_id)) e v.owned) in
        let same : log.run_id ≡ request.run_id = (rw opened at v.log_run) ∙ sym (mine refl) in
        (
          same,
          ground (arith, same, string_eq.beq_iff request.run_id log.run_id),
          λ run other. ground (arith, same, string_eq.beq_iff run log.run_id),
        )
