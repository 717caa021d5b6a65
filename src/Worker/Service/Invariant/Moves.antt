-- ===== src/Worker/Service/Invariant/Moves.antt =====
-- A task goes from one phase to the next, or leaves: the invariant, and each operation's part.
use llm_sched_study.Base.{
  ℕ, ◌+◌, ◌≤◌, ◌<◌, ◌≡◌, Bool, Option, some, List, [], ◌∷◌, ◌++◌, arith, if◌then◌else◌, length,
  length-append, count_if, All, string_eq, Floats,
}
use llm_sched_study.Worker.Adapter.{LiveState, ServiceResult, decode_tokens_per_s}
use llm_sched_study.Worker.Heartbeat.{observe_completion, set_queue_depth, HeartbeatEmitter}
use llm_sched_study.Worker.Log.{WorkerLog, log_record}
use llm_sched_study.Worker.Service.{
  Request, waiting, probing, serving, delivering, Task, Service, dequeue, take_permit, release,
  enter_engine, leave_engine, count_result, deliver, write, unwind,
}
use llm_sched_study.Worker.Service.Steps.{live, with_tasks, reporting_task}
use llm_sched_study.Worker.Service.Counts.{waits, holds, serves, delivers, counts_move, All-move}
use llm_sched_study.Worker.Service.Invariant.Defs.{IsOwned, LogOf, Inv}

-- How a state changes when the task `x` makes way for the tasks of `mid`.
pub record Moved {F : Type 0} (x : Task F) (mid : List (Task F)) (s t : Service F) : Type 0 where
  pub queued :
      t.counters.queued + (if waits x then 1 else 0) ≡ s.counters.queued + count_if waits mid
  pub inflight :
      t.counters.inflight + (if serves x then 1 else 0) ≡ s.counters.inflight + count_if serves mid
  pub permits : t.permits + count_if holds mid ≡ s.permits + (if holds x then 1 else 0)
  pub slots : t.slots ≡ s.slots
  pub depth : t.emitter.queue_depth ≤ t.counters.queued
  pub failed : t.counters.failed ≤ t.counters.served
  pub written :
      length t.records + count_if delivers mid + s.counters.served
      ≤ t.counters.served + length s.records + (if delivers x then 1 else 0)
  pub run_id : t.run_id ≡ s.run_id
  pub log_run : LogOf t.run_id t.log
  pub mine : IsOwned s.run_id x → All (IsOwned s.run_id) mid

module _ {F : Type 0} (pre mid post : List (Task F)) (x : Task F) {s : Service F}
    (e : s.tasks ≡ pre ++ x ∷ post) (v : Inv s) where
  -- While a task stands in a phase, the phase's counter is positive.
  in_phase :
      ((if waits x then 1 else 0) ≤ s.counters.queued)
      × ((if serves x then 1 else 0) ≤ s.counters.inflight)
  in_phase =
      let m = counts_move pre [] post x e in
      (omega (arith, v.queued, m.0), omega (arith, v.inflight, m.2))

  pub Moved-Inv : (t : Service F) → Moved x mid s t → Inv (with_tasks t (pre ++ (mid ++ post)))
  Moved-Inv t c =
      let m = counts_move pre mid post x e in
      record {
        queued = omega (arith, v.queued, c.queued, m.0);
        inflight = omega (arith, v.inflight, c.inflight, m.2);
        permits = omega (arith, v.permits, c.permits, c.slots, m.1);
        depth = c.depth;
        failed = c.failed;
        written = omega (arith, v.written, c.written, m.3);
        owned = rw c.run_id (All-move pre mid post x e (IsOwned s.run_id) v.owned c.mine);
        log_run = c.log_run;
      }

module _ (fl : Floats) where
  open fl use {Float}

  observe_completion-depth :
      (e : HeartbeatEmitter Float) (rate : Option Float)
      → (observe_completion fl e rate).queue_depth ≡ e.queue_depth
  unfolding observe_completion
  observe_completion-depth e rate = ground arith

  module _ (pre post : List (Task Float)) (request : Request) {s : Service Float} (v : Inv s) where
    pub admit-Moved :
        (since wait : ℕ)
        → s.tasks ≡ pre ++ live request (waiting since) ∷ post
        → 0 < s.permits
        → Moved
            (live request (waiting since))
            (live request (probing wait) ∷ [])
            s
            (take_permit fl (dequeue fl s))
    unfolding take_permit dequeue set_queue_depth
    admit-Moved since wait e free =
        ground (arith, in_phase pre [] post (live request (waiting since)) e v)

    pub probed-Moved :
        (wait : ℕ) (state : LiveState Float)
        → s.tasks ≡ pre ++ live request (probing wait) ∷ post
        → Moved
            (live request (probing wait))
            (live request (serving wait state) ∷ [])
            s
            (enter_engine fl s)
    unfolding enter_engine
    probed-Moved wait state e = ground arith

    pub complete-Moved :
        (wait : ℕ) (state : LiveState Float) (result : ServiceResult)
        → s.tasks ≡ pre ++ live request (serving wait state) ∷ post
        → Moved
            (live request (serving wait state))
            (live request (delivering wait state result) ∷ [])
            s
            (count_result fl (release fl (leave_engine fl s)) result)
    unfolding count_result release leave_engine
    complete-Moved wait state result e = ground (
      arith,
      in_phase pre [] post (live request (serving wait state)) e v,
      observe_completion-depth s.emitter (decode_tokens_per_s fl result),
    )

    pub deliver-Moved :
        (wait : ℕ) (state : LiveState Float) (result : ServiceResult) (log : WorkerLog)
        (arrived : Bool)
        → s.log ≡ some log
        → Moved
            (live request (delivering wait state result))
            (reporting_task fl s request result)
            s
            (write fl (deliver fl s arrived) log request.req_id result wait state)
    unfolding write deliver
    deliver-Moved wait state result log arrived opened = ground (
      arith,
      length-append {0} s.records ((log_record fl log request.req_id result wait state).1 ∷ []),
    )

  pub unwind-Moved :
      (pre post : List (Task Float)) (x : Task Float) {s : Service Float}
      → s.tasks ≡ pre ++ x ∷ post
      → Inv s
      → Moved x [] s (unwind fl s x.phase)
  unfolding unwind dequeue leave_engine release
  unwind-Moved pre post x e v = ground (arith, in_phase pre [] post x e v)
