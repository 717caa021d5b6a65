-- ===== src/Worker/Service.antt =====
-- worker/serve.py: the servicer of one node. Its coroutines run on one event loop, so what happens
-- between two `await`s is one operation on the state. The clock and the outcome of a call over the
-- network are arguments.
pub mod Steps
pub mod Counts
pub mod Invariant
pub mod Admission
pub mod Probes
mod Tests
use llm_sched_study.Base.{
  ℕ, suc, ◌+◌, ◌-◌, Bool, true, false, not, ◌&&◌, String, Option, none, some, List, [], ◌∷◌, ◌++◌,
  map, ◌==◌, string_eq, is_some, ltb, if◌then◌else◌, length, Floats,
}
use llm_sched_study.Worker.Adapter.{
  EngineState, ready, warming, degraded, ServiceResult, LiveState, decode_tokens_per_s,
}
use llm_sched_study.Worker.Heartbeat.{
  Heartbeat, HeartbeatEmitter, new_emitter, start_run, observe_completion, set_queue_depth, next,
}
use llm_sched_study.Worker.Log.{WorkerRecord, WorkerLog, open_log, log_record}

-- `_Counters`
pub record Counters : Type 0 where
  pub queued : ℕ
  pub inflight : ℕ
  pub served : ℕ
  pub failed : ℕ
  pub undelivered : ℕ
  pub unreported_completions : ℕ
  pub abandoned : ℕ
  pub leaked_slots : ℕ

pub record Request : Type 0 where
  pub run_id : String
  pub req_id : String
  pub output_len : ℕ

-- Where a `serve_one` coroutine stands, with its local variables.
pub data Phase (F : Type 0) : Type 0 where
  -- a task that the loop has not run yet
  created : Phase F
  -- in `self._sem.acquire()`, since `admitted_ns`
  waiting : (admitted_ns : ℕ) → Phase F
  -- in `adapter.live_state()`, with a permit
  probing : (queue_wait_ns : ℕ) → Phase F
  -- in `adapter.complete()`, with a permit
  serving : (queue_wait_ns : ℕ) → LiveState F → Phase F
  -- in `_deliver`
  delivering : (queue_wait_ns : ℕ) → LiveState F → ServiceResult → Phase F
  -- in `_report`
  reporting : ServiceResult → Phase F

pub record Task (F : Type 0) : Type 0 where
  pub request : Request
  pub phase : Phase F
  -- `task.cancel()` was called: the next thing that it meets is CancelledError.
  pub cancelled : Bool

-- `WorkerService`. `tasks` are those that are not done; `permits` is the semaphore's value;
-- `files` holds the lines of the log file of each run.
pub record Service (F : Type 0) : Type 0 where
  pub node_id : String
  pub slots : ℕ
  pub has_scheduler : Bool
  pub counters : Counters
  pub records : List (WorkerRecord F)
  pub run_id : String
  pub log : Option WorkerLog
  pub files : String → List (WorkerRecord F)
  pub permits : ℕ
  pub tasks : List (Task F)
  pub emitter : HeartbeatEmitter F
  pub leak_streak : ℕ

module _ {F : Type 0} where
  pub cancel : Task F → Task F
  cancel t = record t { cancelled = true }

  -- `_abandon`
  pub abandon : Service F → Service F
  unfolding cancel
  abandon s = record s {
    tasks = map cancel s.tasks;
    counters = record (s.counters) { abandoned = s.counters.abandoned + length s.tasks };
  }

module _ (fl : Floats) where
  open fl use {Float}

  -- `WorkerService(config, adapter)`
  pub new_service : (node_id : String) (slots : ℕ) (has_scheduler : Bool) → Service Float
  unfolding new_emitter
  new_service node_id slots has_scheduler = record {
    node_id = node_id;
    slots = slots;
    has_scheduler = has_scheduler;
    counters = record {
      queued = 0;
      inflight = 0;
      served = 0;
      failed = 0;
      undelivered = 0;
      unreported_completions = 0;
      abandoned = 0;
      leaked_slots = 0;
    };
    records = [];
    run_id = "";
    log = none;
    files = λ _. [];
    permits = slots;
    tasks = [];
    emitter = new_emitter fl "" node_id;
    leak_streak = 0;
  }

  pub begin : Service Float → String → Service Float
  unfolding abandon start_run open_log
  begin s run_id =
      if (run_id == s.run_id) && is_some s.log
      then s
      else (let s = abandon s in
          record s {
            run_id = run_id;
            log = some (open_log s.node_id run_id);
            emitter = start_run fl s.emitter run_id;
          })

  -- `Execute`: the task is created, and the loop runs it later.
  pub execute : Service Float → Request → Service Float
  unfolding begin
  execute s request =
      let s = begin s request.run_id in
      record s {
        tasks = s.tasks ++ record { request = request; phase = created; cancelled = false } ∷ [];
      }

  -- `serve_one` up to the semaphore.
  pub enqueue : Service Float → Service Float
  unfolding set_queue_depth
  enqueue s = record s {
    counters = record (s.counters) { queued = s.counters.queued + 1 };
    emitter = set_queue_depth fl s.emitter (s.counters.queued + 1);
  }

  -- The `finally` of the acquisition. The invariant keeps `queued` positive here.
  pub dequeue : Service Float → Service Float
  unfolding set_queue_depth
  dequeue s = record s {
    counters = record (s.counters) { queued = s.counters.queued - 1 };
    emitter = set_queue_depth fl s.emitter (s.counters.queued - 1);
  }

  -- `self._sem.acquire()` returned.
  pub take_permit : Service Float → Service Float
  take_permit s = record s { permits = s.permits - 1 }

  -- The outer `finally`: `self._sem.release()`.
  pub release : Service Float → Service Float
  release s = record s { permits = s.permits + 1 }

  pub enter_engine : Service Float → Service Float
  enter_engine s = record s {
    counters = record (s.counters) { inflight = s.counters.inflight + 1 };
  }

  -- The inner `finally`.
  pub leave_engine : Service Float → Service Float
  leave_engine s = record s {
    counters = record (s.counters) { inflight = s.counters.inflight - 1 };
  }

  -- After the engine answered: the rate, `served` and `failed`.
  pub count_result : Service Float → ServiceResult → Service Float
  unfolding observe_completion decode_tokens_per_s
  count_result s result = record s {
    emitter = observe_completion fl s.emitter (decode_tokens_per_s fl result);
    counters = record (s.counters) {
      served = s.counters.served + 1;
      failed = s.counters.failed + (if result.status == "ok" then 0 else 1);
    };
  }

  -- `_deliver`: `arrived` is false where the call raised AioRpcError.
  pub deliver : Service Float → (arrived : Bool) → Service Float
  deliver s arrived = record s {
    counters = record (s.counters) {
      undelivered = s.counters.undelivered + (if arrived then 0 else 1);
    };
  }

  -- `_write` with its log open.
  pub write :
      Service Float
      → WorkerLog
      → (req_id : String) → ServiceResult
      → (queue_wait_ns : ℕ) → LiveState Float
      → Service Float
  unfolding log_record
  write s log req_id result queue_wait_ns state =
      let (log', line) = log_record fl log req_id result queue_wait_ns state in
      record s {
        log = some log';
        records = s.records ++ line ∷ [];
        files = λ run. if run == log.run_id then s.files run ++ line ∷ [] else s.files run;
      }

  -- `_report`: `arrived` is false where the call raised AioRpcError.
  pub report : Service Float → (arrived : Bool) → Service Float
  report s arrived = record s {
    counters = record (s.counters) {
      unreported_completions = s.counters.unreported_completions + (if arrived then 0 else 1);
    };
  }

  -- What an exception at an `await` undoes on its way out of `serve_one`.
  pub unwind : Service Float → Phase Float → Service Float
  unfolding dequeue leave_engine release
  unwind s created = s
  unwind s (waiting _) = dequeue s
  unwind s (probing _) = release s
  unwind s (serving _ _) = release (leave_engine s)
  unwind s (delivering _ _ _) = s
  unwind s (reporting _) = s

  abbrev pub is_ready : EngineState → Bool
  is_ready ready = true
  is_ready warming = false
  is_ready degraded = false

  -- `_LEAK_CONFIRMATIONS`
  abbrev pub leak_confirmations : ℕ
  leak_confirmations = 3

  -- `probe`, with what `adapter.live_state()` answered.
  pub probe : Service Float → LiveState Float → Service Float × LiveState Float
  probe s state =
      if not (is_ready state.state)
      then (s, state)
      else (let streak = if ltb s.counters.inflight state.inflight then s.leak_streak + 1 else 0 in
          let s' : Service Float = record s { leak_streak = streak } in
          if ltb streak leak_confirmations then (s', state) else (
            record s' {
              counters = record (s.counters) {
                leaked_slots = state.inflight - s.counters.inflight;
              };
            },
            record state { state = degraded },
          ))

  -- One round of the emitter's loop: probe, then the next heartbeat.
  pub beat : Service Float → LiveState Float → (mono_ns : ℕ) → Service Float × Heartbeat Float
  unfolding probe next
  beat s answer mono_ns =
      let (s', state) = probe s answer in
      let (emitter, hb) = next fl s'.emitter (some state) mono_ns in
      (record s' { emitter = emitter }, hb)

  -- The two parts of `drain` after its wait: the tasks left over are abandoned, and, once the
  -- channels are closed, the log is closed.
  pub close_log : Service Float → Service Float
  close_log s = record s { log = none }
