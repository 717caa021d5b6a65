-- ===== src/Worker/Service/Invariant/Defs.antt =====
-- The invariant of a service.
use llm_sched_study.Base.{
  ◌+◌, ◌≤◌, ◌≡◌, false, String, Option, none, some, length, count_if, All, string_eq,
}
use llm_sched_study.Worker.Log.{WorkerLog}
use llm_sched_study.Worker.Service.{Task, Service}
use llm_sched_study.Worker.Service.Counts.{waits, holds, serves, delivers}

-- A task that was not cancelled belongs to the run that the service is in.
abbrev pub IsOwned : {F : Type 0} → String → Task F → Type 0
IsOwned run_id t = t.cancelled ≡ false → t.request.run_id ≡ run_id

abbrev pub LogOf : String → Option WorkerLog → Type 0
LogOf run_id none = Unit
LogOf run_id (some log) = log.run_id ≡ run_id

pub record Inv {F : Type 0} (s : Service F) : Type 0 where
  pub queued : s.counters.queued ≡ count_if waits s.tasks
  pub inflight : s.counters.inflight ≡ count_if serves s.tasks
  pub permits : s.permits + count_if holds s.tasks ≡ s.slots
  pub depth : s.emitter.queue_depth ≤ s.counters.queued
  pub failed : s.counters.failed ≤ s.counters.served
  pub written : length s.records + count_if delivers s.tasks ≤ s.counters.served
  pub owned : All (IsOwned s.run_id) s.tasks
  pub log_run : LogOf s.run_id s.log
