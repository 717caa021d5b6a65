-- ===== src/Worker/Service/Invariant/Calls.antt =====
-- The calls that arrive at a service, and its heartbeats, keep the invariant.
use llm_sched_study.Base.{
  ℕ, ◌≡◌, refl, sym, Bool, String, List, [], ◌∷◌, map, arith, count_if-append, All, All-append,
  Bool-cases, inl, inr, ◌&&◌, ◌==◌, string_eq, is_some, Floats,
}
use llm_sched_study.Worker.Adapter.{LiveState}
use llm_sched_study.Worker.Heartbeat.{next}
use llm_sched_study.Worker.Service.{
  Request, created, Task, Service, cancel, abandon, new_service, begin, execute, probe, beat,
}
use llm_sched_study.Worker.Service.Steps.{live}
use llm_sched_study.Worker.Service.Counts.{waits, holds, serves, delivers, counts_cancel}
use llm_sched_study.Worker.Service.Invariant.Defs.{IsOwned, Inv}

All-cancel :
    {F : Type 0} (run_id : String) (ts : List (Task F)) → All (IsOwned run_id) (map cancel ts)
unfolding cancel
All-cancel run_id [] = tt
All-cancel run_id (t ∷ ts) = ((λ c. cc), All-cancel run_id ts)

pub abandon-Inv : {F : Type 0} {s : Service F} → Inv s → Inv (abandon s)
unfolding abandon
abandon-Inv {s = s} v =
    let m = counts_cancel s.tasks in
    record {
      queued = omega arith;
      inflight = omega arith;
      permits = omega arith;
      depth = v.depth;
      failed = v.failed;
      written = omega arith;
      owned = All-cancel s.run_id s.tasks;
      log_run = v.log_run;
    }

module _ (fl : Floats) where
  open fl use {Float}

  pub new_service-Inv :
      (node_id : String) (slots : ℕ) (has_scheduler : Bool)
      → Inv (new_service fl node_id slots has_scheduler)
  unfolding new_service
  new_service-Inv node_id slots has_scheduler = ground arith

  pub begin-Inv : {s : Service Float} (run_id : String) → Inv s → Inv (begin fl s run_id)
  unfolding begin abandon
  begin-Inv {s} run_id v = elim (Bool-cases ((run_id == s.run_id) && is_some s.log)) [
    | inl same ↦ rw same v
    | inr other ↦
        let m = counts_cancel s.tasks in
        rw other (record {
          queued = omega arith;
          inflight = omega arith;
          permits = omega arith;
          depth = omega arith;
          failed = v.failed;
          written = omega arith;
          owned = All-cancel run_id s.tasks;
          log_run = refl;
        })
  ]

  begin-run_id : (s : Service Float) (run_id : String) → (begin fl s run_id).run_id ≡ run_id
  unfolding begin abandon
  begin-run_id s run_id = ground (arith, string_eq.beq_iff run_id s.run_id)

  pub execute-Inv : {s : Service Float} (request : Request) → Inv s → Inv (execute fl s request)
  unfolding execute
  execute-Inv {s} request v =
      let s' = begin fl s request.run_id in
      let v' = begin-Inv request.run_id v in
      let new : List (Task Float) = live request created ∷ [] in
      record {
        queued = omega (arith, v'.queued, count_if-append {0} waits s'.tasks new);
        inflight = omega (arith, v'.inflight, count_if-append {0} serves s'.tasks new);
        permits = omega (arith, v'.permits, count_if-append {0} holds s'.tasks new);
        depth = v'.depth;
        failed = v'.failed;
        written = omega (arith, v'.written, count_if-append {0} delivers s'.tasks new);
        owned =
            All-append (IsOwned s'.run_id) s'.tasks new v'.owned
              ((λ _. sym (begin-run_id s request.run_id)), tt);
        log_run = v'.log_run;
      }

  pub beat-Inv :
      (s : Service Float) (answer : LiveState Float) (now : ℕ)
      → Inv s
      → Inv (beat fl s answer now).0
  unfolding beat probe next
  beat-Inv s answer now v = ground arith
