-- ===== src/Worker/Service/Tests.antt =====
-- A run of one node, step by step, and the theorems of this part at it.
use llm_sched_study.Base.{
  ℕ, ◌≤◌, ◌≡◌, ◌≢◌, ◌↔◌, refl, true, false, String, none, some, List, [], ◌∷◌, ◌++◌, arith,
  count_if, keep, ◌+◌,
}
use llm_sched_study.Samples.{whole}
use llm_sched_study.Worker.Adapter.{ready, degraded, ServiceResult, LiveState}
use llm_sched_study.Worker.Heartbeat.{new_emitter, emitted_keep}
use llm_sched_study.Worker.Heartbeat.Sequence.{IsSequenced, Call, calls, beats, calls-IsSequenced}
use llm_sched_study.Worker.Log.{WorkerLog, open_log, log_record}
use llm_sched_study.Worker.Service.{
  Request, created, waiting, probing, serving, delivering, Service, new_service, deliver, write,
  probe, unwind, abandon, begin, execute, enqueue, dequeue, take_permit, release, enter_engine,
  leave_engine, count_result,
}
use llm_sched_study.Worker.Service.Steps.{
  live, with_tasks, Reach, start, later, executed, entered, admitted, probed, completed, unwound,
}
use llm_sched_study.Worker.Service.Counts.{holds}
use llm_sched_study.Worker.Service.Invariant.{Inv, Reach-Inv}
use llm_sched_study.Worker.Service.Admission.{admission_width, nothing_leaks, write-own_run}
use llm_sched_study.Worker.Service.Probes.{
  Round, after_rounds, at_inflight, first_three, has_excess, is_ready_round, probe-degraded_iff,
}

abbrev request : Request
request = record { run_id = "run7"; req_id = "r000001"; output_len = 64 }

abbrev answer : ℕ → LiveState ℕ
answer inflight = record {
  inflight = inflight;
  slots_total = 4;
  kv_frac = 0;
  queue_depth = 0;
  recent_tok_s = 0;
  state = ready;
}

abbrev result : ServiceResult
result = record {
  status = "ok";
  service_ns = 900;
  prompt_tokens = 10;
  output_tokens = 64;
  prefill_ns = some 100;
  decode_ns = some 700;
  cached_tokens = 0;
  slot_id = none;
  error = "";
}

abbrev idle : Service ℕ
idle = new_service whole "node1" 4 true

abbrev accepted : Service ℕ
accepted = execute whole idle request

abbrev queued : Service ℕ
queued = with_tasks (enqueue whole accepted) (live request (waiting 5) ∷ [])

abbrev through : Service ℕ
through = with_tasks (take_permit whole (dequeue whole queued)) (live request (probing 2) ∷ [])

abbrev in_engine : Service ℕ
in_engine = with_tasks (enter_engine whole through) (live request (serving 2 (answer 0)) ∷ [])

abbrev answered : Service ℕ
answered =
    with_tasks (count_result whole (release whole (leave_engine whole in_engine)) result)
      (live request (delivering 2 (answer 0) result) ∷ [])

accepted_tasks : accepted.tasks ≡ live request created ∷ []
unfolding execute begin abandon new_service
accepted_tasks = refl

permits_free : queued.permits ≡ 4
unfolding execute begin abandon new_service enqueue
permits_free = refl

in_engine-Reach : Reach whole "node1" 4 true in_engine
in_engine-Reach =
    later
      (later (later (later start (executed request)) (entered [] [] request 5 accepted_tasks))
        (admitted [] [] request 5 7 refl (rw permits_free (omega arith))))
      (probed [] [] request 2 (answer 0) refl)

answered-Reach : Reach whole "node1" 4 true answered
answered-Reach = later in_engine-Reach (completed [] [] request 2 (answer 0) result refl)

Reach-Inv_example : Inv in_engine
Reach-Inv_example = Reach-Inv whole "node1" 4 true in_engine-Reach

admission_width_example : (count_if holds in_engine.tasks ≤ 4) × (in_engine.counters.inflight ≤ 4)
admission_width_example = admission_width whole "node1" 4 true in_engine-Reach

-- The engine raised: the one task is gone.
abbrev emptied : Service ℕ
emptied = with_tasks (release whole (leave_engine whole in_engine)) []

emptied-Reach : Reach whole "node1" 4 true emptied
unfolding unwind
emptied-Reach = later in_engine-Reach (unwound [] [] (live request (serving 2 (answer 0))) refl)

nothing_leaks_example :
    (emptied.permits ≡ 4)
    × (emptied.counters.queued ≡ 0)
    × (emptied.counters.inflight ≡ 0)
    × (emptied.emitter.queue_depth ≡ 0)
nothing_leaks_example = nothing_leaks whole "node1" 4 true emptied-Reach refl

abbrev the_log : WorkerLog
the_log = record { node_id = "node1"; run_id = "run7"; n_written = 0 }

answered_log : answered.log ≡ some the_log
unfolding execute begin abandon new_service enqueue dequeue take_permit enter_engine leave_engine
    release count_result open_log
answered_log = refl

write-own_run_example :
    let line = (log_record whole the_log "r000001" result 2 (answer 0)).1 in
    let t = write whole (deliver whole answered true) the_log "r000001" result 2 (answer 0) in
    (line.run_id ≡ "run7")
    × (t.files "run7" ≡ answered.files "run7" ++ line ∷ [])
    × ((run : String) → run ≢ "run7" → t.files run ≡ answered.files run)
write-own_run_example =
    write-own_run whole "node1" 4 true [] [] request 2 (answer 0) result the_log true answered-Reach
      refl answered_log

idle_streak : idle.leak_streak ≡ 0
unfolding new_service
idle_streak = refl

abbrev before : List (Round ℕ)
before = (0, answer 1) ∷ (0, answer 1) ∷ (0, answer 0) ∷ []

probe-degraded_iff_example :
    let told = (probe whole (at_inflight whole (after_rounds whole idle before) 1) (answer 2)).1 in
    (ready ≡ ready
      → (told.state ≡ degraded)
        ↔ (first_three has_excess (keep (is_ready_round whole) ((1, answer 2) ∷ before)) ≡ true))
    × (true ≡ false → told ≡ answer 2)
probe-degraded_iff_example = probe-degraded_iff whole idle 1 (answer 2) before idle_streak

new_emitter-IsSequenced : IsSequenced (new_emitter whole "run7" "node1")
unfolding new_emitter
new_emitter-IsSequenced = record { counted = tt; bounded = unfold emitted_keep in omega arith }

abbrev some_calls : List (Call ℕ)
some_calls =
    Call.beat none 10
    ∷ Call.start "run8"
    ∷ Call.observe (some 40)
    ∷ Call.beat (some (answer 1)) 20
    ∷ []

calls-IsSequenced_example :
    IsSequenced (calls whole (new_emitter whole "run7" "node1") some_calls)
    × ((calls whole (new_emitter whole "run7" "node1") some_calls).seq
        ≡ (new_emitter whole "run7" "node1").seq + beats whole some_calls)
calls-IsSequenced_example =
    calls-IsSequenced whole (new_emitter whole "run7" "node1") some_calls new_emitter-IsSequenced
