-- ===== src/Harness/Replay/Outcomes.antt =====
-- The record of one fired request on every way that `_fire` may end.
use llm_sched_study.Base.{
  ℕ, ◌-◌, ◌≡◌, ◌↔◌, ◌⊎◌, Bool, true, false, String, none, arith, string_eq, Dict, IsDict, lookup,
  remove, lookup-remove, Floats,
}
use llm_sched_study.Harness.Replay.{
  DeliverySink, FireRecord, Outcome, rpc_error, rejected, timed_out, answered, new_record, finish,
  forget,
}

-- The worker answered, and said that all went well or said nothing.
abbrev pub IsGood : Outcome → Type 0
IsGood (answered chosen_node ack_ns d recv_ns) = (d.status ≡ "") ⊎ (d.status ≡ "ok")
IsGood _ = ⊥

-- The scheduler's call or the delivery was too late, or the worker reports a timeout.
abbrev pub IsLate : Outcome → Type 0
IsLate (rpc_error late now) = late ≡ true
IsLate (rejected chosen_node ack_ns now) = ⊥
IsLate (timed_out chosen_node ack_ns now) = Unit
IsLate (answered chosen_node ack_ns d recv_ns) = d.status ≡ "timeout"

abbrev pub is_answer : Outcome → Bool
is_answer (answered chosen_node ack_ns d recv_ns) = true
is_answer _ = false

-- The reading of the clock at which the request ended.
abbrev pub ended : Outcome → ℕ
ended (rpc_error late now) = now
ended (rejected chosen_node ack_ns now) = now
ended (timed_out chosen_node ack_ns now) = now
ended (answered chosen_node ack_ns d recv_ns) = recv_ns

gone : (r : String) (d : Dict String ℕ) → IsDict d → lookup r (remove r d) ≡ none
gone r d h = ground (arith, lookup-remove r r d h, string_eq.beq_iff r r)

module _ (fl : Floats) where
  open fl use {Float}

  finish-status :
      (s : DeliverySink) (run_id req_id : String) (offset : Float) (t0 target send_ns : ℕ)
      (o : Outcome)
      → let r = (finish fl s (new_record fl run_id req_id offset t0 target send_ns) send_ns o).1 in
        ((r.status ≡ "ok") ↔ IsGood o)
        × ((r.status ≡ "timeout") ↔ IsLate o)
        × (r.e2e_duration_ns ≡ ended o - send_ns)
        × (is_answer o ≡ false → (r.responding_node ≡ "") × (r.output_tokens ≡ 0))
  unfolding finish new_record
  finish-status s run_id req_id offset t0 target send_ns (rpc_error true now) =
      ground (arith, string_eq.beq_iff "timeout" "ok")
  finish-status s run_id req_id offset t0 target send_ns (rpc_error false now) =
      ground
        (arith, string_eq.beq_iff "engine_error" "ok", string_eq.beq_iff "engine_error" "timeout")
  finish-status s run_id req_id offset t0 target send_ns (rejected chosen ack_ns now) =
      ground
        (arith, string_eq.beq_iff "engine_error" "ok", string_eq.beq_iff "engine_error" "timeout")
  finish-status s run_id req_id offset t0 target send_ns (timed_out chosen ack_ns now) =
      ground (arith, string_eq.beq_iff "timeout" "ok")
  finish-status s run_id req_id offset t0 target send_ns (answered chosen ack_ns d recv_ns) =
      ground (
        arith,
        string_eq.beq_iff d.status "",
        string_eq.beq_iff "ok" "timeout",
        string_eq.beq_iff "" "timeout",
      )

  finish-forgets :
      (s : DeliverySink) (r : FireRecord Float) (send_ns : ℕ) (o : Outcome)
      → IsDict s.waiters
      → is_answer o ≡ false
      → lookup r.req_id (finish fl s r send_ns o).0.waiters ≡ none
  unfolding finish forget
  finish-forgets s r send_ns (rpc_error late now) dict e = gone r.req_id s.waiters dict
  finish-forgets s r send_ns (rejected chosen ack_ns now) dict e = gone r.req_id s.waiters dict
  finish-forgets s r send_ns (timed_out chosen ack_ns now) dict e = gone r.req_id s.waiters dict
  finish-forgets s r send_ns (answered chosen ack_ns d recv_ns) dict e = cc

  -- A fired request ends in one record. Its status is ok exactly if the worker answered with ok or
  -- without a status, and timeout exactly if the dispatch passed its deadline, no delivery came in
  -- time, or the worker reports a timeout; its duration runs from the sending to the end that the
  -- client saw. Without an answer no node is named, and nobody waits for the request any more.
  pub finish-cases :
      (s : DeliverySink) (run_id req_id : String) (offset : Float) (t0 target send_ns : ℕ)
      (o : Outcome)
      → IsDict s.waiters
      → let (t, r) = finish fl s (new_record fl run_id req_id offset t0 target send_ns) send_ns o in
        ((r.status ≡ "ok") ↔ IsGood o)
        × ((r.status ≡ "timeout") ↔ IsLate o)
        × (r.e2e_duration_ns ≡ ended o - send_ns)
        × (is_answer o ≡ false
            → (r.responding_node ≡ "") × (r.output_tokens ≡ 0) × (lookup req_id t.waiters ≡ none))
  unfolding new_record
  finish-cases s run_id req_id offset t0 target send_ns o dict =
      let (good, late, e2e, silent) = finish-status s run_id req_id offset t0 target send_ns o in
      (
        good,
        late,
        e2e,
        λ no_answer.
            let (nobody, nothing) = silent no_answer in
            (
              nobody,
              nothing,
              finish-forgets s (new_record fl run_id req_id offset t0 target send_ns) send_ns o dict
                  no_answer,
            ),
      )
