-- ===== src/Harness/Replay.antt =====
-- harness/replay.py: the delivery sink, the record of one fired request, what the replay counts for
-- the validity block, and the check of the pre-run manifest. The clock's readings, the scheduler's
-- answer and the worker's delivery are arguments.
pub mod Sink
pub mod Outcomes
pub mod Counts
pub mod Prerun
mod Tests
use llm_sched_study.Base.{
  ℕ, suc, ◌+◌, ◌-◌, Bool, true, false, not, ◌&&◌, String, Option, none, some, List, [], ◌∷◌, ◌==◌,
  string_eq, nat_eq, or_else, ℤ, pos, negsuc, sub_ℕ, if◌then◌else◌, truthy, keep, count_if, Dict,
  lookup, insert, remove, Result, ok, err, ◌>>=◌, ◌>>◌, raise_if, Floats,
}
use llm_sched_study.Harness.Node.{Node}
use llm_sched_study.Harness.Launch.{colocated_count}
use llm_sched_study.Harness.Manifest.{Validity, ClockBlock, unsynced_hosts}

-- The fields of a ResponseDelivery that the client reads.
pub record Delivery : Type 0 where
  pub status : String
  pub output_tokens : ℕ
  pub node_id : String

-- `_DeliverySink`. A future is a number, and `futures` holds what was set on it with the time.
pub record DeliverySink : Type 0 where
  pub waiters : Dict String ℕ
  pub futures : ℕ → Option (Delivery × ℕ)
  pub next_future : ℕ

pub new_sink : DeliverySink
new_sink = record { waiters = []; futures = λ _. none; next_future = 0 }

-- `expect`, which returns the future that it registers.
pub expect : DeliverySink → String → DeliverySink × ℕ
expect s req_id = (
  record s { waiters = insert req_id s.next_future s.waiters; next_future = s.next_future + 1 },
  s.next_future,
)

pub forget : DeliverySink → String → DeliverySink
forget s req_id = record s { waiters = remove req_id s.waiters }

-- `fut.set_result(...)`, unless the future is done.
abbrev pub resolve : ℕ → Delivery × ℕ → (ℕ → Option (Delivery × ℕ)) → ℕ → Option (Delivery × ℕ)
resolve i value futures j = elim (futures i) [
  | none ↦ if i == j then some value else futures j
  | some _ ↦ futures j
]

-- `Deliver`
pub take_delivery : DeliverySink → String → Delivery → (recv_ns : ℕ) → DeliverySink
take_delivery s req_id delivery recv_ns = elim (lookup req_id s.waiters) [
  | none ↦ s
  | some i ↦ record s {
    waiters = remove req_id s.waiters;
    futures = resolve i (delivery, recv_ns) s.futures;
  }
]

-- The record that `_fire` returns (C-4).
pub record FireRecord (F : Type 0) : Type 0 where
  pub run_id : String
  pub req_id : String
  pub intended_offset_s : F
  pub actual_send_offset_s : F
  pub send_lag_ms : F
  pub e2e_duration_ns : ℕ
  pub status : String
  pub output_tokens : ℕ
  pub responding_node : String
  pub chosen_node_from_ack : String
  pub dispatch_ack_ns : ℕ

-- What comes of one request, with the readings of the clock at which the code sees it.
pub data Outcome : Type 0 where
  -- `Dispatch` raised; `late` is DEADLINE_EXCEEDED.
  rpc_error : (late : Bool) (now : ℕ) → Outcome
  rejected : (chosen_node : String) (ack_ns now : ℕ) → Outcome
  timed_out : (chosen_node : String) (ack_ns now : ℕ) → Outcome
  answered : (chosen_node : String) (ack_ns : ℕ) → Delivery → (recv_ns : ℕ) → Outcome

module _ (fl : Floats) where
  open fl use {Float, of_nat, add, sub, mul, div, lt, le, round_to}

  -- An integer where the code divides by a float.
  abbrev pub of_int : ℤ → Float
  of_int (pos n) = of_nat n
  of_int (negsuc n) = sub (of_nat 0) (of_nat (n + 1))

  -- The record before the dispatch. The clock does not go back, so the difference to `t0` is not
  -- negative; that to the target may be.
  pub new_record :
      (run_id req_id : String) (intended_offset_s : Float) (t0 target_ns send_ns : ℕ)
      → FireRecord Float
  new_record run_id req_id intended_offset_s t0 target_ns send_ns = record {
    run_id = run_id;
    req_id = req_id;
    intended_offset_s = round_to intended_offset_s 6;
    actual_send_offset_s = round_to (div (of_nat (send_ns - t0)) (of_nat 1_000_000_000)) 6;
    send_lag_ms = round_to (div (of_int (sub_ℕ send_ns target_ns)) (of_nat 1_000_000)) 3;
    e2e_duration_ns = 0;
    status = "engine_error";
    output_tokens = 0;
    responding_node = "";
    chosen_node_from_ack = "";
    dispatch_ack_ns = 0;
  }

  -- The fields that an ack fills.
  abbrev pub with_ack : FireRecord Float → String → (ack_ns send_ns : ℕ) → FireRecord Float
  with_ack r chosen_node ack_ns send_ns = record r {
    dispatch_ack_ns = ack_ns - send_ns;
    chosen_node_from_ack = chosen_node;
  }

  -- `_fire` after `expect`: the record, and the sink once the request is forgotten where it failed.
  pub finish :
      DeliverySink → FireRecord Float → (send_ns : ℕ) → Outcome → DeliverySink × FireRecord Float
  unfolding forget
  finish s r send_ns (rpc_error late now) = (
    forget s r.req_id,
    record r {
      e2e_duration_ns = now - send_ns;
      status = if late then "timeout" else "engine_error";
    },
  )
  finish s r send_ns (rejected chosen_node ack_ns now) = (
    forget s r.req_id,
    record (with_ack r chosen_node ack_ns send_ns) { e2e_duration_ns = now - send_ns },
  )
  finish s r send_ns (timed_out chosen_node ack_ns now) = (
    forget s r.req_id,
    record (with_ack r chosen_node ack_ns send_ns) {
      e2e_duration_ns = now - send_ns;
      status = "timeout";
    },
  )
  finish s r send_ns (answered chosen_node ack_ns delivery recv_ns) = (
    s,
    record (with_ack r chosen_node ack_ns send_ns) {
      e2e_duration_ns = recv_ns - send_ns;
      status = if delivery.status == "" then "ok" else delivery.status;
      output_tokens = delivery.output_tokens;
      responding_node = delivery.node_id;
    },
  )

  -- `max((...), default=0.0)`
  abbrev pub max_from : Float → List Float → Float
  max_from m [] = m
  max_from m (x ∷ xs) = max_from (if lt m x then x else m) xs

  abbrev pub max_of : List Float → Float
  max_of [] = of_nat 0
  max_of (x ∷ xs) = max_from x xs

  abbrev pub lags : List (FireRecord Float) → List Float
  lags [] = []
  lags (r ∷ rs) = r.send_lag_ms ∷ lags rs

  -- `[r for r in records if r["intended_offset_s"] >= warmup_s]`
  abbrev pub windowed : Float → List (FireRecord Float) → List (FireRecord Float)
  windowed warmup_s records = keep (λ r. le warmup_s r.intended_offset_s) records

  -- The validity block at the end of `replay`.
  unfoldable pub measure :
      (warmup_s threshold_ms : Float) → List (FireRecord Float) → Validity Float
  measure warmup_s threshold_ms records = record {
    max_send_lag_ms = max_of (lags (windowed warmup_s records));
    send_lag_violations = count_if (λ r. lt threshold_ms r.send_lag_ms) (windowed warmup_s records);
    dropped_requests = count_if (λ r. not (r.status == "ok")) (windowed warmup_s records);
    heartbeat_gaps = none;
    engine_restarts = 0;
    engine_unchecked = 0;
    colocated_nodes = 0;
    clock_unsynced_hosts = 0;
    worker_log_incomplete = 0;
    unmeasured = [];
  }

  -- `replace(result.validity, ...)` of `post_run_manifest`.
  unfoldable pub post_run_validity :
      Validity Float → List Node → Option (ClockBlock Float) → Validity Float
  unfolding colocated_count unsynced_hosts
  post_run_validity v nodes clock_sync = record v {
    colocated_nodes = colocated_count nodes;
    clock_unsynced_hosts = unsynced_hosts clock_sync;
  }

-- The keys of a pre-run manifest that `check_pre_run` reads.
pub record PreRun : Type 0 where
  pub run_id : Option String
  pub trace_sha256 : Option String
  pub policy : Option String
  pub cost_model_snapshots : List String

-- The ValueErrors of `check_pre_run`.
pub data PreRunError : Type 0 where
  wrong_run_id : Option String → String → PreRunError
  wrong_trace wrong_policy : String → String → PreRunError
  no_snapshots : PreRunError

-- `a and b and b != a` on strings that may be None: which pair disagrees.
abbrev pub disagree : Option String → Option String → Bool
disagree (some asked) (some named) = not (asked == "") && not (named == "") && not (named == asked)
disagree _ _ = false

abbrev pub is_run : Option String → String → Bool
is_run none run_id = false
is_run (some i) run_id = i == run_id

pub check_pre_run :
    PreRun → (run_id : String) (sha256 policy : Option String) → Result PreRunError (Unit {0})
check_pre_run pre run_id sha256 policy = do
  raise_if (not (is_run pre.run_id run_id)) (wrong_run_id pre.run_id run_id)
  raise_if (disagree sha256 pre.trace_sha256)
      (wrong_trace (or_else pre.trace_sha256 "") (or_else sha256 ""))
  raise_if (disagree policy pre.policy) (wrong_policy (or_else pre.policy "") (or_else policy ""))
  raise_if (not (truthy pre.cost_model_snapshots)) no_snapshots
