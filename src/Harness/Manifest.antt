-- ===== src/Harness/Manifest.antt =====
-- harness/manifest.py: the validity block of a run, and what is counted for it.
pub mod Verdicts
pub mod Gaps
mod Tests
use llm_sched_study.Base.{
  ℕ, ◌+◌, Bool, true, false, not, ◌&&◌, String, Option, none, some, List, [], ◌∷◌, ◌++◌, map,
  Result, ok, err, ◌==◌, nat_eq, string_eq, or_else, ltb, if◌then◌else◌, truthy, elem, Dict, insert,
  sum_items, count_if, Floats,
}
use llm_sched_study.Logs.{
  SchedulerRecord, SchedulerBody, HeartbeatSummary, decision, heartbeat_summary, other,
}
use llm_sched_study.Harness.Node.{Node}

-- `dataclass Validity`
pub record Validity (F : Type 0) : Type 0 where
  pub max_send_lag_ms : F
  pub send_lag_violations : ℕ
  pub dropped_requests : ℕ
  pub heartbeat_gaps : Option ℕ
  pub engine_restarts : ℕ
  pub engine_unchecked : ℕ
  pub colocated_nodes : ℕ
  pub clock_unsynced_hosts : ℕ
  pub worker_log_incomplete : ℕ
  pub unmeasured : List String

-- `_UNMEASURED_NOTES["heartbeat_gaps"]`
abbrev pub heartbeat_gaps_note : String
heartbeat_gaps_note =
    "heartbeat_gaps not counted: no heartbeat_summary record from the scheduler, so missed heartbeats are unknown (written as null, not 0)"

-- A sentence of `reasons()`, with the numbers that it quotes.
pub data Reason (F : Type 0) : Type 0 where
  send_lag : ℕ → F → Reason F
  never_returned : ℕ → Reason F
  shared_host : ℕ → Reason F
  restarted : ℕ → Reason F
  unread_engine : ℕ → Reason F
  short_log : ℕ → Reason F

module _ {F : Type 0} where
  unfoldable pub valid : Validity F → Bool
  valid v =
      v.send_lag_violations == 0
      && v.dropped_requests == 0
      && v.colocated_nodes == 0
      && v.engine_restarts == 0
      && v.engine_unchecked == 0
      && v.worker_log_incomplete == 0

  -- `if n: out.append(...)`
  abbrev pub when_counted : ℕ → Reason F → List (Reason F) → List (Reason F)
  when_counted n reason rest = if n == 0 then rest else reason ∷ rest

  pub reasons : Validity F → List (Reason F)
  reasons v =
      when_counted v.send_lag_violations (send_lag v.send_lag_violations v.max_send_lag_ms) (
        when_counted v.dropped_requests (never_returned v.dropped_requests) (
          when_counted v.colocated_nodes (shared_host v.colocated_nodes) (
            when_counted v.engine_restarts (restarted v.engine_restarts) (
              when_counted v.engine_unchecked (unread_engine v.engine_unchecked)
                (when_counted v.worker_log_incomplete (short_log v.worker_log_incomplete) [])))))

  pub unmeasured_fields : Validity F → List String
  unmeasured_fields v = elim v.heartbeat_gaps [
    | some _ ↦ v.unmeasured
    | none ↦
        if elem "heartbeat_gaps" v.unmeasured
        then v.unmeasured
        else v.unmeasured ++ "heartbeat_gaps" ∷ []
  ]

  -- `notes()`: the note of `_UNMEASURED_NOTES`, or one made of the field's name.
  pub notes : (other_note : String → String) → Validity F → List String
  unfolding unmeasured_fields
  notes other_note v =
      map (λ name. if name == "heartbeat_gaps" then heartbeat_gaps_note else other_note name)
        (unmeasured_fields v)

-- The validity block of a manifest: what `to_dict()` writes. `unmeasured` is none if the key is
-- left out.
pub record ValidityBlock (F : Type 0) : Type 0 where
  pub max_send_lag_ms : F
  pub send_lag_violations : ℕ
  pub dropped_requests : ℕ
  pub heartbeat_gaps : Option ℕ
  pub engine_restarts : ℕ
  pub engine_unchecked : ℕ
  pub valid : Bool
  pub colocated_nodes : ℕ
  pub clock_unsynced_hosts : ℕ
  pub worker_log_incomplete : ℕ
  pub unmeasured : Option (List String)

module _ (fl : Floats) where
  open fl use {Float, round_to}

  pub to_dict : Validity Float → ValidityBlock Float
  to_dict v = record {
    max_send_lag_ms = round_to v.max_send_lag_ms 3;
    send_lag_violations = v.send_lag_violations;
    dropped_requests = v.dropped_requests;
    heartbeat_gaps = v.heartbeat_gaps;
    engine_restarts = v.engine_restarts;
    engine_unchecked = v.engine_unchecked;
    valid = valid v;
    colocated_nodes = v.colocated_nodes;
    clock_unsynced_hosts = v.clock_unsynced_hosts;
    worker_log_incomplete = v.worker_log_incomplete;
    unmeasured = if truthy (unmeasured_fields v) then some (unmeasured_fields v) else none;
  }

-- `Validity(**{k: v for k, v in block.items() if k != "valid"})`, as replay.py reads it back.
pub of_block : {F : Type 0} → ValidityBlock F → Validity F
of_block b = record {
  max_send_lag_ms = b.max_send_lag_ms;
  send_lag_violations = b.send_lag_violations;
  dropped_requests = b.dropped_requests;
  heartbeat_gaps = b.heartbeat_gaps;
  engine_restarts = b.engine_restarts;
  engine_unchecked = b.engine_unchecked;
  colocated_nodes = b.colocated_nodes;
  clock_unsynced_hosts = b.clock_unsynced_hosts;
  worker_log_incomplete = b.worker_log_incomplete;
  unmeasured = or_else b.unmeasured [];
}

module _ {F : Type 0} where
  -- The body of the loop of `heartbeat_gaps_from`: `last[r["node_id"]] = r`.
  abbrev pub note_summary :
      Dict String HeartbeatSummary → SchedulerBody F → Dict String HeartbeatSummary
  note_summary last (heartbeat_summary r) = insert r.node_id r last
  note_summary last (decision _) = last
  note_summary last other = last

  pub last_summaries :
      Dict String HeartbeatSummary → List (SchedulerRecord F) → Dict String HeartbeatSummary
  last_summaries last [] = last
  last_summaries last (r ∷ rs) = last_summaries (note_summary last r.body) rs

  pub heartbeat_gaps_from : List (SchedulerRecord F) → Option ℕ
  unfolding last_summaries
  heartbeat_gaps_from records =
      let last = last_summaries [] records in
      if truthy last then some (sum_items (λ _ r. r.missed_beats) last) else none

-- A host's entry of a clock_sync block.
pub record HostEntry (F : Type 0) : Type 0 where
  pub synchronised : Bool
  pub rate_error_ppm : F

pub record ClockBlock (F : Type 0) : Type 0 where
  pub reference : String
  pub hosts : Dict String (HostEntry F)

unfoldable pub unsynced_hosts : {F : Type 0} → Option (ClockBlock F) → ℕ
unsynced_hosts none = 0
unsynced_hosts (some sync) = count_if (λ (h, c). not c.synchronised) sync.hosts
