-- ===== src/Worker/Heartbeat.antt =====
-- worker/heartbeat.py: the emitter of one node's heartbeats.
pub mod Sequence
use llm_sched_study.Base.{
  ℕ, suc, ◌+◌, Bool, true, false, String, Option, none, some, or_else, List, [], ◌∷◌, ◌++◌, ltb,
  if◌then◌else◌, length, Floats,
}
use llm_sched_study.Worker.Adapter.{EngineState, ready, LiveState}

pub record Heartbeat (F : Type 0) : Type 0 where
  pub run_id : String
  pub node_id : String
  pub seq : ℕ
  pub queue_depth : ℕ
  pub inflight_count : ℕ
  pub recent_tokens_per_s : F
  pub kv_occupancy_frac : F
  pub worker_mono_ns : ℕ
  pub engine_state : EngineState

-- `EMITTED_KEEP`
unfoldable pub emitted_keep : ℕ
emitted_keep = 3600

-- `deque(maxlen=keep).append(x)`: the oldest entry is dropped when there is no room.
unfoldable pub push_bounded : {A : Type 0} → ℕ → A → List A → List A
push_bounded keep x [] = if ltb 0 keep then x ∷ [] else []
push_bounded keep x (y ∷ ys) =
    if ltb (length (y ∷ ys)) keep then (y ∷ ys) ++ x ∷ [] else ys ++ x ∷ []

pub record HeartbeatEmitter (F : Type 0) : Type 0 where
  pub run_id : String
  pub node_id : String
  pub seq : ℕ
  pub tok_s : F
  pub queue_depth : ℕ
  pub emitted : List (Heartbeat F)

module _ (fl : Floats) where
  open fl use {Float, of_nat, minus_one, decimal, add, sub, mul, feq}

  -- `HeartbeatEmitter(run_id=..., node_id=...)`
  unfoldable pub new_emitter : String → String → HeartbeatEmitter Float
  new_emitter run_id node_id = record {
    run_id = run_id;
    node_id = node_id;
    seq = 0;
    tok_s = of_nat 0;
    queue_depth = 0;
    emitted = [];
  }

  unfoldable pub start_run : HeartbeatEmitter Float → String → HeartbeatEmitter Float
  start_run e run_id = record e { run_id = run_id; tok_s = of_nat 0; queue_depth = 0 }

  -- `_EWMA_ALPHA`
  abbrev pub ewma_alpha : Float
  ewma_alpha = decimal 3 1

  unfoldable pub observe_completion : HeartbeatEmitter Float → Option Float → HeartbeatEmitter Float
  observe_completion e none = e
  observe_completion e (some rate) = record e {
    tok_s =
        if feq e.tok_s (of_nat 0)
        then rate
        else add (mul ewma_alpha rate) (mul (sub (of_nat 1) ewma_alpha) e.tok_s);
  }

  unfoldable pub set_queue_depth : HeartbeatEmitter Float → ℕ → HeartbeatEmitter Float
  set_queue_depth e depth = record e { queue_depth = depth }

  -- `LiveState(kv_frac=-1.0, state="ready")`
  abbrev pub unknown_state : LiveState Float
  unknown_state = record {
    inflight = 0;
    slots_total = 0;
    kv_frac = minus_one;
    queue_depth = 0;
    recent_tok_s = of_nat 0;
    state = ready;
  }

  -- `heartbeat_payload`, with the time of the clock read as an argument.
  unfoldable pub heartbeat_payload :
      String → String → ℕ → LiveState Float → Float → (mono_ns : ℕ) → Heartbeat Float
  heartbeat_payload run_id node_id seq state rate mono_ns = record {
    run_id = run_id;
    node_id = node_id;
    seq = seq;
    queue_depth = state.queue_depth;
    inflight_count = state.inflight;
    recent_tokens_per_s = rate;
    kv_occupancy_frac = state.kv_frac;
    worker_mono_ns = mono_ns;
    engine_state = state.state;
  }

  -- The heartbeat that `next` builds: the state's own queue depth and rate are replaced.
  unfoldable pub next_heartbeat :
      HeartbeatEmitter Float → Option (LiveState Float) → (mono_ns : ℕ) → Heartbeat Float
  unfolding heartbeat_payload
  next_heartbeat e state mono_ns =
      let now : LiveState Float = or_else state unknown_state in
      heartbeat_payload e.run_id e.node_id (e.seq + 1)
        (record now { queue_depth = e.queue_depth; recent_tok_s = e.tok_s }) e.tok_s mono_ns

  unfoldable pub next :
      HeartbeatEmitter Float
      → Option (LiveState Float)
      → (mono_ns : ℕ) → HeartbeatEmitter Float × Heartbeat Float
  unfolding next_heartbeat push_bounded emitted_keep
  next e state mono_ns =
      let hb = next_heartbeat e state mono_ns in
      (record e { seq = e.seq + 1; emitted = push_bounded emitted_keep hb e.emitted }, hb)
