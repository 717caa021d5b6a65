-- ===== src/Worker/Heartbeat/Sequence.antt =====
-- Sequence numbers over any run of the emitter's methods.
use llm_sched_study.Base.{
  ℕ, ◌+◌, ◌≤◌, ◌<◌, ◌≡◌, refl, String, Option, none, some, List, [], ◌∷◌, ◌++◌, arith, length,
  length-append, Floats,
}
use llm_sched_study.Worker.Adapter.{LiveState}
use llm_sched_study.Worker.Heartbeat.{
  Heartbeat, HeartbeatEmitter, emitted_keep, push_bounded, start_run, observe_completion,
  set_queue_depth, next, next_heartbeat,
}

-- The numbers rise by one from heartbeat to heartbeat, and the last is `seq`.
abbrev pub CountsUpTo : {F : Type 0} → ℕ → List (Heartbeat F) → Type 0
CountsUpTo seq [] = Unit {0}
CountsUpTo seq (hb ∷ hbs) = (hb.seq + length hbs ≡ seq) × CountsUpTo seq hbs

CountsUpTo-snoc :
    {F : Type 0} (seq : ℕ) (hbs : List (Heartbeat F)) (hb : Heartbeat F)
    → CountsUpTo seq hbs
    → hb.seq ≡ seq + 1
    → CountsUpTo (seq + 1) (hbs ++ hb ∷ [])
CountsUpTo-snoc seq [] hb h e = (omega arith, tt)
CountsUpTo-snoc seq (x ∷ hbs) hb (h, hs) e =
    (omega (arith, length-append {0} hbs (hb ∷ [])), CountsUpTo-snoc seq hbs hb hs e)

push_bounded-CountsUpTo :
    {F : Type 0} (keep seq : ℕ) (hbs : List (Heartbeat F)) (hb : Heartbeat F)
    → 0 < keep
    → CountsUpTo seq hbs × (length hbs ≤ keep)
    → hb.seq ≡ seq + 1
    → CountsUpTo (seq + 1) (push_bounded keep hb hbs) × (length (push_bounded keep hb hbs) ≤ keep)
unfolding push_bounded
push_bounded-CountsUpTo keep seq [] hb k h e = ground arith
push_bounded-CountsUpTo keep seq (x ∷ hbs) hb k h e = ground (
  arith,
  CountsUpTo-snoc seq (x ∷ hbs) hb h.0,
  CountsUpTo-snoc seq hbs hb h.0.1,
  length-append {0} (x ∷ hbs) (hb ∷ []),
  length-append {0} hbs (hb ∷ []),
)

pub record IsSequenced {F : Type 0} (e : HeartbeatEmitter F) : Type 0 where
  pub counted : CountsUpTo e.seq e.emitted
  pub bounded : length e.emitted ≤ emitted_keep

-- A call of one of the emitter's methods.
pub data Call (F : Type 0) : Type 0 where
  start : String → Call F
  observe : Option F → Call F
  depth : ℕ → Call F
  beat : Option (LiveState F) → ℕ → Call F

module _ (fl : Floats) where
  open fl use {Float}

  pub call : HeartbeatEmitter Float → Call Float → HeartbeatEmitter Float
  call e (start run_id) = start_run fl e run_id
  call e (observe rate) = observe_completion fl e rate
  call e (depth d) = set_queue_depth fl e d
  call e (beat state now) = (next fl e state now).0

  abbrev pub is_beat : Call Float → ℕ
  is_beat (beat _ _) = 1
  is_beat _ = 0

  pub calls : HeartbeatEmitter Float → List (Call Float) → HeartbeatEmitter Float
  calls e [] = e
  calls e (c ∷ cs) = calls (call e c) cs

  abbrev pub beats : List (Call Float) → ℕ
  beats [] = 0
  beats (c ∷ cs) = is_beat c + beats cs

  next-IsSequenced :
      (e : HeartbeatEmitter Float) (state : Option (LiveState Float)) (now : ℕ)
      → IsSequenced e
      → IsSequenced (next fl e state now).0
  unfolding next next_heartbeat
  next-IsSequenced e state now h =
      let (counted, bounded) =
        push_bounded-CountsUpTo emitted_keep e.seq e.emitted (next_heartbeat fl e state now)
          (unfold emitted_keep in omega arith) (h.counted, h.bounded) refl in
      record { counted = counted; bounded = bounded }

  call-IsSequenced :
      (e : HeartbeatEmitter Float) (c : Call Float) → IsSequenced e → IsSequenced (call e c)
  unfolding call start_run observe_completion set_queue_depth
  call-IsSequenced e (start run_id) h = record { counted = h.counted; bounded = h.bounded }
  call-IsSequenced e (observe none) h = h
  call-IsSequenced e (observe (some rate)) h = record { counted = h.counted; bounded = h.bounded }
  call-IsSequenced e (depth d) h = record { counted = h.counted; bounded = h.bounded }
  call-IsSequenced e (beat state now) h = next-IsSequenced e state now h

  call-seq : (e : HeartbeatEmitter Float) (c : Call Float) → (call e c).seq ≡ e.seq + is_beat c
  unfolding call start_run observe_completion set_queue_depth next
  call-seq e (start run_id) = omega arith
  call-seq e (observe none) = omega arith
  call-seq e (observe (some rate)) = omega arith
  call-seq e (depth d) = omega arith
  call-seq e (beat state now) = refl

  -- Over any calls, new runs included, the kept heartbeats carry consecutive numbers that end at
  -- `seq`, no more than 3600 of them are kept, and `seq` grows by one for each heartbeat sent.
  pub calls-IsSequenced :
      (e : HeartbeatEmitter Float) (cs : List (Call Float))
      → IsSequenced e
      → IsSequenced (calls e cs) × ((calls e cs).seq ≡ e.seq + beats cs)
  unfolding calls
  calls-IsSequenced e [] h = (h, omega arith)
  calls-IsSequenced e (c ∷ cs) h =
      let (kept, counted) = calls-IsSequenced (call e c) cs (call-IsSequenced e c h) in
      (kept, omega (arith, counted, call-seq e c))
