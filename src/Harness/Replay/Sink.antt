-- ===== src/Harness/Replay/Sink.antt =====
-- The delivery sink: a response that arrives while its request waits is never lost.
use llm_sched_study.Base.{
  ℕ, ◌≤◌, ◌<◌, ◌≡◌, ◌≢◌, refl, sym, ap, ◌∙◌, subst, inl, inr, String, Option, none, some, List, [],
  ◌∷◌, arith, string_eq, nat_eq, All, lookup, remove, IsDict, lookup-insert, insert-IsDict,
  lookup-remove, remove-IsDict, Option-cases,
}
use llm_sched_study.Harness.Replay.{
  Delivery, DeliverySink, new_sink, expect, forget, resolve, take_delivery,
}

-- What the coroutines of the client do to the sink.
pub data SinkCall : Type 0 where
  expected forgotten : String → SinkCall
  delivered : String → Delivery → (recv_ns : ℕ) → SinkCall

abbrev pub req_of : SinkCall → String
req_of (expected r) = r
req_of (forgotten r) = r
req_of (delivered r d ns) = r

abbrev pub sink_after : DeliverySink → SinkCall → DeliverySink
sink_after s (expected r) = (expect s r).0
sink_after s (forgotten r) = forget s r
sink_after s (delivered r d ns) = take_delivery s r d ns

pub after_calls : DeliverySink → List SinkCall → DeliverySink
after_calls s [] = s
after_calls s (c ∷ cs) = after_calls (sink_after s c) cs

-- Every registered future was made by the sink, and one that was not made holds nothing.
pub record IsSink (s : DeliverySink) : Type 0 where
  pub dict : IsDict s.waiters
  pub made : (r : String) (i : ℕ) → lookup r s.waiters ≡ some i → i < s.next_future
  pub fresh : (i : ℕ) → s.next_future ≤ i → s.futures i ≡ none

resolve-other :
    (i : ℕ) (v : Delivery × ℕ) (futures : ℕ → Option (Delivery × ℕ)) (j : ℕ)
    → i ≢ j
    → resolve i v futures j ≡ futures j
resolve-other i v futures j h = elim (Option-cases (futures i)) [
  | inl e ↦ ground (arith, e, nat_eq.beq_iff i j)
  | inr (u, e) ↦ ground (arith, e)
]

new_sink-IsSink : IsSink new_sink
unfolding new_sink
new_sink-IsSink = record { dict = tt; made = λ r i h. cc; fresh = λ i h. refl }

expect-IsSink : (s : DeliverySink) (r : String) → IsSink s → IsSink (expect s r).0
unfolding expect
expect-IsSink s r h = record {
  dict = insert-IsDict r s.next_future s.waiters h.dict;
  made = λ q i e. ground (arith, lookup-insert r q s.next_future s.waiters, h.made q i, e);
  fresh = λ i le. h.fresh i (omega arith);
}

forget-IsSink : (s : DeliverySink) (r : String) → IsSink s → IsSink (forget s r)
unfolding forget
forget-IsSink s r h = record {
  dict = remove-IsDict r s.waiters h.dict;
  made = λ q i e. ground (arith, lookup-remove r q s.waiters h.dict, h.made q i, e);
  fresh = h.fresh;
}

abbrev popped : DeliverySink → String → ℕ → Delivery × ℕ → DeliverySink
popped s r i value = record s { waiters = remove r s.waiters; futures = resolve i value s.futures }

take_delivery-eq-popped :
    (s : DeliverySink) (r : String) (d : Delivery) (ns i : ℕ)
    → lookup r s.waiters ≡ some i
    → take_delivery s r d ns ≡ popped s r i (d, ns)
unfolding take_delivery
take_delivery-eq-popped s r d ns i e = rw (e, take_delivery) refl

take_delivery-eq-same :
    (s : DeliverySink) (r : String) (d : Delivery) (ns : ℕ)
    → lookup r s.waiters ≡ none
    → take_delivery s r d ns ≡ s
unfolding take_delivery
take_delivery-eq-same s r d ns e = rw (e, take_delivery) refl

take_delivery-IsSink :
    (s : DeliverySink) (r : String) (d : Delivery) (ns : ℕ)
    → IsSink s
    → IsSink (take_delivery s r d ns)
take_delivery-IsSink s r d ns h = elim (Option-cases (lookup r s.waiters)) [
  | inl e ↦ subst IsSink (sym (take_delivery-eq-same s r d ns e)) h
  | inr (i, e) ↦ subst IsSink (sym (take_delivery-eq-popped s r d ns i e)) (record {
    dict = remove-IsDict r s.waiters h.dict;
    made = λ q j e1. ground (arith, lookup-remove r q s.waiters h.dict, h.made q j, e1);
    fresh = λ j le.
        resolve-other i (d, ns) s.futures j (λ same. omega (arith, h.made r i e, same))
        ∙ h.fresh j le;
  })
]

sink_after-IsSink : (s : DeliverySink) (c : SinkCall) → IsSink s → IsSink (sink_after s c)
sink_after-IsSink s (expected r) h = expect-IsSink s r h
sink_after-IsSink s (forgotten r) h = forget-IsSink s r h
sink_after-IsSink s (delivered r d ns) h = take_delivery-IsSink s r d ns h

after_calls-IsSink : (s : DeliverySink) (cs : List SinkCall) → IsSink s → IsSink (after_calls s cs)
unfolding after_calls
after_calls-IsSink s [] h = h
after_calls-IsSink s (c ∷ cs) h = after_calls-IsSink (sink_after s c) cs (sink_after-IsSink s c h)

-- The request `r` waits for the future `f`, which no other request waits for and nobody has set.
pub record IsWaiting (r : String) (f : ℕ) (s : DeliverySink) : Type 0 where
  pub sink : IsSink s
  pub here : lookup r s.waiters ≡ some f
  pub alone : (q : String) → q ≢ r → lookup q s.waiters ≢ some f
  pub unset : s.futures f ≡ none

expect-IsWaiting :
    (s : DeliverySink) (r : String) → IsSink s → IsWaiting r s.next_future (expect s r).0
unfolding expect
expect-IsWaiting s r h = record {
  sink = expect-IsSink s r h;
  here = ground (arith, lookup-insert r r s.next_future s.waiters, string_eq.beq_iff r r);
  alone = λ q other e. ground (
    arith,
    lookup-insert r q s.next_future s.waiters,
    string_eq.beq_iff r q,
    h.made q s.next_future,
    e,
    other,
  );
  unset = h.fresh s.next_future (omega arith);
}

sink_after-IsWaiting :
    (r : String) (f : ℕ) (s : DeliverySink) (c : SinkCall)
    → req_of c ≢ r
    → IsWaiting r f s
    → IsWaiting r f (sink_after s c)
unfolding expect forget
sink_after-IsWaiting r f s (expected q) other w = record {
  sink = expect-IsSink s q w.sink;
  here =
      ground
        (arith, lookup-insert q r s.next_future s.waiters, string_eq.beq_iff q r, w.here, other);
  alone = λ p p_other e. ground (
    arith,
    lookup-insert q p s.next_future s.waiters,
    w.alone p p_other,
    w.sink.made r f w.here,
    e,
  );
  unset = w.unset;
}
sink_after-IsWaiting r f s (forgotten q) other w = record {
  sink = forget-IsSink s q w.sink;
  here =
      ground (arith, lookup-remove q r s.waiters w.sink.dict, string_eq.beq_iff q r, w.here, other);
  alone =
      λ p p_other e. ground (arith, lookup-remove q p s.waiters w.sink.dict, w.alone p p_other, e);
  unset = w.unset;
}
sink_after-IsWaiting r f s (delivered q d ns) other w = elim (Option-cases (lookup q s.waiters)) [
  | inl e ↦ subst (IsWaiting r f) (sym (take_delivery-eq-same s q d ns e)) w
  | inr (i, e) ↦
      let moved : i ≢ f = λ same. w.alone q other (e ∙ ap some same) in
      subst (IsWaiting r f) (sym (take_delivery-eq-popped s q d ns i e)) (record {
        sink =
            subst IsSink (take_delivery-eq-popped s q d ns i e)
              (take_delivery-IsSink s q d ns w.sink);
        here =
            ground (
              arith,
              lookup-remove q r s.waiters w.sink.dict,
              string_eq.beq_iff q r,
              w.here,
              other,
            );
        alone = λ p p_other e1.
            ground (arith, lookup-remove q p s.waiters w.sink.dict, w.alone p p_other, e1);
        unset = resolve-other i (d, ns) s.futures f moved ∙ w.unset;
      })
]

after_calls-IsWaiting :
    (r : String) (f : ℕ) (s : DeliverySink) (cs : List SinkCall)
    → All (λ c. req_of c ≢ r) cs
    → IsWaiting r f s
    → IsWaiting r f (after_calls s cs)
unfolding after_calls
after_calls-IsWaiting r f s [] others w = w
after_calls-IsWaiting r f s (c ∷ cs) (other, others) w =
    after_calls-IsWaiting r f (sink_after s c) cs others (sink_after-IsWaiting r f s c other w)

-- Whatever the sink did before a request was registered, and whatever it does for other requests
-- since, the request's delivery sets the future that was registered for it, with the time of its
-- arrival, sets no other future, and leaves no waiter behind.
pub take_delivery-waiting :
    (before during : List SinkCall) (r : String) (d : Delivery) (recv_ns : ℕ)
    → All (λ c. req_of c ≢ r) during
    → let start = after_calls new_sink before in
      let f = (expect start r).1 in
      let s = after_calls (expect start r).0 during in
      let t = take_delivery s r d recv_ns in
      (t.futures f ≡ some (d, recv_ns))
      × ((j : ℕ) → j ≢ f → t.futures j ≡ s.futures j)
      × (lookup r t.waiters ≡ none)
unfolding expect
take_delivery-waiting before during r d recv_ns others =
    let start = after_calls new_sink before in
    let f = (expect start r).1 in
    let s = after_calls (expect start r).0 during in
    let w : IsWaiting r f s =
      after_calls-IsWaiting r f (expect start r).0 during others
        (expect-IsWaiting start r (after_calls-IsSink new_sink before new_sink-IsSink)) in
    subst
      (λ t.
        (t.futures f ≡ some (d, recv_ns))
        × ((j : ℕ) → j ≢ f → t.futures j ≡ s.futures j)
        × (lookup r t.waiters ≡ none))
      (sym (take_delivery-eq-popped s r d recv_ns f w.here))
      (
        ground (arith, w.unset, nat_eq.beq_iff f f),
        λ j other. resolve-other f (d, recv_ns) s.futures j (λ e. other (sym e)),
        ground (arith, lookup-remove r r s.waiters w.sink.dict, string_eq.beq_iff r r),
      )
