-- ===== src/Harness/Launch/Colocation.antt =====
-- `colocated_count` against its description: the pool nodes that share a host.
use llm_sched_study.Base.{
  ℕ, ◌+◌, ◌≤◌, ◌≡◌, ◌≢◌, ◌↔◌, ◌∙◌, refl, subst, inl, inr, Bool, false, ◌==◌, elem, elem-count, All,
  Bool-cases, String, List, [], ◌∷◌, map, arith, string_eq, or_else, if◌then◌else◌, ltb, count,
  count_if, All-imp, lookup, lookup-insert, sum_items, sum_items-insert, sum_items-congr, IsDict,
  insert-IsDict, IsDict-entries, Dict, Distinct, no_repeats-Distinct,
}
use llm_sched_study.Harness.Node.{Node, is_pool}
use llm_sched_study.Harness.Launch.{tally_host, tally_hosts, colocated_count, pool_of}

-- The hosts of the pool nodes, one for each node.
abbrev pub pool_hosts : List Node → List String
pool_hosts nodes = map (λ n. n.host) (pool_of nodes)

tally_hosts-IsDict : (d : Dict String ℕ) (ns : List Node) → IsDict d → IsDict (tally_hosts d ns)
unfolding tally_hosts
tally_hosts-IsDict d [] h = h
tally_hosts-IsDict d (n ∷ ns) h =
    tally_hosts-IsDict (tally_host d n) ns
      (ground (arith, insert-IsDict n.host (or_else (lookup n.host d) 0 + 1) d h))

lookup-tally_hosts :
    (host : String) (d : Dict String ℕ) (ns : List Node)
    → or_else (lookup host (tally_hosts d ns)) 0
      ≡ or_else (lookup host d) 0 + count host (pool_hosts ns)
unfolding tally_hosts
lookup-tally_hosts host d [] = omega arith
lookup-tally_hosts host d (n ∷ ns) = ground (
  arith,
  lookup-tally_hosts host (tally_host d n) ns,
  lookup-insert n.host host (or_else (lookup n.host d) 0 + 1) d,
  string_eq.beq_iff n.host host,
)

module _ (q : String → Bool) where
  abbrev picked : String → ℕ → ℕ
  picked host c = if q host then c else 0

  sum-tally_hosts :
      (d : Dict String ℕ) (ns : List Node)
      → sum_items picked (tally_hosts d ns) ≡ sum_items picked d + count_if q (pool_hosts ns)
  unfolding tally_hosts
  sum-tally_hosts d [] = omega arith
  sum-tally_hosts d (n ∷ ns) = ground (
    arith,
    sum-tally_hosts (tally_host d n) ns,
    sum_items-insert picked n.host (or_else (lookup n.host d) 0 + 1) d,
  )

-- The count is that of the pool nodes whose host stands more than once among the pool's hosts.
pub colocated_count-eq-shared :
    (nodes : List Node)
    → colocated_count nodes
      ≡ count_if (λ host. ltb 1 (count host (pool_hosts nodes))) (pool_hosts nodes)
unfolding colocated_count
colocated_count-eq-shared nodes =
    let hosts = pool_hosts nodes in
    let table = tally_hosts [] nodes in
    omega (
      arith,
      sum_items-congr (λ host c. if ltb 1 c then c else 0)
          (picked (λ host. ltb 1 (count host hosts))) table
          (All-imp _ _ table
            (λ (host, c) found. ground (arith, lookup-tally_hosts host [] nodes, found))
            (IsDict-entries table (tally_hosts-IsDict [] nodes tt))),
      sum-tally_hosts (λ host. ltb 1 (count host hosts)) [] nodes,
    )

-- Nothing is counted only where the pool nodes stand on hosts of their own.
pub colocated_count-zero :
    (nodes : List Node) → colocated_count nodes ≡ 0 → Distinct (pool_hosts nodes)
colocated_count-zero nodes h =
    no_repeats-Distinct (pool_hosts nodes) (omega (arith, colocated_count-eq-shared nodes, h))

-- A node of the pool, as its role says.
abbrev pub InPool : Node → Type 0
InPool n = or_else n.role "pool" ≡ "pool"

-- No two nodes of the pool are on one host.
abbrev pub HostsApart : List Node → Type 0
HostsApart [] = Unit
HostsApart (n ∷ ns) = (InPool n → All (λ m. InPool m → m.host ≢ n.host) ns) × HostsApart ns

no_more : {A : Type 0} (p : A → Bool) (xs : List A) → All (λ x. p x ≡ false) xs → count_if p xs ≡ 0
no_more p [] h = refl
no_more p (x ∷ xs) (h, hs) = ground (arith, h, no_more p xs hs)

Distinct-once : (a : String) (xs : List String) → Distinct xs → count a xs ≤ 1
Distinct-once a [] h = omega arith
Distinct-once a (x ∷ xs) (new, h) = elim (Bool-cases (x == a)) [
  | inl here ↦
      let absent : count a xs ≡ 0 =
        subst (λ b. count b xs ≡ 0) ((string_eq.beq_iff x a).0 here) (elem-count x xs new) in
      rw here (omega (arith, absent))
  | inr there ↦ rw there (omega (arith, Distinct-once a xs h))
]

Distinct-no_repeats : (xs : List String) → Distinct xs → count_if (λ x. ltb 1 (count x xs)) xs ≡ 0
Distinct-no_repeats xs h =
    no_more (λ x. ltb 1 (count x xs)) xs
      (All-every _ xs (λ x. ground (arith, Distinct-once x xs h)))
  where
    All-every : (P : String → Type 0) (ys : List String) → ((y : String) → P y) → All P ys
    All-every P [] each = tt
    All-every P (y ∷ ys) each = (each y, All-every P ys each)

new_host_iff :
    (host : String) (ns : List Node)
    → (elem host (pool_hosts ns) ≡ false) ↔ All (λ m. InPool m → m.host ≢ host) ns
new_host_iff host [] = (λ _. tt, λ _. refl)
new_host_iff host (m ∷ ns) =
    let rest = new_host_iff host ns in
    let role = string_eq.beq_iff (or_else m.role "pool") "pool" in
    elim (Bool-cases (is_pool m)) [
      | inl pool ↦ rw pool (elim (Bool-cases (m.host == host)) [
        | inl here ↦
            rw here
              (λ h. cc, λ (h, _). absurd (h (role.0 pool) ((string_eq.beq_iff m.host host).0 here)))
        | inr there ↦
            rw there (
              λ h. (λ _ e. cc ((string_eq.beq_iff m.host host).1 e), rest.0 h),
              λ (_, hs). rest.1 hs,
            )
      ])
      | inr other ↦ rw other (λ h. (λ k. cc (role.1 k), rest.0 h), λ (_, hs). rest.1 hs)
    ]

HostsApart-iff : (ns : List Node) → Distinct (pool_hosts ns) ↔ HostsApart ns
HostsApart-iff [] = (λ h. h, λ h. h)
HostsApart-iff (n ∷ ns) =
    let rest = HostsApart-iff ns in
    let new = new_host_iff n.host ns in
    let role = string_eq.beq_iff (or_else n.role "pool") "pool" in
    elim (Bool-cases (is_pool n)) [
      | inl pool ↦
          rw pool
            (λ (h, hs). (λ _. new.0 h, rest.0 hs), λ (h, hs). (new.1 (h (role.0 pool)), rest.1 hs))
      | inr other ↦ rw other (λ h. (λ k. cc (role.1 k), rest.0 h), λ (_, hs). rest.1 hs)
    ]

-- Nothing is counted exactly if no two nodes of the pool are on one host.
pub colocated_count-HostsApart :
    (nodes : List Node) → (colocated_count nodes ≡ 0) ↔ HostsApart nodes
colocated_count-HostsApart nodes = (
  λ h. (HostsApart-iff nodes).0 (colocated_count-zero nodes h),
  λ h.
      colocated_count-eq-shared nodes
      ∙ Distinct-no_repeats (pool_hosts nodes) ((HostsApart-iff nodes).1 h),
)
