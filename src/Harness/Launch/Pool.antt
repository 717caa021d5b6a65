-- ===== src/Harness/Launch/Pool.antt =====
-- What a pool that `build_nodes` accepts is known to be.
use llm_sched_study.Base.{
  suc, ◌≡◌, ◌≢◌, refl, inl, inr, Bool, true, false, not, ◌&&◌, String, Option, none, some, List, [],
  ◌∷◌, map, arith, Result, ok, ◌>>◌, raise_if, Option-cases, subst, traverse, string_eq, ◌==◌,
  or_else, length, truthy, keep, All, elem, Distinct, ltb, to_set-le_one, no_repeats-Distinct,
  count, count_if, >>=-eq-ok,
}
use llm_sched_study.Harness.Node.{Node, is_pool}
use llm_sched_study.Harness.Launch.{
  LaunchError, Spec, EngineSpec, EngineValue, engine_object, no_container, fields_of,
  is_vllm_in_pool, from_dict, node_ids, duplicates, pool_of, build_nodes, distinct_of, is_mixed,
  colocated_count,
}
use llm_sched_study.Harness.Launch.Colocation.{pool_hosts, colocated_count-zero}

-- What an accepted description says of its node.
abbrev pub IsNodeOf : Spec → Node → Type 0
IsNodeOf d n =
    (n.role ≡ some (or_else d.role "pool"))
    × (d.node_id ≡ some n.node_id)
    × (d.host ≡ some n.host)
    × (d.engine ≡ some n.engine)

fields_of-IsNodeOf : (d : Spec) (ec : EngineSpec) (n : Node) → fields_of d ec ≡ ok n → IsNodeOf d n
unfolding fields_of
fields_of-IsNodeOf d ec n h = ground arith

-- What `build_nodes` relies on for each node that it is given.
abbrev pub IsAccepted : Spec → Node → Type 0
IsAccepted d n = IsNodeOf d n × (is_vllm_in_pool d ≡ false)

IsAccepted-with :
    (d : Spec) (value : EngineValue) (n : Node)
    → d.engine_config ≡ some value
    → from_dict d ≡ ok n
    → IsAccepted d n
unfolding from_dict
IsAccepted-with d (engine_object ec) n found h = ground (arith, fields_of-IsNodeOf d ec n)
IsAccepted-with d no_container n found h = ground arith

from_dict-IsAccepted : (d : Spec) (n : Node) → from_dict d ≡ ok n → IsAccepted d n
unfolding from_dict
from_dict-IsAccepted d n h = elim (Option-cases d.engine_config) [
  | inl absent_config ↦ ground arith
  | inr (value, found) ↦ IsAccepted-with d value n found h
]

role_of_pool :
    (r : Option String)
    → (or_else r "pool" == "pool") ≡ true
    → (or_else r "" == "engine_gap_probe") ≡ false
role_of_pool none h = refl
role_of_pool (some r) h = rw ((string_eq.beq_iff r "pool").0 h)

-- A node that runs vllm is accepted as a probe only.
pub no_vllm : (d : Spec) (n : Node) → IsAccepted d n → is_pool n ≡ true → n.engine ≢ "vllm"
unfolding is_vllm_in_pool
no_vllm d n h pool vllm =
    ground (arith, role_of_pool d.role, string_eq.beq_iff (or_else d.engine "") "vllm")

checks-eq-ok :
    {A : Type 0} (a b c d : Bool) (e₁ e₂ e₃ e₄ : LaunchError) (x y : A)
    → (do raise_if a e₁; raise_if b e₂; raise_if c e₃; raise_if d e₄; ok x) ≡ ok y
    → (a ≡ false) × (b ≡ false) × (c ≡ false) × (d ≡ false) × (x ≡ y)
checks-eq-ok a b c d e₁ e₂ e₃ e₄ x y h = ground arith

module _ {E A B : Type 0} (f : A → Result E B) (P : B → Type 0)
    (each : (a : A) (b : B) → f a ≡ ok b → P b) where
  traverse-ok :
      (xs : List A) (ys : List B) → traverse f xs ≡ ok ys → (length ys ≡ length xs) × All P ys
  traverse-ok [] ys h = ground arith
  traverse-ok (x ∷ xs) ys h =
      let (y, first, h') = >>=-eq-ok (f x) _ h in
      let (zs, rest, last) = >>=-eq-ok (traverse f xs) _ h' in
      let (as_many, all_zs) = traverse-ok xs zs rest in
      let same : y ∷ zs ≡ ys = cc in
      subst (λ (l : List B). (length l ≡ suc (length xs)) × All P l) same
        (omega arith, (each x y first, all_zs))

-- A field with one value over the pool at most.
abbrev pub IsUniform : (Node → String) → List Node → Type 0
IsUniform field nodes =
    (v : String)
    → elem v (map field (pool_of nodes)) ≡ true
    → All (λ w. w ≡ v) (map field (pool_of nodes))

IsUniform-of_set :
    (field : Node → String) (nodes : List Node)
    → ltb 1 (length (distinct_of field nodes)) ≡ false
    → IsUniform field nodes
IsUniform-of_set field nodes h v m = to_set-le_one v (map field (pool_of nodes)) (ground arith) m

pub record IsValidPool (allow : Bool) (specs : List Spec) (nodes : List Node) : Type 0 where
  pub as_many : length nodes ≡ length specs
  pub some_node : nodes ≢ []
  pub distinct_ids : Distinct (node_ids nodes)
  pub one_engine : IsUniform (λ n. n.engine) nodes
  pub one_model : IsUniform (λ n. n.model) nodes
  pub one_quant : IsUniform (λ n. n.quant) nodes
  pub no_vllm_in_pool : All (λ n. is_pool n ≡ true → n.engine ≢ "vllm") nodes
  pub apart : allow ≡ false → Distinct (pool_hosts nodes)

no_keep-count :
    {A : Type 0} (p : A → Bool) (xs : List A) → truthy (keep p xs) ≡ false → count_if p xs ≡ 0
no_keep-count p [] h = refl
no_keep-count p (x ∷ xs) h = ground (arith, no_keep-count p xs)

no_duplicates : (nodes : List Node) → truthy (duplicates nodes) ≡ false → Distinct (node_ids nodes)
no_duplicates nodes h =
    no_repeats-Distinct (node_ids nodes)
      (no_keep-count (λ i. ltb 1 (count i (node_ids nodes))) (node_ids nodes) h)

valid_of_checks :
    (specs : List Spec) (allow : Bool) (nodes : List Node)
    → traverse from_dict specs ≡ ok nodes
    → not (truthy nodes) ≡ false
    → truthy (duplicates nodes) ≡ false
    → is_mixed nodes ≡ false
    → (ltb 0 (colocated_count nodes) && not allow) ≡ false
    → IsValidPool allow specs nodes
valid_of_checks specs allow nodes made some_node ids uniform apart =
    let (as_many, no_vllm_in_pool) =
      traverse-ok from_dict (λ n. is_pool n ≡ true → n.engine ≢ "vllm")
        (λ d n e. no_vllm d n (from_dict-IsAccepted d n e)) specs nodes made in
    record {
      as_many = as_many;
      some_node = λ e. cc (rw e at some_node);
      distinct_ids = no_duplicates nodes ids;
      one_engine = IsUniform-of_set (λ n. n.engine) nodes (ground arith);
      one_model = IsUniform-of_set (λ n. n.model) nodes (ground arith);
      one_quant = IsUniform-of_set (λ n. n.quant) nodes (ground arith);
      no_vllm_in_pool = no_vllm_in_pool;
      apart = λ strict. colocated_count-zero nodes (ground arith);
    }

-- A pool that `build_nodes` accepts has a node for each description, no repeated id, one engine,
-- model and quantisation over its pool members, none of which runs vllm, and, unless co-location
-- is allowed, a host for each of them.
pub build_nodes-IsValidPool :
    (specs : List Spec) (allow : Bool) (nodes : List Node)
    → build_nodes specs allow ≡ ok nodes
    → IsValidPool allow specs nodes
unfolding build_nodes
build_nodes-IsValidPool specs allow nodes h =
    let (ns, made, h') = >>=-eq-ok (traverse from_dict specs) _ h in
    let (some_node, ids, uniform, apart, e) =
      checks-eq-ok (not (truthy ns)) (truthy (duplicates ns)) (is_mixed ns)
        (ltb 0 (colocated_count ns) && not allow) _ _ _ _ ns nodes h' in
    subst (IsValidPool allow specs) e
      (valid_of_checks specs allow ns made some_node ids uniform apart)
