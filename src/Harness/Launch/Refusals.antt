-- ===== src/Harness/Launch/Refusals.antt =====
-- Why `from_dict` refuses the description of a node.
use mathlib.Core.Bool.{false≢true}
use llm_sched_study.Base.{
  IsAmong, ◌↔◌, sym, ◌≡◌, ◌≢◌, refl, ap, inl, inr, Bool, true, false, not, ◌&&◌, String, Option,
  none, some, List, [], ◌∷◌, arith, err, ◌>>◌, raise_if, Bool-cases, subst, string_eq, ◌==◌,
  or_else, is_some, truthy, All,
}
use llm_sched_study.Harness.Launch.{
  LaunchError, missing_fields, missing_engine_config, vllm_in_pool, spec_keys, engine_keys, Spec,
  EngineSpec, EngineValue, engine_object, no_container, type_error, absent, missing_keys,
  missing_engine_keys, fields_of, is_vllm_in_pool, from_dict,
}

absent-none :
    (keys : List (String × Bool)) → truthy (absent keys) ≡ false → All (λ k. k.1 ≡ true) keys
absent-none [] h = tt
absent-none ((k, b) ∷ keys) h = ground (arith, absent-none keys)

item-some : {A : Type 0} (o : Option A) → is_some o ≡ true → (a : A) × (o ≡ some a)
item-some none h = cc
item-some (some a) h = (a, refl)

-- A description with every key has every field.
fields_of-ne-err :
    (d : Spec) (ec : EngineSpec) (e : LaunchError)
    → All (λ k. k.1 ≡ true) (spec_keys d)
    → All (λ k. k.1 ≡ true) (engine_keys ec)
    → fields_of d ec ≢ err e
unfolding fields_of
fields_of-ne-err d ec e h k = ground arith

IsAmong-absent_iff :
    (k : String) (keys : List (String × Bool))
    → IsAmong k (absent keys) ↔ IsAmong {A = String × Bool} (k, false) keys
IsAmong-absent_iff k [] = (λ m. m, λ m. m)
IsAmong-absent_iff k ((j, true) ∷ keys) =
    let rest = IsAmong-absent_iff k keys in
    (
      λ m. inr (rest.0 m),
      λ m. elim m [ inl e ↦ absurd (false≢true (ap (λ q. q.1) e)) | inr m ↦ rest.1 m ],
    )
IsAmong-absent_iff k ((j, false) ∷ keys) =
    let rest = IsAmong-absent_iff k keys in
    (
      λ m. elim m [ inl e ↦ inl (ap (λ i. (i, false)) e) | inr m ↦ inr (rest.0 m) ],
      λ m. elim m [ inl e ↦ inl (ap (λ q. q.0) e) | inr m ↦ inr (rest.1 m) ],
    )

is_none : {A : Type 0} (o : Option A) → false ≡ is_some o → o ≡ none
is_none none h = refl
is_none (some a) h = cc

at_name :
    {A : Type 0} (P : String → Type 0) (o : Option A) {name k : String}
    → (o ≡ none → P name)
    → ◌≡◌ {A = String × Bool} (k, false) (name, is_some o)
    → P k
at_name P o make e = subst P (sym (ap (λ q. q.0) e)) (make (is_none o (ap (λ q. q.1) e)))

truthy-nonempty : (keys : List String) → truthy keys ≡ true → keys ≢ []
truthy-nonempty keys h e = cc (rw e at h)

-- The keys that are not there.
pub data Lacks (d : Spec) : String → Type 0 where
  no_node_id : d.node_id ≡ none → Lacks d "node_id"
  no_host : d.host ≡ none → Lacks d "host"
  no_engine : d.engine ≡ none → Lacks d "engine"
  no_engine_version : d.engine_version ≡ none → Lacks d "engine_version"
  no_model : d.model ≡ none → Lacks d "model"
  no_quant : d.quant ≡ none → Lacks d "quant"
  no_gpu : d.gpu ≡ none → Lacks d "gpu"
  no_engine_config : d.engine_config ≡ none → Lacks d "engine_config"
  no_prefix_caching : d.prefix_caching ≡ none → Lacks d "prefix_caching"
  no_max_batch : d.max_batch ≡ none → Lacks d "max_batch"

Lacks-iff :
    (d : Spec) (k : String) → IsAmong {A = String × Bool} (k, false) (spec_keys d) ↔ Lacks d k
Lacks-iff d k = (λ m. of_key m, λ lacks. at_key k lacks)
  where
    of_key : IsAmong {A = String × Bool} (k, false) (spec_keys d) → Lacks d k
    of_key (inl e) = at_name (Lacks d) d.node_id no_node_id e
    of_key (inr (inl e)) = at_name (Lacks d) d.host no_host e
    of_key (inr (inr (inl e))) = at_name (Lacks d) d.engine no_engine e
    of_key (inr (inr (inr (inl e)))) = at_name (Lacks d) d.engine_version no_engine_version e
    of_key (inr (inr (inr (inr (inl e))))) = at_name (Lacks d) d.model no_model e
    of_key (inr (inr (inr (inr (inr (inl e)))))) = at_name (Lacks d) d.quant no_quant e
    of_key (inr (inr (inr (inr (inr (inr (inl e))))))) = at_name (Lacks d) d.gpu no_gpu e
    of_key (inr (inr (inr (inr (inr (inr (inr (inl e)))))))) =
        at_name (Lacks d) d.engine_config no_engine_config e
    of_key (inr (inr (inr (inr (inr (inr (inr (inr (inl e))))))))) =
        at_name (Lacks d) d.prefix_caching no_prefix_caching e
    of_key (inr (inr (inr (inr (inr (inr (inr (inr (inr (inl e)))))))))) =
        at_name (Lacks d) d.max_batch no_max_batch e
    of_key (inr (inr (inr (inr (inr (inr (inr (inr (inr (inr m)))))))))) = absurd m

    at_key : (j : String) → Lacks d j → IsAmong {A = String × Bool} (j, false) (spec_keys d)
    at_key _ (no_node_id e) = inl (ap (λ o. ("node_id", is_some o)) (sym e))
    at_key _ (no_host e) = inr (inl (ap (λ o. ("host", is_some o)) (sym e)))
    at_key _ (no_engine e) = inr (inr (inl (ap (λ o. ("engine", is_some o)) (sym e))))
    at_key _ (no_engine_version e) =
        inr (inr (inr (inl (ap (λ o. ("engine_version", is_some o)) (sym e)))))
    at_key _ (no_model e) = inr (inr (inr (inr (inl (ap (λ o. ("model", is_some o)) (sym e))))))
    at_key _ (no_quant e) =
        inr (inr (inr (inr (inr (inl (ap (λ o. ("quant", is_some o)) (sym e)))))))
    at_key _ (no_gpu e) =
        inr (inr (inr (inr (inr (inr (inl (ap (λ o. ("gpu", is_some o)) (sym e))))))))
    at_key _ (no_engine_config e) =
        inr
          (inr (inr (inr (inr (inr (inr (inl (ap (λ o. ("engine_config", is_some o)) (sym e)))))))))
    at_key _ (no_prefix_caching e) = inr (
        inr (
          inr
            (inr (inr (inr (inr (inr (inl (ap (λ o. ("prefix_caching", is_some o)) (sym e))))))))))
    at_key _ (no_max_batch e) = inr (
        inr (
          inr
            (inr (inr (inr (inr (inr (inr (inl (ap (λ o. ("max_batch", is_some o)) (sym e)))))))))))

-- The keys that are not there.
pub data EngineLacks (ec : EngineSpec) : String → Type 0 where
  no_ngl : ec.ngl ≡ none → EngineLacks ec "ngl"
  no_threads : ec.threads ≡ none → EngineLacks ec "threads"
  no_parallel : ec.parallel ≡ none → EngineLacks ec "parallel"

EngineLacks-iff :
    (ec : EngineSpec) (k : String)
    → IsAmong {A = String × Bool} (k, false) (engine_keys ec) ↔ EngineLacks ec k
EngineLacks-iff ec k = (λ m. of_key m, λ lacks. at_key k lacks)
  where
    of_key : IsAmong {A = String × Bool} (k, false) (engine_keys ec) → EngineLacks ec k
    of_key (inl e) = at_name (EngineLacks ec) ec.ngl no_ngl e
    of_key (inr (inl e)) = at_name (EngineLacks ec) ec.threads no_threads e
    of_key (inr (inr (inl e))) = at_name (EngineLacks ec) ec.parallel no_parallel e
    of_key (inr (inr (inr m))) = absurd m

    at_key :
        (j : String) → EngineLacks ec j → IsAmong {A = String × Bool} (j, false) (engine_keys ec)
    at_key _ (no_ngl e) = inl (ap (λ o. ("ngl", is_some o)) (sym e))
    at_key _ (no_threads e) = inr (inl (ap (λ o. ("threads", is_some o)) (sym e)))
    at_key _ (no_parallel e) = inr (inr (inl (ap (λ o. ("parallel", is_some o)) (sym e))))

-- Why `from_dict` may raise.
pub data Refuses (d : Spec) : LaunchError → Type 0 where
  incomplete :
      (keys : List String)
      → keys ≢ []
      → ((k : String) → IsAmong k keys ↔ Lacks d k)
      → Refuses d (missing_fields (or_else d.node_id "?") keys)
  no_condition :
      (ec : EngineSpec) (i : String) (keys : List String)
      → d.node_id ≡ some i
      → d.engine_config ≡ some (engine_object ec)
      → keys ≢ []
      → ((k : String) → IsAmong k keys ↔ EngineLacks ec k)
      → Refuses d (missing_engine_config i keys)
  not_object : d.engine_config ≡ some no_container → Refuses d type_error
  other_engine :
      (i : String)
      → d.node_id ≡ some i
      → d.engine ≡ some "vllm"
      → d.role ≢ some "engine_gap_probe"
      → Refuses d (vllm_in_pool i)

missing_iff : (d : Spec) (k : String) → IsAmong k (absent (spec_keys d)) ↔ Lacks d k
missing_iff d k =
    let table = IsAmong-absent_iff k (spec_keys d) in
    let lacks = Lacks-iff d k in (λ m. lacks.0 (table.0 m), λ l. table.1 (lacks.1 l))

missing_engine_iff :
    (ec : EngineSpec) (k : String) → IsAmong k (absent (engine_keys ec)) ↔ EngineLacks ec k
missing_engine_iff ec k =
    let table = IsAmong-absent_iff k (engine_keys ec) in
    let lacks = EngineLacks-iff ec k in (λ m. lacks.0 (table.0 m), λ l. table.1 (lacks.1 l))

runs_vllm : (o : Option String) → (or_else o "" == "vllm") ≡ true → o ≡ some "vllm"
runs_vllm none h = absurd (ground (arith, h, string_eq.beq_iff "" "vllm"))
runs_vllm (some name) h = ap some ((string_eq.beq_iff name "vllm").0 h)

no_probe :
    (o : Option String) → (or_else o "" == "engine_gap_probe") ≡ false → o ≢ some "engine_gap_probe"
no_probe none h e = cc
no_probe (some role) h e =
    let is : role ≡ "engine_gap_probe" = cc in cc ((string_eq.beq_iff role "engine_gap_probe").1 is)

both_true : (a b : Bool) → (a && not b) ≡ true → (a ≡ true) × (b ≡ false)
both_true a b h = ground arith

vllm-IsPool :
    (d : Spec)
    → is_vllm_in_pool d ≡ true
    → (d.engine ≡ some "vllm") × (d.role ≢ some "engine_gap_probe")
unfolding is_vllm_in_pool
vllm-IsPool d h =
    let (runs, other) = both_true _ _ h in (runs_vllm d.engine runs, no_probe d.role other)

checked-Refuses :
    (d : Spec) (ec : EngineSpec) (i : String) (e : LaunchError)
    → d.node_id ≡ some i
    → d.engine_config ≡ some (engine_object ec)
    → truthy (missing_keys d) ≡ false
    → (do
      raise_if (truthy (missing_engine_keys ec)) (missing_engine_config i (missing_engine_keys ec))
      raise_if (is_vllm_in_pool d) (vllm_in_pool i)
      fields_of d ec)
      ≡ err e
    → Refuses d e
unfolding missing_keys missing_engine_keys
checked-Refuses d ec i e named found all_keys h =
    elim (Bool-cases (truthy (missing_engine_keys ec))) [
      | inl short ↦ subst (Refuses d) (cc (rw short at h)) (
          no_condition ec i (absent (engine_keys ec)) named found (truthy-nonempty _ short)
            (missing_engine_iff ec))
      | inr full ↦ elim (Bool-cases (is_vllm_in_pool d)) [
        | inl vllm ↦
            let (runs, other) = vllm-IsPool d vllm in
            subst (Refuses d) (cc (rw (full, vllm) at h)) (other_engine i named runs other)
        | inr llama ↦ absurd (
            fields_of-ne-err d ec e (absent-none (spec_keys d) all_keys)
              (absent-none (engine_keys ec) full) (rw (full, llama) at h))
      ]
    ]

named-Refuses :
    (d : Spec) (ec : EngineSpec) (i : String) (e : LaunchError)
    → d.node_id ≡ some i
    → d.engine_config ≡ some (engine_object ec)
    → truthy (missing_keys d) ≡ false
    → from_dict d ≡ err e
    → Refuses d e
unfolding from_dict
named-Refuses d ec i e named found full h =
    checked-Refuses d ec i e named found full (simp (full, found, named) at h)

with_value :
    (d : Spec) (value : EngineValue) (i : String) (e : LaunchError)
    → d.node_id ≡ some i
    → d.engine_config ≡ some value
    → truthy (missing_keys d) ≡ false
    → from_dict d ≡ err e
    → Refuses d e
unfolding from_dict
with_value d (engine_object ec) i e named found full h = named-Refuses d ec i e named found full h
with_value d no_container i e named found full h =
    subst (Refuses d) (cc (rw (full, found) at h)) (not_object found)

-- `from_dict` raises for one of four reasons only, never a KeyError: keys of the node are missing; its
-- `engine_config` is null, a number or a Boolean; keys of the `engine_config` are missing; or the
-- engine is vllm and the role is not that of the probe. For missing keys the exception names exactly
-- these. In the last two cases it names the node by its `node_id`, in the first by this or as `?`
-- where there is none.
pub from_dict-Refuses : (d : Spec) (e : LaunchError) → from_dict d ≡ err e → Refuses d e
unfolding from_dict missing_keys
from_dict-Refuses d e h = elim (Bool-cases (truthy (missing_keys d))) [
  | inl short ↦
      subst (Refuses d) (cc (rw short at h))
        (incomplete (absent (spec_keys d)) (truthy-nonempty _ short) (missing_iff d))
  | inr full ↦
      let here = absent-none (spec_keys d) full in
      let (i, named) = item-some d.node_id here.0 in
      let (value, found) = item-some d.engine_config here.1.1.1.1.1.1.1.0 in
      with_value d value i e named found full h
]
