-- ===== src/Tools/HwRuns/Checks/Admits.antt =====
-- The campaigns that `check_campaign` lets through.
use llm_sched_study.Base.{
  ◌≡◌, refl, ◌↔◌, Bool, true, String, List, string_eq, All, truthy, elem, to_set, sort_by, Dict,
  Result, ok, err, raise_if->>-iff, >>-iff,
}
use llm_sched_study.Harness.Launch.{LaunchError, build_nodes}
use llm_sched_study.Harness.Node.{Node}
use llm_sched_study.Tools.PoolLoad.{CostModel}
use llm_sched_study.Tools.HwRuns.{Campaign, all_policies, unknown_policies}
use llm_sched_study.Tools.HwRuns.Checks.{
  check_nodes, raised, pool_specs, policies_unknown, check_seeds, check_arms, check_ect_modes,
  check_names, check_pool, check_campaign,
}
use llm_sched_study.Tools.HwRuns.Checks.Seeds.{SeedsStated, check_seeds_iff}
use llm_sched_study.Tools.HwRuns.Checks.Modes.{
  ArmStated, ModesStated, keep_none_iff, check_arms_iff, check_ect_modes_iff,
}
use llm_sched_study.Tools.HwRuns.Checks.Pool.{
  NamesStated, NodeReady, check_names_iff, check_pool_iff,
}

raised_iff :
    (r : Result LaunchError (List Node))
    → (raised r ≡ ok tt) ↔ ((nodes : List Node) × (r ≡ ok nodes))
raised_iff (ok nodes) = (λ _. (nodes, refl), λ _. refl)
raised_iff (err e) = (λ h. cc, λ (nodes, h). cc)

module _ {F : Type 0} where
  -- What a campaign has to be before a run of it is made.
  pub record Admitted (c : Campaign F) (index : Dict String (CostModel F))
      (allow_colocation allow_placeholder : Bool) : Type 0 where
    pub pool : (nodes : List Node) × (build_nodes c.nodes allow_colocation ≡ ok nodes)
    pub policies : All (λ p. elem p all_policies ≡ true) c.policies
    pub seeds : SeedsStated c
    pub arms : All (ArmStated c) c.arms
    pub modes : ModesStated c
    pub names : NamesStated c
    pub ready : All (NodeReady c index allow_placeholder) (pool_specs c.nodes)

  -- A campaign passes its checks exactly if its nodes make a pool, its policies are known, it states
  -- its repeats and seeds, its arms set known keys and name its policies, each arm that runs ECT has
  -- a mode for it, names tell its arms and its workloads apart, it has an address to deliver to, and
  -- each node of the pool has a worker with an endpoint and a log, and a snapshot that is the newest
  -- of its class and fits its engine, or in a dry run the note that stands for one.
  pub check_campaign_iff :
      (c : Campaign F) (index : Dict String (CostModel F))
      (allow_colocation allow_placeholder : Bool)
      → (check_campaign c index allow_colocation allow_placeholder ≡ ok tt)
        ↔ Admitted c index allow_colocation allow_placeholder
  unfolding check_campaign
  check_campaign_iff c index allow_colocation allow_placeholder =
      let known = keep_none_iff (λ p. elem p all_policies) c.policies in
      (
        λ h.
            let (a, h1) = (>>-iff (check_nodes c.nodes allow_colocation) _).0 h in
            let (b, h2) =
              (raise_if->>-iff (truthy (policies_unknown c))
                  (unknown_policies (sort_by (λ p. p) (to_set (policies_unknown c)))) _).0
                h1 in
            let (d, h3) = (>>-iff (check_seeds c) _).0 h2 in
            let (e, h4) = (>>-iff (check_arms c c.arms) _).0 h3 in
            let (f, h5) = (>>-iff (check_ect_modes c) _).0 h4 in
            let (g, h6) =
              (>>-iff (check_names c) (check_pool c index allow_placeholder (pool_specs c.nodes))).0
                h5 in
            record {
              pool = (raised_iff (build_nodes c.nodes allow_colocation)).0 a;
              policies = known.0 b;
              seeds = (check_seeds_iff c).0 d;
              arms = (check_arms_iff c c.arms).0 e;
              modes = (check_ect_modes_iff c).0 f;
              names = (check_names_iff c).0 g;
              ready = (check_pool_iff c index allow_placeholder (pool_specs c.nodes)).0 h6;
            },
        λ r. (>>-iff (check_nodes c.nodes allow_colocation) _).1 (
          (raised_iff _).1 r.pool,
          (raise_if->>-iff _ _ _).1 (
            known.1 r.policies,
            (>>-iff _ _).1 (
              (check_seeds_iff c).1 r.seeds,
              (>>-iff _ _).1 (
                (check_arms_iff c c.arms).1 r.arms,
                (>>-iff _ _).1 (
                  (check_ect_modes_iff c).1 r.modes,
                  (>>-iff _ _).1 (
                    (check_names_iff c).1 r.names,
                    (check_pool_iff c index allow_placeholder (pool_specs c.nodes)).1 r.ready,
                  ),
                ),
              ),
            ),
          ),
        ),
      )
