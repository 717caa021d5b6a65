-- ===== src/Tools/HwRuns/Checks/Tests.antt =====
-- The checks at a campaign that passes them.
use llm_sched_study.Base.{false, ◌≡◌, refl, ok, str}
use llm_sched_study.Harness.Launch.{
  build_nodes, from_dict, missing_keys, missing_engine_keys, is_vllm_in_pool, fields_of,
  colocated_count, tally_hosts,
}
use llm_sched_study.Tools.HwRuns.Samples.{campaign, index}
use llm_sched_study.Tools.HwRuns.Checks.{check_campaign}
use llm_sched_study.Tools.HwRuns.Checks.Admits.{Admitted, check_campaign_iff}

passes : check_campaign campaign index false false ≡ ok tt
unfolding check_campaign build_nodes from_dict missing_keys missing_engine_keys is_vllm_in_pool
    fields_of colocated_count tally_hosts str
passes = refl

check_campaign_iff_example : Admitted campaign index false false
check_campaign_iff_example = (check_campaign_iff campaign index false false).0 passes
