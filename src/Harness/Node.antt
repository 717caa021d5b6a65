-- ===== src/Harness/Node.antt =====
-- A node block (C-6): what the launcher writes into a manifest and the other parts read.
use llm_sched_study.Base.{ℕ, Bool, String, Option, ◌==◌, string_eq, or_else}

pub record EngineConfig : Type 0 where
  pub ngl : ℕ
  pub threads : ℕ
  pub parallel : ℕ

pub record Node : Type 0 where
  pub node_id : String
  pub host : String
  pub engine : String
  pub engine_version : String
  pub model : String
  pub quant : String
  pub gpu : String
  pub engine_config : EngineConfig
  pub prefix_caching : Bool
  pub max_batch : ℕ
  pub role : Option String

-- `n.get("role", "pool") == "pool"`
abbrev pub is_pool : Node → Bool
is_pool n = or_else n.role "pool" == "pool"
