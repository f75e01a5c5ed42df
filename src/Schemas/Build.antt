-- ===== src/Schemas/Build.antt =====
-- aae/schemas/build.py, the requests and the artifacts.
use self_spawn_agents.Prelude.{ℕ, ◌*◌, ◌^◌, Bool, Option, List, Text}
use self_spawn_agents.Schemas.Common.{Uuid, Time, AgentTier}

pub data RiskTier : Type 0 where
  low medium high : RiskTier

pub record BuildRequest : Type 0 where
  pub id : Uuid
  pub requested_by : AgentTier
  pub purpose : Text
  pub tool_name : Text
  pub input_schema_json : Text
  pub output_schema_json : Text
  pub network_required : Bool
  pub allowed_domains : List Text
  pub risk_tier : RiskTier
  pub max_wall_seconds : ℕ
  pub created_at : Time

-- `coverage_pct` counts multiples of 2 ^ -1074, of which every finite float of Python is one.
pub record ToolArtifact : Type 0 where
  pub id : Uuid
  pub build_request_id : Uuid
  pub sha256 : Text
  pub code_path : Text
  pub test_path : Text
  pub passed_tests : List Text
  pub coverage_pct : ℕ
  pub signed_at : Time
  pub ethics_verdict_id : Option Uuid

-- 100.0, the most that `coverage_pct` may be.
abbrev pub full_coverage : ℕ
full_coverage = 100 * 2 ^ 1074
