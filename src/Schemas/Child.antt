-- ===== src/Schemas/Child.antt =====
-- aae/schemas/child.py and the kill criteria of aae/schemas/vertical.py.
use self_spawn_agents.Prelude.{ℕ, Bool, Option, Text}
use self_spawn_agents.Prelude.Decimal.{Money}
use self_spawn_agents.Schemas.Common.{Uuid, Time}

pub data ChildStatus : Type 0 where
  starting live paused killed archived : ChildStatus

pub record ChildRun : Type 0 where
  pub id : Uuid
  pub vertical_id : Uuid
  pub preregistration_id : Uuid
  pub spawned_at : Time
  pub status : ChildStatus
  pub monthly_budget_usd : Money
  pub spent_mtd_usd : Money
  pub revenue_mtd_usd : Money
  pub last_heartbeat : Time
  pub last_error : Option Text

pub record KillCriteria : Type 0 where
  pub max_days_to_first_dollar : ℕ
  pub min_revenue_by_day_30_usd : Money
  pub max_burn_before_first_dollar_usd : Money
  pub auto_kill_on_breach : Bool
