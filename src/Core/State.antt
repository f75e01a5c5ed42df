-- ===== src/Core/State.antt =====
-- aae/core/state.py: the state of the Mother's graph. A key that may be missing is an option.
use self_spawn_agents.Prelude.{ℕ, Bool, Option, List, Text}
use self_spawn_agents.Prelude.Decimal.{Money}
use self_spawn_agents.Schemas.Common.{Uuid}

pub record MotherState : Type 0 where
  pub operating_pot_usd : Money
  pub reserve_pot_usd : Money
  pub growth_pot_usd : Money
  pub trailing_30d_revenue_usd : Money
  pub live_channels : List Text
  pub live_children : ℕ
  pub pending_proposal_id : Option (Option Uuid)
  pub last_ethics_verdict_id : Option (Option Uuid)
  pub awaiting_operator : Option Bool
  pub last_error : Option Text
