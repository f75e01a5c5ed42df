-- ===== src/Schemas/Ledger.antt =====
-- aae/schemas/cashflow.py: pots, sources and entries, and the row of aae/db/models.py that an
-- entry is stored as.
use self_spawn_agents.Prelude.{Bool, true, false, Option, Text, ◌&&◌}
use self_spawn_agents.Prelude.Decimal.{Money}
use self_spawn_agents.Schemas.Common.{AgentTier, Time, Uuid, Pydantic}

pub data Pot : Type 0 where
  operating reserve growth : Pot

pub data CashflowSource : Type 0 where
  revenue_polar revenue_lemonsqueezy revenue_stripe : CashflowSource
  cost_anthropic cost_google cost_infra cost_domain : CashflowSource
  transfer_operating_to_reserve transfer_operating_to_growth : CashflowSource
  transfer_growth_to_operating manual_topup : CashflowSource
  emergency_transfer_reserve_to_operating : CashflowSource

-- `source == "emergency_transfer_reserve_to_operating"`
abbrev pub is_emergency : CashflowSource → Bool
is_emergency emergency_transfer_reserve_to_operating = true
is_emergency _ = false

pub record CashflowEntry : Type 0 where
  pub id : Uuid
  pub ts : Time
  pub pot : Pot
  pub delta : Money
  pub source : CashflowSource
  pub ref_id : Option Text
  pub note : Text

pub record PotBalances : Type 0 where
  pub operating : Money
  pub reserve : Money
  pub growth : Money
  pub as_of : Time

-- A row of the table `cashflow_ledger`.
pub record CashflowLedger : Type 0 where
  pub entry : CashflowEntry
  pub written_by : AgentTier

-- The field checks of `CashflowEntry`.
abbrev pub entry_fits : Pydantic → Money → Text → Bool
entry_fits py delta note = py.decimal_12_4 delta && py.max_length 512 note
