-- ===== src/Cashflow/Floors.antt =====
-- aae/cashflow/hard_floors.py and pots.py: the frozen splits, floors and caps.
use self_spawn_agents.Prelude.{ℕ, suc, ◌*◌, Bool, true}
use self_spawn_agents.Prelude.Decimal.{Money, usd, percent_quantized, quantize4}
use self_spawn_agents.Prelude.Int.{pos, negsuc, neg}
use self_spawn_agents.Schemas.Ledger.{Pot, operating, reserve, growth}

-- The splits in hundredths.
abbrev pub operating_split : ℕ
operating_split = 60

abbrev pub reserve_split : ℕ
reserve_split = 25

abbrev pub growth_split : ℕ
growth_split = 15

abbrev pub operating_hard_floor_usd : Money
operating_hard_floor_usd = usd 50

abbrev pub reserve_inviolate : Bool
reserve_inviolate = true

-- In hundredths.
abbrev pub growth_cap_pct_of_90d_revenue : ℕ
growth_cap_pct_of_90d_revenue = 30

pub record PotSnapshot : Type 0 where
  pub operating_usd : Money
  pub reserve_usd : Money
  pub growth_usd : Money

-- `PotSnapshot.get`
abbrev pub get : PotSnapshot → Pot → Money
get s operating = s.operating_usd
get s reserve = s.reserve_usd
get s growth = s.growth_usd

-- `a * n` for a whole number n.
abbrev times : Money → ℕ → Money
times (pos a) n = pos (a * n)
times (negsuc a) n = neg (pos (suc a * n))

unfoldable pub reserve_cap_from_burn : Money → ℕ → Money
reserve_cap_from_burn daily_burn_usd runway_days = quantize4 (times daily_burn_usd runway_days)

unfoldable pub growth_cap_from_trailing_revenue : Money → Money
growth_cap_from_trailing_revenue trailing = percent_quantized trailing growth_cap_pct_of_90d_revenue
