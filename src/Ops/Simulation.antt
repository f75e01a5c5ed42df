-- ===== src/Ops/Simulation.antt =====
-- aae/ops/simulation_mode.py over the fake clock of aae/core/clock.py.
use self_spawn_agents.Prelude.{ℕ, suc, ◌+◌, ◌*◌, ◌/◌}
use self_spawn_agents.Prelude.Decimal.{Money}
use self_spawn_agents.Prelude.Int.{pos, ◌+ℤ◌, ◌-ℤ◌}
use self_spawn_agents.Schemas.Common.{Time}

pub record FakeClock : Type 0 where
  pub current : Time

abbrev pub now : FakeClock → Time
now c = c.current

abbrev pub advance : ℕ → FakeClock → FakeClock
advance delta c = record { current = c.current + delta }

pub record SimulationHarness : Type 0 where
  pub clock : FakeClock
  pub days_elapsed : ℕ
  pub revenue_total_usd : Money
  pub cost_total_usd : Money

-- A day in microseconds.
abbrev pub one_day : ℕ
one_day = 86400 * 1000000

abbrev pub advance_day : SimulationHarness → SimulationHarness
advance_day s = record s { clock = advance one_day s.clock; days_elapsed = suc s.days_elapsed }

abbrev pub add_revenue : Money → SimulationHarness → SimulationHarness
add_revenue amount s = record s { revenue_total_usd = s.revenue_total_usd +ℤ amount }

abbrev pub add_cost : Money → SimulationHarness → SimulationHarness
add_cost amount s = record s { cost_total_usd = s.cost_total_usd +ℤ amount }

unfoldable pub margin_usd : SimulationHarness → Money
margin_usd s = s.revenue_total_usd -ℤ s.cost_total_usd

abbrev sim_days : ℕ
sim_days = 14

abbrev sim_wallclock_minutes : ℕ
sim_wallclock_minutes = 90

-- `SimulationHarness.tick`: the simulated microseconds of one real second.
unfoldable pub tick : ℕ
tick = sim_days * one_day / (sim_wallclock_minutes * 60)

-- `SimulationHarness(clock=FakeClock(start))`
unfoldable pub new_harness : Time → SimulationHarness
new_harness start = record {
  clock = record { current = start };
  days_elapsed = 0;
  revenue_total_usd = pos 0;
  cost_total_usd = pos 0;
}
