-- ===== src/Cashflow/Tests/Inflow.antt =====
-- The split of an inflow and its credits at concrete amounts.
use self_spawn_agents.Prelude.{◌≡◌, ◌<◌, ◌*◌, ◌^◌, refl, none, some, arith}
use self_spawn_agents.Prelude.Decimal.{usd, percent_quantized}
use self_spawn_agents.Prelude.Int.{◌+ℤ◌, ◌-ℤ◌, ◌≤ℤ◌, ◌<ℤ◌, magnitude}
use self_spawn_agents.Schemas.Common.{mother}
use self_spawn_agents.Schemas.Samples.{checker, world}
use self_spawn_agents.Schemas.Ledger.{revenue_polar}
use self_spawn_agents.Cashflow.Floors.{growth_cap_from_trailing_revenue}
use self_spawn_agents.Cashflow.Ledger.{sum_rows, snapshot, split_and_record_inflow}
use self_spawn_agents.Cashflow.Split.{split_inflow}
use self_spawn_agents.Cashflow.Split.Laws.{IsWholeSplit, split_fits}
use self_spawn_agents.Cashflow.Inflow.{Fits, Pays}
use self_spawn_agents.Cashflow.Inflow.Totals.{IsWhole, inflow_conserves, inflow_past_growth_cap}
use self_spawn_agents.Cashflow.Tests.{funded}

funded-IsWhole : IsWhole (snapshot world funded) none
unfolding snapshot sum_rows ◌+ℤ◌
funded-IsWhole = record {
  reserve_whole = record { up = refl; down = refl };
  growth_whole = record { up = refl; down = refl };
  limit_whole = tt;
}

hundred-Fits : Fits (usd 100)
hundred-Fits = record { unit = record { up = refl; down = refl }; small = omega arith }

growth_room : (snapshot world funded).growth_usd ≤ℤ growth_cap_from_trailing_revenue (usd 100)
unfolding snapshot sum_rows ◌+ℤ◌ growth_cap_from_trailing_revenue percent_quantized
growth_room = omega arith

inflow_conserves_example : Pays world (usd 100) funded (
    split_and_record_inflow checker world mother (usd 100) revenue_polar none none (usd 100) funded)
inflow_conserves_example =
    inflow_conserves checker world mother (usd 100) revenue_polar none none (usd 100) funded
      hundred-Fits (omega arith) funded-IsWhole tt growth_room

-- With no trailing revenue the cap is 0, and the growth pot holds $15.
growth_past : growth_cap_from_trailing_revenue (usd 0) <ℤ (snapshot world funded).growth_usd
unfolding snapshot sum_rows ◌+ℤ◌ growth_cap_from_trailing_revenue percent_quantized
growth_past = omega arith

rise_small :
    magnitude
      (usd 100 +ℤ ((snapshot world funded).growth_usd -ℤ growth_cap_from_trailing_revenue (usd 0)))
    < 100 * 10 ^ 12
unfolding snapshot sum_rows ◌+ℤ◌ ◌-ℤ◌ growth_cap_from_trailing_revenue percent_quantized
rise_small = omega arith

inflow_past_growth_cap_example :
    Pays world
      (usd 100 +ℤ ((snapshot world funded).growth_usd -ℤ growth_cap_from_trailing_revenue (usd 0)))
      funded
      (split_and_record_inflow checker world mother
        (usd 100)
        revenue_polar
        none
        none
        (usd 0)
        funded)
inflow_past_growth_cap_example =
    inflow_past_growth_cap checker world mother (usd 100) revenue_polar none none (usd 0) funded
      hundred-Fits (omega arith) funded-IsWhole tt growth_past rise_small

capped_split-IsWholeSplit : IsWholeSplit (usd 100) (usd 20) (some (usd 30)) (usd 15) (some (usd 20))
capped_split-IsWholeSplit = record {
  amount_whole = record { up = refl; down = refl };
  reserve_whole = record { up = refl; down = refl };
  reserve_cap_whole = record { up = refl; down = refl };
  growth_whole = record { up = refl; down = refl };
  growth_cap_whole = record { up = refl; down = refl };
}

split_fits_example :
    let s = split_inflow (usd 100) (usd 20) (some (usd 30)) (usd 15) (some (usd 20)) in
    (s.operating +ℤ s.reserve +ℤ s.growth ≡ usd 100)
    × ((usd 20 +ℤ s.reserve ≤ℤ usd 30) × (usd 15 +ℤ s.growth ≤ℤ usd 20))
split_fits_example =
    split_fits (usd 100) (usd 20) (some (usd 30)) (usd 15) (some (usd 20)) capped_split-IsWholeSplit
