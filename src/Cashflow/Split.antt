-- ===== src/Cashflow/Split.antt =====
-- `split_inflow` of aae/cashflow/ledger.py: the 60/25/15 split of an inflow, and its laws.
pub mod Laws
use self_spawn_agents.Prelude.{Option, none, some, if◌then◌else◌}
use self_spawn_agents.Prelude.Decimal.{Money, percent_quantized, quantize4}
use self_spawn_agents.Prelude.Int.{pos, ◌+ℤ◌, ◌-ℤ◌, ltb_ℤ}
use self_spawn_agents.Cashflow.Floors.{operating_split, reserve_split, growth_split}

pub record InflowSplit : Type 0 where
  pub operating : Money
  pub reserve : Money
  pub growth : Money

-- By how much a share would bring a pot past its cap; 0 where there is no cap or it holds.
unfoldable pub overflow : Money → Option Money → Money → Money
overflow current none share = pos 0
overflow current (some cap) share =
    if ltb_ℤ cap (current +ℤ share) then current +ℤ share -ℤ cap else pos 0

unfoldable pub split_inflow : Money → Money → Option Money → Money → Option Money → InflowSplit
split_inflow amount_usd current_reserve reserve_cap current_growth growth_cap =
    let op_amt = percent_quantized amount_usd operating_split in
    let res_amt = percent_quantized amount_usd reserve_split in
    let gr_amt = percent_quantized amount_usd growth_split in
    let residue = amount_usd -ℤ (op_amt +ℤ res_amt +ℤ gr_amt) in
    let over_reserve = overflow current_reserve reserve_cap res_amt in
    let over_growth = overflow current_growth growth_cap gr_amt in
    record {
      operating = quantize4 (op_amt +ℤ residue +ℤ over_reserve +ℤ over_growth);
      reserve = quantize4 (res_amt -ℤ over_reserve);
      growth = quantize4 (gr_amt -ℤ over_growth);
    }
