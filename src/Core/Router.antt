-- ===== src/Core/Router.antt =====
-- aae/core/model_router.py over the tables of aae/config/frozen/model_routing.py.
pub mod Costs
use self_spawn_agents.Prelude.{ℕ, ◌+◌, ◌*◌, if◌then◌else◌}
use self_spawn_agents.Prelude.Decimal.{Money, usd, round_half_even}
use self_spawn_agents.Prelude.Int.{pos, ltb_ℤ}
use self_spawn_agents.Schemas.Common.{
  AgentTier, mother, code_builder, ethics_auditor, child, ModelId, opus_47, sonnet_46, haiku_45,
  gemini_flash_lite_25, TaskKind, propose_vertical, debug_child, bulk_classify, generic,
}

-- Prices in cents for a million tokens.
abbrev pub price_in : ModelId → ℕ
price_in opus_47 = 500
price_in sonnet_46 = 300
price_in haiku_45 = 100
price_in gemini_flash_lite_25 = 10

abbrev pub price_out : ModelId → ℕ
price_out opus_47 = 2500
price_out sonnet_46 = 1500
price_out haiku_45 = 500
price_out gemini_flash_lite_25 = 40

abbrev pub operating_low_water_mark_usd : Money
operating_low_water_mark_usd = usd 100

-- The tests of `route` on the task, for a pot above the low-water mark.
unfoldable pub route_task : TaskKind → ModelId
route_task propose_vertical = opus_47
route_task debug_child = opus_47
route_task bulk_classify = gemini_flash_lite_25
route_task generic = sonnet_46

unfoldable pub route : AgentTier → TaskKind → Money → ModelId
unfolding route_task
route ethics_auditor task operating = opus_47
route code_builder task operating = haiku_45
route mother task operating =
    if ltb_ℤ operating operating_low_water_mark_usd then haiku_45 else route_task task
route child task operating =
    if ltb_ℤ operating operating_low_water_mark_usd then haiku_45 else route_task task

-- In micro-dollars: tokens times cents for a million tokens is hundredths of a micro-dollar.
unfoldable pub estimate_cost_usd : ModelId → ℕ → ℕ → Money
unfolding round_half_even
estimate_cost_usd model tokens_in tokens_out =
    pos (round_half_even (tokens_in * price_in model + tokens_out * price_out model) 100)
