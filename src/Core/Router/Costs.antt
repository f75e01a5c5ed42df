-- ===== src/Core/Router/Costs.antt =====
-- Laws of the model router: which model, and what a call is estimated to cost.

use self_spawn_agents.Prelude.{ℕ, ◌+◌, ◌*◌, ◌≤◌, ◌≡◌, ◌≢◌, ◌⊎◌, refl, arith}
use self_spawn_agents.Prelude.Decimal.{Money, round_half_even}
use self_spawn_agents.Prelude.Int.{◌≤ℤ◌, ◌<ℤ◌}
use self_spawn_agents.Schemas.Common.{
  AgentTier, mother, code_builder, ethics_auditor, child, ModelId, opus_47, sonnet_46, haiku_45,
  TaskKind, propose_vertical, debug_child, bulk_classify, generic,
}
use self_spawn_agents.Core.Router.{
  price_in, price_out, operating_low_water_mark_usd, route, route_task, estimate_cost_usd,
}

pub round_half_even_mono : (m n : ℕ) → m ≤ n → round_half_even m 100 ≤ round_half_even n 100
unfolding round_half_even
round_half_even_mono m n h = ground arith

-- A model that is no dearer for a token is no dearer for a call.
pub cost_mono_model :
    (a b : ModelId) (i o : ℕ)
    → price_in a ≤ price_in b
    → price_out a ≤ price_out b
    → estimate_cost_usd a i o ≤ℤ estimate_cost_usd b i o
unfolding estimate_cost_usd
cost_mono_model a b i o h k = omega (
  arith,
  round_half_even_mono (i * price_in a + o * price_out a) (i * price_in b + o * price_out b)
      (grind arith),
)

route_low :
    (tier : AgentTier) (task : TaskKind) (low : Money)
    → (tier ≡ mother) ⊎ (tier ≡ child)
    → low <ℤ operating_low_water_mark_usd
    → route tier task low ≡ haiku_45
unfolding route
route_low mother task low t l = ground arith
route_low child task low t l = ground arith
route_low code_builder task low t l = ground arith
route_low ethics_auditor task low t l = ground arith

route_high :
    (tier : AgentTier) (task : TaskKind) (high : Money)
    → (tier ≡ mother) ⊎ (tier ≡ child)
    → operating_low_water_mark_usd ≤ℤ high
    → route tier task high ≡ route_task task
unfolding route
route_high mother task high t l = ground arith
route_high child task high t l = ground arith
route_high code_builder task high t l = ground arith
route_high ethics_auditor task high t l = ground arith

-- For the Mother and the Children, and every task but bulk classification: the model below the
-- low-water mark is no dearer, for any tokens, than the one above it.
low_water_is_cheaper :
    (tier : AgentTier) (task : TaskKind) (low high : Money) (i o : ℕ)
    → (tier ≡ mother) ⊎ (tier ≡ child)
    → task ≢ bulk_classify
    → low <ℤ operating_low_water_mark_usd
    → operating_low_water_mark_usd ≤ℤ high
    → estimate_cost_usd (route tier task low) i o ≤ℤ estimate_cost_usd (route tier task high) i o
low_water_is_cheaper tier task low high i o t nb l h =
    rw (route_low tier task low t l, route_high tier task high t h) (cheaper task nb)
  where
    cheaper :
        (task : TaskKind)
        → task ≢ bulk_classify
        → estimate_cost_usd haiku_45 i o ≤ℤ estimate_cost_usd (route_task task) i o
    cheaper propose_vertical nb =
        unfold route_task in cost_mono_model haiku_45 opus_47 i o (omega arith) (omega arith)
    cheaper debug_child nb =
        unfold route_task in cost_mono_model haiku_45 opus_47 i o (omega arith) (omega arith)
    cheaper generic nb =
        unfold route_task in cost_mono_model haiku_45 sonnet_46 i o (omega arith) (omega arith)
    cheaper bulk_classify nb = absurd (nb refl)

-- For bulk classification by the Mother or a Child, a call with at least one token is strictly
-- dearer below the low-water mark than above it.
low_water_bulk_is_dearer :
    (tier : AgentTier) (low high : Money) (i o : ℕ)
    → (tier ≡ mother) ⊎ (tier ≡ child)
    → low <ℤ operating_low_water_mark_usd
    → operating_low_water_mark_usd ≤ℤ high
    → 1 ≤ i + o
    → estimate_cost_usd (route tier bulk_classify high) i o
      <ℤ estimate_cost_usd (route tier bulk_classify low) i o
low_water_bulk_is_dearer tier low high i o t l h some_tokens =
    rw (route_low tier bulk_classify low t l, route_high tier bulk_classify high t h)
      (unfold route_task estimate_cost_usd round_half_even in ground arith)
