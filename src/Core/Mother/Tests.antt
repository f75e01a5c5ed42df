-- ===== src/Core/Mother/Tests.antt =====
-- The ladder at concrete inputs.
use self_spawn_agents.Prelude.{ℕ, ◌≡◌, ◌≢◌, ◌≤◌, ◌<◌, ◌↔◌, ◌⊎◌, refl, true, false, ok, All, arith}
use self_spawn_agents.Prelude.Decimal.{usd}
use self_spawn_agents.Prelude.Int.{◌≤ℤ◌, ◌<ℤ◌}
use self_spawn_agents.Core.Mother.{
  ProposalGate, rung_thresholds, satisfies, as_config, current_rung, can_propose_new,
  max_children_reached,
}
use self_spawn_agents.Core.Mother.Ladder.{capacity, current_rung_highest, can_propose_new_lem}

-- $600 on two channels is rung 3, and a fourth child waits.
fourth_child_waits :
    can_propose_new (usd 600) 2 3
    ≡ ok (record {
      allowed = false;
      reason = max_children_reached 3;
      gate_rung = 3;
      gate_max_children = 3;
    })
unfolding can_propose_new current_rung as_config
fourth_child_waits = refl

current_rung_highest_example :
    (1 ≤ current_rung (usd 600) 2)
    × (current_rung (usd 600) 2 ≤ 5)
    × All
        (λ cfg. (satisfies (usd 600) 2 cfg ≡ false) ⊎ (cfg.rung ≤ current_rung (usd 600) 2))
        rung_thresholds
    × All
        (λ cfg. (satisfies (usd 600) 2 cfg ≡ true) ⊎ (cfg.rung ≢ current_rung (usd 600) 2))
        rung_thresholds
current_rung_highest_example = current_rung_highest (usd 600) 2 (omega arith)

can_propose_new_lem_example :
    (g : ProposalGate) × (can_propose_new (usd 600) 2 3 ≡ ok g)
    × (g.gate_max_children ≡ capacity (usd 600) 2)
    × ((g.allowed ≡ true) ↔ (
        ((usd 600 <ℤ usd 500) ⊎ (2 ≤ 2))
        × (3 < capacity (usd 600) 2)
        × (◌≡◌ {A = ℕ} 3 0 ⊎ (usd 100 ≤ℤ usd 600))))
can_propose_new_lem_example = can_propose_new_lem (usd 600) 2 3
