-- ===== src/Core/Mother.antt =====
-- aae/core/mother_agent.py: the expansion ladder, over the thresholds of
-- aae/config/frozen/expansion_rungs.py.
pub mod Ladder
mod Tests
use self_spawn_agents.Prelude.{
  ℕ, ◌&&◌, Bool, true, false, not, List, [], ◌∷◌, Result, ok, err, key_error, leb, ltb, ◌==◌,
  if◌then◌else◌, Text, length, text_eqb, any,
}
use self_spawn_agents.Prelude.Decimal.{Money, usd}
use self_spawn_agents.Prelude.Int.{leb_ℤ, ltb_ℤ}

pub record RungConfig : Type 0 where
  pub rung : ℕ
  pub min_revenue_usd : Money
  pub min_channels : ℕ
  pub max_children : ℕ

abbrev pub row : ℕ → ℕ → ℕ → ℕ → RungConfig
row n revenue channels children = record {
  rung = n;
  min_revenue_usd = usd revenue;
  min_channels = channels;
  max_children = children;
}

-- In the order of the keys.
abbrev pub rung_thresholds : List RungConfig
rung_thresholds =
    row 1 0 0 1 ∷ row 2 100 1 2 ∷ row 3 500 2 3 ∷ row 4 2000 2 5 ∷ row 5 10000 2 8 ∷ []

find_rung : ℕ → List RungConfig → Result RungConfig
find_rung n [] = err key_error
find_rung n (c ∷ cs) = let rest = find_rung n cs in if c.rung == n then ok c else rest

unfoldable pub as_config : ℕ → Result RungConfig
unfolding find_rung
as_config n = find_rung n rung_thresholds

abbrev pub satisfies : Money → ℕ → RungConfig → Bool
satisfies trailing channels cfg =
    leb_ℤ cfg.min_revenue_usd trailing && leb cfg.min_channels channels

unfoldable pub best_rung : Money → ℕ → ℕ → List RungConfig → ℕ
best_rung trailing channels best [] = best
best_rung trailing channels best (cfg ∷ cfgs) =
    best_rung trailing channels (if satisfies trailing channels cfg then cfg.rung else best) cfgs

unfoldable pub current_rung : Money → ℕ → ℕ
unfolding best_rung
current_rung trailing_30d_revenue_usd live_channel_count =
    best_rung trailing_30d_revenue_usd live_channel_count 1 rung_thresholds

pub data GateReason : Type 0 where
  concentration_rule_halt rung2_requires_100_revenue gate_ok : GateReason
  max_children_reached : ℕ → GateReason

pub record ProposalGate : Type 0 where
  pub allowed : Bool
  pub reason : GateReason
  pub gate_rung : ℕ
  pub gate_max_children : ℕ

abbrev gate : Bool → GateReason → RungConfig → ProposalGate
gate allowed reason cfg = record {
  allowed = allowed;
  reason = reason;
  gate_rung = cfg.rung;
  gate_max_children = cfg.max_children;
}

-- The tests of `can_propose_new`, at the row of the current rung.
unfoldable pub gate_at : Money → ℕ → ℕ → RungConfig → ProposalGate
gate_at trailing channels live_children cfg =
    if leb_ℤ (usd 500) trailing && ltb channels 2
    then gate false concentration_rule_halt cfg
    else if leb cfg.max_children live_children
    then gate false (max_children_reached cfg.max_children) cfg
    else if leb 1 live_children && ltb_ℤ trailing (usd 100)
    then gate false rung2_requires_100_revenue cfg
    else gate true gate_ok cfg

unfoldable pub can_propose_new : Money → ℕ → ℕ → Result ProposalGate
unfolding gate_at
can_propose_new trailing channels live_children =
    elim (as_config (current_rung trailing channels)) [
      | ok cfg ↦ ok (gate_at trailing channels live_children cfg)
      | err x ↦ err x
    ]

unfoldable pub must_use_different_channel : List Text → Text → Bool
must_use_different_channel live_channels proposed_channel =
    if leb 2 (length live_channels)
    then not (any (text_eqb proposed_channel) live_channels)
    else true
