-- ===== src/Core/Mother/Ladder.antt =====
-- Laws of the expansion ladder.
use self_spawn_agents.Prelude.{
  ℕ, zero, suc, ◌∙◌, ◌≤◌, ◌<◌, ◌≡◌, ◌≢◌, ◌&&◌, ◌↔◌, ◌⊎◌, refl, true, false, ok, arith, All, leb,
  if◌then◌else◌,
}
use self_spawn_agents.Prelude.Decimal.{Money, usd}
use self_spawn_agents.Prelude.Int.{pos, ◌≤ℤ◌, ◌<ℤ◌, leb_ℤ}
use self_spawn_agents.Core.Mother.{
  RungConfig, row, rung_thresholds, satisfies, as_config, current_rung, ProposalGate, gate_at,
  can_propose_new,
}

-- The highest rung, stated by its thresholds: the children that a revenue and a number of channels
-- allow.
abbrev pub capacity : Money → ℕ → ℕ
capacity trailing channels =
    if leb 2 channels && leb_ℤ (usd 10000) trailing
    then 8
    else if leb 2 channels && leb_ℤ (usd 2000) trailing
    then 5
    else if leb 2 channels && leb_ℤ (usd 500) trailing
    then 3
    else if leb 1 channels && leb_ℤ (usd 100) trailing
    then 2
    else 1

-- With a revenue that is not negative, the current rung is one to five, its own thresholds are
-- met, and no row of the table that is met stands above it.
pub current_rung_highest :
    (trailing : Money) (channels : ℕ)
    → pos 0 ≤ℤ trailing
    → (1 ≤ current_rung trailing channels)
      × (current_rung trailing channels ≤ 5)
      × All
          (λ cfg.
            (satisfies trailing channels cfg ≡ false) ⊎ (cfg.rung ≤ current_rung trailing channels))
          rung_thresholds
      × All
          (λ cfg.
            (satisfies trailing channels cfg ≡ true) ⊎ (cfg.rung ≢ current_rung trailing channels))
          rung_thresholds
unfolding current_rung
current_rung_highest trailing channels h = (ground arith, ground arith, ground arith, ground arith)

-- Whatever the revenue: no row that is met stands above the rung, and above 1 its own row is met.
abbrev IsTop : Money → ℕ → ℕ → Type 0
IsTop trailing channels n =
    All (λ cfg. (satisfies trailing channels cfg ≡ false) ⊎ (cfg.rung ≤ n)) rung_thresholds
    × All (λ cfg. (satisfies trailing channels cfg ≡ true) ⊎ (cfg.rung ≢ n) ⊎ (n ≡ 1))
        rung_thresholds

current_rung-IsTop :
    (trailing : Money) (channels : ℕ)
    → (1 ≤ current_rung trailing channels)
      × (current_rung trailing channels ≤ 5)
      × IsTop trailing channels (current_rung trailing channels)
unfolding current_rung
current_rung-IsTop trailing channels = (ground arith, ground arith, (ground arith, ground arith))

-- The row of the highest rung is in the table, and allows the capacity.
config_of_top :
    (trailing : Money) (channels n : ℕ)
    → 1 ≤ n
    → n ≤ 5
    → IsTop trailing channels n
    → (cfg : RungConfig) × (as_config n ≡ ok cfg) × (cfg.max_children ≡ capacity trailing channels)
unfolding as_config
config_of_top t c zero l u h = absurd (omega arith)
config_of_top t c (suc zero) l u h = (row 1 0 0 1, refl, ground arith)
config_of_top t c (suc (suc zero)) l u h = (row 2 100 1 2, refl, ground arith)
config_of_top t c (suc (suc (suc zero))) l u h = (row 3 500 2 3, refl, ground arith)
config_of_top t c (suc (suc (suc (suc zero)))) l u h = (row 4 2000 2 5, refl, ground arith)
config_of_top t c (suc (suc (suc (suc (suc zero))))) l u h = (row 5 10000 2 8, refl, ground arith)
config_of_top t c (suc (suc (suc (suc (suc (suc n)))))) l u h = absurd (omega arith)

gate_at_lem :
    (trailing : Money) (channels live_children : ℕ) (cfg : RungConfig)
    → cfg.max_children ≡ capacity trailing channels
    → ((gate_at trailing channels live_children cfg).allowed ≡ true) ↔ (
        ((trailing <ℤ usd 500) ⊎ (2 ≤ channels))
        × (live_children < capacity trailing channels)
        × ((live_children ≡ 0) ⊎ (usd 100 ≤ℤ trailing)))
unfolding gate_at
gate_at_lem trailing channels live_children cfg h =
    rw (← h) (λ e. (ground arith, ground arith, ground arith), λ e. ground arith)

gate_size :
    (trailing : Money) (channels live_children : ℕ) (cfg : RungConfig)
    → (gate_at trailing channels live_children cfg).gate_max_children ≡ cfg.max_children
unfolding gate_at
gate_size trailing channels live_children cfg = ground arith

-- For every revenue, number of live channels and number of live children: the gate answers, with
-- the capacity of the highest rung whose thresholds are met, and it allows a proposal exactly if
-- the concentration rule holds, a child fits the capacity, and the first child is the only one
-- without $100 of revenue.
pub can_propose_new_lem :
    (trailing : Money) (channels live_children : ℕ)
    → (g : ProposalGate) × (can_propose_new trailing channels live_children ≡ ok g)
      × (g.gate_max_children ≡ capacity trailing channels)
      × ((g.allowed ≡ true) ↔ (
          ((trailing <ℤ usd 500) ⊎ (2 ≤ channels))
          × (live_children < capacity trailing channels)
          × ((live_children ≡ 0) ⊎ (usd 100 ≤ℤ trailing))))
unfolding can_propose_new
can_propose_new_lem trailing channels live_children =
    let (low, high, top) = current_rung-IsTop trailing channels in
    let (cfg, found, size) =
      config_of_top trailing channels (current_rung trailing channels) low high top in
    (
      gate_at trailing channels live_children cfg,
      rw (found, can_propose_new) refl,
      gate_size trailing channels live_children cfg ∙ size,
      gate_at_lem trailing channels live_children cfg size,
    )
