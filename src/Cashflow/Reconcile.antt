-- ===== src/Cashflow/Reconcile.antt =====
-- aae/cashflow/reconcile.py: the drift between the pots and the sum of all entries.
use self_spawn_agents.Prelude.{List, [], ◌∷◌}
use self_spawn_agents.Prelude.Decimal.{Money, usd}
use self_spawn_agents.Prelude.Int.{pos, ◌+ℤ◌, ◌-ℤ◌, abs}
use self_spawn_agents.Schemas.Common.{World}
use self_spawn_agents.Schemas.Ledger.{CashflowLedger}
use self_spawn_agents.Cashflow.Ledger.{Session, balance}

-- `coalesce(sum(delta), 0)` over the table.
unfoldable pub sum_deltas : List CashflowLedger → Money
sum_deltas [] = pos 0
sum_deltas (r ∷ rs) = r.entry.delta +ℤ sum_deltas rs

abbrev pub drift_alert_threshold : Money
drift_alert_threshold = usd 1

unfoldable pub check_drift : World → Session → Money
check_drift w s =
    let balances = balance w s in
    let total_balances = balances.operating +ℤ balances.reserve +ℤ balances.growth in
    abs (sum_deltas s.rows -ℤ total_balances)
