-- ===== src/Cashflow/Balances.antt =====
-- How the pot balances follow the rows of the ledger.
use self_spawn_agents.Prelude.{◌≡◌, refl, ap, List, [], ◌∷◌, ◌++◌}
use self_spawn_agents.Prelude.Decimal.{Money}
use self_spawn_agents.Prelude.Int.{pos, ◌+ℤ◌, ◌-ℤ◌, abs, int_laws}
use self_spawn_agents.Schemas.Common.{World}
use self_spawn_agents.Schemas.Ledger.{Pot, operating, reserve, growth, CashflowLedger}
use self_spawn_agents.Cashflow.Floors.{PotSnapshot}
use self_spawn_agents.Cashflow.Ledger.{Session, add_delta, sum_rows, zero_sums, balance}
use self_spawn_agents.Cashflow.Reconcile.{sum_deltas, check_drift}

-- All the money in the three pots.
abbrev pub total : PotSnapshot → Money
total s = s.operating_usd +ℤ s.reserve_usd +ℤ s.growth_usd

pub total-add_delta :
    (s : PotSnapshot) (p : Pot) (d : Money) → total (add_delta s p d) ≡ total s +ℤ d
total-add_delta s operating d = omega int_laws
total-add_delta s reserve d = omega int_laws
total-add_delta s growth d = omega int_laws

pub sum_rows-append :
    (s : PotSnapshot) (xs : List CashflowLedger) (r : CashflowLedger)
    → sum_rows s (xs ++ r ∷ []) ≡ add_delta (sum_rows s xs) r.entry.pot r.entry.delta
unfolding sum_rows
sum_rows-append s [] r = refl
sum_rows-append s (x ∷ xs) r = sum_rows-append (add_delta s x.entry.pot x.entry.delta) xs r

total-sum_rows :
    (s : PotSnapshot) (xs : List CashflowLedger) → total (sum_rows s xs) ≡ total s +ℤ sum_deltas xs
unfolding sum_rows sum_deltas
total-sum_rows s [] = omega int_laws
total-sum_rows s (x ∷ xs) =
    rw (total-sum_rows (add_delta s x.entry.pot x.entry.delta) xs, total-add_delta) (omega int_laws)

-- The balances of the three pots add up to the sum of all entries, so the hourly drift is zero for
-- every ledger.
pub check_drift-eq-zero : (w : World) (s : Session) → check_drift w s ≡ pos 0
unfolding check_drift balance
check_drift-eq-zero w s =
    let e : sum_deltas s.rows -ℤ total (sum_rows zero_sums s.rows) ≡ pos 0 =
      rw (total-sum_rows zero_sums s.rows) (omega int_laws) in
    ap abs e
