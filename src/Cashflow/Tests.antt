-- ===== src/Cashflow/Tests.antt =====
-- Runs of the cashflow service at concrete inputs, and an instance of each theorem.
mod Inflow
use self_spawn_agents.Prelude.Refines.{seen}
use self_spawn_agents.Prelude.{
  ◌≡◌, ◌<◌, ◌≤◌, ◌%◌, ◌*◌, ◌^◌, ◌↔◌, ◌⊎◌, refl, ℕ, true, none, some, List, [], ◌∷◌, ok, Text, codes,
  arith, ◌≢◌, ◌>>=◌, map,
}
use self_spawn_agents.Prelude.Decimal.{Money, usd, percent_quantized, quantize4}
use self_spawn_agents.Prelude.Int.{pos, ◌+ℤ◌, ◌-ℤ◌, neg, ◌≤ℤ◌, ◌<ℤ◌, magnitude}
use self_spawn_agents.Schemas.Common.{mother}
use self_spawn_agents.Schemas.Samples.{checker, world, toy_hmac}
use self_spawn_agents.Core.Trust.{require_mother_for_ledger}
use self_spawn_agents.Schemas.Ledger.{
  Pot, operating, reserve, growth, revenue_polar, cost_anthropic,
  emergency_transfer_reserve_to_operating, CashflowLedger,
}
use self_spawn_agents.Cashflow.Floors.{growth_cap_from_trailing_revenue}
use self_spawn_agents.Cashflow.Ledger.{
  Session, PrintedDecimal, credit, credit_share, record_split, assert_debit_allowed,
  verify_emergency_hmac, sum_rows, default_options, snapshot, record_entry, debit, debit_rule,
  split_and_record_inflow, new_entry, emergency_transfer, cashflow_service,
}
use self_spawn_agents.Cashflow.Reconcile.{check_drift}
use self_spawn_agents.Cashflow.Split.{split_inflow, overflow}
use self_spawn_agents.Cashflow.Requests.{
  Request, debit_request, inflow_request, emergency_request, run_requests, apply_request, answers,
}
use self_spawn_agents.Cashflow.Pots.{run_pots}
use self_spawn_agents.Cashflow.Pots.Refinement.{posting_of, run_requests_refines}
use self_spawn_agents.Cashflow.Split.Laws.{IsWholeSplit, split_fits}
use self_spawn_agents.Cashflow.Balances.{check_drift-eq-zero}
use self_spawn_agents.Cashflow.Solvency.{HoldsFloor, run_requests-HoldsFloor}
use self_spawn_agents.Cashflow.Reserve.{reserve_lowered_only_by, labelled_debit_needs_no_signature}
use self_spawn_agents.Cashflow.Emergency.{Transfers, emergency_transfer-Transfers}
use self_spawn_agents.Cashflow.Inflow.{Fits, Pays}
use self_spawn_agents.Cashflow.Inflow.Totals.{IsWhole, inflow_conserves, inflow_past_growth_cap}
use self_spawn_agents.Cashflow.Authorship.{IsExtension, ledger_extends_by_mother}

abbrev empty : Session
empty = record { rows = []; draws = 0 }

-- A row of the Mother's.
abbrev row : ℕ → Pot → Money → CashflowLedger
row n pot delta = record {
  entry = record {
    id = n;
    ts = n;
    pot = pot;
    delta = delta;
    source = revenue_polar;
    ref_id = none;
    note = [];
  };
  written_by = mother;
}

abbrev funded : Session
funded = record {
  rows = row 0 operating (usd 260) ∷ row 1 reserve (usd 25) ∷ row 2 growth (usd 15) ∷ [];
  draws = 3;
}

abbrev transfer_amount : PrintedDecimal
transfer_amount = record { usd_value = usd 20; str = codes "20.00" }

abbrev day : Text
day = codes "2026-01-01"

abbrev secret : Text
secret = codes "s3cret"

abbrev signature : Text
signature = codes "s3cret20.00|2026-01-01"

-- An inflow of $100, a debit that would breach the floor, and a signed transfer.
abbrev requests : List Request
requests =
    inflow_request (usd 100) revenue_polar none none (usd 1000)
    ∷ debit_request operating (usd 290) cost_anthropic default_options
    ∷ emergency_request transfer_amount day signature secret
    ∷ []

run_of_requests :
    snapshot world (run_requests checker world mother toy_hmac requests funded)
    ≡ record { operating_usd = usd 340; reserve_usd = usd 30; growth_usd = usd 30 }
unfolding run_requests apply_request split_and_record_inflow record_split credit_share credit debit
    record_entry assert_debit_allowed debit_rule emergency_transfer verify_emergency_hmac ◌>>=◌
    snapshot sum_rows split_inflow overflow quantize4 growth_cap_from_trailing_revenue ◌+ℤ◌ ◌-ℤ◌ neg
run_of_requests = refl

-- Rounding: a ten-thousandth goes to Operating alone.
smallest_split :
    split_inflow (pos 100) (pos 0) none (pos 0) none
    ≡ record { operating = pos 100; reserve = pos 0; growth = pos 0 }
unfolding split_inflow overflow quantize4 ◌+ℤ◌ ◌-ℤ◌
smallest_split = refl

-- A ledger with nothing but a growth pot of $10, below the floor of the operating pot, and a debit
-- of more than it holds.
abbrev only_growth : Session
only_growth = record { rows = row 0 growth (usd 10) ∷ []; draws = 1 }

growth_floor : HoldsFloor growth (snapshot world only_growth)
unfolding snapshot sum_rows ◌+ℤ◌
growth_floor = omega arith

abbrev growth_requests : List Request
growth_requests = debit_request growth (usd 20) cost_anthropic default_options ∷ requests

run_requests-HoldsFloor_example :
    HoldsFloor growth
      (snapshot world (run_requests checker world mother toy_hmac growth_requests only_growth))
run_requests-HoldsFloor_example =
    run_requests-HoldsFloor checker world mother toy_hmac growth growth_requests only_growth
      growth_floor

transfer_lowers :
    (snapshot world (
      apply_request checker world mother toy_hmac
        (emergency_request transfer_amount day signature secret)
        funded)).reserve_usd
    <ℤ (snapshot world funded).reserve_usd
unfolding apply_request record_entry assert_debit_allowed debit_rule emergency_transfer
    verify_emergency_hmac ◌>>=◌ snapshot sum_rows ◌+ℤ◌ ◌-ℤ◌ neg
transfer_lowers = omega arith

reserve_lowered_only_by_example :
    verify_emergency_hmac toy_hmac secret transfer_amount day signature ≡ ok true
reserve_lowered_only_by_example =
    reserve_lowered_only_by checker world mother toy_hmac
      (emergency_request transfer_amount day signature secret) funded transfer_lowers

labelled_debit_needs_no_signature_example :
    let (r, s') =
      debit checker world mother reserve
        (usd 1000)
        emergency_transfer_reserve_to_operating
        default_options
        funded in
    (r
      ≡ ok (
          new_entry checker world mother reserve
            (neg (usd 1000))
            emergency_transfer_reserve_to_operating
            default_options
            funded))
    × ((snapshot world s').reserve_usd ≡ (snapshot world funded).reserve_usd -ℤ usd 1000)
labelled_debit_needs_no_signature_example =
    labelled_debit_needs_no_signature checker world mother (usd 1000) funded (omega arith) refl
      (omega arith)

emergency_transfer-Transfers_example :
    Transfers checker world mother
      (usd 20)
      funded
      (emergency_transfer checker world mother toy_hmac transfer_amount day signature secret funded)
emergency_transfer-Transfers_example =
    emergency_transfer-Transfers checker world mother toy_hmac transfer_amount day signature secret
      funded

check_drift-eq-zero_example : check_drift world funded ≡ pos 0
check_drift-eq-zero_example = check_drift-eq-zero world funded

ledger_extends_by_mother_example :
    IsExtension funded.rows (run_requests checker world mother toy_hmac requests funded).rows
unfolding cashflow_service require_mother_for_ledger
ledger_extends_by_mother_example =
    ledger_extends_by_mother checker world mother mother toy_hmac requests funded refl

run_requests_refines_example :
    (
      map (seen (map posting_of)) (answers checker world mother toy_hmac requests funded),
      snapshot world (run_requests checker world mother toy_hmac requests funded),
    )
    ≡ run_pots toy_hmac requests (snapshot world funded)
run_requests_refines_example = run_requests_refines checker world mother toy_hmac requests funded
