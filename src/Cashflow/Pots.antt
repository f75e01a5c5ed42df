-- ===== src/Cashflow/Pots.antt =====
-- What the cashflow service promises, with no ledger: three balances that postings move. The
-- refinement of this machine by the service of aae/cashflow/ledger.py is in the child module.
pub mod Refinement
use self_spawn_agents.Prelude.{
  ℕ, ◌*◌, ◌^◌, ◌%◌, ltb, ◌==◌, leb, Bool, not, ◌&&◌, List, [], ◌∷◌, ◌++◌, some, Result, ok, err,
  Exception, Action, if◌then◌else◌, Text, codes, length, value_error, validation_error,
  insufficient_funds, reserve_locked, bad_hmac, ◌>>=◌, ◌>>◌, pure, Option,
}
use self_spawn_agents.Prelude.Decimal.{Money, usd}
use self_spawn_agents.Prelude.Refines.{observe}
use self_spawn_agents.Prelude.Int.{pos, ◌+ℤ◌, neg, magnitude, ltb_ℤ, leb_ℤ}
use self_spawn_agents.Schemas.Ledger.{
  Pot, operating, reserve, growth, CashflowSource, emergency_transfer_reserve_to_operating,
  is_emergency,
}
use self_spawn_agents.Cashflow.Floors.{PotSnapshot, get, growth_cap_from_trailing_revenue}
use self_spawn_agents.Cashflow.Split.{InflowSplit, split_inflow}
use self_spawn_agents.Cashflow.Ledger.{
  EntryOptions, PrintedDecimal, default_options, transfer_options, add_delta, verify_emergency_hmac,
}
use self_spawn_agents.Cashflow.Requests.{
  one, two, three, Request, record_request, debit_request, credit_request, inflow_request,
  emergency_request,
}

-- What a column of four decimals and twelve digits holds, beside a note of 512 characters at most.
abbrev pub storable : Money → Text → Bool
storable d note =
    (magnitude d % 100 == 0) && ltb (magnitude d) (100 * 10 ^ 12) && leb (length note) 512

-- What a posting that lowers a pot raises, if it raises.
abbrev pub refusal : Pot → Exception
refusal operating = insufficient_funds
refusal reserve = reserve_locked
refusal growth = insufficient_funds

-- May a posting leave the pot at this balance?
abbrev pub covered : Pot → Money → CashflowSource → Bool
covered operating left src = leb_ℤ (usd 50) left
covered reserve left src = is_emergency src
covered growth left src = leb_ℤ (pos 0) left

-- What a caller is told of a posting.
pub record Posting : Type 0 where
  pub pot : Pot
  pub delta : Money
  pub source : CashflowSource
  pub ref_id : Option Text
  pub note : Text

abbrev pub posting : Pot → Money → CashflowSource → EntryOptions → Posting
posting pot d src kw = record {
  pot = pot;
  delta = d;
  source = src;
  ref_id = kw.ref_id;
  note = kw.note;
}

-- One posting: a change of one pot, or an error and no change.
unfoldable pub post : Pot → Money → CashflowSource → EntryOptions → Action PotSnapshot Posting
post pot d src kw p =
    if magnitude d == 0
    then (err value_error, p)
    else if ltb_ℤ d (pos 0) && not (covered pot (get p pot +ℤ d) src)
    then (err (refusal pot), p)
    else if storable d kw.note
    then (ok (posting pot d src kw), add_delta p pot d)
    else (err validation_error, p)

-- A posting of a positive amount, upwards or downwards.
unfoldable pub pay_in : Pot → Money → CashflowSource → EntryOptions → Action PotSnapshot Posting
pay_in pot a src kw p = if ltb_ℤ (pos 0) a then post pot a src kw p else (err value_error, p)

unfoldable pub pay_out : Pot → Money → CashflowSource → EntryOptions → Action PotSnapshot Posting
pay_out pot a src kw p = if ltb_ℤ (pos 0) a then post pot (neg a) src kw p else (err value_error, p)

-- A share of an inflow. Of a share that is nothing, the caller is told the posting before.
unfoldable pub pay_share :
    Pot → Money → CashflowSource → EntryOptions → Posting → Action PotSnapshot Posting
pay_share pot a src kw before p = if ltb_ℤ (pos 0) a then post pot a src kw p else (ok before, p)

-- The three parts of an inflow. The first must be something, or nothing is paid.
unfoldable pub pay_split :
    InflowSplit → CashflowSource → EntryOptions → Action PotSnapshot (Posting × Posting × Posting)
pay_split p src kw = do
  first ← pay_in operating p.operating src kw
  second ← pay_share reserve p.reserve src kw first
  third ← pay_share growth p.growth src kw first
  pure (first, second, third)

-- A transfer is one step: both pots move, or none.
unfoldable pub transfer :
    Result Bool → Money → EntryOptions → Action PotSnapshot (Posting × Posting)
transfer (err x) a kw p = (err x, p)
transfer (ok signed) a kw p =
    let src = emergency_transfer_reserve_to_operating in
    if not signed
    then (err bad_hmac, p)
    else if leb_ℤ a (pos 0)
    then (err value_error, p)
    else if storable (neg a) kw.note
    then (
      ok (posting reserve (neg a) src kw, posting operating a src kw),
      add_delta (add_delta p reserve (neg a)) operating a,
    )
    else (err validation_error, p)

module _ (hmac_sha256 : Text → Text → Text) where
  unfoldable pub request_pots : Request → Action PotSnapshot (List Posting)
  request_pots (record_request pot d src kw) p = observe (λ q. q) one (post pot d src kw p)
  request_pots (debit_request pot a src kw) p = observe (λ q. q) one (pay_out pot a src kw p)
  request_pots (credit_request pot a src kw) p = observe (λ q. q) one (pay_in pot a src kw p)
  request_pots (inflow_request a src ref limit trailing) p =
      observe (λ q. q) three
        (pay_split
          (split_inflow a p.reserve_usd limit p.growth_usd
            (some (growth_cap_from_trailing_revenue trailing)))
          src (record default_options { ref_id = ref }) p)
  request_pots (emergency_request a date sig secret) p =
      observe (λ q. q) two
        (transfer (verify_emergency_hmac hmac_sha256 secret a date sig) a.usd_value
          (transfer_options date) p)

  -- The answers and the balances of a sequence of requests.
  unfoldable pub run_pots : List Request → PotSnapshot → List (Result (List Posting)) × PotSnapshot
  run_pots [] p = ([], p)
  run_pots (r ∷ rs) p =
      let q = request_pots r p in let rest = run_pots rs q.1 in (q.0 ∷ rest.0, rest.1)
