-- ===== src/Cashflow/Ledger.antt =====
-- `CashflowService` of aae/cashflow/ledger.py. The database session is the list of the rows of
-- `cashflow_ledger` with the number of draws made from the process's sources of ids and times; the
-- operations return or raise, and hand the session on.
use self_spawn_agents.Prelude.{
  ℕ, suc, Bool, not, Option, none, some, List, [], ◌∷◌, ◌++◌, Result, ok, err, Action, pure,
  of_result, require, ◌>>=◌, ◌>>◌, if◌then◌else◌, Text, codes, value_error, validation_error,
  insufficient_funds, reserve_locked, bad_hmac, trust_violation,
}
use self_spawn_agents.Prelude.Decimal.{Money}
use self_spawn_agents.Prelude.Unicode.{compare_digest}
use self_spawn_agents.Prelude.Int.{pos, ◌+ℤ◌, ◌-ℤ◌, neg, abs, ltb_ℤ, leb_ℤ, eqb_ℤ}
use self_spawn_agents.Schemas.Common.{AgentTier, Time, World, Pydantic}
use self_spawn_agents.Schemas.Ledger.{
  Pot, operating, reserve, growth, CashflowSource, emergency_transfer_reserve_to_operating,
  is_emergency, CashflowEntry, PotBalances, CashflowLedger, entry_fits,
}
use self_spawn_agents.Core.Trust.{require_mother_for_ledger}
use self_spawn_agents.Cashflow.Floors.{
  PotSnapshot, get, operating_hard_floor_usd, reserve_inviolate, growth_cap_from_trailing_revenue,
}
use self_spawn_agents.Cashflow.Split.{InflowSplit, split_inflow}

pub record Session : Type 0 where
  pub rows : List CashflowLedger
  pub draws : ℕ

-- The keyword arguments that `debit` and `credit` hand on to `record`.
pub record EntryOptions : Type 0 where
  pub ref_id : Option Text
  pub note : Text
  pub ts : Option Time

abbrev pub default_options : EntryOptions
default_options = record { ref_id = none; note = []; ts = none }

-- `note=f"signed EMERGENCY_TRANSFER {date_iso}"`
abbrev pub transfer_options : Text → EntryOptions
transfer_options date_iso = record default_options {
  note = codes "signed EMERGENCY_TRANSFER " ++ date_iso;
}

-- A `Decimal` that is also printed: its value, and the text that `str` gives for it.
pub record PrintedDecimal : Type 0 where
  pub usd_value : Money
  pub str : Text

unfoldable pub verify_emergency_hmac :
    (Text → Text → Text) → Text → PrintedDecimal → Text → Text → Result Bool
verify_emergency_hmac hmac_sha256 secret amount_usd date_iso signature =
    let msg = amount_usd.str ++ (codes "|" ++ date_iso) in
    compare_digest (hmac_sha256 secret msg) signature

-- `sums[r.pot] = sums[r.pot] + r.delta`
abbrev pub add_delta : PotSnapshot → Pot → Money → PotSnapshot
add_delta s operating d = record s { operating_usd = s.operating_usd +ℤ d }
add_delta s reserve d = record s { reserve_usd = s.reserve_usd +ℤ d }
add_delta s growth d = record s { growth_usd = s.growth_usd +ℤ d }

unfoldable pub sum_rows : PotSnapshot → List CashflowLedger → PotSnapshot
sum_rows sums [] = sums
sum_rows sums (r ∷ rs) = sum_rows (add_delta sums r.entry.pot r.entry.delta) rs

abbrev pub zero_sums : PotSnapshot
zero_sums = record { operating_usd = pos 0; reserve_usd = pos 0; growth_usd = pos 0 }

unfoldable pub balance : World → Session → PotBalances
balance w s =
    let sums = sum_rows zero_sums s.rows in
    record {
      operating = sums.operating_usd;
      reserve = sums.reserve_usd;
      growth = sums.growth_usd;
      as_of = w.utc_now s.draws;
    }

unfoldable pub snapshot : World → Session → PotSnapshot
unfolding balance
snapshot w s =
    let b = balance w s in
    record { operating_usd = b.operating; reserve_usd = b.reserve; growth_usd = b.growth }

-- The branches of `_assert_debit_allowed`, by the pot.
unfoldable pub debit_rule : Pot → Money → CashflowSource → Result (Unit {0})
debit_rule operating new_balance source =
    if ltb_ℤ new_balance operating_hard_floor_usd then err insufficient_funds else ok tt
debit_rule reserve new_balance source = if is_emergency source then ok tt else err reserve_locked
debit_rule growth new_balance source =
    if ltb_ℤ new_balance (pos 0) then err insufficient_funds else ok tt

unfoldable pub assert_debit_allowed :
    World → Pot → Money → CashflowSource → Session → Result (Unit {0})
assert_debit_allowed w pot delta source s = debit_rule pot (get (snapshot w s) pot +ℤ delta) source

module _ (py : Pydantic) (w : World) (tier : AgentTier) where
  abbrev pub new_entry : Pot → Money → CashflowSource → EntryOptions → Session → CashflowEntry
  new_entry pot delta source kw s = record {
    id = w.uuid4 s.draws;
    ts = (elim kw.ts [ none ↦ w.utc_now s.draws | some t ↦ t ]);
    pot = pot;
    delta = delta;
    source = source;
    ref_id = kw.ref_id;
    note = kw.note;
  }

  abbrev pub add_row : CashflowEntry → Session → Session
  add_row entry s = record {
    rows = s.rows ++ (record { entry = entry; written_by = tier }) ∷ [];
    draws = suc s.draws;
  }

  -- The end of `record`, after the check of a debit: build the entry, add its row, return it.
  unfoldable pub store_entry :
      Result (Unit {0}) → Pot → Money → CashflowSource → EntryOptions → Action Session CashflowEntry
  store_entry (err x) pot delta source kw s = (err x, s)
  store_entry (ok _) pot delta source kw s =
      let entry = new_entry pot delta source kw s in
      if entry_fits py delta kw.note then (ok entry, add_row entry s) else (err validation_error, s)

  -- `CashflowService.record`
  unfoldable pub record_entry :
      Pot → Money → CashflowSource → EntryOptions → Action Session CashflowEntry
  unfolding store_entry
  record_entry pot delta source kw s =
      if eqb_ℤ delta (pos 0)
      then (err value_error, s)
      else store_entry
          (if ltb_ℤ delta (pos 0) then assert_debit_allowed w pot delta source s else ok tt) pot
          delta source kw s

  unfoldable pub debit : Pot → Money → CashflowSource → EntryOptions → Action Session CashflowEntry
  debit pot amount_usd source kw s =
      if leb_ℤ amount_usd (pos 0)
      then (err value_error, s)
      else record_entry pot (neg amount_usd) source kw s

  unfoldable pub credit : Pot → Money → CashflowSource → EntryOptions → Action Session CashflowEntry
  credit pot amount_usd source kw s =
      if leb_ℤ amount_usd (pos 0)
      then (err value_error, s)
      else record_entry pot amount_usd source kw s

  -- `self.credit(pot, share, ...) if share > 0 else op_entry`
  unfoldable pub credit_share :
      Pot → Money → CashflowSource → EntryOptions → CashflowEntry → Action Session CashflowEntry
  credit_share pot share source kw op_entry s =
      if ltb_ℤ (pos 0) share then credit pot share source kw s else (ok op_entry, s)

  -- The three credits of a split.
  unfoldable pub record_split :
      InflowSplit
      → CashflowSource
      → EntryOptions
      → Action Session (CashflowEntry × CashflowEntry × CashflowEntry)
  record_split s source kw = do
    op_entry ← credit operating s.operating source kw
    res_entry ← credit_share reserve s.reserve source kw op_entry
    gr_entry ← credit_share growth s.growth source kw op_entry
    pure (op_entry, res_entry, gr_entry)

  unfoldable pub split_and_record_inflow :
      Money
      → CashflowSource
      → Option Text
      → Option Money
      → Money
      → Action Session (CashflowEntry × CashflowEntry × CashflowEntry)
  split_and_record_inflow amount_usd source ref_id reserve_cap trailing_90d_revenue session =
      let snap = snapshot w session in
      let growth_cap = growth_cap_from_trailing_revenue trailing_90d_revenue in
      let s =
        split_inflow amount_usd snap.reserve_usd reserve_cap snap.growth_usd (some growth_cap) in
      record_split s source (record default_options { ref_id = ref_id }) session

  unfoldable pub emergency_transfer :
      (Text → Text → Text)
      → PrintedDecimal
      → Text
      → Text
      → Text
      → Action Session (CashflowEntry × CashflowEntry)
  emergency_transfer hmac_sha256 amount_usd date_iso signature operator_secret =
      let source = emergency_transfer_reserve_to_operating in
      let kw = record default_options { note = codes "signed EMERGENCY_TRANSFER " ++ date_iso } in
      do
        require reserve_inviolate trust_violation
        verified ←
            of_result
              (verify_emergency_hmac hmac_sha256 operator_secret amount_usd date_iso signature)
        require verified bad_hmac
        require (not (leb_ℤ amount_usd.usd_value (pos 0))) value_error
        out ← record_entry reserve (neg amount_usd.usd_value) source kw
        inn ← record_entry operating amount_usd.usd_value source kw
        pure (out, inn)

-- `CashflowService.__init__`: the tier that the service writes as.
unfoldable pub cashflow_service : AgentTier → Result AgentTier
cashflow_service tier = elim (require_mother_for_ledger tier) [ ok _ ↦ ok tier | err x ↦ err x ]

unfoldable pub ledger_drift : PotBalances → Money → Money
ledger_drift b sum_of_entries = abs (b.operating +ℤ b.reserve +ℤ b.growth -ℤ sum_of_entries)
