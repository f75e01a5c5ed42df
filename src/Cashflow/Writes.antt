-- ===== src/Cashflow/Writes.antt =====
-- What one write of the ledger does: when it is accepted, and what it leaves behind.
use self_spawn_agents.Prelude.{
  ◌≤◌, ◌<◌, ◌%◌, ◌*◌, ◌^◌, ◌≡◌, ◌≢◌, ◌↔◌, ◌⊎◌, refl, true, Result, ok, err, [], ◌∷◌, ◌++◌, arith,
  Bool-cases, inl, inr, length,
}
use self_spawn_agents.Prelude.Decimal.{Money}
use self_spawn_agents.Prelude.Int.{
  pos, ◌+ℤ◌, ◌<ℤ◌, ◌≤ℤ◌, ltb_ℤ, ltb_ℤ-false, neg, magnitude, leb_ℤ, eqb_ℤ,
}
use self_spawn_agents.Schemas.Common.{AgentTier, World, Pydantic}
use self_spawn_agents.Schemas.Ledger.{Pot, CashflowSource, CashflowEntry, entry_fits}
use self_spawn_agents.Cashflow.Floors.{get}
use self_spawn_agents.Cashflow.Ledger.{
  Session, EntryOptions, new_entry, add_delta, balance, snapshot, debit_rule, assert_debit_allowed,
  store_entry, record_entry, debit, credit,
}
use self_spawn_agents.Cashflow.Balances.{sum_rows-append}

module _ (py : Pydantic) (w : World) (tier : AgentTier) where
  -- What a call that began at `s` has done, by how it ended: a row more, of this service, that
  -- passed the rule for debits and the field checks; or nothing.
  pub record Written (pot : Pot) (delta : Money) (source : CashflowSource) (kw : EntryOptions)
      (s : Session) (e : CashflowEntry) (s' : Session) : Type 0 where
    pub appended : s'.rows ≡ s.rows ++ (record { entry = e; written_by = tier }) ∷ []
    pub pot_is : e.pot ≡ pot
    pub delta_is : e.delta ≡ delta
    pub balances : snapshot w s' ≡ add_delta (snapshot w s) pot delta
    pub nonzero : delta ≢ pos 0
    pub allowed : delta <ℤ pos 0 → debit_rule pot (get (snapshot w s) pot +ℤ delta) source ≡ ok tt
    pub fits : entry_fits py delta kw.note ≡ true

  abbrev pub Records :
      Pot
      → Money
      → CashflowSource
      → EntryOptions
      → Session
      → Result CashflowEntry × Session
      → Type 0
  Records pot delta source kw s (ok e, s') = Written pot delta source kw s e s'
  Records pot delta source kw s (err x, s') = s' ≡ s

  module _ (pot : Pot) (delta : Money) (source : CashflowSource) (kw : EntryOptions)
      (s : Session) where
    store_entry-Records :
        (checked : Result (Unit {0}))
        → delta ≢ pos 0
        → (checked ≡ ok tt
            → delta <ℤ pos 0
            → debit_rule pot (get (snapshot w s) pot +ℤ delta) source ≡ ok tt)
        → Records pot delta source kw s (store_entry py w tier checked pot delta source kw s)
    unfolding store_entry snapshot balance
    store_entry-Records (err x) nz rule = refl
    store_entry-Records (ok _) nz rule = elim (Bool-cases (entry_fits py delta kw.note)) [
      | inr bad ↦ rw bad refl
      | inl good ↦ rw good (record {
        appended = refl;
        pot_is = refl;
        delta_is = refl;
        balances = rw sum_rows-append (ground arith);
        nonzero = nz;
        allowed = rule refl;
        fits = good;
      })
    ]

    -- A recorded entry is one row more; a refused one leaves the session as it was.
    pub record_entry-Records :
        Records pot delta source kw s (record_entry py w tier pot delta source kw s)
    unfolding record_entry assert_debit_allowed
    record_entry-Records = elim (Bool-cases (eqb_ℤ delta (pos 0))) [
      | inl zero_delta ↦ rw zero_delta refl
      | inr other ↦ rw other (store_entry-Records _ (λ e. ground arith) (λ c l. ground arith))
    ]

    -- A write is accepted exactly if its amount is not zero, is a credit or meets the rule of its
    -- pot for debits, has at most four decimals and twelve digits, and its note has at most 512
    -- characters.
    pub record_entry_accepts_iff :
        ((record_entry py w tier pot delta source kw s).0
          ≡ ok (new_entry py w tier pot delta source kw s))
        ↔ ((delta ≢ pos 0)
            × ((pos 0 ≤ℤ delta) ⊎ (debit_rule pot (get (snapshot w s) pot +ℤ delta) source ≡ ok tt))
            × (magnitude delta % 100 ≡ 0)
            × (magnitude delta < 100 * 10 ^ 12)
            × (length kw.note ≤ 512))
    unfolding record_entry store_entry assert_debit_allowed
    record_entry_accepts_iff = (
      λ h. (
        (λ e. ground (arith, e)),
        elim (Bool-cases (ltb_ℤ delta (pos 0))) [
          | inl lower ↦ inr (ground arith)
          | inr higher ↦ inl (ltb_ℤ-false delta (pos 0) higher)
        ],
        ground (arith, py.decimal_12_4_iff delta, py.max_length_iff 512 kw.note),
        ground (arith, py.decimal_12_4_iff delta, py.max_length_iff 512 kw.note),
        ground (arith, py.decimal_12_4_iff delta, py.max_length_iff 512 kw.note),
      ),
      λ h. ground (arith, py.decimal_12_4_iff delta, py.max_length_iff 512 kw.note),
    )

  module _ (pot : Pot) (amount : Money) (source : CashflowSource) (kw : EntryOptions)
      (s : Session) where
    -- A debit of a positive amount writes its negation, or nothing.
    pub debit-Records :
        Records pot (neg amount) source kw s (debit py w tier pot amount source kw s)
    unfolding debit
    debit-Records = elim (Bool-cases (leb_ℤ amount (pos 0))) [
      | inl bad ↦ rw bad refl
      | inr good ↦ rw good (record_entry-Records pot (neg amount) source kw s)
    ]

    pub credit-Records : Records pot amount source kw s (credit py w tier pot amount source kw s)
    unfolding credit
    credit-Records = elim (Bool-cases (leb_ℤ amount (pos 0))) [
      | inl bad ↦ rw bad refl
      | inr good ↦ rw good (record_entry-Records pot amount source kw s)
    ]

    pub accepted_balances :
        {e : CashflowEntry} (r : Result CashflowEntry × Session)
        → Records pot amount source kw s r
        → r.0 ≡ ok e
        → snapshot w r.1 ≡ add_delta (snapshot w s) pot amount
    accepted_balances (ok e, s') k h = k.balances
    accepted_balances (err x, s') k h = cc
