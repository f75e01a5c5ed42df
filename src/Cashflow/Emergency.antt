-- ===== src/Cashflow/Emergency.antt =====
-- `emergency_transfer_reserve_to_operating`: all or nothing, and no money made or lost.
use self_spawn_agents.Prelude.{
  ◌≡◌, refl, Result, ok, err, Text, arith, Bool-cases, inl, inr, true, ◌>>=◌, pure, resume,
  test_cases,
}
use self_spawn_agents.Prelude.Decimal.{Money}
use self_spawn_agents.Prelude.Int.{
  pos, ◌+ℤ◌, ◌-ℤ◌, ◌<ℤ◌, neg, leb_ℤ, leb_ℤ-false, neg_parts, int_laws,
}
use self_spawn_agents.Schemas.Common.{AgentTier, World, Pydantic}
use self_spawn_agents.Schemas.Ledger.{
  Pot, operating, reserve, CashflowSource, CashflowEntry, entry_fits,
  emergency_transfer_reserve_to_operating,
}
use self_spawn_agents.Cashflow.Floors.{PotSnapshot}
use self_spawn_agents.Cashflow.Balances.{total}
use self_spawn_agents.Cashflow.Ledger.{
  Session, EntryOptions, transfer_options, PrintedDecimal, add_delta, snapshot, new_entry,
  verify_emergency_hmac, record_entry, emergency_transfer,
}
use self_spawn_agents.Cashflow.Writes.{
  Records, Written, record_entry-Records, record_entry_accepts_iff,
}

module _ (py : Pydantic) (w : World) (tier : AgentTier) where
  -- The two pots after a transfer that went through; nothing at all after one that raised.
  abbrev pub Transfers : Money → Session → Result (CashflowEntry × CashflowEntry) × Session → Type 0
  Transfers a s (ok _, s') =
      ((snapshot w s').reserve_usd ≡ (snapshot w s).reserve_usd -ℤ a)
      × ((snapshot w s').operating_usd ≡ (snapshot w s).operating_usd +ℤ a)
      × (total (snapshot w s') ≡ total (snapshot w s))
  Transfers a s (err x, s') = s' ≡ s

  -- The credit of a positive amount passes where the debit of it did.
  opposite_accepted :
      (pot : Pot) (a : Money) (src : CashflowSource) (kw : EntryOptions) (s : Session)
      → pos 0 <ℤ a
      → entry_fits py (neg a) kw.note ≡ true
      → (record_entry py w tier pot a src kw s).0 ≡ ok (new_entry py w tier pot a src kw s)
  opposite_accepted pot a src kw s p h =
      let accepts = record_entry_accepts_iff py w tier pot a src kw s in
      accepts.1 (
        (λ e. ground (arith, e)),
        inl (omega arith),
        ground (arith, py.decimal_12_4_iff (neg a), neg_parts a),
        ground (arith, py.decimal_12_4_iff (neg a), neg_parts a),
        ground (arith, py.max_length_iff 512 kw.note),
      )

  module _ (a : Money) (src : CashflowSource) (kw : EntryOptions) (s : Session)
      (positive : pos 0 <ℤ a) where
    moved :
        (sn sn1 sn2 : PotSnapshot)
        → sn1 ≡ add_delta sn reserve (neg a)
        → sn2 ≡ add_delta sn1 operating a
        → (sn2.reserve_usd ≡ sn.reserve_usd -ℤ a)
          × (sn2.operating_usd ≡ sn.operating_usd +ℤ a)
          × (total sn2 ≡ total sn)
    moved sn sn1 sn2 e1 e2 = rw (e2, e1) (omega int_laws, refl, omega int_laws)

    second :
        (out : CashflowEntry) (s1 : Session)
        → Written py w tier reserve (neg a) src kw s out s1
        → (r : Result CashflowEntry × Session) → Records py w tier operating a src kw s1 r
        → r.0 ≡ ok (new_entry py w tier operating a src kw s1)
        → Transfers a s (
            resume r.0
              (λ inn s2.
                let z : Result (CashflowEntry × CashflowEntry) × Session = (ok (out, inn), s2) in z)
              r.1)
    second out s1 k (ok inn, s2) k2 e =
        moved (snapshot w s) (snapshot w s1) (snapshot w s2) k.balances k2.balances
    second out s1 k (err x, s2) k2 e = cc

    first :
        (r : Result CashflowEntry × Session)
        → Records py w tier reserve (neg a) src kw s r
        → Transfers a s (
            resume r.0
              (λ out. record_entry py w tier operating a src kw >>= λ inn. pure (out, inn))
              r.1)
    unfolding ◌>>=◌
    first (err x, s1) k = k
    first (ok out, s1) k =
        second out s1 k (record_entry py w tier operating a src kw s1)
          (record_entry-Records py w tier operating a src kw s1)
          (opposite_accepted operating a src kw s1 positive k.fits)

  -- An emergency transfer that returns moves exactly its amount from the reserve pot to the
  -- operating pot and keeps their total; one that raises leaves the session as it was.
  pub emergency_transfer-Transfers :
      (hmac_sha256 : Text → Text → Text) (a : PrintedDecimal) (date sig secret : Text) (s : Session)
      → Transfers a.usd_value s (emergency_transfer py w tier hmac_sha256 a date sig secret s)
  unfolding emergency_transfer ◌>>=◌
  emergency_transfer-Transfers hmac_sha256 a date sig secret s =
      elim (test_cases (verify_emergency_hmac hmac_sha256 secret a date sig)) [
        | inr (inr (x, raised)) ↦ rw raised refl
        | inr (inl bad) ↦ rw bad refl
        | inl good ↦ rw good (elim (Bool-cases (leb_ℤ a.usd_value (pos 0))) [
          | inl none_or_less ↦ rw none_or_less refl
          | inr more ↦ rw more (
              first a.usd_value emergency_transfer_reserve_to_operating (transfer_options date) s
                (leb_ℤ-false a.usd_value (pos 0) more) _
                (record_entry-Records py w tier reserve (neg a.usd_value)
                  emergency_transfer_reserve_to_operating (transfer_options date) s))
        ])
      ]
