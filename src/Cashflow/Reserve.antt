-- ===== src/Cashflow/Reserve.antt =====
-- Which requests can lower the reserve pot.
use self_spawn_agents.Prelude.{
  ◌≡◌, ◌<◌, ◌*◌, ◌^◌, ◌%◌, refl, sym, ap, subst, Result, ok, err, Text, arith, Bool-cases, inl, inr,
  true, false, ◌>>=◌, test_cases, ◌⊎◌, Exception,
}
use self_spawn_agents.Prelude.Decimal.{Money}
use self_spawn_agents.Prelude.Keeps.{Keeps}
use self_spawn_agents.Prelude.Int.{
  pos_part, neg_part, neg_parts, magnitude, neg, ◌-ℤ◌, pos, ◌+ℤ◌, ◌≤ℤ◌, ◌<ℤ◌, leb_ℤ, leb_ℤ-false,
  int_laws,
}
use self_spawn_agents.Schemas.Common.{AgentTier, World, Pydantic}
use self_spawn_agents.Schemas.Ledger.{
  Pot, operating, reserve, growth, CashflowSource, CashflowEntry, is_emergency,
  emergency_transfer_reserve_to_operating,
}
use self_spawn_agents.Cashflow.Floors.{PotSnapshot, get}
use self_spawn_agents.Cashflow.Ledger.{
  Session, EntryOptions, default_options, new_entry, debit, PrintedDecimal, add_delta, snapshot,
  debit_rule, verify_emergency_hmac, credit, emergency_transfer, record_entry,
}
use self_spawn_agents.Cashflow.Requests.{
  Request, record_request, debit_request, credit_request, inflow_request, emergency_request,
  apply_request,
}
use self_spawn_agents.Cashflow.Requests.Preserve.{inflow-Keeps}
use self_spawn_agents.Cashflow.Writes.{
  Records, record_entry-Records, record_entry_accepts_iff, accepted_balances, debit-Records,
}

add_delta_lower :
    (s : PotSnapshot) (pot : Pot) (d : Money) (src : CashflowSource)
    → (d <ℤ pos 0 → debit_rule pot (get s pot +ℤ d) src ≡ ok tt)
    → (add_delta s pot d).reserve_usd <ℤ s.reserve_usd
    → (pot ≡ reserve) × (is_emergency src ≡ true)
unfolding debit_rule
add_delta_lower s operating d src rule l = absurd (omega arith)
add_delta_lower s growth d src rule l = absurd (omega arith)
add_delta_lower s reserve d src rule l = let r = rule (omega int_laws) in (refl, ground (arith, r))

reserve_of_add_delta :
    (s : PotSnapshot) (pot : Pot) (d : Money)
    → pos 0 ≤ℤ d
    → s.reserve_usd ≤ℤ (add_delta s pot d).reserve_usd
reserve_of_add_delta s operating d h = omega arith
reserve_of_add_delta s reserve d h = omega int_laws
reserve_of_add_delta s growth d h = omega arith

module _ (py : Pydantic) (w : World) (tier : AgentTier) (hmac_sha256 : Text → Text → Text) where
  abbrev reserve_of : Session → Money
  reserve_of s = (snapshot w s).reserve_usd

  row_lower :
      (pot : Pot) (d : Money) (src : CashflowSource) (kw : EntryOptions) (s : Session)
      (r : Result CashflowEntry × Session)
      → Records py w tier pot d src kw s r
      → reserve_of r.1 <ℤ reserve_of s
      → (pot ≡ reserve) × (is_emergency src ≡ true)
  row_lower pot d src kw s (ok e, s') k l =
      add_delta_lower (snapshot w s) pot d src k.allowed
        (subst (λ (x : PotSnapshot). x.reserve_usd <ℤ reserve_of s) k.balances l)
  row_lower pot d src kw s (err x, s') k l =
      let l' : reserve_of s <ℤ reserve_of s =
        subst (λ (x : Session). reserve_of x <ℤ reserve_of s) k l in
      absurd (omega arith)

  row_raise :
      (R : Money) (pot : Pot) (d : Money) (src : CashflowSource) (kw : EntryOptions) (s : Session)
      (r : Result CashflowEntry × Session)
      → pos 0 ≤ℤ d
      → Records py w tier pot d src kw s r
      → R ≤ℤ reserve_of s
      → R ≤ℤ reserve_of r.1
  row_raise R pot d src kw s (ok e, s') p k h =
      subst (λ (x : PotSnapshot). R ≤ℤ x.reserve_usd) (sym k.balances)
        (omega (arith, reserve_of_add_delta (snapshot w s) pot d p))
  row_raise R pot d src kw s (err x, s') p k h =
      subst (λ (x : Session). R ≤ℤ reserve_of x) (sym k) h

  credit-Keeps :
      (R : Money) (pot : Pot) (a : Money) (src : CashflowSource) (kw : EntryOptions)
      → Keeps (λ s. R ≤ℤ reserve_of s) (credit py w tier pot a src kw)
  unfolding credit
  credit-Keeps R pot a src kw = record {
    after = λ s h. elim (Bool-cases (leb_ℤ a (pos 0))) [
      | inl bad ↦ rw bad h
      | inr good ↦
          let p = leb_ℤ-false a (pos 0) good in
          rw good (
            row_raise R pot a src kw s (record_entry py w tier pot a src kw s) (omega arith)
              (record_entry-Records py w tier pot a src kw s) h)
    ];
  }

  unsigned_is_refused :
      (a : PrintedDecimal) (date sig secret : Text) (s : Session)
      → (verify_emergency_hmac hmac_sha256 secret a date sig ≡ ok false)
        ⊎ (x : Exception) × (verify_emergency_hmac hmac_sha256 secret a date sig ≡ err x)
      → reserve_of (emergency_transfer py w tier hmac_sha256 a date sig secret s).1 <ℤ reserve_of s
      → ⊥
  unfolding emergency_transfer ◌>>=◌
  unsigned_is_refused a date sig secret s (inl bad) l = let l' = rw bad at l in omega (arith, l')
  unsigned_is_refused a date sig secret s (inr (x, raised)) l =
      let l' = rw raised at l in omega (arith, l')

  -- A request that lowers the reserve pot is an emergency transfer whose signature verifies, or a
  -- `record` or `debit` of that pot whose caller labels it as an emergency transfer.
  abbrev MayLowerReserve : Request → Type 0
  MayLowerReserve (record_request pot d src kw) = (pot ≡ reserve) × (is_emergency src ≡ true)
  MayLowerReserve (debit_request pot a src kw) = (pot ≡ reserve) × (is_emergency src ≡ true)
  MayLowerReserve (credit_request pot a src kw) = ⊥
  MayLowerReserve (inflow_request a src ref limit trailing) = ⊥
  MayLowerReserve (emergency_request a date sig secret) =
      verify_emergency_hmac hmac_sha256 secret a date sig ≡ ok true

  -- A request that lowers the reserve pot is an emergency transfer whose signature verifies, or a
  -- record or debit of that pot that its caller labels as an emergency transfer.
  pub reserve_lowered_only_by :
      (r : Request) (s : Session)
      → reserve_of (apply_request py w tier hmac_sha256 r s) <ℤ reserve_of s
      → MayLowerReserve r
  unfolding apply_request
  reserve_lowered_only_by (record_request pot d src kw) s l =
      row_lower pot d src kw s _ (record_entry-Records py w tier pot d src kw s) l
  reserve_lowered_only_by (debit_request pot a src kw) s l =
      row_lower pot _ src kw s _ (debit-Records py w tier pot a src kw s) l
  reserve_lowered_only_by (credit_request pot a src kw) s l =
      let h = (credit-Keeps (reserve_of s) pot a src kw).after s (omega arith) in omega (arith, h)
  reserve_lowered_only_by (inflow_request a src ref limit trailing) s l =
      let h =
        (inflow-Keeps py w tier (λ s'. reserve_of s ≤ℤ reserve_of s') (credit-Keeps (reserve_of s))
            a src ref limit trailing).after
          s (omega arith) in
      omega (arith, h)
  reserve_lowered_only_by (emergency_request a date sig secret) s l =
      elim (test_cases (verify_emergency_hmac hmac_sha256 secret a date sig)) [
        | inl good ↦ good
        | inr bad ↦ absurd (unsigned_is_refused a date sig secret s bad l)
      ]

module _ (py : Pydantic) (w : World) (tier : AgentTier) where
  -- A debit of the reserve pot that its caller labels as an emergency transfer is accepted with no
  -- signature and whatever the pot holds, for every positive amount that the ledger column can
  -- hold, and lowers the pot by that amount.
  pub labelled_debit_needs_no_signature :
      (a : Money) (s : Session)
      → pos 0 <ℤ a
      → magnitude a % 100 ≡ 0
      → magnitude a < 100 * 10 ^ 12
      → let (r, s') =
          debit py w tier reserve a emergency_transfer_reserve_to_operating default_options s in
        (r
          ≡ ok (
              new_entry py w tier reserve
                (neg a)
                emergency_transfer_reserve_to_operating
                default_options
                s))
        × ((snapshot w s').reserve_usd ≡ (snapshot w s).reserve_usd -ℤ a)
  unfolding debit
  labelled_debit_needs_no_signature a s p unit small =
      let some_money : leb_ℤ a (pos 0) ≡ false = ground arith in
      let src = emergency_transfer_reserve_to_operating in
      let kw = default_options in
      let accepted = (record_entry_accepts_iff py w tier reserve (neg a) src kw s).1 (
        (λ e. ground (arith, neg_parts a, ap pos_part e, ap neg_part e)),
        inr (unfold debit_rule in refl),
        omega (arith, neg_parts a),
        omega (arith, neg_parts a),
        omega arith,
      ) in
      let moved =
        accepted_balances py w tier reserve (neg a) src kw s _
          (record_entry-Records py w tier reserve (neg a) src kw s) accepted in
      rw some_money (
        accepted,
        subst (λ (x : PotSnapshot). x.reserve_usd ≡ (snapshot w s).reserve_usd -ℤ a) (sym moved)
            (omega int_laws),
      )
