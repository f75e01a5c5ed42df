-- ===== src/Cashflow/Inflow/Totals.antt =====
-- `split_and_record_inflow`: an inflow adds exactly its amount to the pots while they hold their
-- caps, and more than its amount when the growth pot is past its cap.
use self_spawn_agents.Prelude.{◌≡◌, ◌<◌, ◌*◌, ◌^◌, ap, refl, subst, ◌∙◌, Option, some, Text, arith}
use self_spawn_agents.Prelude.Decimal.{Money, IsLedgerUnit, percent_unit}
use self_spawn_agents.Prelude.Int.{
  pos, pos_part, neg_part, ◌+ℤ◌, ◌-ℤ◌, ◌≤ℤ◌, ◌<ℤ◌, magnitude, int_laws,
}
use self_spawn_agents.Schemas.Common.{AgentTier, World, Pydantic}
use self_spawn_agents.Schemas.Ledger.{CashflowSource}
use self_spawn_agents.Cashflow.Floors.{PotSnapshot, growth_cap_from_trailing_revenue}
use self_spawn_agents.Cashflow.Split.{InflowSplit, split_inflow}
use self_spawn_agents.Cashflow.Split.Laws.{
  neg_part_of_nonneg, IsCap, WithinCap, IsWholeSplit, split_conserves, split_units,
  growth_part_past_cap, reserve_part_nonneg, growth_part_nonneg, operating_part_pos,
}
use self_spawn_agents.Cashflow.Ledger.{
  Session, snapshot, default_options, record_split, split_and_record_inflow,
}
use self_spawn_agents.Cashflow.Inflow.{Fits, paid, Pays, record_split-Pays}

paid_nonneg : (a : Money) → pos 0 ≤ℤ a → paid a ≡ a
paid_nonneg a h = ground arith

paid_negative : (a : Money) → a <ℤ pos 0 → paid a ≡ pos 0
paid_negative a h = ground arith

-- Three parts that add up to an amount, none of them negative, are no larger than it.
part_small :
    (o r g a : Money)
    → pos 0 ≤ℤ o
    → pos 0 ≤ℤ r
    → pos 0 ≤ℤ g
    → pos_part (o +ℤ r +ℤ g) ≡ pos_part a
    → neg_part (o +ℤ r +ℤ g) ≡ neg_part a
    → magnitude a < 100 * 10 ^ 12
    → (magnitude o < 100 * 10 ^ 12) × (magnitude r < 100 * 10 ^ 12) × (magnitude g < 100 * 10 ^ 12)
part_small o r g a ho hr hg ep en h =
    omega (int_laws, neg_part_of_nonneg o ho, neg_part_of_nonneg r hr, neg_part_of_nonneg g hg)

reassociate : (o r g : Money) → o +ℤ (r +ℤ (g +ℤ pos 0)) ≡ o +ℤ r +ℤ g
reassociate o r g = omega int_laws

excess :
    (o r g a held limit : Money)
    → o +ℤ r +ℤ g ≡ a
    → g ≡ limit -ℤ held
    → o +ℤ r +ℤ pos 0 ≡ a +ℤ (held -ℤ limit)
excess o r g a held limit e1 e2 = rw (← e1, e2) (omega int_laws)

-- The pots and the caps in whole ten-thousandths of a dollar.
pub record IsWhole (s : PotSnapshot) (limit : Option Money) : Type 0 where
  pub reserve_whole : IsLedgerUnit s.reserve_usd
  pub growth_whole : IsLedgerUnit s.growth_usd
  pub limit_whole : IsCap limit

module _ (py : Pydantic) (w : World) (tier : AgentTier) (amount : Money) (src : CashflowSource)
    (ref : Option Text) (limit : Option Money) (trailing : Money) (s : Session) (fits : Fits amount)
    (positive : pos 0 <ℤ amount) (whole : IsWhole (snapshot w s) limit)
    (room : WithinCap (snapshot w s).reserve_usd limit) where
  abbrev sn : PotSnapshot
  sn = snapshot w s

  abbrev growth_cap : Money
  growth_cap = growth_cap_from_trailing_revenue trailing

  abbrev p : InflowSplit
  p = split_inflow amount sn.reserve_usd limit sn.growth_usd (some growth_cap)

  growth_cap_whole : IsLedgerUnit growth_cap
  unfolding growth_cap_from_trailing_revenue
  growth_cap_whole = percent_unit trailing 30

  inputs : IsWholeSplit amount sn.reserve_usd limit sn.growth_usd (some growth_cap)
  inputs = record {
    amount_whole = fits.unit;
    reserve_whole = whole.reserve_whole;
    reserve_cap_whole = whole.limit_whole;
    growth_whole = whole.growth_whole;
    growth_cap_whole = growth_cap_whole;
  }

  conserved : p.operating +ℤ p.reserve +ℤ p.growth ≡ amount
  conserved = split_conserves _ _ _ _ _ inputs

  units : IsLedgerUnit p.operating × IsLedgerUnit p.reserve × IsLedgerUnit p.growth
  units = split_units _ _ _ _ _ inputs

  ho : pos 0 <ℤ p.operating
  ho = operating_part_pos _ _ _ _ _ inputs positive

  hr : pos 0 ≤ℤ p.reserve
  hr = reserve_part_nonneg _ _ _ _ _ inputs positive room

  -- For a positive inflow of whole ten-thousandths of a dollar below the limit of the ledger
  -- column, with the pots and the reserve cap in the same units, and while the reserve and growth
  -- pots hold their caps: the inflow is recorded without an exception and the three pots together
  -- rise by exactly its amount.
  pub inflow_conserves :
      sn.growth_usd ≤ℤ growth_cap
      → Pays w amount s (split_and_record_inflow py w tier amount src ref limit trailing s)
  unfolding split_and_record_inflow
  inflow_conserves room_g =
      let hg = growth_part_nonneg _ _ _ _ _ inputs positive room_g in
      let small =
        part_small p.operating p.reserve p.growth amount (omega (arith, ho)) hr hg
          (ap pos_part conserved) (ap neg_part conserved) fits.small in
      let e : p.operating +ℤ (paid p.reserve +ℤ (paid p.growth +ℤ pos 0)) ≡ amount =
        rw (paid_nonneg p.reserve hr, paid_nonneg p.growth hg)
          (reassociate p.operating p.reserve p.growth ∙ conserved) in
      subst
        (λ a. Pays w a s (record_split py w tier p src (record default_options { ref_id = ref }) s))
        e
        (record_split-Pays py w tier src ref p s ho (record { unit = units.0; small = small.0 })
          (λ _. record { unit = units.1; small = small.1 })
          (λ _. record { unit = units.2; small = small.2 }))

  -- Under the conditions of inflow_conserves, but with the growth pot past its cap: the three pots
  -- together rise by the inflow plus the excess of the growth pot over its cap, provided that sum
  -- is below the limit of the ledger column.
  pub inflow_past_growth_cap :
      growth_cap <ℤ sn.growth_usd
      → magnitude (amount +ℤ (sn.growth_usd -ℤ growth_cap)) < 100 * 10 ^ 12
      → Pays w
          (amount +ℤ (sn.growth_usd -ℤ growth_cap))
          s
          (split_and_record_inflow py w tier amount src ref limit trailing s)
  unfolding split_and_record_inflow
  inflow_past_growth_cap past small =
      let g : p.growth ≡ growth_cap -ℤ sn.growth_usd =
        growth_part_past_cap _ _ _ _ _ inputs growth_cap refl past positive in
      let low : p.growth <ℤ pos 0 = rw g (omega int_laws) in
      let more = amount +ℤ (sn.growth_usd -ℤ growth_cap) in
      let sum : p.operating +ℤ p.reserve +ℤ pos 0 ≡ more =
        excess p.operating p.reserve p.growth amount sn.growth_usd growth_cap conserved g in
      let bounds =
        part_small p.operating p.reserve (pos 0) more (omega (arith, ho)) hr (omega arith)
          (ap pos_part sum) (ap neg_part sum) small in
      let e : p.operating +ℤ (paid p.reserve +ℤ (paid p.growth +ℤ pos 0)) ≡ more =
        rw (paid_nonneg p.reserve hr, paid_negative p.growth low)
          (reassociate p.operating p.reserve (pos 0) ∙ sum) in
      subst
        (λ a. Pays w a s (record_split py w tier p src (record default_options { ref_id = ref }) s))
        e
        (record_split-Pays py w tier src ref p s ho (record { unit = units.0; small = bounds.0 })
          (λ _. record { unit = units.1; small = bounds.1 }) (λ h. absurd (omega (arith, h))))
