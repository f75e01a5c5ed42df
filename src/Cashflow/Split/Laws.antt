-- ===== src/Cashflow/Split/Laws.antt =====
-- Laws of the inflow split: conservation, the exact shares, and the caps.
use self_spawn_agents.Prelude.{
  ℕ, ◌*◌, ◌+◌, ◌≤◌, ◌≡◌, refl, ap, Option, none, some, arith, Bool-cases, inl, inr,
}
use self_spawn_agents.Prelude.Decimal.{
  Money, IsLedgerUnit, percent_quantized, percent_unit, percent_bounds, quantize4, quantize4-eq,
}
use self_spawn_agents.Prelude.Int.{
  pos, negsuc, pos_part, neg_part, ltb_ℤ-true, ltb_ℤ-false, ◌+ℤ◌, ◌-ℤ◌, ◌≤ℤ◌, ◌<ℤ◌, ltb_ℤ, int_laws,
}
use self_spawn_agents.Cashflow.Split.{InflowSplit, overflow, split_inflow}

pub add-IsLedgerUnit : {a b : Money} → IsLedgerUnit a → IsLedgerUnit b → IsLedgerUnit (a +ℤ b)
unfolding ◌+ℤ◌
add-IsLedgerUnit h k = record { up = ground arith; down = ground arith }

pub sub-IsLedgerUnit : {a b : Money} → IsLedgerUnit a → IsLedgerUnit b → IsLedgerUnit (a -ℤ b)
unfolding ◌-ℤ◌
sub-IsLedgerUnit h k = record { up = ground arith; down = ground arith }

-- A cap in whole units, or no cap.
abbrev pub IsCap : Option Money → Type 0
IsCap none = Unit
IsCap (some c) = IsLedgerUnit c

overflow-IsLedgerUnit :
    (current : Money) (cap : Option Money) (share : Money)
    → IsLedgerUnit current
    → IsCap cap
    → IsLedgerUnit share
    → IsLedgerUnit (overflow current cap share)
unfolding overflow
overflow-IsLedgerUnit current none share h k l = record { up = refl; down = refl }
overflow-IsLedgerUnit current (some c) share h k l =
    elim (Bool-cases (ltb_ℤ c (current +ℤ share))) [
      | inl over ↦ rw over (sub-IsLedgerUnit (add-IsLedgerUnit h l) k)
      | inr within ↦ rw within (record { up = refl; down = refl })
    ]

-- A pot that holds its cap, or has none.
abbrev pub WithinCap : Money → Option Money → Type 0
WithinCap current none = Unit
WithinCap current (some c) = current ≤ℤ c

-- What a cap turns away is the least that makes the rest fit.
overflow_fits :
    (current c share : Money) → current +ℤ (share -ℤ overflow current (some c) share) ≤ℤ c
unfolding overflow
overflow_fits current c share = elim (Bool-cases (ltb_ℤ c (current +ℤ share))) [
  | inl over ↦ rw over (omega int_laws)
  | inr within ↦ rw within (omega (int_laws, ltb_ℤ-false c (current +ℤ share) within))
]

overflow-WithinCap :
    (current : Money) (limit : Option Money) (share : Money)
    → WithinCap (current +ℤ (share -ℤ overflow current limit share)) limit
overflow-WithinCap current none share = tt
overflow-WithinCap current (some c) share = overflow_fits current c share

overflow_nonneg :
    (current : Money) (limit : Option Money) (share : Money) → pos 0 ≤ℤ overflow current limit share
unfolding overflow
overflow_nonneg current none share = omega arith
overflow_nonneg current (some c) share = elim (Bool-cases (ltb_ℤ c (current +ℤ share))) [
  | inl over ↦ rw over (omega (int_laws, ltb_ℤ-true c (current +ℤ share) over))
  | inr within ↦ rw within (omega arith)
]

overflow_bounds :
    (current : Money) (limit : Option Money) (share : Money)
    → WithinCap current limit
    → pos 0 ≤ℤ share
    → overflow current limit share ≤ℤ share
unfolding overflow
overflow_bounds current none share h k = omega arith
overflow_bounds current (some c) share h k = elim (Bool-cases (ltb_ℤ c (current +ℤ share))) [
  | inl over ↦ rw over (omega (int_laws, ltb_ℤ-true c (current +ℤ share) over))
  | inr within ↦ rw within (omega arith)
]

overflow_past :
    (current c share : Money)
    → c <ℤ current
    → pos 0 ≤ℤ share
    → share -ℤ overflow current (some c) share ≡ c -ℤ current
unfolding overflow
overflow_past current c share past k = elim (Bool-cases (ltb_ℤ c (current +ℤ share))) [
  | inl over ↦ rw over (omega int_laws)
  | inr within ↦ absurd (omega (int_laws, ltb_ℤ-false c (current +ℤ share) within))
]

share_upper :
    (a : Money) (num : ℕ)
    → pos 0 <ℤ a
    → pos_part (percent_quantized a num) * 100 ≤ pos_part a * num + 5000
share_upper (pos n) num h = (percent_bounds n num).0
share_upper (negsuc n) num h = absurd (omega arith)

-- What is left of an amount after a quarter and 15 hundredths, rounded, is positive.
rest_pos :
    (a o r g rs gs : Money)
    → pos 0 <ℤ a
    → IsLedgerUnit a
    → IsLedgerUnit rs
    → IsLedgerUnit gs
    → r ≤ℤ rs
    → g ≤ℤ gs
    → pos_part rs * 100 ≤ pos_part a * 25 + 5000
    → pos_part gs * 100 ≤ pos_part a * 15 + 5000
    → neg_part a ≡ 0
    → neg_part rs ≡ 0
    → neg_part gs ≡ 0
    → pos_part (o +ℤ r +ℤ g) ≡ pos_part a
    → neg_part (o +ℤ r +ℤ g) ≡ neg_part a
    → pos 0 <ℤ o
rest_pos a o r g rs gs p ua ur ug hr hg br bg na nr ng ep en = omega int_laws

pub neg_part_of_nonneg : (a : Money) → pos 0 ≤ℤ a → neg_part a ≡ 0
neg_part_of_nonneg (pos n) h = refl
neg_part_of_nonneg (negsuc n) h = absurd (omega arith)

share_nonneg : (a : Money) (num : ℕ) → pos 0 <ℤ a → pos 0 ≤ℤ percent_quantized a num
share_nonneg (pos n) num h = omega (arith, percent_bounds n num)
share_nonneg (negsuc n) num h = absurd (omega arith)

-- The rest of an amount after its shares, with what the caps turned away, adds up again.
regroup : (a o r g x y : Money) → o +ℤ (a -ℤ (o +ℤ r +ℤ g)) +ℤ x +ℤ y +ℤ (r -ℤ x) +ℤ (g -ℤ y) ≡ a
regroup a o r g x y = omega int_laws

module _ (amount current_reserve : Money) (reserve_cap : Option Money) (current_growth : Money)
    (growth_cap : Option Money) where
  abbrev parts : InflowSplit
  parts = split_inflow amount current_reserve reserve_cap current_growth growth_cap

  abbrev reserve_share : Money
  reserve_share = percent_quantized amount 25

  abbrev growth_share : Money
  growth_share = percent_quantized amount 15

  abbrev over_reserve : Money
  over_reserve = overflow current_reserve reserve_cap reserve_share

  abbrev over_growth : Money
  over_growth = overflow current_growth growth_cap growth_share

  -- Amounts, balances and caps in whole ten-thousandths of a dollar.
  pub record IsWholeSplit : Type 0 where
    pub amount_whole : IsLedgerUnit amount
    pub reserve_whole : IsLedgerUnit current_reserve
    pub reserve_cap_whole : IsCap reserve_cap
    pub growth_whole : IsLedgerUnit current_growth
    pub growth_cap_whole : IsCap growth_cap

  module _ (whole : IsWholeSplit) where
    open whole use {
      amount_whole as ua, reserve_whole as ur, reserve_cap_whole as ucr, growth_whole as ug,
      growth_cap_whole as ucg,
    }

    reserve_part : parts.reserve ≡ reserve_share -ℤ over_reserve
    unfolding split_inflow
    reserve_part =
        let u = percent_unit amount 25 in
        quantize4-eq _
          (sub-IsLedgerUnit u (overflow-IsLedgerUnit current_reserve reserve_cap _ ur ucr u))

    growth_part : parts.growth ≡ growth_share -ℤ over_growth
    unfolding split_inflow
    growth_part =
        let u = percent_unit amount 15 in
        quantize4-eq _
          (sub-IsLedgerUnit u (overflow-IsLedgerUnit current_growth growth_cap _ ug ucg u))

    -- With the amount, the balances and the caps in whole ten-thousandths of a dollar, the three
    -- parts of an inflow add up to the inflow, capped or not.
    pub split_conserves : parts.operating +ℤ parts.reserve +ℤ parts.growth ≡ amount
    unfolding split_inflow
    split_conserves =
        let o = percent_quantized amount 60 in
        let uo : IsLedgerUnit o = percent_unit amount 60 in
        let ure : IsLedgerUnit reserve_share = percent_unit amount 25 in
        let ugr : IsLedgerUnit growth_share = percent_unit amount 15 in
        let ux = overflow-IsLedgerUnit current_reserve reserve_cap reserve_share ur ucr ure in
        let uy = overflow-IsLedgerUnit current_growth growth_cap growth_share ug ucg ugr in
        let rest = sub-IsLedgerUnit ua (add-IsLedgerUnit (add-IsLedgerUnit uo ure) ugr) in
        let e =
          quantize4-eq _ (add-IsLedgerUnit (add-IsLedgerUnit (add-IsLedgerUnit uo rest) ux) uy) in
        rw (e, reserve_part, growth_part)
          (regroup amount o reserve_share growth_share over_reserve over_growth)

    -- With the amount, the balances and the caps in whole ten-thousandths of a dollar, no part of
    -- an inflow brings the reserve or the growth pot past its cap.
    split_within_caps :
        WithinCap (current_reserve +ℤ parts.reserve) reserve_cap
        × WithinCap (current_growth +ℤ parts.growth) growth_cap
    split_within_caps = (
      rw reserve_part (overflow-WithinCap current_reserve reserve_cap reserve_share),
      rw growth_part (overflow-WithinCap current_growth growth_cap growth_share),
    )

    -- With the amount, the balances and the caps in whole ten-thousandths of a dollar: the three
    -- parts of an inflow add up to the inflow, capped or not, and no part brings the reserve or
    -- the growth pot past its cap.
    pub split_fits :
        (parts.operating +ℤ parts.reserve +ℤ parts.growth ≡ amount)
        × (WithinCap (current_reserve +ℤ parts.reserve) reserve_cap
            × WithinCap (current_growth +ℤ parts.growth) growth_cap)
    split_fits = (split_conserves, split_within_caps)

    -- The parts are whole ten-thousandths of a dollar again.
    pub split_units :
        IsLedgerUnit parts.operating × IsLedgerUnit parts.reserve × IsLedgerUnit parts.growth
    unfolding split_inflow quantize4
    split_units = (percent_unit _ 100, percent_unit _ 100, percent_unit _ 100)

    -- A pot that is past its cap gets the difference as a negative part.
    pub growth_part_past_cap :
        (c : Money)
        → growth_cap ≡ some c
        → c <ℤ current_growth
        → pos 0 <ℤ amount
        → parts.growth ≡ c -ℤ current_growth
    growth_part_past_cap c e past p =
        rw (growth_part, e)
          (overflow_past current_growth c growth_share past (share_nonneg amount 15 p))

    module _ (positive : pos 0 <ℤ amount) where
      pub reserve_part_nonneg : WithinCap current_reserve reserve_cap → pos 0 ≤ℤ parts.reserve
      reserve_part_nonneg room =
          let b =
            overflow_bounds current_reserve reserve_cap reserve_share room
              (share_nonneg amount 25 positive) in
          rw reserve_part (omega (int_laws, b))

      pub growth_part_nonneg : WithinCap current_growth growth_cap → pos 0 ≤ℤ parts.growth
      growth_part_nonneg room =
          let b =
            overflow_bounds current_growth growth_cap growth_share room
              (share_nonneg amount 15 positive) in
          rw growth_part (omega (int_laws, b))

      -- A positive inflow gives the operating pot a positive part, whatever the caps.
      pub operating_part_pos : pos 0 <ℤ parts.operating
      operating_part_pos =
          let nr = share_nonneg amount 25 positive in
          let ng = share_nonneg amount 15 positive in
          let lr : parts.reserve ≤ℤ reserve_share =
            rw reserve_part
              (omega (int_laws, overflow_nonneg current_reserve reserve_cap reserve_share)) in
          let lg : parts.growth ≤ℤ growth_share =
            rw growth_part
              (omega (int_laws, overflow_nonneg current_growth growth_cap growth_share)) in
          rest_pos amount parts.operating parts.reserve parts.growth reserve_share growth_share
            positive ua (percent_unit amount 25) (percent_unit amount 15) lr lg
            (share_upper amount 25 positive) (share_upper amount 15 positive)
            (neg_part_of_nonneg amount (omega arith)) (neg_part_of_nonneg reserve_share nr)
            (neg_part_of_nonneg growth_share ng) (ap pos_part split_conserves)
            (ap neg_part split_conserves)
