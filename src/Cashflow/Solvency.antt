-- ===== src/Cashflow/Solvency.antt =====
-- The hard floors of the pots under every sequence of requests.
use self_spawn_agents.Prelude.{
  ◌≡◌, List, Result, ok, err, Text, arith, Bool-cases, inl, inr, false, if◌then◌else◌,
  insufficient_funds, Option, none, some,
}
use self_spawn_agents.Prelude.Decimal.{Money, usd}
use self_spawn_agents.Prelude.Keeps.{Keeps}
use self_spawn_agents.Prelude.Int.{pos, ◌+ℤ◌, ◌≤ℤ◌, ◌<ℤ◌, ltb_ℤ, ltb_ℤ-true, ltb_ℤ-false, int_laws}
use self_spawn_agents.Schemas.Common.{AgentTier, World, Pydantic}
use self_spawn_agents.Schemas.Ledger.{
  Pot, operating, reserve, growth, CashflowSource, CashflowEntry,
}
use self_spawn_agents.Cashflow.Floors.{PotSnapshot, get, operating_hard_floor_usd}
use self_spawn_agents.Cashflow.Ledger.{
  Session, EntryOptions, add_delta, snapshot, debit_rule, record_entry,
}
use self_spawn_agents.Cashflow.Requests.{Request, run_requests}
use self_spawn_agents.Cashflow.Requests.Preserve.{run_requests-keeps}
use self_spawn_agents.Cashflow.Writes.{Records, record_entry-Records}

-- What the debits of a pot may not go below: the reserve has a rule of its own in place of it.
abbrev pub least : Pot → Option Money
least operating = some operating_hard_floor_usd
least reserve = none
least growth = some (pos 0)

-- The pot holds its least balance.
abbrev pub HoldsFloor : Pot → PotSnapshot → Type 0
HoldsFloor pot s = elim (least pot) [ none ↦ Unit {0} | some floor ↦ floor ≤ℤ get s pot ]

-- A balance stays over a floor if a debit is tested against it.
floor_kept :
    (floor b d : Money) → (d <ℤ pos 0 → ltb_ℤ (b +ℤ d) floor ≡ false) → floor ≤ℤ b → floor ≤ℤ b +ℤ d
floor_kept floor b d rule h = elim (Bool-cases (ltb_ℤ d (pos 0))) [
  | inl lower ↦ ltb_ℤ-false (b +ℤ d) floor (rule (ltb_ℤ-true d (pos 0) lower))
  | inr higher ↦ omega (int_laws, ltb_ℤ-false d (pos 0) higher)
]

rule_floor :
    (b floor : Money)
    → ◌≡◌ {A = Result (Unit {0})} (if ltb_ℤ b floor then err insufficient_funds else ok tt) (ok tt)
    → ltb_ℤ b floor ≡ false
rule_floor b floor h = ground arith

-- A change of any pot that the debit rule allows keeps the floor of each single pot.
add_delta-HoldsFloor :
    (kept pot : Pot) (s : PotSnapshot) (d : Money) (source : CashflowSource)
    → (d <ℤ pos 0 → debit_rule pot (get s pot +ℤ d) source ≡ ok tt)
    → HoldsFloor kept s
    → HoldsFloor kept (add_delta s pot d)
unfolding debit_rule
add_delta-HoldsFloor operating operating s d source rule h =
    floor_kept (usd 50) s.operating_usd d (λ l. rule_floor (s.operating_usd +ℤ d) (usd 50) (rule l))
      h
add_delta-HoldsFloor operating reserve s d source rule h = h
add_delta-HoldsFloor operating growth s d source rule h = h
add_delta-HoldsFloor reserve pot s d source rule h = tt
add_delta-HoldsFloor growth operating s d source rule h = h
add_delta-HoldsFloor growth reserve s d source rule h = h
add_delta-HoldsFloor growth growth s d source rule h =
    floor_kept (pos 0) s.growth_usd d (λ l. rule_floor (s.growth_usd +ℤ d) (pos 0) (rule l)) h

module _ (py : Pydantic) (w : World) (tier : AgentTier) (kept : Pot) where
  record-HoldsFloor :
      (pot : Pot) (d : Money) (src : CashflowSource) (kw : EntryOptions)
      → Keeps (λ s. HoldsFloor kept (snapshot w s)) (record_entry py w tier pot d src kw)
  record-HoldsFloor pot d src kw = record {
    after = λ s h.
        recorded s (record_entry py w tier pot d src kw s)
          (record_entry-Records py w tier pot d src kw s) h;
  }
    where
      recorded :
          (s : Session) (r : Result CashflowEntry × Session)
          → Records py w tier pot d src kw s r
          → HoldsFloor kept (snapshot w s)
          → HoldsFloor kept (snapshot w r.1)
      recorded s (ok e, s') k h =
          rw k.balances (add_delta-HoldsFloor kept pot (snapshot w s) d src k.allowed h)
      recorded s (err x, s') k h = rw k h

-- For the operating pot with its hard floor of $50, and likewise for the growth pot with zero,
-- each on its own and whatever the other pots hold: if the pot is at its floor or above, it is so
-- after any sequence of requests to the cashflow service, whether they return or raise.
pub run_requests-HoldsFloor :
    (py : Pydantic) (w : World) (tier : AgentTier) (hmac_sha256 : Text → Text → Text) (pot : Pot)
    (rs : List Request) (s : Session)
    → HoldsFloor pot (snapshot w s)
    → HoldsFloor pot (snapshot w (run_requests py w tier hmac_sha256 rs s))
run_requests-HoldsFloor py w tier hmac_sha256 pot =
    run_requests-keeps py w tier hmac_sha256 (λ s. HoldsFloor pot (snapshot w s))
      (record-HoldsFloor py w tier pot)

-- Both floors hold.
pub record IsSolvent (s : PotSnapshot) : Type 0 where
  pub floor : HoldsFloor operating s
  pub growth_nonneg : HoldsFloor growth s

pub run_requests-IsSolvent :
    (py : Pydantic) (w : World) (tier : AgentTier) (hmac_sha256 : Text → Text → Text)
    (rs : List Request) (s : Session)
    → IsSolvent (snapshot w s)
    → IsSolvent (snapshot w (run_requests py w tier hmac_sha256 rs s))
run_requests-IsSolvent py w tier hmac_sha256 rs s h = record {
  floor = run_requests-HoldsFloor py w tier hmac_sha256 operating rs s h.floor;
  growth_nonneg = run_requests-HoldsFloor py w tier hmac_sha256 growth rs s h.growth_nonneg;
}
