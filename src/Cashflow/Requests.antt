-- ===== src/Cashflow/Requests.antt =====
-- Any caller's use of the cashflow service: the public writing methods as requests, run one after
-- the other. A caller may catch what a request raises and go on, so a run goes
-- on after an error.
pub mod Preserve
use self_spawn_agents.Prelude.{Option, List, [], ◌∷◌, Result, Action, Text}
use self_spawn_agents.Prelude.Refines.{observe}
use self_spawn_agents.Prelude.Decimal.{Money}
use self_spawn_agents.Schemas.Common.{AgentTier, World, Pydantic}
use self_spawn_agents.Schemas.Ledger.{Pot, CashflowSource, CashflowEntry}
use self_spawn_agents.Cashflow.Ledger.{
  Session, EntryOptions, PrintedDecimal, record_entry, debit, credit, split_and_record_inflow,
  emergency_transfer,
}

pub data Request : Type 0 where
  record_request debit_request credit_request :
      Pot → Money → CashflowSource → EntryOptions → Request
  inflow_request : Money → CashflowSource → Option Text → Option Money → Money → Request
  emergency_request : PrintedDecimal → Text → Text → Text → Request

-- The values of one kind that a method returns, as a list.
module _ {A : Type 0} where
  abbrev pub one : A → List A
  one a = a ∷ []

  abbrev pub two : A × A → List A
  two p = p.0 ∷ p.1 ∷ []

  abbrev pub three : A × A × A → List A
  three p = p.0 ∷ p.1 ∷ p.2 ∷ []

module _ (py : Pydantic) (w : World) (tier : AgentTier) (hmac_sha256 : Text → Text → Text) where
  -- What the caller gets of a request: the entries that it returned, in their order, or what it
  -- raised.
  unfoldable pub answer_request : Request → Action Session (List CashflowEntry)
  answer_request (record_request pot d src kw) s =
      observe (λ t. t) one (record_entry py w tier pot d src kw s)
  answer_request (debit_request pot a src kw) s =
      observe (λ t. t) one (debit py w tier pot a src kw s)
  answer_request (credit_request pot a src kw) s =
      observe (λ t. t) one (credit py w tier pot a src kw s)
  answer_request (inflow_request a src ref cap trailing) s =
      observe (λ t. t) three (split_and_record_inflow py w tier a src ref cap trailing s)
  answer_request (emergency_request a date sig secret) s =
      observe (λ t. t) two (emergency_transfer py w tier hmac_sha256 a date sig secret s)

  unfoldable pub apply_request : Request → Session → Session
  unfolding answer_request
  apply_request r s = (answer_request r s).1

  unfoldable pub run_requests : List Request → Session → Session
  run_requests [] s = s
  run_requests (r ∷ rs) s = run_requests rs (apply_request r s)

  -- The answers to a sequence of requests.
  unfoldable pub answers : List Request → Session → List (Result (List CashflowEntry))
  answers [] s = []
  answers (r ∷ rs) s = (answer_request r s).0 ∷ answers rs (apply_request r s)
