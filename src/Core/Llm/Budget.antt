-- ===== src/Core/Llm/Budget.antt =====
-- Budget laws of the LLM client.
use self_spawn_agents.Prelude.{
  ℕ, not, ◌≡◌, ◌≢◌, ◌%◌, ◌↔◌, ◌⊎◌, refl, ap, true, Option, none, some, [], ◌∷◌, ◌++◌, Result, ok,
  err, Exception, Text, arith, Bool-cases, inl, inr, budget_exceeded, system_halted,
}
use self_spawn_agents.Prelude.Decimal.{Money, usd}
use self_spawn_agents.Prelude.Int.{pos, ◌+ℤ◌, ◌-ℤ◌, ◌≤ℤ◌, ltb_ℤ, neg, magnitude, neg_parts}
use self_spawn_agents.Schemas.Common.{AgentTier, ModelId, TaskKind, World, Pydantic}
use self_spawn_agents.Core.Trust.{SystemState, normal, hard_stop}
use self_spawn_agents.Core.Router.{route, estimate_cost_usd}
use self_spawn_agents.Core.Llm.{
  response, BudgetState, LlmResponse, Completion, Provider, ClientState, assert_budget,
  operating_for, post_call_debit, settle, proceed, call, within_monthly,
}
use self_spawn_agents.Schemas.Ledger.{operating, cost_anthropic, CashflowEntry}
use self_spawn_agents.Cashflow.Ledger.{Session, snapshot, debit, default_options}
use self_spawn_agents.Cashflow.Requests.{debit_request, apply_request, run_requests}
use self_spawn_agents.Cashflow.Writes.{Records, debit-Records}
use self_spawn_agents.Cashflow.Solvency.{IsSolvent, run_requests-IsSolvent}

-- The month's budget, where there is one, covers the cost.
abbrev Covers : Money → Money → Option Money → Type 0
Covers spent cost none = Unit
Covers spent cost (some limit) = spent +ℤ cost ≤ℤ limit

abbrev pub MonthCovers : Money → Option BudgetState → Type 0
MonthCovers cost none = Unit
MonthCovers cost (some b) = Covers b.spent_mtd_usd cost b.monthly_budget_usd

within_monthly_iff :
    (cost : Money) (b : BudgetState)
    → (within_monthly cost b ≡ true) ↔ Covers b.spent_mtd_usd cost b.monthly_budget_usd
unfolding within_monthly
within_monthly_iff cost b = covers b.monthly_budget_usd
  where
    covers :
        (limit : Option Money)
        → ((elim limit [ none ↦ true | some l ↦ not (ltb_ℤ l (b.spent_mtd_usd +ℤ cost)) ]) ≡ true)
          ↔ Covers b.spent_mtd_usd cost limit
    covers none = (λ h. tt, λ h. refl)
    covers (some l) = (λ h. ground arith, λ h. ground arith)

pub assert_budget_iff :
    (pot cost : Money) (budget : Option BudgetState)
    → (assert_budget pot cost budget ≡ ok tt) ↔ ((usd 50 ≤ℤ pot -ℤ cost) × MonthCovers cost budget)
unfolding assert_budget
assert_budget_iff pot cost none = (λ h. (ground arith, tt), λ h. ground arith)
assert_budget_iff pot cost (some b) = (
  λ h. (ground arith, (within_monthly_iff cost b).0 (ground arith)),
  λ h. let inside = (within_monthly_iff cost b).1 h.1 in ground (arith, inside),
)

assert_budget_cases :
    (pot cost : Money) (budget : Option BudgetState)
    → (assert_budget pot cost budget ≡ ok tt)
      ⊎ (assert_budget pot cost budget ≡ err budget_exceeded)
unfolding assert_budget
assert_budget_cases pot cost none = ground arith
assert_budget_cases pot cost (some b) = ground arith

budget_contradiction : {r : Result (Unit {0})} → r ≡ err budget_exceeded → r ≡ ok tt → ⊥
budget_contradiction h k = cc

-- What a refused call raises.
abbrev refusal : SystemState → Exception
refusal hard_stop = system_halted
refusal normal = budget_exceeded

-- The floors of the ledger, where the client has one.
abbrev pub LedgerIsSolvent : World → Option Session → Type 0
LedgerIsSolvent w none = Unit
LedgerIsSolvent w (some s) = IsSolvent (snapshot w s)

module _ (py : Pydantic) (w : World) (tier : AgentTier) where
  debit-IsSolvent :
      (a : Money) (s : Session)
      → IsSolvent (snapshot w s)
      → IsSolvent (snapshot w (debit py w tier operating a cost_anthropic default_options s).1)
  debit-IsSolvent a s h =
      unfold run_requests apply_request in
      run_requests-IsSolvent py w tier (λ secret msg. msg)
        (debit_request operating a cost_anthropic default_options ∷ []) s h

  settle-IsSolvent :
      (model : ModelId) (r : Result Completion) (st : ClientState)
      → LedgerIsSolvent w st.ledger
      → LedgerIsSolvent w (settle py w tier model r st).1.ledger
  unfolding settle
  settle-IsSolvent model (err x) st h = h
  settle-IsSolvent model (ok c) st h =
      debited (estimate_cost_usd model c.used_in c.used_out) st.ledger h
    where
      debited :
          (cost : Money) (l : Option Session)
          → LedgerIsSolvent w l
          → LedgerIsSolvent w (post_call_debit py w tier cost l)
      debited cost none h = unfold post_call_debit in tt
      debited cost (some s) h =
          unfold post_call_debit in
          elim (Bool-cases (ltb_ℤ (pos 0) cost)) [
            | inl some_cost ↦ rw some_cost (debit-IsSolvent cost s h)
            | inr no_cost ↦ rw no_cost h
          ]

  refused :
      (cost : Money) (s : Session) (r : Result CashflowEntry × Session)
      → magnitude cost % 100 ≢ 0
      → Records py w tier operating (neg cost) cost_anthropic default_options s r
      → r.1 ≡ s
  refused cost s (err x, s') h k = k
  refused cost s (ok e, s') h k =
      let fits = k.fits in
      absurd (h (ground (arith, fits, py.decimal_12_4_iff (neg cost), neg_parts cost)))

  -- A call whose cost is not a whole number of ten-thousandths of a dollar leaves no debit in the
  -- ledger: the entry fails its field check, and the client drops the exception.
  pub fractional_cost_is_not_debited :
      (cost : Money) (l : Option Session)
      → magnitude cost % 100 ≢ 0
      → post_call_debit py w tier cost l ≡ l
  unfolding post_call_debit
  fractional_cost_is_not_debited cost none h = refl
  fractional_cost_is_not_debited cost (some s) h = elim (Bool-cases (ltb_ℤ (pos 0) cost)) [
    | inl some_cost ↦ rw some_cost (
        ap some (
          refused cost s _ h
            (debit-Records py w tier operating cost cost_anthropic default_options s)))
    | inr no_cost ↦ rw no_cost refl
  ]

module _ (py : Pydantic) (w : World) (tier : AgentTier) (provider : Provider) where
  calls-settle :
      (model : ModelId) (r : Result Completion) (st : ClientState)
      → (settle py w tier model r st).1.provider_calls ≡ st.provider_calls
  unfolding settle
  calls-settle model (err x) st = refl
  calls-settle model (ok c) st = refl

  module _ (agent : AgentTier) (task : TaskKind) (system user : Text)
      (max_tokens expected_tokens_in : ℕ) (budget : Option BudgetState) (st : ClientState) where
    abbrev pot : Money
    pot = operating_for w budget st.ledger

    abbrev model : ModelId
    model = route agent task pot

    abbrev est_cost : Money
    est_cost = estimate_cost_usd model expected_tokens_in max_tokens

    abbrev after : SystemState → Result LlmResponse × ClientState
    after state =
        call py w tier provider state agent task system user max_tokens expected_tokens_in budget st

    -- The call goes to the provider, and the estimate was tested.
    abbrev pub Called : SystemState → Type 0
    Called state =
        (state ≡ normal)
        × (usd 50 ≤ℤ pot -ℤ est_cost)
        × MonthCovers est_cost budget
        × ((after state).1.provider_calls ≡ st.provider_calls ++ model ∷ [])

    -- The call raises and changes nothing.
    abbrev pub Refused : SystemState → Type 0
    Refused state =
        ((state ≡ hard_stop) ⊎ (¬ ((usd 50 ≤ℤ pot -ℤ est_cost) × MonthCovers est_cost budget)))
        × (after state ≡ (err (refusal state), st))

    -- The provider is called, once and with the routed model, exactly when the system is not
    -- stopped and the estimate leaves the operating floor and the budget of the month; otherwise
    -- the call raises and changes nothing.
    pub Called-or-Refused : (state : SystemState) → Called state ⊎ Refused state
    unfolding call proceed
    Called-or-Refused hard_stop = inr (inl refl, refl)
    Called-or-Refused normal = elim (assert_budget_cases pot est_cost budget) [
      | inl fine ↦
          let (floor, month) = (assert_budget_iff pot est_cost budget).0 fine in
          inl (refl, floor, month, rw fine (calls-settle model _ _))
      | inr over ↦ inr (
        inr (λ h. budget_contradiction over ((assert_budget_iff pot est_cost budget).1 h)),
        rw over refl,
      )
    ]

    -- A call keeps the floors of the ledger that it debits, whatever it really costs.
    call-IsSolvent :
        (state : SystemState)
        → LedgerIsSolvent w st.ledger
        → LedgerIsSolvent w (after state).1.ledger
    unfolding call proceed
    call-IsSolvent hard_stop h = h
    call-IsSolvent normal h = elim (assert_budget_cases pot est_cost budget) [
      | inl fine ↦ rw fine (settle-IsSolvent py w tier model _ _ h)
      | inr over ↦ rw over h
    ]

    -- A call that goes through and whose real cost is not a whole number of ten-thousandths of a
    -- dollar returns its answer and leaves the ledger without a debit.
    pub fractional_cost_is_not_billed :
        (c : Completion)
        → assert_budget pot est_cost budget ≡ ok tt
        → provider model system user max_tokens ≡ ok c
        → magnitude (estimate_cost_usd model c.used_in c.used_out) % 100 ≢ 0
        → let (r, st') = after normal in
          (r ≡ ok (response py w tier model c)) × (st'.ledger ≡ st.ledger)
    unfolding call proceed settle
    fractional_cost_is_not_billed c fine answer odd =
        rw (fine, answer)
          (
            refl,
            fractional_cost_is_not_debited py w tier (estimate_cost_usd model c.used_in c.used_out)
                st.ledger odd,
          )
