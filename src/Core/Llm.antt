-- ===== src/Core/Llm.antt =====
-- aae/core/llm_client.py: one call of the budget-aware client. The provider, which is the service
-- behind the client, is a function; the state holds the ledger that the client debits, if it has
-- one, and the models that the provider was called with.
pub mod Budget
mod Tests
use self_spawn_agents.Prelude.{
  ℕ, Bool, true, false, ◌&&◌, Option, none, some, List, [], ◌∷◌, ◌++◌, Result, ok, err, Action,
  Exception, pure, gets, require, ◌>>=◌, ◌>>◌, if◌then◌else◌, not, Text, budget_exceeded,
  system_halted,
}
use self_spawn_agents.Prelude.Decimal.{Money, usd}
use self_spawn_agents.Prelude.Int.{pos, ◌+ℤ◌, ◌-ℤ◌, ltb_ℤ}
use self_spawn_agents.Schemas.Common.{AgentTier, ModelId, TaskKind, World, Pydantic}
use self_spawn_agents.Schemas.Ledger.{operating, cost_anthropic}
use self_spawn_agents.Core.Trust.{SystemState, normal, hard_stop}
use self_spawn_agents.Core.Router.{route, estimate_cost_usd}
use self_spawn_agents.Cashflow.Floors.{operating_hard_floor_usd}
use self_spawn_agents.Cashflow.Ledger.{Session, default_options, balance, debit}

pub record BudgetState : Type 0 where
  pub operating_pot_usd : Money
  pub monthly_budget_usd : Option Money
  pub spent_mtd_usd : Money

pub record LlmResponse : Type 0 where
  pub model : ModelId
  pub content : Text
  pub tokens_in : ℕ
  pub tokens_out : ℕ
  pub cost_usd : Money

-- What the provider gives back: a text and the tokens counted.
pub record Completion : Type 0 where
  pub text : Text
  pub used_in : ℕ
  pub used_out : ℕ

-- `model`, `system`, `user`, `max_tokens`
abbrev pub Provider : Type 0
Provider = ModelId → Text → Text → ℕ → Result Completion

pub record ClientState : Type 0 where
  pub ledger : Option Session
  pub provider_calls : List ModelId

unfoldable pub within_monthly : Money → BudgetState → Bool
within_monthly est_cost b = elim b.monthly_budget_usd [
  | none ↦ true
  | some limit ↦ not (ltb_ℤ limit (b.spent_mtd_usd +ℤ est_cost))
]

unfoldable pub assert_budget : Money → Money → Option BudgetState → Result (Unit {0})
unfolding within_monthly
assert_budget pot est_cost budget =
    if ltb_ℤ (pot -ℤ est_cost) operating_hard_floor_usd then err budget_exceeded else elim budget [
      | none ↦ ok tt
      | some b ↦ if within_monthly est_cost b then ok tt else err budget_exceeded
    ]

-- The pot that the call is tested against: the budget's, the ledger's, or $1000.
unfoldable pub operating_for : World → Option BudgetState → Option Session → Money
operating_for w (some b) ledger = b.operating_pot_usd
operating_for w none (some s) = (balance w s).operating
operating_for w none none = usd 1000

module _ (py : Pydantic) (w : World) (tier : AgentTier) where
  -- The debit after the call: what it raises is caught and dropped.
  unfoldable pub post_call_debit : Money → Option Session → Option Session
  post_call_debit actual_cost none = none
  post_call_debit actual_cost (some s) =
      if ltb_ℤ (pos 0) actual_cost
      then some (debit py w tier operating actual_cost cost_anthropic default_options s).1
      else some s

  abbrev pub response : ModelId → Completion → LlmResponse
  response model c = record {
    model = model;
    content = c.text;
    tokens_in = c.used_in;
    tokens_out = c.used_out;
    cost_usd = estimate_cost_usd model c.used_in c.used_out;
  }

  -- From the provider's answer on.
  unfoldable pub settle : ModelId → Result Completion → Action ClientState LlmResponse
  settle model (err x) st = (err x, st)
  settle model (ok c) st = (
    ok (response model c),
    record st { ledger = post_call_debit (estimate_cost_usd model c.used_in c.used_out) st.ledger },
  )

  unfoldable pub call_model : Provider → ModelId → Text → Text → ℕ → Action ClientState LlmResponse
  unfolding settle
  call_model provider model system user max_tokens st =
      settle model (provider model system user max_tokens)
        (record st { provider_calls = st.provider_calls ++ model ∷ [] })

  -- From the end of `_assert_budget` on.
  unfoldable pub proceed :
      Result (Unit {0}) → Provider → ModelId → Text → Text → ℕ → Action ClientState LlmResponse
  unfolding call_model
  proceed (err x) provider model system user max_tokens st = (err x, st)
  proceed (ok _) provider model system user max_tokens st =
      call_model provider model system user max_tokens st

  -- `LLMClient.call`
  unfoldable pub call :
      Provider
      → SystemState
      → AgentTier
      → TaskKind
      → Text
      → Text
      → ℕ
      → ℕ
      → Option BudgetState
      → Action ClientState LlmResponse
  unfolding call_model
  call provider hard_stop agent task system user max_tokens expected_tokens_in budget st =
      (err system_halted, st)
  call provider normal agent task system user max_tokens expected_tokens_in budget st =
      let pot = operating_for w budget st.ledger in
      let model = route agent task pot in
      let est_cost = estimate_cost_usd model expected_tokens_in max_tokens in
      proceed (assert_budget pot est_cost budget) provider model system user max_tokens st
