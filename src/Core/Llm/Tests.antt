-- ===== src/Core/Llm/Tests.antt =====
-- The LLM client and the router at concrete inputs.
use self_spawn_agents.Prelude.{◌≡◌, ◌≢◌, ◌⊎◌, ◌%◌, refl, none, some, [], ◌∷◌, ok, codes, arith}
use self_spawn_agents.Prelude.Decimal.{usd}
use self_spawn_agents.Prelude.Int.{◌-ℤ◌, ◌+ℤ◌, magnitude}
use self_spawn_agents.Schemas.Common.{mother, sonnet_46, generic}
use self_spawn_agents.Schemas.Samples.{checker, world}
use self_spawn_agents.Core.Trust.{normal}
use self_spawn_agents.Core.Router.{route, estimate_cost_usd}
use self_spawn_agents.Core.Llm.{
  BudgetState, Provider, ClientState, assert_budget, call, response, operating_for, call_model,
  proceed, settle, within_monthly,
}
use self_spawn_agents.Core.Llm.Budget.{
  Called, Refused, Called-or-Refused, fractional_cost_is_not_billed,
}

abbrev budget : BudgetState
budget = record {
  operating_pot_usd = usd 200;
  monthly_budget_usd = some (usd 10);
  spent_mtd_usd = usd 1;
}

-- 333 tokens out cost $0.005 at Sonnet's price, 1 token in $0.000003.
abbrev provider : Provider
provider model system user max_tokens =
    ok (record { text = codes "hi"; used_in = 1; used_out = 333 })

abbrev client : ClientState
client = record { ledger = none; provider_calls = [] }

call_answers :
    (call checker world mother provider normal mother generic [] [] 1024 1000
      (some budget)
      client).1.provider_calls
    ≡ sonnet_46 ∷ []
unfolding call proceed call_model settle operating_for route estimate_cost_usd assert_budget
    within_monthly ◌+ℤ◌ ◌-ℤ◌
call_answers = refl

Called-or-Refused_example :
    Called checker world mother provider mother generic [] [] 1024 1000 (some budget) client normal
    ⊎ Refused checker world mother provider mother generic [] [] 1024 1000
        (some budget)
        client
        normal
Called-or-Refused_example =
    Called-or-Refused checker world mother provider mother generic [] [] 1024 1000 (some budget)
      client normal

fine :
    assert_budget
      (operating_for world (some budget) none)
      (estimate_cost_usd (route mother generic (operating_for world (some budget) none)) 1000 1024)
      (some budget)
    ≡ ok tt
unfolding operating_for route assert_budget within_monthly estimate_cost_usd ◌+ℤ◌ ◌-ℤ◌
fine = refl

odd_cost :
    magnitude
        (estimate_cost_usd (route mother generic (operating_for world (some budget) none)) 1 333)
      % 100
    ≢ 0
unfolding operating_for route estimate_cost_usd
odd_cost e = omega (arith, e)

fractional_cost_is_not_billed_example :
    let (r, st') =
      call checker world mother provider normal mother generic [] [] 1024 1000
        (some budget)
        client in
    (r
      ≡ ok (
          response checker world mother
            (route mother generic (operating_for world (some budget) none))
            (record { text = codes "hi"; used_in = 1; used_out = 333 })))
    × (st'.ledger ≡ none)
fractional_cost_is_not_billed_example =
    fractional_cost_is_not_billed checker world mother provider mother generic [] [] 1024 1000
      (some budget) client (record { text = codes "hi"; used_in = 1; used_out = 333 }) fine refl
      odd_cost
