-- ===== src/Core/Supervisor/Verdict.antt =====
-- What `evaluate` decides, stated independently of the order of its tests.
use self_spawn_agents.Prelude.{ℕ, ◌≡◌, ◌↔◌, ◌⊎◌, ◌≤◌, arith, some, Result, ok, err, Option}
use self_spawn_agents.Prelude.Int.{pos, ◌≤ℤ◌, ◌<ℤ◌}
use self_spawn_agents.Schemas.Common.{Time, Uuid}
use self_spawn_agents.Prelude.Dict.{lookup, nat_eq}
use self_spawn_agents.Core.Supervisor.{
  ChildEntry, ChildSupervisor, evaluate, now_or, SupervisorDecision, judge, keep, kill_for,
  pause_for, age_in_days, monthly_budget_breach,
}

abbrev IsKill : SupervisorDecision → Type 0
IsKill keep = ⊥
IsKill (kill_for r) = Unit
IsKill (pause_for r) = ⊥

-- The month's budget is spent.
abbrev pub Breached : ChildEntry → Type 0
Breached e = e.run.monthly_budget_usd ≤ℤ e.run.spent_mtd_usd

-- A child that has earned nothing and burnt its limit or passed its deadline, or one that missed
-- the target of day 30.
abbrev pub Failed : ChildEntry → ℕ → Type 0
Failed e day =
    ((e.run.revenue_mtd_usd ≡ pos 0)
      × ((e.kill_criteria.max_burn_before_first_dollar_usd ≤ℤ e.cumulative_spend_usd)
          ⊎ (e.kill_criteria.max_days_to_first_dollar ≤ day)))
    ⊎ ((30 ≤ day) × (e.run.revenue_mtd_usd <ℤ e.kill_criteria.min_revenue_by_day_30_usd))

judge-IsKill_iff :
    (e : ChildEntry) (day : ℕ) → IsKill (judge e day) ↔ ((¬ Breached e) × Failed e day)
unfolding judge
judge-IsKill_iff e day = (λ h. ground arith, λ h. ground arith)

judge_pause_iff :
    (e : ChildEntry) (day : ℕ) → (judge e day ≡ pause_for monthly_budget_breach) ↔ Breached e
unfolding judge
judge_pause_iff e day = (λ h. ground arith, λ h. ground arith)

judge_keep_iff :
    (e : ChildEntry) (day : ℕ) → (judge e day ≡ keep) ↔ ((¬ Breached e) × (¬ Failed e day))
unfolding judge
judge_keep_iff e day = (λ h. ground arith, λ h. ground arith)

-- The result is a decision: kill if the child failed within its budget, pause if the budget is
-- spent, keep in all other cases.
abbrev pub Decides : ChildEntry → ℕ → Result SupervisorDecision → Type 0
Decides e day (err x) = ⊥
Decides e day (ok d) =
    (IsKill d ↔ ((¬ Breached e) × Failed e day))
    × ((d ≡ pause_for monthly_budget_breach) ↔ Breached e)
    × ((d ≡ keep) ↔ ((¬ Breached e) × (¬ Failed e day)))

-- For a registered child, evaluate returns a decision: to pause exactly if the budget of the month
-- is spent, to kill exactly if it is not and the child failed, to keep exactly if it is not and
-- the child did not fail.
pub evaluate-Decides :
    (child : Uuid) (now : Option Time) (clock : Time) (s : ChildSupervisor) (e : ChildEntry)
    → lookup child s.children ≡ some e
    → Decides e (age_in_days (now_or now clock) e.run) (evaluate child now clock s)
unfolding evaluate
evaluate-Decides child now clock s e found =
    rw found (judge-IsKill_iff e _, judge_pause_iff e _, judge_keep_iff e _)
