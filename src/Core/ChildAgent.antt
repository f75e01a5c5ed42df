-- ===== src/Core/ChildAgent.antt =====
-- aae/core/child_agent.py: the policy of a child, with the run that the supervisor reports to it.
use self_spawn_agents.Prelude.{◌≡◌, refl, Bool, Option, List, [], ◌∷◌, Result, ok, err, Text, codes}
use self_spawn_agents.Prelude.Decimal.{Money}
use self_spawn_agents.Prelude.Int.{◌+ℤ◌, leb_ℤ}
use self_spawn_agents.Schemas.Common.{Uuid, Time}
use self_spawn_agents.Schemas.Child.{ChildRun, ChildStatus}
use self_spawn_agents.Core.Trust.{assert_child_graph_allowed}
use self_spawn_agents.Core.Supervisor.{now_or}

pub record ChildContext : Type 0 where
  pub run : ChildRun
  pub vertical_id : Uuid
  pub preregistration_id : Uuid

abbrev pub graph_nodes : List Text
graph_nodes = codes "observe" ∷ codes "plan" ∷ codes "act" ∷ codes "report" ∷ []

abbrev agent_of : ChildContext → Result (Unit {0}) → Result ChildContext
agent_of ctx (ok _) = ok ctx
agent_of ctx (err x) = err x

-- `ChildAgent.__init__`
unfoldable pub child_agent : ChildContext → Result ChildContext
child_agent ctx = agent_of ctx (assert_child_graph_allowed graph_nodes)

abbrev pub customer_footer : Text
customer_footer =
    codes "Outputs generated with assistance from an automated system. Review before use."

-- The payload before its fields become text.
pub record Heartbeat : Type 0 where
  pub child_id : Uuid
  pub status : ChildStatus
  pub revenue_mtd_usd : Money
  pub spent_mtd_usd : Money
  pub timestamp : Time

abbrev pub heartbeat_payload : ChildContext → Option Time → Time → Heartbeat
heartbeat_payload ctx now clock = record {
  child_id = ctx.run.id;
  status = ctx.run.status;
  revenue_mtd_usd = ctx.run.revenue_mtd_usd;
  spent_mtd_usd = ctx.run.spent_mtd_usd;
  timestamp = now_or now clock;
}

unfoldable pub check_budget : ChildContext → Money → Bool
check_budget ctx projected_cost_usd =
    leb_ℤ (ctx.run.spent_mtd_usd +ℤ projected_cost_usd) ctx.run.monthly_budget_usd

-- The constructor's guard lets the nodes of the class through.
every_child_starts : (ctx : ChildContext) → child_agent ctx ≡ ok ctx
unfolding child_agent assert_child_graph_allowed
every_child_starts ctx = refl
