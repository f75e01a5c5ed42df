-- ===== src/Schemas/Vertical.antt =====
-- VerticalProposal of aae/schemas/vertical.py, with the checks of its fields.
use self_spawn_agents.Prelude.{ℕ, Bool, ◌&&◌, Option, Text, leb, length}
use self_spawn_agents.Prelude.Decimal.{Money, usd}
use self_spawn_agents.Prelude.Int.{pos, ltb_ℤ, leb_ℤ}
use self_spawn_agents.Schemas.Common.{Uuid, Time}
use self_spawn_agents.Schemas.Child.{KillCriteria}

pub data RevenueChannel : Type 0 where
  polar lemonsqueezy stripe_connect : RevenueChannel

pub data PricingModel : Type 0 where
  one_time subscription_monthly usage_based : PricingModel

pub data VerticalStatus : Type 0 where
  drafted ethics_pending ethics_rejected awaiting_human human_rejected : VerticalStatus
  human_approved live paused killed archived : VerticalStatus

pub record VerticalProposal : Type 0 where
  pub id : Uuid
  pub created_at : Time
  pub title : Text
  pub one_line : Text
  pub problem : Text
  pub solution : Text
  pub target_user : Text
  pub revenue_channel : RevenueChannel
  pub pricing_model : PricingModel
  pub unit_price_usd : Money
  pub projected_monthly_revenue_usd : Money
  pub projected_monthly_cost_usd : Money
  pub launch_budget_usd : Money
  pub kill_criteria : KillCriteria
  pub preregistration_id : Uuid
  pub ethics_verdict_id : Option Uuid
  pub status : VerticalStatus

abbrev length_between : ℕ → ℕ → Text → Bool
length_between low high s = leb low (length s) && leb (length s) high

unfoldable pub kill_criteria_fit : KillCriteria → Bool
kill_criteria_fit k =
    leb 7 k.max_days_to_first_dollar
    && leb k.max_days_to_first_dollar 60
    && leb_ℤ (pos 0) k.min_revenue_by_day_30_usd
    && ltb_ℤ (pos 0) k.max_burn_before_first_dollar_usd
    && k.auto_kill_on_breach

unfoldable pub proposal_fits : VerticalProposal → Bool
unfolding kill_criteria_fit
proposal_fits p =
    length_between 8 120 p.title
    && length_between 20 280 p.one_line
    && length_between 100 2000 p.problem
    && length_between 100 2000 p.solution
    && length_between 20 500 p.target_user
    && ltb_ℤ (pos 0) p.unit_price_usd
    && leb_ℤ p.unit_price_usd (usd 9999)
    && leb_ℤ (pos 0) p.projected_monthly_revenue_usd
    && leb_ℤ (pos 0) p.projected_monthly_cost_usd
    && ltb_ℤ (pos 0) p.launch_budget_usd
    && leb_ℤ p.launch_budget_usd (usd 500)
    && kill_criteria_fit p.kill_criteria
