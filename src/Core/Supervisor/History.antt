-- ===== src/Core/Supervisor/History.antt =====
-- Any caller's use of `ChildSupervisor`: its writing methods as operations, run one after the
-- other, whatever they raise; and what a child's entry is after them.
pub mod Account
use self_spawn_agents.Prelude.{
  Bool, true, false, Option, none, some, List, [], ◌∷◌, ◌==◌, if◌then◌else◌, Text,
}
use self_spawn_agents.Prelude.Decimal.{Money}
use self_spawn_agents.Prelude.Int.{pos, ◌+ℤ◌}
use self_spawn_agents.Schemas.Common.{Uuid, Time}
use self_spawn_agents.Schemas.Child.{ChildRun, KillCriteria, ChildStatus, paused, killed}
use self_spawn_agents.Core.Supervisor.{
  ChildEntry, ChildSupervisor, KillReason, PauseReason, register, heartbeat, record_spend,
  record_revenue, pause, kill, pause_all, now_or, is_live, kill_reason_text, pause_reason_text,
  operator_pause,
}

pub data Operation : Type 0 where
  register_run : ChildRun → KillCriteria → Operation
  beat : Uuid → Option Time → Time → Operation
  spend earn : Uuid → Money → Operation
  pause_one : Uuid → PauseReason → Operation
  kill_one : Uuid → KillReason → Operation
  pause_everyone : Operation

unfoldable pub perform : Operation → ChildSupervisor → ChildSupervisor
perform (register_run run kc) s = (register run kc s).1
perform (beat c now clock) s = (heartbeat c now clock s).1
perform (spend c amount) s = (record_spend c amount s).1
perform (earn c amount) s = (record_revenue c amount s).1
perform (pause_one c reason) s = (pause c reason s).1
perform (kill_one c reason) s = (kill c reason s).1
perform pause_everyone s = (pause_all s).1

unfoldable pub perform_all : List Operation → ChildSupervisor → ChildSupervisor
perform_all [] s = s
perform_all (o ∷ os) s = perform_all os (perform o s)

-- The money that the operations say a child spent, and the money that they say it earned.
abbrev pub spent_by : Uuid → List Operation → Money
spent_by j [] = pos 0
spent_by j (spend c amount ∷ os) =
    let rest = spent_by j os in if c == j then amount +ℤ rest else rest
spent_by j (_ ∷ os) = spent_by j os

abbrev pub earned_by : Uuid → List Operation → Money
earned_by j [] = pos 0
earned_by j (earn c amount ∷ os) =
    let rest = earned_by j os in if c == j then amount +ℤ rest else rest
earned_by j (_ ∷ os) = earned_by j os

-- The time of the last heartbeat of a child, after one at `t`.
abbrev pub last_beat : Uuid → List Operation → Time → Time
last_beat j [] t = t
last_beat j (beat c now clock ∷ os) t = last_beat j os (if c == j then now_or now clock else t)
last_beat j (_ ∷ os) t = last_beat j os t

-- A child's status with the reason for it.
abbrev pub Standing : Type 0
Standing = ChildStatus × Option Text

-- What one operation makes of the standing of a child.
abbrev pub next_standing : Uuid → Operation → Standing → Standing
next_standing j (pause_one c reason) st =
    if c == j then (paused, some (pause_reason_text reason)) else st
next_standing j (kill_one c reason) st =
    if c == j then (killed, some (kill_reason_text reason)) else st
next_standing j pause_everyone st =
    if is_live st.0 then (paused, some (pause_reason_text operator_pause)) else st
next_standing j _ st = st

abbrev pub standing_after : Uuid → List Operation → Standing → Standing
standing_after j [] st = st
standing_after j (o ∷ os) st = standing_after j os (next_standing j o st)

-- The entry of a child after some operations: its spending in the month and in all, its revenue,
-- its last heartbeat and its standing; the rest of it is as it was.
abbrev pub entry_after : Uuid → List Operation → ChildEntry → ChildEntry
entry_after j os e = record {
  run = record e.run {
    spent_mtd_usd = e.run.spent_mtd_usd +ℤ spent_by j os;
    revenue_mtd_usd = e.run.revenue_mtd_usd +ℤ earned_by j os;
    last_heartbeat = last_beat j os e.run.last_heartbeat;
    status = (standing_after j os (e.run.status, e.run.last_error)).0;
    last_error = (standing_after j os (e.run.status, e.run.last_error)).1;
  };
  kill_criteria = e.kill_criteria;
  cumulative_spend_usd = e.cumulative_spend_usd +ℤ spent_by j os;
}
