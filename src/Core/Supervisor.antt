-- ===== src/Core/Supervisor.antt =====
-- aae/core/child_supervisor.py: the registry of the children. A `datetime.now` is an argument, the
-- clock's reading at that call.
pub mod Registry
pub mod Verdict
pub mod KillAll
pub mod History
mod Tests
use self_spawn_agents.Prelude.{
  ℕ, suc, ◌+◌, ◌-◌, ◌/◌, ◌*◌, pure, ◌>>=◌, ◌>>◌, Bool, true, false, ◌&&◌, ◌||◌, Option, none, some,
  List, [], ◌∷◌, Result, ok, err, Action, Exception, if◌then◌else◌, not, Text, codes,
  supervisor_error, leb, ltb,
}
use self_spawn_agents.Prelude.Decimal.{Money}
use self_spawn_agents.Prelude.Int.{pos, ◌+ℤ◌, ltb_ℤ, leb_ℤ, eqb_ℤ}
use self_spawn_agents.Prelude.Dict.{Dict, lookup, contains, insert, keys, nat_eq}
use self_spawn_agents.Schemas.Common.{Uuid, Time}
use self_spawn_agents.Schemas.Child.{
  ChildRun, KillCriteria, ChildStatus, starting, live, paused, killed, archived,
}

pub record ChildEntry : Type 0 where
  pub run : ChildRun
  pub kill_criteria : KillCriteria
  pub cumulative_spend_usd : Money

pub data KillReason : Type 0 where
  no_revenue_by_deadline below_day30_target burn_without_revenue : KillReason
  operator_kill kill_switch : KillReason

abbrev pub kill_reason_text : KillReason → Text
kill_reason_text no_revenue_by_deadline = codes "no_revenue_by_deadline"
kill_reason_text below_day30_target = codes "below_day30_target"
kill_reason_text burn_without_revenue = codes "burn_without_revenue"
kill_reason_text operator_kill = codes "operator"
kill_reason_text kill_switch = codes "kill_switch"

pub data PauseReason : Type 0 where
  monthly_budget_breach operator_pause : PauseReason

abbrev pub pause_reason_text : PauseReason → Text
pause_reason_text monthly_budget_breach = codes "monthly_budget_breach"
pause_reason_text operator_pause = codes "operator"

-- The action with its reason.
pub data SupervisorDecision : Type 0 where
  keep : SupervisorDecision
  kill_for : KillReason → SupervisorDecision
  pause_for : PauseReason → SupervisorDecision

pub record ChildSupervisor : Type 0 where
  pub children : Dict Uuid ChildEntry

abbrev pub new_entry : ChildRun → KillCriteria → ChildEntry
new_entry run kc = record { run = run; kill_criteria = kc; cumulative_spend_usd = pos 0 }

unfoldable pub register : ChildRun → KillCriteria → Action ChildSupervisor (Unit {0})
register run kc s =
    if contains run.id s.children
    then (err supervisor_error, s)
    else (ok tt, record { children = insert run.id (new_entry run kc) s.children })

-- `_get` and the assignments to the entry that it finds.
abbrev pub update_found :
    Uuid → (ChildEntry → ChildEntry) → Option ChildEntry → Action ChildSupervisor (Unit {0})
update_found child f none s = (err supervisor_error, s)
update_found child f (some e) s = (ok tt, record { children = insert child (f e) s.children })

unfoldable pub update_entry : Uuid → (ChildEntry → ChildEntry) → Action ChildSupervisor (Unit {0})
update_entry child f s = update_found child f (lookup child s.children) s

-- `now or datetime.now(timezone.utc)`
abbrev pub now_or : Option Time → Time → Time
now_or none clock = clock
now_or (some now) clock = now

abbrev pub beaten : Time → ChildEntry → ChildEntry
beaten t e = record e { run = record e.run { last_heartbeat = t } }

abbrev pub heartbeat : Uuid → Option Time → Time → Action ChildSupervisor (Unit {0})
heartbeat child now clock = update_entry child (beaten (now_or now clock))

abbrev pub spent : Money → ChildEntry → ChildEntry
spent amount e = record {
  run = record e.run { spent_mtd_usd = e.run.spent_mtd_usd +ℤ amount };
  kill_criteria = e.kill_criteria;
  cumulative_spend_usd = e.cumulative_spend_usd +ℤ amount;
}

abbrev pub record_spend : Uuid → Money → Action ChildSupervisor (Unit {0})
record_spend child amount = update_entry child (spent amount)

abbrev pub earned : Money → ChildEntry → ChildEntry
earned amount e = record e {
  run = record e.run { revenue_mtd_usd = e.run.revenue_mtd_usd +ℤ amount };
}

abbrev pub record_revenue : Uuid → Money → Action ChildSupervisor (Unit {0})
record_revenue child amount = update_entry child (earned amount)

abbrev pub with_status : ChildStatus → Text → ChildEntry → ChildEntry
with_status status reason e = record e {
  run = record e.run { status = status; last_error = some reason };
}

abbrev pub pause : Uuid → PauseReason → Action ChildSupervisor (Unit {0})
pause child reason = update_entry child (with_status paused (pause_reason_text reason))

abbrev pub kill : Uuid → KillReason → Action ChildSupervisor (Unit {0})
kill child reason = update_entry child (with_status killed (kill_reason_text reason))

-- The microseconds of a day.
abbrev pub day_length : ℕ
day_length = 86400 * 1000000

-- `max(0, (now - run.spawned_at).days)`
unfoldable pub age_in_days : Time → ChildRun → ℕ
age_in_days now run = (now - run.spawned_at) / day_length

-- `evaluate` from the entry on.
unfoldable pub judge : ChildEntry → ℕ → SupervisorDecision
judge e day =
    let no_revenue = eqb_ℤ e.run.revenue_mtd_usd (pos 0) in
    if leb_ℤ e.run.monthly_budget_usd e.run.spent_mtd_usd
    then pause_for monthly_budget_breach
    else if leb_ℤ e.kill_criteria.max_burn_before_first_dollar_usd e.cumulative_spend_usd
        && no_revenue
    then kill_for burn_without_revenue
    else if leb e.kill_criteria.max_days_to_first_dollar day && no_revenue
    then kill_for no_revenue_by_deadline
    else if leb 30 day && ltb_ℤ e.run.revenue_mtd_usd e.kill_criteria.min_revenue_by_day_30_usd
    then kill_for below_day30_target
    else keep

abbrev pub evaluate_found : Option ChildEntry → Time → Result SupervisorDecision
evaluate_found none t = err supervisor_error
evaluate_found (some e) t = ok (judge e (age_in_days t e.run))

unfoldable pub evaluate : Uuid → Option Time → Time → ChildSupervisor → Result SupervisorDecision
evaluate child now clock s = evaluate_found (lookup child s.children) (now_or now clock)

abbrev pub is_live : ChildStatus → Bool
is_live live = true
is_live _ = false

-- `in ("live", "paused", "starting")`
abbrev pub is_killable : ChildStatus → Bool
is_killable live = true
is_killable paused = true
is_killable starting = true
is_killable _ = false

-- The keys whose entries pass a test, in the order of the dictionary.
abbrev pub ids_where : (ChildEntry → Bool) → Dict Uuid ChildEntry → List Uuid
ids_where p [] = []
ids_where p ((c, e) ∷ d) = let rest = ids_where p d in if p e then c ∷ rest else rest

unfoldable pub live_ids : ChildSupervisor → List Uuid
live_ids s = ids_where (λ e. is_live e.run.status) s.children

-- `pause_all` over the keys taken before the loop; each is tested when its turn comes.
abbrev pub status_is_live : Option ChildEntry → Bool
status_is_live none = false
status_is_live (some e) = is_live e.run.status

abbrev pub pause_step : Uuid → ℕ → ChildSupervisor → ℕ × ChildSupervisor
pause_step c n s =
    if status_is_live (lookup c s.children) then (suc n, (pause c operator_pause s).1) else (n, s)

unfoldable pub pause_each : List Uuid → ℕ → ChildSupervisor → ℕ × ChildSupervisor
pause_each [] n s = (n, s)
pause_each (c ∷ cs) n s = let (m, s') = pause_step c n s in pause_each cs m s'

unfoldable pub pause_all : ChildSupervisor → ℕ × ChildSupervisor
pause_all s = pause_each (keys s.children) 0 s

-- The children for which `kill_all` makes a task.
unfoldable pub killable_ids : ChildSupervisor → List Uuid
killable_ids s = ids_where (λ e. is_killable e.run.status) s.children

-- The tasks of the group, in the order in which the event loop runs them, with the count of kills.
-- A task that raised would end the group.
unfoldable pub kill_tasks : List Uuid → ℕ → Action ChildSupervisor ℕ
kill_tasks [] n = pure n
kill_tasks (c ∷ cs) n = kill c kill_switch >> kill_tasks cs (suc n)

-- After the group: the deadline test, in microseconds of the monotonic clock.
abbrev in_time : ℕ → ℕ → Result ℕ → Result (ℕ × ℕ)
in_time elapsed deadline (err x) = err x
in_time elapsed deadline (ok n) =
    if ltb deadline elapsed then err supervisor_error else ok (n, elapsed)

-- `order` is the order in which the event loop runs the tasks, `elapsed` what the clock measures.
unfoldable pub kill_all : List Uuid → ℕ → ℕ → Action ChildSupervisor (ℕ × ℕ)
kill_all order elapsed deadline s =
    let (r, s') = kill_tasks order 0 s in (in_time elapsed deadline r, s')

abbrev pub get_found : Option ChildEntry → Result ChildRun
get_found none = err supervisor_error
get_found (some e) = ok e.run

unfoldable pub get : Uuid → ChildSupervisor → Result ChildRun
get child s = get_found (lookup child s.children)
