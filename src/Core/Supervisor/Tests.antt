-- ===== src/Core/Supervisor/Tests.antt =====
-- The supervisor at concrete inputs.
use self_spawn_agents.Prelude.{
  ℕ, true, ◌*◌, ◌≡◌, refl, none, some, List, [], ◌∷◌, ok, err, length, if◌then◌else◌, ltb,
  supervisor_error,
}
use self_spawn_agents.Prelude.Decimal.{usd}
use self_spawn_agents.Prelude.Int.{◌+ℤ◌}
use self_spawn_agents.Prelude.Dict.{lookup, nat_eq}
use mathlib.Core.List.{Permᴰ}
use self_spawn_agents.Schemas.Child.{ChildRun, KillCriteria, ChildStatus, live, paused, archived}
use self_spawn_agents.Core.Supervisor.{
  ChildEntry, ChildSupervisor, evaluate, judge, operator_kill, kill_all, killable_ids, live_ids,
  pause_all, pause_each, update_entry, age_in_days, now_or, kill_for, no_revenue_by_deadline,
}
use self_spawn_agents.Core.Supervisor.Verdict.{Decides}
use self_spawn_agents.Core.Supervisor.KillAll.{kill_all_stops, switched_off}
use self_spawn_agents.Core.Supervisor.Registry.{changed}
use self_spawn_agents.Core.Supervisor.History.{
  Operation, spend, earn, kill_one, pause_everyone, beat, register_run, perform_all, entry_after,
}
use self_spawn_agents.Core.Supervisor.History.Account.{perform_all_account, evaluate-perform_all}

abbrev run_of : ℕ → ChildStatus → ChildRun
run_of id status = record {
  id = id;
  vertical_id = 1;
  preregistration_id = 2;
  spawned_at = 0;
  status = status;
  monthly_budget_usd = usd 100;
  spent_mtd_usd = usd 5;
  revenue_mtd_usd = usd 0;
  last_heartbeat = 0;
  last_error = none;
}

abbrev criteria : KillCriteria
criteria = record {
  max_days_to_first_dollar = 14;
  min_revenue_by_day_30_usd = usd 20;
  max_burn_before_first_dollar_usd = usd 50;
  auto_kill_on_breach = true;
}

abbrev entry_of : ℕ → ChildStatus → ChildEntry
entry_of id status = record {
  run = run_of id status;
  kill_criteria = criteria;
  cumulative_spend_usd = usd 5;
}

abbrev three : ChildSupervisor
three = record {
  children = (7, entry_of 7 live) ∷ (8, entry_of 8 archived) ∷ (9, entry_of 9 paused) ∷ [];
}

live_ids-three : live_ids three ≡ 7 ∷ []
unfolding live_ids
live_ids-three = refl

pause_all-three : (pause_all three).0 ≡ 1
unfolding pause_all pause_each update_entry
pause_all-three = refl

evaluate-three : evaluate 7 (some (15 * 86400000000)) 0 three ≡ ok (kill_for no_revenue_by_deadline)
unfolding evaluate judge age_in_days
evaluate-three = refl

backwards : Permᴰ (9 ∷ 7 ∷ []) (killable_ids three)
unfolding killable_ids
backwards = Permᴰ.swap refl refl

kill_all_stops_example :
    let (r, s') = kill_all (9 ∷ 7 ∷ []) 12 30000000 three in
    (lookup 9 s'.children ≡ changed switched_off (lookup 9 three.children))
    × (r ≡ (if ltb 30000000 12 then err supervisor_error else ok (length (killable_ids three), 12)))
kill_all_stops_example =
    kill_all_stops three (9 ∷ 7 ∷ []) (refl, (refl, (refl, tt))) backwards 12 30000000 9

abbrev operations : List Operation
operations =
    spend 7 (usd 3)
    ∷ spend 9 (usd 40)
    ∷ register_run (run_of 7 paused) criteria
    ∷ pause_everyone
    ∷ earn 7 (usd 9)
    ∷ beat 7 none 60
    ∷ spend 7 (usd 2)
    ∷ kill_one 6 operator_kill
    ∷ []

perform_all_account_example :
    lookup 7 (perform_all operations three).children
    ≡ some (entry_after 7 operations (entry_of 7 live))
perform_all_account_example = perform_all_account operations three 7 (entry_of 7 live) refl

spent_in_operations : (entry_after 7 operations (entry_of 7 live)).run.spent_mtd_usd ≡ usd 10
unfolding ◌+ℤ◌
spent_in_operations = refl

evaluate-perform_all_example :
    Decides
      (entry_after 7 operations (entry_of 7 live))
      (age_in_days (now_or none 99) (run_of 7 live))
      (evaluate 7 none 99 (perform_all operations three))
evaluate-perform_all_example =
    evaluate-perform_all operations three 7 (entry_of 7 live) none 99 refl
