-- ===== src/Core/Supervisor/History/Account.antt =====
-- The entry of a registered child after any operations of the supervisor, in closed form.
use self_spawn_agents.Prelude.{
  ℕ, ◌≡◌, ◌==◌, ==_iff, refl, sym, ap, ◌∙◌, Bool, true, false, ◌||◌, some, List, [], ◌∷◌, arith,
  Option, if◌then◌else◌, Bool-cases, inl, inr,
}
use self_spawn_agents.Prelude.Dict.{lookup, lookup-insert, contains, Dict, elem, keys, nat_eq}
use self_spawn_agents.Prelude.Int.{ℤ, ◌+ℤ◌, pos, int_laws}
use self_spawn_agents.Schemas.Common.{Uuid, Time}
use self_spawn_agents.Schemas.Child.{ChildRun, KillCriteria, paused, killed}
use self_spawn_agents.Core.Supervisor.{
  ChildEntry, ChildSupervisor, register, update_entry, pause_all, pause_each, pause_step,
  status_is_live, is_live, new_entry, operator_pause, kill_reason_text, pause_reason_text,
  with_status, beaten, spent, earned, now_or, evaluate, age_in_days,
}
use self_spawn_agents.Core.Supervisor.Verdict.{Decides, evaluate-Decides}
use self_spawn_agents.Core.Supervisor.Registry.{lookup-update_entry}
use self_spawn_agents.Core.Supervisor.History.{
  Operation, register_run, beat, spend, earn, pause_one, kill_one, pause_everyone, perform,
  perform_all, spent_by, earned_by, entry_after,
}

-- A registered child stays as it is when another is registered, or its own id again.
register_keeps :
    (run : ChildRun) (kc : KillCriteria) (s : ChildSupervisor) (j : Uuid) (e : ChildEntry)
    → lookup j s.children ≡ some e
    → lookup j (register run kc s).1.children ≡ some e
unfolding register
register_keeps run kc s j e found =
    ground (arith, lookup-insert run.id j (new_entry run kc) s.children, ==_iff run.id j)

update_entry_step :
    (c j : Uuid) (f : ChildEntry → ChildEntry) (s : ChildSupervisor) (e : ChildEntry)
    → lookup j s.children ≡ some e
    → lookup j (update_entry c f s).1.children ≡ some (if c == j then f e else e)
update_entry_step c j f s e found = elim (Bool-cases (c == j)) [
  | inl same ↦
      rw (lookup-update_entry c j f s, same)
        (rw (ap (λ k. lookup k s.children) ((==_iff c j).0 same), found) refl)
  | inr other ↦ rw (lookup-update_entry c j f s, other) found
]

abbrev paused_if_live : ChildEntry → ChildEntry
paused_if_live e =
    if is_live e.run.status then with_status paused (pause_reason_text operator_pause) e else e

pause_twice : (e : ChildEntry) → paused_if_live (paused_if_live e) ≡ paused_if_live e
pause_twice e = elim (Bool-cases (is_live e.run.status)) [
  | inl yes_live ↦ rw yes_live refl
  | inr not_live ↦ rw not_live (rw not_live refl)
]

pause_step_step :
    (c : Uuid) (n : ℕ) (s : ChildSupervisor) (j : Uuid) (e : ChildEntry)
    → lookup j s.children ≡ some e
    → lookup j (pause_step c n s).1.children ≡ some (if c == j then paused_if_live e else e)
pause_step_step c n s j e found = elim (Bool-cases (status_is_live (lookup c s.children))) [
  | inl yes_live ↦ rw yes_live (update_entry_step c j _ s e found ∙ ap some (paused_now yes_live))
  | inr not_live ↦ rw not_live (found ∙ ap some (left_alone not_live))
]
  where
    own : (c == j) ≡ true → status_is_live (lookup c s.children) ≡ is_live e.run.status
    own same = rw (ap (λ k. lookup k s.children) ((==_iff c j).0 same), found) refl

    paused_now :
        status_is_live (lookup c s.children) ≡ true
        → (if c == j then with_status paused (pause_reason_text operator_pause) e else e)
          ≡ (if c == j then paused_if_live e else e)
    paused_now yes_live = elim (Bool-cases (c == j)) [
      | inl same ↦ rw (same, sym (own same) ∙ yes_live) refl
      | inr other ↦ rw other refl
    ]

    left_alone :
        status_is_live (lookup c s.children) ≡ false → e ≡ (if c == j then paused_if_live e else e)
    left_alone not_live = elim (Bool-cases (c == j)) [
      | inl same ↦ rw (same, sym (own same) ∙ not_live) refl
      | inr other ↦ rw other refl
    ]

pause_once :
    (now later : Bool) (e : ChildEntry)
    → (let e' = if now then paused_if_live e else e in if later then paused_if_live e' else e')
      ≡ (if now || later then paused_if_live e else e)
pause_once true true e = pause_twice e
pause_once true false e = refl
pause_once false true e = refl
pause_once false false e = refl

pause_each_step :
    (cs : List Uuid) (n : ℕ) (s : ChildSupervisor) (j : Uuid) (e : ChildEntry)
    → lookup j s.children ≡ some e
    → lookup j (pause_each cs n s).1.children ≡ some (if elem j cs then paused_if_live e else e)
unfolding pause_each
pause_each_step [] n s j e found = found
pause_each_step (c ∷ cs) n s j e found =
    pause_each_step cs _ _ j _ (pause_step_step c n s j e found)
    ∙ ap some (pause_once (c == j) (elem j cs) e)

elem-keys : (j : Uuid) (d : Dict Uuid ChildEntry) → elem j (keys d) ≡ contains j d
elem-keys j [] = refl
elem-keys j ((c, e) ∷ d) = ground (arith, elem-keys j d)

-- What one operation makes of the entry of a registered child.
step : Uuid → Operation → ChildEntry → ChildEntry
step j (register_run run kc) e = e
step j (beat c now clock) e = if c == j then beaten (now_or now clock) e else e
step j (spend c amount) e = if c == j then spent amount e else e
step j (earn c amount) e = if c == j then earned amount e else e
step j (pause_one c reason) e =
    if c == j then with_status paused (pause_reason_text reason) e else e
step j (kill_one c reason) e = if c == j then with_status killed (kill_reason_text reason) e else e
step j pause_everyone e = paused_if_live e

-- One operation makes one step of the entry.
perform-step :
    (o : Operation) (s : ChildSupervisor) (j : Uuid) (e : ChildEntry)
    → lookup j s.children ≡ some e
    → lookup j (perform o s).children ≡ some (step j o e)
unfolding perform step pause_all
perform-step (register_run run kc) s j e found = register_keeps run kc s j e found
perform-step (beat c now clock) s j e found = update_entry_step c j _ s e found
perform-step (spend c amount) s j e found = update_entry_step c j _ s e found
perform-step (earn c amount) s j e found = update_entry_step c j _ s e found
perform-step (pause_one c reason) s j e found = update_entry_step c j _ s e found
perform-step (kill_one c reason) s j e found = update_entry_step c j _ s e found
perform-step pause_everyone s j e found =
    pause_each_step (keys s.children) 0 s j e found ∙ rw (elem-keys, found) refl

+ℤ_assoc : (a b c : ℤ) → a +ℤ (b +ℤ c) ≡ (a +ℤ b) +ℤ c
+ℤ_assoc a b c = omega int_laws

+ℤ-zero : (a : ℤ) → a +ℤ pos 0 ≡ a
+ℤ-zero a = omega int_laws

entry_after-step :
    (j : Uuid) (o : Operation) (os : List Operation) (e : ChildEntry)
    → entry_after j (o ∷ os) e ≡ entry_after j os (step j o e)
unfolding step
entry_after-step j (register_run run kc) os e = refl
entry_after-step j (beat c now clock) os e = ground arith
entry_after-step j (spend c amount) os e = ground (
  arith,
  +ℤ_assoc e.run.spent_mtd_usd amount (spent_by j os),
  +ℤ_assoc e.cumulative_spend_usd amount (spent_by j os),
)
entry_after-step j (earn c amount) os e =
    ground (arith, +ℤ_assoc e.run.revenue_mtd_usd amount (earned_by j os))
entry_after-step j (pause_one c reason) os e = ground arith
entry_after-step j (kill_one c reason) os e = ground arith
entry_after-step j pause_everyone os e = ground arith

-- Whatever operations of the supervisor run, in any order, returning or raising: the entry of a
-- registered child has its spending, of the month and in all, raised by what the operations on
-- that child record, its revenue raised likewise, the time of its last heartbeat, and the status
-- and reason that its pauses and kills and the pauses of all live children leave it with; the rest
-- of the entry is as it was.
pub perform_all_account :
    (os : List Operation) (s : ChildSupervisor) (j : Uuid) (e : ChildEntry)
    → lookup j s.children ≡ some e
    → lookup j (perform_all os s).children ≡ some (entry_after j os e)
unfolding perform_all
perform_all_account [] s j e found = rw found (simp +ℤ-zero)
perform_all_account (o ∷ os) s j e found =
    perform_all_account os (perform o s) j (step j o e) (perform-step o s j e found)
    ∙ ap some (sym (entry_after-step j o os e))

-- After any operations of the supervisor, evaluate of a registered child returns a decision: to
-- pause exactly if its spending of the month with what the operations record reaches the budget,
-- to kill exactly if it does not and the child, by its age and its spending and revenue after the
-- operations, failed, and to keep in all other cases.
pub evaluate-perform_all :
    (os : List Operation) (s : ChildSupervisor) (child : Uuid) (e : ChildEntry) (now : Option Time)
    (clock : Time)
    → lookup child s.children ≡ some e
    → Decides
        (entry_after child os e)
        (age_in_days (now_or now clock) e.run)
        (evaluate child now clock (perform_all os s))
unfolding age_in_days
evaluate-perform_all os s child e now clock found =
    evaluate-Decides child now clock (perform_all os s) (entry_after child os e)
      (perform_all_account os s child e found)
