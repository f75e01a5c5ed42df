-- ===== src/Core/Supervisor/KillAll.antt =====
-- The kill switch, whatever the order of its tasks.
use self_spawn_agents.Prelude.{
  ℕ, ◌⊎◌, suc, ◌+◌, ◌≡◌, ◌==◌, ==_iff, refl, subst, sym, ap, ◌∙◌, Bool, true, false, ◌||◌, Option,
  none, some, List, [], ◌∷◌, ok, err, arith, if◌then◌else◌, is_some, Bool-cases, supervisor_error,
  length, ◌>>=◌, inl, inr, ltb,
}
use mathlib.Core.List.{Permᴰ}
use self_spawn_agents.Prelude.Dict.{lookup, contains, elem, DistinctKeys, nat_eq}
use self_spawn_agents.Schemas.Common.{Uuid}
use self_spawn_agents.Schemas.Child.{ChildStatus, starting, live, paused, killed, archived}
use self_spawn_agents.Core.Supervisor.{
  ChildEntry, ChildSupervisor, update_entry, kill_tasks, kill_all, killable_ids, is_killable,
  with_status, kill_reason_text, kill_switch,
}
use self_spawn_agents.Core.Supervisor.Registry.{
  holds, changed, lookup-update_entry, elem-ids_where, update_entry_returns,
}

elem-perm : (c : ℕ) {xs ys : List ℕ} → Permᴰ xs ys → elem c xs ≡ elem c ys
elem-perm c Permᴰ.nil = refl
elem-perm c (Permᴰ.cons e p) = ground (arith, e, elem-perm c p)
elem-perm c (Permᴰ.swap e f) = ground (arith, e, f)
elem-perm c (Permᴰ.trans p q) = elem-perm c p ∙ elem-perm c q

length-perm : {xs ys : List ℕ} → Permᴰ xs ys → length xs ≡ length ys
length-perm Permᴰ.nil = refl
length-perm (Permᴰ.cons e p) = ap suc (length-perm p)
length-perm (Permᴰ.swap e f) = refl
length-perm (Permᴰ.trans p q) = length-perm p ∙ length-perm q

abbrev stop : ChildEntry → ChildEntry
stop = with_status killed (kill_reason_text kill_switch)

abbrev pub Registered : List Uuid → ChildSupervisor → Type 0
Registered cs s = (c : Uuid) → elem c cs ≡ true → contains c s.children ≡ true

contains-update :
    (c j : Uuid) (f : ChildEntry → ChildEntry) (s : ChildSupervisor)
    → contains j s.children ≡ true
    → contains j (update_entry c f s).1.children ≡ true
contains-update c j f s h = elim (Bool-cases (c == j)) [
  | inl same ↦
      rw (lookup-update_entry c j f s, same)
        (kept (lookup c s.children)
          (subst (λ k. contains k s.children ≡ true) (sym ((==_iff c j).0 same)) h))
  | inr other ↦ rw (lookup-update_entry c j f s, other) h
]
  where
    kept : (o : Option ChildEntry) → is_some o ≡ true → is_some (changed f o) ≡ true
    kept none h = h
    kept (some e) h = refl

Registered-head :
    (c : Uuid) (cs : List Uuid) (s : ChildSupervisor)
    → Registered (c ∷ cs) s
    → contains c s.children ≡ true
Registered-head c cs s h = h c (ground (arith, ==_iff c c))

Registered-tail :
    (c : Uuid) (cs : List Uuid) (s : ChildSupervisor)
    → Registered (c ∷ cs) s
    → Registered cs (update_entry c stop s).1
Registered-tail c cs s h j inside = contains-update c j stop s (h j (ground (arith, inside)))

kill_tasks_return :
    (cs : List Uuid) (n : ℕ) (s : ChildSupervisor)
    → Registered cs s
    → (kill_tasks cs n s).0 ≡ ok (n + length cs)
unfolding kill_tasks ◌>>=◌
kill_tasks_return [] n s h = ap ok (omega arith)
kill_tasks_return (c ∷ cs) n s h =
    rw (update_entry_returns c stop s (Registered-head c cs s h))
      (kill_tasks_return cs (suc n) _ (Registered-tail c cs s h) ∙ ap ok (omega arith))

stop_twice : (o : Option ChildEntry) → changed stop (changed stop o) ≡ changed stop o
stop_twice none = refl
stop_twice (some e) = refl

-- A stop now and perhaps one later are one stop.
once :
    (now later : Bool) (found entry : Option ChildEntry)
    → (now ≡ true → found ≡ entry)
    → (if later
        then changed stop (if now then changed stop found else entry)
        else (if now then changed stop found else entry))
      ≡ (if now || later then changed stop entry else entry)
once true true found entry h = rw (h refl) (stop_twice entry)
once true false found entry h = rw (h refl) refl
once false true found entry h = refl
once false false found entry h = refl

lookup-kill_tasks :
    (cs : List Uuid) (n : ℕ) (s : ChildSupervisor) (j : Uuid)
    → Registered cs s
    → lookup j (kill_tasks cs n s).1.children
      ≡ (if elem j cs then changed stop (lookup j s.children) else lookup j s.children)
unfolding kill_tasks ◌>>=◌
lookup-kill_tasks [] n s j h = refl
lookup-kill_tasks (c ∷ cs) n s j h =
    let rest =
      lookup-kill_tasks cs (suc n) (update_entry c stop s).1 j (Registered-tail c cs s h) in
    rw (update_entry_returns c stop s (Registered-head c cs s h)) (
      rest
      ∙ rw (lookup-update_entry c j stop s)
          (once (c == j) (elem j cs) _ _ (λ e. ap (λ k. lookup k s.children) ((==_iff c j).0 e))))

status_cases :
    (x : ChildStatus)
    → (x ≡ starting) ⊎ ((x ≡ live) ⊎ ((x ≡ paused) ⊎ ((x ≡ killed) ⊎ (x ≡ archived))))
status_cases starting = inl refl
status_cases live = inr (inl refl)
status_cases paused = inr (inr (inl refl))
status_cases killed = inr (inr (inr (inl refl)))
status_cases archived = inr (inr (inr (inr refl)))

-- The entry after the kill switch: killed, with the reason `kill_switch`, if the child was live,
-- paused or starting, and as it was otherwise.
abbrev pub switched_off : ChildEntry → ChildEntry
switched_off e = off e.run.status
  where
    off : ChildStatus → ChildEntry
    off starting = stop e
    off live = stop e
    off paused = stop e
    off killed = e
    off archived = e

module _ (s : ChildSupervisor) (order : List Uuid) (distinct : DistinctKeys s.children)
    (complete : Permᴰ order (killable_ids s)) where
  member : (c : Uuid) → elem c order ≡ holds (λ e. is_killable e.run.status) (lookup c s.children)
  unfolding killable_ids
  member c =
      elem-perm c complete ∙ elem-ids_where (λ e. is_killable e.run.status) c s.children distinct

  registered : Registered order s
  registered c inside = found (lookup c s.children) (sym (member c) ∙ inside)
    where
      found :
          (o : Option ChildEntry)
          → holds (λ e. is_killable e.run.status) o ≡ true
          → is_some o ≡ true
      found none h = h
      found (some e) h = refl

  -- In whatever order the tasks of the kill switch run, every child that was live, paused or
  -- starting ends up killed and every other is as it was; the call returns the count of the kills
  -- and the time, or raises if the time is over the deadline.
  pub kill_all_stops :
      (elapsed deadline : ℕ) (c : Uuid)
      → let (r, s') = kill_all order elapsed deadline s in
        (lookup c s'.children ≡ changed switched_off (lookup c s.children))
        × (r ≡ (
            if ltb deadline elapsed
            then err supervisor_error
            else ok (length (killable_ids s), elapsed)))
  unfolding kill_all
  kill_all_stops elapsed deadline c = (
    lookup-kill_tasks order 0 s c registered ∙ rw (member c) (cases (lookup c s.children)),
    rw (kill_tasks_return order 0 s registered, counted) refl,
  )
    where
      counted : 0 + length order ≡ length (killable_ids s)
      counted = omega (arith, length-perm complete)

      cases :
          (o : Option ChildEntry)
          → (if holds (λ e. is_killable e.run.status) o then changed stop o else o)
            ≡ changed switched_off o
      cases none = refl
      cases (some e) = elim (status_cases e.run.status) [
        | inl k ↦ rw k refl
        | inr (inl k) ↦ rw k refl
        | inr (inr (inl k)) ↦ rw k refl
        | inr (inr (inr (inl k))) ↦ rw k refl
        | inr (inr (inr (inr k))) ↦ rw k refl
      ]
