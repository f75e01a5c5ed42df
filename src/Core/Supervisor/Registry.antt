-- ===== src/Core/Supervisor/Registry.antt =====
-- The supervisor's dictionary: what its keys are, and what an update of an entry does.
use self_spawn_agents.Prelude.{
  ◌≡◌, ◌==◌, ==_iff, inl, inr, refl, subst, Bool, true, false, Option, none, some, [], ◌∷◌, ok,
  arith, if◌then◌else◌, is_some, Bool-cases, Option-cases,
}
use self_spawn_agents.Prelude.Dict.{
  Dict, lookup, contains, elem, DistinctKeys, lookup-insert, nat_eq,
}
use self_spawn_agents.Schemas.Common.{Uuid}
use self_spawn_agents.Core.Supervisor.{
  ChildEntry, ChildSupervisor, update_entry, update_found, ids_where,
}

-- What a test says of an entry, if there is one.
abbrev pub holds : (ChildEntry → Bool) → Option ChildEntry → Bool
holds p none = false
holds p (some e) = p e

-- The entry found under a key, changed.
abbrev pub changed : (ChildEntry → ChildEntry) → Option ChildEntry → Option ChildEntry
changed f none = none
changed f (some e) = some (f e)

absent :
    (c j : Uuid) (d : Dict Uuid ChildEntry)
    → lookup c d ≡ none
    → lookup j d ≡ (if c == j then none else lookup j d)
absent c j d missing = elim (Bool-cases (c == j)) [
  | inl same ↦ rw same (subst (λ k. lookup k d ≡ none) ((==_iff c j).0 same) missing)
  | inr other ↦ rw other refl
]

-- An update changes the entry of its child, if there is one, and no other.
pub lookup-update_entry :
    (c j : Uuid) (f : ChildEntry → ChildEntry) (s : ChildSupervisor)
    → lookup j (update_entry c f s).1.children
      ≡ (if c == j then changed f (lookup c s.children) else lookup j s.children)
unfolding update_entry
lookup-update_entry c j f s = elim (Option-cases (lookup c s.children)) [
  | inl missing ↦ rw missing (absent c j s.children missing)
  | inr (e, found) ↦ rw found (lookup-insert c j (f e) s.children)
]

pub elem-ids_where :
    (p : ChildEntry → Bool) (c : Uuid) (d : Dict Uuid ChildEntry)
    → DistinctKeys d
    → elem c (ids_where p d) ≡ holds p (lookup c d)
elem-ids_where p c [] h = refl
elem-ids_where p c ((j, e) ∷ d) h =
    let rest = elem-ids_where p c d h.1 in ground (arith, rest, h, ==_iff j c)

-- An update of a registered child returns.
pub update_entry_returns :
    (c : Uuid) (f : ChildEntry → ChildEntry) (s : ChildSupervisor)
    → contains c s.children ≡ true
    → (update_entry c f s).0 ≡ ok tt
unfolding update_entry
update_entry_returns c f s h = found (lookup c s.children) h
  where
    found : (o : Option ChildEntry) → is_some o ≡ true → (update_found c f o s).0 ≡ ok tt
    found (some e) h = refl
    found none h = cc
