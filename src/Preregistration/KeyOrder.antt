-- ===== src/Preregistration/KeyOrder.antt =====
-- The dump does not see the order of the keys, at any depth.
use self_spawn_agents.Prelude.{
  ◌≡◌, ◌≢◌, refl, sym, ◌∙◌, ap, Bool, true, false, ◌||◌, [], ◌∷◌, ◌++◌, Text, arith, Bool-cases,
  inl, inr,
}
use self_spawn_agents.Prelude.Dict.{Dict}
use self_spawn_agents.Preregistration.Canonical.{
  PyValue, dict, sequence, PyItems, no_items, item, PyFields, no_fields, field, bans, bans_items,
  bans_fields, unserializable, unserializable_items, unserializable_fields, text_ltb, insert_sorted,
  sort_keys, join_members, body_text, items_text, member_texts, canonical_dumps,
}

text_ltb-asymm : (s t : Text) → text_ltb s t ≡ true → text_ltb t s ≡ false
text_ltb-asymm [] [] h = refl
text_ltb-asymm [] (d ∷ t) h = refl
text_ltb-asymm (c ∷ s) [] h = ground (arith, h)
text_ltb-asymm (c ∷ s) (d ∷ t) h = ground (arith, h, text_ltb-asymm s t)

text_ltb_trans : (s t u : Text) → text_ltb s t ≡ true → text_ltb t u ≡ true → text_ltb s u ≡ true
text_ltb_trans [] [] u h k = k
text_ltb_trans [] (d ∷ t) [] h k = k
text_ltb_trans [] (d ∷ t) (e ∷ u) h k = refl
text_ltb_trans (c ∷ s) [] u h k = ground (arith, h)
text_ltb_trans (c ∷ s) (d ∷ t) [] h k = k
text_ltb_trans (c ∷ s) (d ∷ t) (e ∷ u) h k = ground (arith, h, k, text_ltb_trans s t u)

text_ltb-total : (s t : Text) → text_ltb s t ≡ false → text_ltb t s ≡ false → s ≡ t
text_ltb-total [] [] h k = refl
text_ltb-total [] (d ∷ t) h k = ground (arith, h)
text_ltb-total (c ∷ s) [] h k = ground (arith, k)
text_ltb-total (c ∷ s) (d ∷ t) h k = ground (arith, h, k, text_ltb-total s t)

-- The same value up to the order of the keys in each of its dictionaries, which differ.
mutual
  pub data Reordered : PyValue → PyValue → Type 0 where
    same : {v : PyValue} → Reordered v v
    in_sequence : {xs ys : PyItems} → ReorderedItems xs ys → Reordered (sequence xs) (sequence ys)
    in_dict : {fs gs : PyFields} → ReorderedFields fs gs → Reordered (dict fs) (dict gs)

  pub data ReorderedItems : PyItems → PyItems → Type 0 where
    no_others : ReorderedItems no_items no_items
    items :
        {v w : PyValue} {xs ys : PyItems}
        → Reordered v w
        → ReorderedItems xs ys
        → ReorderedItems (item v xs) (item w ys)

  pub data ReorderedFields : PyFields → PyFields → Type 0 where
    no_keys : ReorderedFields no_fields no_fields
    keep :
        {k : Text} {v w : PyValue} {fs gs : PyFields}
        → Reordered v w
        → ReorderedFields fs gs
        → ReorderedFields (field k v fs) (field k w gs)
    swap :
        {j k : Text} {v w : PyValue} {fs : PyFields}
        → j ≢ k
        → ReorderedFields (field j v (field k w fs)) (field k w (field j v fs))
    after :
        {fs gs hs : PyFields}
        → ReorderedFields fs gs
        → ReorderedFields gs hs
        → ReorderedFields fs hs

module _ {ℓ} {V : Type ℓ} where
  -- Two insertions commute if their keys differ.
  swap_inserts :
      (m n : Text × V) (d : Dict Text V)
      → text_ltb m.0 n.0 ≡ true
      → insert_sorted m (insert_sorted n d) ≡ insert_sorted n (insert_sorted m d)
  swap_inserts m n [] h = ground (arith, h, text_ltb-asymm m.0 n.0)
  swap_inserts m n (z ∷ d) h =
      ground (arith, h, text_ltb-asymm m.0 n.0 h, text_ltb_trans z.0 m.0 n.0, swap_inserts m n d h)

  swap_distinct :
      (m n : Text × V) (d : Dict Text V)
      → m.0 ≢ n.0
      → insert_sorted m (insert_sorted n d) ≡ insert_sorted n (insert_sorted m d)
  swap_distinct m n d differ = elim (Bool-cases (text_ltb m.0 n.0)) [
    | inl h ↦ swap_inserts m n d h
    | inr h ↦ elim (Bool-cases (text_ltb n.0 m.0)) [
      | inl k ↦ sym (swap_inserts n m d k)
      | inr k ↦ absurd (differ (text_ltb-total m.0 n.0 h k))
    ]
  ]

-- What the three functions see of a value is the same.
abbrev Alike : PyValue → PyValue → Type 0
Alike v w = (bans v ≡ bans w) × (unserializable v ≡ unserializable w) × (body_text v ≡ body_text w)

or_swap : (a b c : Bool) → (a || (b || c)) ≡ (b || (a || c))
or_swap true true c = refl
or_swap true false c = refl
or_swap false b c = refl

mutual
  unfolding bans unserializable body_text

  Reordered-Alike : {v w : PyValue} → Reordered v w → Alike v w
  Reordered-Alike same = (refl, refl, refl)
  Reordered-Alike (in_sequence no_others) = (refl, refl, refl)
  Reordered-Alike (in_sequence (items r rs)) =
      let (b, u, t) = Reordered-Alike r in
      let (bs, us, ts) = items-Alike rs in (cc, cc, rw (t, ts) refl)
  Reordered-Alike (in_dict r) =
      let (b, u, t) = fields-Alike r in (b, u, ap (λ d. 123 ∷ join_members d ++ 125 ∷ []) t)

  items-Alike :
      {xs ys : PyItems}
      → ReorderedItems xs ys
      → (bans_items xs ≡ bans_items ys)
        × (unserializable_items xs ≡ unserializable_items ys)
        × (items_text xs ≡ items_text ys)
  items-Alike no_others = (refl, refl, refl)
  items-Alike (items r rs) =
      let (b, u, t) = Reordered-Alike r in
      let (bs, us, ts) = items-Alike rs in (cc, cc, rw (t, ts) refl)

  fields-Alike :
      {fs gs : PyFields}
      → ReorderedFields fs gs
      → (bans_fields fs ≡ bans_fields gs)
        × (unserializable_fields fs ≡ unserializable_fields gs)
        × (sort_keys (member_texts fs) ≡ sort_keys (member_texts gs))
  fields-Alike no_keys = (refl, refl, refl)
  fields-Alike (keep r rs) =
      let (b, u, t) = Reordered-Alike r in
      let (bs, us, ts) = fields-Alike rs in (cc, cc, rw (t, ts) refl)
  fields-Alike (swap {j = j} {k = k} {v = v} {w = w} {fs = fs} differ) = (
    or_swap (bans v) (bans w) (bans_fields fs),
    or_swap (unserializable v) (unserializable w) (unserializable_fields fs),
    swap_distinct (j, body_text v) (k, body_text w) (sort_keys (member_texts fs)) differ,
  )
  fields-Alike (after r s) =
      let (b, u, t) = fields-Alike r in
      let (b', u', t') = fields-Alike s in (b ∙ b', u ∙ u', t ∙ t')

-- Two values that differ only in the order of the keys of their dictionaries, at any depth, have
-- the same canonical dump, or both raise.
pub canonical_dumps-Reordered :
    {v w : PyValue} → Reordered v w → canonical_dumps v ≡ canonical_dumps w
unfolding canonical_dumps
canonical_dumps-Reordered r = let (b, u, t) = Reordered-Alike r in rw (b, u, t) refl
