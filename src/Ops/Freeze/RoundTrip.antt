-- ===== src/Ops/Freeze/RoundTrip.antt =====
-- A lock that was just written shows no drift.
use self_spawn_agents.Prelude.{
  ◌≡◌, refl, true, false, Option, none, some, List, [], ◌∷◌, Result, ok, err, Text, text_eqb_iff,
  text_eq, All, all, arith,
}
use self_spawn_agents.Prelude.Dict.{Dict, lookup, elem, DistinctKeys, beq_refl}
use self_spawn_agents.Ops.Freeze.{
  frozen_paths, Root, with_hash, hashes_of, compute_hashes, write_lock, freeze, read_lock,
  same_text, same_entries, verify_exit_code,
}

-- The entries of the second are in the first.
abbrev Agrees : Dict Text Text → Dict Text Text → Type 0
Agrees e d = All (λ x. lookup x.0 e ≡ some x.1) d

-- A key that a dictionary lacks hides none of its entries.
Agrees-cons :
    (k v : Text) (e d : Dict Text Text) → lookup k d ≡ none → Agrees e d → Agrees ((k, v) ∷ e) d
Agrees-cons k v e [] h a = tt
Agrees-cons k v e ((j, w) ∷ d) h (f, a) = (
  ground (arith, h, f, text_eqb_iff k j, text_eqb_iff j k),
  Agrees-cons k v e d (ground (arith, h)) a,
)

Agrees-self : (d : Dict Text Text) → DistinctKeys d → Agrees d d
Agrees-self [] h = tt
Agrees-self ((k, v) ∷ d) (new, h) =
    (rw (beq_refl k) refl, Agrees-cons k v d d new (Agrees-self d h))

module _ (sha256 : Text → Text) where
  entries_same :
      (e d : Dict Text Text) → Agrees e d → all (λ x. same_text sha256 (lookup x.0 e) x.1) d ≡ true
  entries_same e [] a = refl
  entries_same e ((k, v) ∷ d) (f, a) = rw (f, (text_eqb_iff v v).1 refl) (entries_same e d a)

  same_entries_self : (d : Dict Text Text) → DistinctKeys d → same_entries sha256 d d ≡ true
  same_entries_self d h = rw (entries_same d d (Agrees-self d h)) refl

  abbrev Lacks : Text → Result (Dict Text Text) → Type 0
  Lacks k (err x) = Unit
  Lacks k (ok d) = lookup k d ≡ none

  Lacks-hashes_of :
      (k : Text) (rels : List Text) (files : Dict Text Text)
      → elem k rels ≡ false
      → Lacks k (hashes_of sha256 rels files)
  unfolding hashes_of
  Lacks-hashes_of k [] files h = refl
  Lacks-hashes_of k (rel ∷ rels) files h =
      of_file (lookup rel files) (hashes_of sha256 rels files)
        (Lacks-hashes_of k rels files (ground (arith, h)))
    where
      of_file :
          (o : Option Text) (r : Result (Dict Text Text))
          → Lacks k r
          → Lacks k (with_hash sha256 rel o r)
      of_file none r l = tt
      of_file (some c) (err x) l = tt
      of_file (some c) (ok d) l = ground (arith, h, l)

  abbrev Distinct : Result (Dict Text Text) → Type 0
  Distinct (err x) = Unit
  Distinct (ok d) = DistinctKeys d

  abbrev AllNew : List Text → Type 0
  AllNew [] = Unit
  AllNew (r ∷ rs) = (elem r rs ≡ false) × AllNew rs

  Distinct-hashes_of :
      (rels : List Text) (files : Dict Text Text)
      → AllNew rels
      → Distinct (hashes_of sha256 rels files)
  unfolding hashes_of
  Distinct-hashes_of [] files h = tt
  Distinct-hashes_of (rel ∷ rels) files (new, h) =
      of_file (lookup rel files) (hashes_of sha256 rels files) (Lacks-hashes_of rel rels files new)
        (Distinct-hashes_of rels files h)
    where
      of_file :
          (o : Option Text) (r : Result (Dict Text Text))
          → Lacks rel r
          → Distinct r
          → Distinct (with_hash sha256 rel o r)
      of_file none r l d = tt
      of_file (some c) (err x) l d = tt
      of_file (some c) (ok hs) l d = (l, d)

  -- After a freeze that wrote, a check that exits with 0; after one that raised, the same root.
  abbrev pub Frozen : Root → Result (Unit {0}) × Root → Type 0
  Frozen root (ok _, root') = (verify_exit_code sha256 root' ≡ 0) × (root'.files ≡ root.files)
  Frozen root (err x, root') = root' ≡ root

  written :
      (root : Root) (r : Result (Dict Text Text))
      → compute_hashes sha256 root ≡ r
      → Distinct r
      → Frozen root (write_lock sha256 r root)
  unfolding verify_exit_code compute_hashes read_lock
  written root (err x) e d = refl
  written root (ok hs) e d = (rw (e, same_entries_self hs d) refl, refl)

  -- For every root: a freeze that returns leaves the files as they were and a lock against which
  -- the integrity check exits with 0; a freeze that raises leaves the root as it was.
  pub freeze-Frozen : (root : Root) → Frozen root (freeze sha256 root)
  unfolding freeze compute_hashes
  freeze-Frozen root = written root (hashes_of sha256 frozen_paths root.files) refl (
      Distinct-hashes_of frozen_paths root.files
        (refl, (refl, (refl, (refl, (refl, (refl, (refl, (refl, tt)))))))))
