-- ===== src/Ops/Freeze/Integrity.antt =====
-- What a freeze guarantees, and what a clean check says.
use self_spawn_agents.Prelude.{
  ◌≡◌, ◌↔◌, refl, sym, ap, subst, if◌then◌else◌, Bool, true, false, Option, none, some, List, [],
  ◌∷◌, Result, ok, err, Text, text_eqb_iff, text_eq, arith, All,
}
use mathlib.Core.Option.{some-injective}
use self_spawn_agents.Prelude.Dict.{Dict, lookup}
use self_spawn_agents.Ops.Freeze.{
  frozen_paths, Root, with_hash, hashes_of, compute_hashes, read_lock, same_text, drift_of,
  drift_found, verify,
}

module _ (sha256 : Text → Text) where
  -- The file stands in the root, with the hash that the dictionary holds.
  abbrev pub Matches : Dict Text Text → Dict Text Text → Text → Type 0
  Matches expected files rel =
      (content : Text) × (lookup rel files ≡ some content)
      × (lookup rel expected ≡ some (sha256 content))

  same_text_iff : (o : Option Text) (h : Text) → (same_text sha256 o h ≡ true) ↔ (o ≡ some h)
  same_text_iff none h = ground arith
  same_text_iff (some g) h =
      (λ e. ap some ((text_eqb_iff g h).0 e), λ e. (text_eqb_iff g h).1 (some-injective g h e))

  value : Result (Dict Text Text) → Dict Text Text
  value (ok d) = d
  value (err x) = []

  -- The hashes are there, and the lock has drifted from none.
  abbrev Clean : Dict Text Text → Result (Dict Text Text) → Type 0
  Clean expected (err x) = ⊥
  Clean expected (ok current) = drift_of sha256 current expected ≡ []

  Matches-Clean :
      (rels : List Text) (files expected : Dict Text Text)
      → All (Matches expected files) rels
      → Clean expected (hashes_of sha256 rels files)
  unfolding hashes_of
  Matches-Clean [] files expected h = refl
  Matches-Clean (rel ∷ rels) files expected ((c, found, same), h) =
      rw found (added (hashes_of sha256 rels files) (Matches-Clean rels files expected h))
    where
      added :
          (r : Result (Dict Text Text))
          → Clean expected r
          → Clean expected (with_hash sha256 rel (some c) r)
      added (err x) k = k
      added (ok hs) k = rw ((same_text_iff (lookup rel expected) (sha256 c)).1 same) k

  no_drift :
      (rels : List Text) (files expected current : Dict Text Text)
      → hashes_of sha256 rels files ≡ ok current
      → drift_of sha256 current expected ≡ []
      → All (Matches expected files) rels
  unfolding hashes_of value
  no_drift [] files expected current h d = tt
  no_drift (rel ∷ rels) files expected current h d =
      of_file (no_drift rels files expected) (lookup rel files) refl (hashes_of sha256 rels files)
        refl h
    where
      entry :
          ((hs : Dict Text Text)
            → hashes_of sha256 rels files ≡ ok hs
            → drift_of sha256 hs expected ≡ []
            → All (Matches expected files) rels)
          → (c : Text) → lookup rel files ≡ some c
          → (hs : Dict Text Text) → hashes_of sha256 rels files ≡ ok hs
          → (b : Bool) → same_text sha256 (lookup rel expected) (sha256 c) ≡ b
          → (if b then drift_of sha256 hs expected else rel ∷ drift_of sha256 hs expected) ≡ []
          → All (Matches expected files) (rel ∷ rels)
      entry again c found hs rest true same clean =
          ((c, found, (same_text_iff (lookup rel expected) (sha256 c)).0 same), again hs rest clean)
      entry again c found hs rest false same clean = ground (arith, clean)

      of_file :
          ((hs : Dict Text Text)
            → hashes_of sha256 rels files ≡ ok hs
            → drift_of sha256 hs expected ≡ []
            → All (Matches expected files) rels)
          → (o : Option Text) → lookup rel files ≡ o
          → (r : Result (Dict Text Text)) → hashes_of sha256 rels files ≡ r
          → with_hash sha256 rel o r ≡ ok current
          → All (Matches expected files) (rel ∷ rels)
      of_file again none found r rest e = ground (arith, e)
      of_file again (some c) found (err x) rest e = ground (arith, e)
      of_file again (some c) found (ok hs) rest e =
          entry again c found hs rest (same_text sha256 (lookup rel expected) (sha256 c)) refl
            (subst (λ x. drift_of sha256 x expected ≡ []) (sym (ap value e)) d)

  -- The integrity check finds no drift exactly if every frozen path is a file whose hash the lock
  -- holds.
  pub verify_iff :
      (root : Root)
      → (verify sha256 root ≡ ok []) ↔ All (Matches (read_lock sha256 root) root.files) frozen_paths
  unfolding verify compute_hashes
  verify_iff root = (
    λ h. of_hashes (hashes_of sha256 frozen_paths root.files) refl h,
    λ h.
        clean (hashes_of sha256 frozen_paths root.files)
          (Matches-Clean frozen_paths root.files (read_lock sha256 root) h),
  )
    where
      of_hashes :
          (r : Result (Dict Text Text))
          → hashes_of sha256 frozen_paths root.files ≡ r
          → drift_found sha256 (read_lock sha256 root) r ≡ ok []
          → All (Matches (read_lock sha256 root) root.files) frozen_paths
      of_hashes (err x) e h = ground (arith, h)
      of_hashes (ok current) e h =
          no_drift frozen_paths root.files (read_lock sha256 root) current e (ap paths h)
        where
          paths : Result (List Text) → List Text
          paths (ok ps) = ps
          paths (err x) = []

      clean :
          (r : Result (Dict Text Text))
          → Clean (read_lock sha256 root) r
          → drift_found sha256 (read_lock sha256 root) r ≡ ok []
      clean (err x) k = absurd k
      clean (ok current) k = ap ok k
