-- ===== src/Ops/Freeze/RepoRoot.antt =====
-- `_repo_root` of aae/ops/freeze_experiment.py: the walk up from the module's file. A path is the list
-- of its names, the last one first, so its parents are its tails.
use self_spawn_agents.Prelude.{
  ◌≡◌, ◌⊎◌, inl, inr, refl, Bool, true, List, [], ◌∷◌, Text, Bool-cases, if◌then◌else◌, all, not,
}

abbrev pub FilePath : Type 0
FilePath = List Text

-- `(p, *p.parents)`
abbrev with_parents : FilePath → List FilePath
with_parents [] = [] ∷ []
with_parents (name ∷ up) = (name ∷ up) ∷ with_parents up

-- The loop: `has_project` says whether `pyproject.toml` is in a folder.
unfoldable pub first_root : (FilePath → Bool) → FilePath → List FilePath → FilePath
first_root has_project cwd [] = cwd
first_root has_project cwd (parent ∷ others) =
    let rest = first_root has_project cwd others in if has_project parent then parent else rest

unfoldable pub repo_root : (FilePath → Bool) → FilePath → FilePath → FilePath
repo_root has_project cwd file = first_root has_project cwd (with_parents file)

module _ (has_project : FilePath → Bool) (cwd : FilePath) where
  first_root_found :
      (ps : List FilePath)
      → (has_project (first_root has_project cwd ps) ≡ true)
        ⊎ ((all (λ p. not (has_project p)) ps ≡ true) × (first_root has_project cwd ps ≡ cwd))
  unfolding first_root
  first_root_found [] = inr (refl, refl)
  first_root_found (p ∷ ps) = elim (Bool-cases (has_project p)) [
    | inl here ↦ inl (rw here here)
    | inr missing ↦ rw missing (first_root_found ps)
  ]

  -- The root holds `pyproject.toml`, or no folder on the way up does and the root is the working
  -- directory.
  repo_root_found :
      (file : FilePath)
      → (has_project (repo_root has_project cwd file) ≡ true)
        ⊎ ((all (λ p. not (has_project p)) (with_parents file) ≡ true)
            × (repo_root has_project cwd file ≡ cwd))
  unfolding repo_root
  repo_root_found file = first_root_found (with_parents file)
