-- ===== src/Ops/Freeze.antt =====
-- aae/ops/freeze_experiment.py over the paths of aae/config/frozen. The root of the repository is
-- the list of its files; SHA-256 is a function, and the lock's JSON is kept as its dictionary.
pub mod Integrity
pub mod RoundTrip
mod RepoRoot
use self_spawn_agents.Prelude.{
  ℕ, Bool, true, false, ◌&&◌, not, Option, none, some, List, [], ◌∷◌, ◌++◌, Result, ok, err, Action,
  if◌then◌else◌, Text, codes, text_eqb, text_eq, all, is_some, length, ◌==◌, file_not_found,
  value_error,
}
use self_spawn_agents.Prelude.Dict.{Dict, lookup, contains, insert}

abbrev pub frozen_paths : List Text
frozen_paths =
    codes "aae/ethics/prompt.md"
    ∷ codes "aae/ethics/auditor.py"
    ∷ codes "aae/cashflow/hard_floors.py"
    ∷ codes "aae/config/frozen/expansion_rungs.py"
    ∷ codes "aae/config/frozen/model_routing.py"
    ∷ codes "aae/preregistration/schema.py"
    ∷ codes "aae/preregistration/canonical.py"
    ∷ codes "aae/core/trust_boundary.py"
    ∷ []

pub record Root : Type 0 where
  pub files : Dict Text Text
  -- the lock file, if there is one
  pub lock : Option (Dict Text Text)

module _ (sha256 : Text → Text) where
  abbrev pub with_hash : Text → Option Text → Result (Dict Text Text) → Result (Dict Text Text)
  with_hash rel none rest = err file_not_found
  with_hash rel (some content) (err x) = err x
  with_hash rel (some content) (ok hashes) = ok ((rel, sha256 content) ∷ hashes)

  unfoldable pub hashes_of : List Text → Dict Text Text → Result (Dict Text Text)
  hashes_of [] files = ok []
  hashes_of (rel ∷ rels) files = with_hash rel (lookup rel files) (hashes_of rels files)

  unfoldable pub compute_hashes : Root → Result (Dict Text Text)
  compute_hashes root = hashes_of frozen_paths root.files

  -- An absent lock is an empty dictionary.
  unfoldable pub read_lock : Root → Dict Text Text
  read_lock root = elim root.lock [ none ↦ [] | some d ↦ d ]

  abbrev pub write_lock : Result (Dict Text Text) → Action Root (Unit {0})
  write_lock (err x) root = (err x, root)
  write_lock (ok hashes) root = (ok tt, record { files = root.files; lock = some hashes })

  unfoldable pub freeze : Action Root (Unit {0})
  freeze root = write_lock (compute_hashes root) root

  -- `freeze` behind the test that the changelog exists.
  unfoldable pub update : Action Root (Unit {0})
  update root =
      if contains (codes "CHANGELOG.frozen.md") root.files
      then freeze root
      else (err value_error, root)

  abbrev pub same_text : Option Text → Text → Bool
  same_text none h = false
  same_text (some g) h = text_eqb g h

  -- The paths whose hash the lock does not hold.
  abbrev pub drift_of : Dict Text Text → Dict Text Text → List Text
  drift_of [] expected = []
  drift_of ((rel, h) ∷ current) expected =
      let rest = drift_of current expected in
      if same_text (lookup rel expected) h then rest else rel ∷ rest

  abbrev pub drift_found : Dict Text Text → Result (Dict Text Text) → Result (List Text)
  drift_found expected (err x) = err x
  drift_found expected (ok current) = ok (drift_of current expected)

  -- `verify`: the drift that it prints, where it exits with 1 unless there is none.
  unfoldable pub verify : Root → Result (List Text)
  verify root = drift_found (read_lock root) (compute_hashes root)

  -- The equality of two dictionaries: each entry of either is in the other.
  abbrev pub same_entries : Dict Text Text → Dict Text Text → Bool
  same_entries d e =
      all (λ x. same_text (lookup x.0 e) x.1) d && all (λ x. same_text (lookup x.0 d) x.1) e

  abbrev pub exit_code : Dict Text Text → Result (Dict Text Text) → ℕ
  exit_code expected (err x) = 1
  exit_code expected (ok current) = if same_entries expected current then 0 else 1

  unfoldable pub verify_exit_code : Root → ℕ
  verify_exit_code root = exit_code (read_lock root) (compute_hashes root)
