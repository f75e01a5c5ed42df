-- ===== src/Scripts/LintChannels.antt =====
-- scripts/lint_channels.py. Python's parser is a function.
use self_spawn_agents.Prelude.{
  ℕ, ◌≡◌, refl, ap, ◌∙◌, Bool, true, false, ◌&&◌, ◌||◌, not, Option, none, some, List, [], ◌∷◌,
  ◌++◌, Text, codes, text_eqb, text_eq, any, all, select, if◌then◌else◌, ◌==◌, map,
}
use self_spawn_agents.Prelude.Dict.{elem}

-- A node of the syntax tree as the linter tells them apart: the names of an `import`, the module
-- of a `from` import, and any other.
pub data AstNode : Type 0 where
  import_names : List Text → AstNode
  import_from : Option Text → AstNode
  other_node : AstNode

-- `ast.walk(ast.parse(text))` with the line and the source of each node, without a value where the
-- parser raises a `SyntaxError`.
abbrev pub Walk : Type 0
Walk = Text → Option (List (AstNode × ℕ × Text))

abbrev pub forbidden : List Text
forbidden = codes "httpx" ∷ codes "requests" ∷ []

-- `name.split(".")[0]`
abbrev pub root_of : Text → Text
root_of [] = []
root_of (c ∷ s) = let rest = root_of s in if c == 46 then [] else c ∷ rest

abbrev pub module_or_empty : Option Text → Text
module_or_empty none = []
module_or_empty (some m) = m

unfoldable pub is_forbidden_import : AstNode → Bool
is_forbidden_import (import_names names) = any (λ n. elem (root_of n) forbidden) names
is_forbidden_import (import_from m) = elem (root_of (module_or_empty m)) forbidden
is_forbidden_import other_node = false

abbrev pub node_lines : List (AstNode × ℕ × Text) → List (ℕ × Text)
node_lines = map (λ n. (n.1, n.2))

abbrev pub scan_nodes : Option (List (AstNode × ℕ × Text)) → List (ℕ × Text)
scan_nodes none = []
scan_nodes (some nodes) = node_lines (select (λ n. is_forbidden_import n.0) nodes)

-- A file: the parts of its path below the root, and its text.
abbrev pub SourceFile : Type 0
SourceFile = List Text × Text

-- `len(rel_parts) >= 2 and rel_parts[0] == "aae" and rel_parts[1] == "channels"`
abbrev pub is_channel : List Text → Bool
is_channel (p ∷ q ∷ parts) = text_eqb p (codes "aae") && text_eqb q (codes "channels")
is_channel _ = false

module _ (walk : Walk) where
  unfoldable pub scan_file : Text → List (ℕ × Text)
  unfolding is_forbidden_import
  scan_file text = scan_nodes (walk text)

  abbrev pub located : List Text → List (ℕ × Text) → List (List Text × ℕ × Text)
  located path = map (λ v. (path, v.0, v.1))

  -- `aae` is whether the folder exists, with the Python files below it.
  unfoldable pub scan_tree : Option (List SourceFile) → List (List Text × ℕ × Text)
  unfolding scan_file
  scan_tree none = []
  scan_tree (some []) = []
  scan_tree (some ((path, text) ∷ files)) =
      let rest = scan_tree (some files) in
      if is_channel path then rest else located path (scan_file text) ++ rest

  abbrev pub exit_of : List (List Text × ℕ × Text) → ℕ
  exit_of [] = 0
  exit_of (v ∷ vs) = 1

  unfoldable pub main : Option (List SourceFile) → ℕ
  unfolding scan_tree
  main aae = exit_of (scan_tree aae)

-- No forbidden import, as far as the parser reads the text.
abbrev pub is_clean : Option (List (AstNode × ℕ × Text)) → Bool
is_clean none = true
is_clean (some nodes) = all (λ n. not (is_forbidden_import n.0)) nodes

abbrev no_items {ℓ} : {A : Type ℓ} → List A → Bool
no_items [] = true
no_items (x ∷ xs) = false

scan_nodes_clean :
    (nodes : List (AstNode × ℕ × Text))
    → no_items (scan_nodes (some nodes)) ≡ all (λ n. not (is_forbidden_import n.0)) nodes
scan_nodes_clean [] = refl
scan_nodes_clean (n ∷ nodes) = split (is_forbidden_import n.0) (scan_nodes_clean nodes)
  where
    split :
        (b : Bool)
        → no_items (scan_nodes (some nodes)) ≡ all (λ n. not (is_forbidden_import n.0)) nodes
        → no_items (
            node_lines (
              if b
              then n ∷ select (λ m. is_forbidden_import m.0) nodes
              else select (λ m. is_forbidden_import m.0) nodes))
          ≡ (not b && all (λ n. not (is_forbidden_import n.0)) nodes)
    split true h = refl
    split false h = h

scan_clean : (o : Option (List (AstNode × ℕ × Text))) → no_items (scan_nodes o) ≡ is_clean o
scan_clean none = refl
scan_clean (some nodes) = scan_nodes_clean nodes

module _ (walk : Walk) where
  -- Each file is a channel's or clean.
  abbrev pub is_clean_tree : Option (List SourceFile) → Bool
  is_clean_tree none = true
  is_clean_tree (some files) = all (λ f. is_channel f.0 || is_clean (walk f.1)) files

  exit_of_file :
      (path : List Text) (found : List (ℕ × Text)) (rest : List (List Text × ℕ × Text))
      (clean : Bool)
      → exit_of walk rest ≡ (if clean then 0 else 1)
      → exit_of walk (located walk path found ++ rest) ≡ (if no_items found && clean then 0 else 1)
  exit_of_file path [] rest clean h = h
  exit_of_file path (v ∷ vs) rest clean h = refl

  file_case :
      (channel clean others : Bool) (path : List Text) (found : List (ℕ × Text))
      (rest : List (List Text × ℕ × Text))
      → no_items found ≡ clean
      → exit_of walk rest ≡ (if others then 0 else 1)
      → exit_of walk (if channel then rest else located walk path found ++ rest)
        ≡ (if (channel || clean) && others then 0 else 1)
  file_case true clean others path found rest e h = h
  file_case false clean others path found rest e h =
      exit_of_file path found rest others h ∙ ap (λ b. if b && others then 0 else 1) e

  -- For any tree of files: the linter exits with 0 if every file below aae is one of aae/channels,
  -- does not parse, or has no import of httpx or requests in its syntax tree, and with 1
  -- otherwise; it exits with 0 where there is no folder aae.
  main_lem : (aae : Option (List SourceFile)) → main walk aae ≡ (if is_clean_tree aae then 0 else 1)
  unfolding main
  main_lem none = refl
  main_lem (some []) = refl
  main_lem (some ((path, text) ∷ files)) =
      file_case (is_channel path) (is_clean (walk text)) _ path (scan_file walk text) _
        (scan_clean (walk text)) (main_lem (some files))
