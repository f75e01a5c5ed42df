-- ===== src/Prelude/Unicode.antt =====
-- Python's `str` methods on texts of code points. What the Unicode database says of a code point
-- is a parameter with its documented meaning on ASCII.
use self_spawn_agents.Prelude.{
  ℕ, ◌+◌, ◌-◌, ◌<◌, ◌≡◌, Bool, true, false, ◌&&◌, ◌||◌, Option, none, some, List, [], ◌∷◌, ◌++◌,
  Text, leb, ltb, all, text_eqb, if◌then◌else◌, Result, ok, err, type_error,
}

abbrev pub in_range : ℕ → ℕ → ℕ → Bool
in_range low high c = leb low c && leb c high

-- The white space of ASCII: the tab up to the carriage return, the four separators, the blank.
abbrev pub ascii_space : ℕ → Bool
ascii_space c = in_range 9 13 c || in_range 28 32 c

abbrev pub ascii_upper : ℕ → ℕ
ascii_upper c = if in_range 97 122 c then c - 32 else c

abbrev pub ascii_lower : ℕ → ℕ
ascii_lower c = if in_range 65 90 c then c + 32 else c

abbrev pub ascii_digit : ℕ → Option ℕ
ascii_digit c = if in_range 48 57 c then some (c - 48) else none

pub record Unicode : Type 0 where
  -- `c.isspace()`
  pub is_space : ℕ → Bool
  pub is_space-ascii : (c : ℕ) → c < 128 → is_space c ≡ ascii_space c
  -- `c.upper()` and `c.lower()`, which may be several code points
  pub to_upper : ℕ → Text
  pub to_upper-ascii : (c : ℕ) → c < 128 → to_upper c ≡ ascii_upper c ∷ []
  pub to_lower : ℕ → Text
  pub to_lower-ascii : (c : ℕ) → c < 128 → to_lower c ≡ ascii_lower c ∷ []
  -- What `\d` matches, with its value as a digit.
  pub digit_value : ℕ → Option ℕ
  pub digit_value-ascii : (c : ℕ) → c < 128 → digit_value c ≡ ascii_digit c

abbrev each : (ℕ → Text) → Text → Text
each f [] = []
each f (c ∷ s) = f c ++ each f s

abbrev pub is_empty : Text → Bool
is_empty [] = true
is_empty (c ∷ s) = false

-- A word goes before the others, unless it is empty.
abbrev pub push_word : Text → List Text → List Text
push_word [] ws = ws
push_word (c ∷ w) ws = (c ∷ w) ∷ ws

module _ (u : Unicode) where
  abbrev pub upper : Text → Text
  upper = each u.to_upper

  abbrev pub lower : Text → Text
  lower = each u.to_lower

  abbrev pub lstrip : Text → Text
  lstrip [] = []
  lstrip (c ∷ s) = if u.is_space c then lstrip s else c ∷ s

  abbrev pub rstrip : Text → Text
  rstrip [] = []
  rstrip (c ∷ s) = let rest = rstrip s in if u.is_space c && is_empty rest then [] else c ∷ rest

  abbrev pub strip : Text → Text
  strip s = rstrip (lstrip s)

  -- The word that a text starts with, and the words after it.
  abbrev pub words : Text → Text × List Text
  words [] = ([], [])
  words (c ∷ s) =
      let (w, ws) = words s in if u.is_space c then ([], push_word w ws) else (c ∷ w, ws)

  -- `s.split()`
  abbrev pub split : Text → List Text
  split s = let (w, ws) = words s in push_word w ws

-- `s.isascii()`
abbrev pub is_ascii : Text → Bool
is_ascii = all (λ c. ltb c 128)

-- `hmac.compare_digest` of two texts, which raises where one is not ASCII.
abbrev pub compare_digest : Text → Text → Result Bool
compare_digest s t = if is_ascii s && is_ascii t then ok (text_eqb s t) else err type_error
