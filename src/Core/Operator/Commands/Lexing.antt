-- ===== src/Core/Operator/Commands/Lexing.antt =====
-- `strip` and `split` on words with a blank between any two, and `upper` on capitals.
use mathlib.Core.List.{append-nil}
use self_spawn_agents.Prelude.{
  ℕ, ◌≡◌, ◌==◌, refl, ◌∙◌, Bool, true, false, ◌&&◌, not, List, [], ◌∷◌, ◌++◌, Text, all, ltb, arith,
  All,
}
use self_spawn_agents.Prelude.Unicode.{
  Unicode, ascii_space, ascii_upper, ascii_lower, upper, lower, lstrip, rstrip, strip, split, words,
}
use self_spawn_agents.Core.Operator.Commands.{joined}

-- An ASCII character that is no white space.
abbrev pub visible : ℕ → Bool
visible c = ltb c 128 && not (ascii_space c)

-- A word is not empty, and all of it is visible.
abbrev pub IsWord : Text → Type 0
IsWord [] = ⊥
IsWord (c ∷ w) = all visible (c ∷ w) ≡ true

abbrev pub is_capital : ℕ → Bool
is_capital c = ltb c 128 && (ascii_upper c == c)

abbrev pub is_small : ℕ → Bool
is_small c = ltb c 128 && (ascii_lower c == c)

module _ (u : Unicode) where
  visible_is_no_space : (c : ℕ) → visible c ≡ true → u.is_space c ≡ false
  visible_is_no_space c h = ground (arith, u.is_space-ascii c)

  blank_is_space : u.is_space 32 ≡ true
  blank_is_space = u.is_space-ascii 32 (omega arith)

  pub upper-capitals : (s : Text) → all is_capital s ≡ true → upper u s ≡ s
  upper-capitals [] h = refl
  upper-capitals (c ∷ s) h = ground (arith, u.to_upper-ascii c, upper-capitals s)

  pub lower-small : (s : Text) → all is_small s ≡ true → lower u s ≡ s
  lower-small [] h = refl
  lower-small (c ∷ s) h = ground (arith, u.to_lower-ascii c, lower-small s)

  rstrip-append : (w s : Text) → all visible w ≡ true → rstrip u s ≡ s → rstrip u (w ++ s) ≡ w ++ s
  rstrip-append [] s h k = k
  rstrip-append (c ∷ w) s h k = ground (arith, visible_is_no_space c, rstrip-append w s)

  rstrip_word : (w : Text) → all visible w ≡ true → rstrip u w ≡ w
  rstrip_word [] h = refl
  rstrip_word (c ∷ w) h = ground (arith, visible_is_no_space c, rstrip_word w)

  words_word : (w : Text) → all visible w ≡ true → words u w ≡ (w, [])
  words_word [] h = refl
  words_word (c ∷ w) h = ground (arith, visible_is_no_space c, words_word w)

  words-append :
      (w s : Text) → all visible w ≡ true → words u (w ++ s) ≡ (w ++ (words u s).0, (words u s).1)
  words-append [] s h = refl
  words-append (c ∷ w) s h = ground (arith, visible_is_no_space c, words-append w s)

  rstrip-joined :
      (w : Text) (ws : List Text)
      → All IsWord (w ∷ ws)
      → rstrip u (joined (w ∷ ws)) ≡ joined (w ∷ ws)
  rstrip-joined [] ws h = absurd h.0
  rstrip-joined (c ∷ w) [] h = rstrip_word (c ∷ w) h.0
  rstrip-joined (c ∷ w) (v ∷ ws) h =
      rstrip-append (c ∷ w) (32 ∷ joined (v ∷ ws)) h.0
        (rstrip_blank v ws h.1 (rstrip-joined v ws h.1))
    where
      rstrip_blank :
          (v : Text) (ws : List Text)
          → All IsWord (v ∷ ws)
          → rstrip u (joined (v ∷ ws)) ≡ joined (v ∷ ws)
          → rstrip u (32 ∷ joined (v ∷ ws)) ≡ 32 ∷ joined (v ∷ ws)
      rstrip_blank [] ws h k = absurd h.0
      rstrip_blank (d ∷ v) [] h k = rw (blank_is_space, k) refl
      rstrip_blank (d ∷ v) (x ∷ ws) h k = rw (blank_is_space, k) refl

  lstrip-joined :
      (w : Text) (ws : List Text)
      → All IsWord (w ∷ ws)
      → lstrip u (joined (w ∷ ws)) ≡ joined (w ∷ ws)
  lstrip-joined [] ws h = absurd h.0
  lstrip-joined (c ∷ w) [] h = ground (arith, h.0, visible_is_no_space c)
  lstrip-joined (c ∷ w) (v ∷ ws) h = ground (arith, h.0, visible_is_no_space c)

  words-joined :
      (w : Text) (ws : List Text) → All IsWord (w ∷ ws) → words u (joined (w ∷ ws)) ≡ (w, ws)
  words-joined [] ws h = absurd h.0
  words-joined (c ∷ w) [] h = words_word (c ∷ w) h.0
  words-joined (c ∷ w) ([] ∷ ws) h = absurd h.1.0
  words-joined (c ∷ w) ((d ∷ v) ∷ ws) h =
      words-append (c ∷ w) (32 ∷ joined ((d ∷ v) ∷ ws)) h.0
      ∙ rw (blank_is_space, words-joined (d ∷ v) ws h.1, append-nil) refl

  -- Words with a blank between any two are stripped of nothing, and split into themselves.
  pub strip-joined :
      (w : Text) (ws : List Text)
      → All IsWord (w ∷ ws)
      → strip u (joined (w ∷ ws)) ≡ joined (w ∷ ws)
  strip-joined w ws h = rw (lstrip-joined w ws h) (rstrip-joined w ws h)

  pub split-joined :
      (w : Text) (ws : List Text) → All IsWord (w ∷ ws) → split u (joined (w ∷ ws)) ≡ w ∷ ws
  split-joined [] ws h = absurd h.0
  split-joined (c ∷ w) ws h = rw (words-joined (c ∷ w) ws h) refl
