-- ===== src/Preregistration/Escape.antt =====
-- The escapes of the dump read back, so a quoted text ends where it ends.
use self_spawn_agents.Prelude.{
  ℕ, ◌+◌, ◌-◌, ◌*◌, ◌/◌, ◌%◌, ◌<◌, ◌≡◌, refl, sym, ap, ◌∙◌, Option, none, some, [], ◌∷◌, ◌++◌, Text,
  ltb, ◌==◌, if◌then◌else◌, arith,
}
use mathlib.Core.List.{append_assoc}
use self_spawn_agents.Preregistration.Canonical.{hex_digit, escape_char, escape, quote}

abbrev hex_value : ℕ → ℕ
hex_value d = if ltb d 58 then d - 48 else d - 87

-- The character behind a backslash.
abbrev unescape : ℕ → ℕ
unescape e =
    if e == 110
    then 10
    else if e == 114
    then 13
    else if e == 116
    then 9
    else if e == 102
    then 12
    else if e == 98
    then 8
    else e

abbrev read_unicode : Text → Option (ℕ × Text)
read_unicode (a ∷ b ∷ h ∷ l ∷ s) = some (16 * hex_value h + hex_value l, s)
read_unicode _ = none

abbrev read_escape : Text → Option (ℕ × Text)
read_escape [] = none
read_escape (e ∷ s) = let u = read_unicode s in if e == 117 then u else some (unescape e, s)

-- The first character of a quoted text, none at its end.
read_char : Text → Option (ℕ × Text)
read_char [] = none
read_char (c ∷ s) =
    let e = read_escape s in if c == 34 then none else if c == 92 then e else some (c, s)

hex_value-hex_digit : (d : ℕ) → d < 16 → hex_value (hex_digit d) ≡ d
hex_value-hex_digit d h = ground arith

read_char-escape_char : (c : ℕ) (s : Text) → read_char (escape_char c ++ s) ≡ some (c, s)
unfolding read_char
read_char-escape_char c s =
    ground (arith, hex_value-hex_digit (c / 16), hex_value-hex_digit (c % 16))

none_or_some : {a : ℕ × Text} → none ≡ some a → ⊥
none_or_some h = cc

split_char : (c d : ℕ) (s t : Text) → escape_char c ++ s ≡ escape_char d ++ t → (c ≡ d) × (s ≡ t)
split_char c d s t h =
    let e = sym (read_char-escape_char c s) ∙ ap read_char h ∙ read_char-escape_char d t in (cc, cc)

char_or_end : (c : ℕ) (s r : Text) → escape_char c ++ s ≡ 34 ∷ r → ⊥
unfolding read_char
char_or_end c s r h = none_or_some (sym (ap read_char h) ∙ read_char-escape_char c s)

escape-injective : (s t r q : Text) → escape s ++ 34 ∷ r ≡ escape t ++ 34 ∷ q → (s ≡ t) × (r ≡ q)
escape-injective [] [] r q h = (refl, cc)
escape-injective [] (d ∷ t) r q h = absurd (
    char_or_end d (escape t ++ 34 ∷ q) r
      (sym (append_assoc (escape_char d) (escape t) (34 ∷ q)) ∙ sym h))
escape-injective (c ∷ s) [] r q h = absurd (
    char_or_end c (escape s ++ 34 ∷ r) q
      (sym (append_assoc (escape_char c) (escape s) (34 ∷ r)) ∙ h))
escape-injective (c ∷ s) (d ∷ t) r q h =
    let (e, k) = split_char c d (escape s ++ 34 ∷ r) (escape t ++ 34 ∷ q) (
      sym (append_assoc (escape_char c) (escape s) (34 ∷ r))
      ∙ h
      ∙ append_assoc (escape_char d) (escape t) (34 ∷ q)) in
    let (f, l) = escape-injective s t r q k in (cc, l)

-- Two quoted texts with something behind them.
pub quote-injective : (s t r q : Text) → quote s ++ r ≡ quote t ++ q → (s ≡ t) × (r ≡ q)
quote-injective s t r q h =
    escape-injective s t r q (
      sym (append_assoc (escape s) (34 ∷ []) r)
      ∙ ap tail_of h
      ∙ append_assoc (escape t) (34 ∷ []) q)
  where
    tail_of : Text → Text
    tail_of [] = []
    tail_of (c ∷ s) = s
