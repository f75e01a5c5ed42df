-- ===== src/Preregistration/Scalars.antt =====
-- Members whose values are texts, whole numbers or truth values: their printed form tells them.
use self_spawn_agents.Prelude.{
  ℕ, suc, ◌≡◌, refl, sym, ap, ◌∙◌, Bool, true, false, ◌&&◌, ◌||◌, [], ◌∷◌, ◌++◌, Text, ◌==◌, all,
  arith,
}
use mathlib.Core.List.{append_assoc, append_cancel_left, head-eq_of_cons-eq, tail-eq_of_cons-eq}
use self_spawn_agents.Prelude.Unicode.{in_range}
use self_spawn_agents.Prelude.Int.{ℤ, pos, negsuc}
use self_spawn_agents.Prelude.Digits.{
  digits, print_int, is_digit, digits_are_digits, read_digits, read_digits-digits,
}
use self_spawn_agents.Prelude.Dict.{Dict}
use self_spawn_agents.Preregistration.Canonical.{
  PyValue, boolean, int, string, body_text, bool_text, quote, member_text, join_rest, join_members,
}
use self_spawn_agents.Preregistration.Escape.{quote-injective}

shut : (a b : Bool) → a ≡ false → (a && b) ≡ true → ⊥
shut a b h k = ground arith

-- Two texts over an alphabet, each before a character outside it.
alphabet_prefix :
    (p : ℕ → Bool) (s t : Text) (c d : ℕ) (r q : Text)
    → all p s ≡ true
    → all p t ≡ true
    → p c ≡ false
    → p d ≡ false
    → s ++ c ∷ r ≡ t ++ d ∷ q
    → (s ≡ t) × (c ∷ r ≡ d ∷ q)
alphabet_prefix p [] [] c d r q hs ht hc hd h = (refl, h)
alphabet_prefix p [] (y ∷ t) c d r q hs ht hc hd h =
    absurd (shut (p y) (all p t) (ap p (sym (head-eq_of_cons-eq h)) ∙ hc) ht)
alphabet_prefix p (x ∷ s) [] c d r q hs ht hc hd h =
    absurd (shut (p x) (all p s) (ap p (head-eq_of_cons-eq h) ∙ hd) hs)
alphabet_prefix p (x ∷ s) (y ∷ t) c d r q hs ht hc hd h =
    let k = alphabet_prefix p s t c d r q (ground (arith, hs)) (ground (arith, ht)) hc hd cc in
    (cc, k.1)

-- The characters of whole numbers, and those of truth values.
abbrev is_sign_or_digit : ℕ → Bool
is_sign_or_digit c = (c == 45) || in_range 48 57 c

signed_of_digits : (s : Text) → all is_digit s ≡ true → all is_sign_or_digit s ≡ true
signed_of_digits [] h = refl
signed_of_digits (c ∷ s) h = ground (arith, h, signed_of_digits s)

print_int_signed : (n : ℤ) → all is_sign_or_digit (print_int n) ≡ true
unfolding print_int
print_int_signed (pos n) = signed_of_digits (digits n) (digits_are_digits n)
print_int_signed (negsuc n) = signed_of_digits (digits (suc n)) (digits_are_digits (suc n))

digits-injective : (m n : ℕ) → digits m ≡ digits n → m ≡ n
digits-injective m n h = sym (read_digits-digits m) ∙ ap (read_digits 0) h ∙ read_digits-digits n

no_sign : (n : ℕ) (s : Text) → digits n ≡ 45 ∷ s → ⊥
no_sign n s h = absurd_bool (sym (ap (all is_digit) h) ∙ digits_are_digits n)
  where
    absurd_bool : false ≡ true → ⊥
    absurd_bool e = cc

print_int-injective : (a b : ℤ) → print_int a ≡ print_int b → a ≡ b
unfolding print_int
print_int-injective (pos m) (pos n) h = ap pos (digits-injective m n h)
print_int-injective (pos m) (negsuc n) h = absurd (no_sign m (digits (suc n)) h)
print_int-injective (negsuc m) (pos n) h = absurd (no_sign n (digits (suc m)) (sym h))
print_int-injective (negsuc m) (negsuc n) h =
    ground (arith, digits-injective (suc m) (suc n) (tail-eq_of_cons-eq h))

differ : (m n : ℕ) → (m == n) ≡ false → m ≡ n → ⊥
differ m n h e = ground (arith, h, e)

bool_text-injective : (a b : Bool) → bool_text a ≡ bool_text b → a ≡ b
bool_text-injective true true h = refl
bool_text-injective true false h = absurd (differ 116 102 refl (head-eq_of_cons-eq h))
bool_text-injective false true h = absurd (differ 102 116 refl (head-eq_of_cons-eq h))
bool_text-injective false false h = refl

-- Values of the same kind, of the three kinds that a locked payload has.
abbrev pub SameKind : PyValue → PyValue → Type 0
SameKind (string s) (string t) = Unit
SameKind (int m) (int n) = Unit
SameKind (boolean a) (boolean b) = Unit
SameKind v w = ⊥

-- What stands behind a value: a comma or the end of the object.
abbrev is_delimiter : ℕ → Bool
is_delimiter c = (c == 44) || (c == 125)

not_signed : (c : ℕ) → is_delimiter c ≡ true → is_sign_or_digit c ≡ false
not_signed c h = ground (arith, h)

not_letter : (c : ℕ) → is_delimiter c ≡ true → in_range 97 122 c ≡ false
not_letter c h = ground (arith, h)

letters : (b : Bool) → all (in_range 97 122) (bool_text b) ≡ true
letters true = refl
letters false = refl

value-injective :
    (v w : PyValue) (c d : ℕ) (r q : Text)
    → SameKind v w
    → is_delimiter c ≡ true
    → is_delimiter d ≡ true
    → body_text v ++ c ∷ r ≡ body_text w ++ d ∷ q
    → (v ≡ w) × (c ∷ r ≡ d ∷ q)
unfolding body_text
value-injective (string s) (string t) c d r q k hc hd h =
    let (e, l) = quote-injective s t (c ∷ r) (d ∷ q) h in (ap string e, l)
value-injective (int m) (int n) c d r q k hc hd h =
    let (e, l) =
      alphabet_prefix is_sign_or_digit (print_int m) (print_int n) c d r q (print_int_signed m)
        (print_int_signed n) (not_signed c hc) (not_signed d hd) h in
    (ap int (print_int-injective m n e), l)
value-injective (boolean a) (boolean b) c d r q k hc hd h =
    let (e, l) =
      alphabet_prefix (in_range 97 122) (bool_text a) (bool_text b) c d r q (letters a) (letters b)
        (not_letter c hc) (not_letter d hd) h in
    (ap boolean (bool_text-injective a b e), l)
value-injective _ _ c d r q k hc hd h = absurd k

abbrev pub texts : Dict Text PyValue → Dict Text Text
texts [] = []
texts ((k, v) ∷ d) = (k, body_text v) ∷ texts d

-- The same keys in the same order, with values of the same kinds.
abbrev pub Matching : Dict Text PyValue → Dict Text PyValue → Type 0
Matching [] [] = Unit
Matching ((j, v) ∷ d) ((k, w) ∷ e) = (j ≡ k) × SameKind v w × Matching d e
Matching d e = ⊥

-- A value and the members behind it.
tail_text : PyValue → Dict Text PyValue → Text
tail_text v d = body_text v ++ (join_rest (texts d) ++ 125 ∷ [])

member-split :
    (k : Text) (v : PyValue) (d : Dict Text PyValue)
    → (member_text (k, body_text v) ++ join_rest (texts d)) ++ 125 ∷ []
      ≡ quote k ++ 58 ∷ tail_text v d
unfolding tail_text
member-split k v d =
    append_assoc (member_text (k, body_text v)) (join_rest (texts d)) (125 ∷ [])
    ∙ append_assoc (quote k) (58 ∷ body_text v) (join_rest (texts d) ++ 125 ∷ [])

members-injective :
    (d e : Dict Text PyValue) (k : Text) (v w : PyValue)
    → SameKind v w
    → Matching d e
    → quote k ++ 58 ∷ tail_text v d ≡ quote k ++ 58 ∷ tail_text w e
    → (v ≡ w) × (d ≡ e)
unfolding tail_text
members-injective [] [] k v w s m h =
    let t = append_cancel_left (quote k) _ _ h in
    let (e, l) = value-injective v w 125 125 [] [] s refl refl (tail-eq_of_cons-eq t) in (e, refl)
members-injective ((i, x) ∷ d) ((j, y) ∷ e) k v w s (same, kind, m) h =
    let t = append_cancel_left (quote k) _ _ h in
    let (f, l) = value-injective v w 44 44 _ _ s refl refl (tail-eq_of_cons-eq t) in
    let rest =
      sym (member-split i x d)
      ∙ tail-eq_of_cons-eq l
      ∙ member-split j y e
      ∙ ap (λ k'. quote k' ++ 58 ∷ tail_text y e) (sym same) in
    let (g, n) = members-injective d e i x y kind m rest in (f, rw (same, g, n) refl)
members-injective d e k v w s m h = absurd m

-- The printed objects of two such dictionaries differ if they do.
pub object-injective :
    (d e : Dict Text PyValue)
    → Matching d e
    → join_members (texts d) ++ 125 ∷ [] ≡ join_members (texts e) ++ 125 ∷ []
    → d ≡ e
object-injective [] [] m h = refl
object-injective ((i, x) ∷ d) ((j, y) ∷ e) (same, kind, m) h =
    let rest =
      sym (member-split i x d)
      ∙ h
      ∙ member-split j y e
      ∙ ap (λ k'. quote k' ++ 58 ∷ tail_text y e) (sym same) in
    let (g, n) = members-injective d e i x y kind m rest in rw (same, g, n) refl
object-injective d e m h = absurd m
