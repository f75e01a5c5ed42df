-- ===== src/Core/Operator/Commands/Numerals.antt =====
-- What the parser makes of a printed UUID and of a printed amount.
use self_spawn_agents.Prelude.{
  ℕ, ◌+◌, ◌*◌, ◌/◌, ◌%◌, ◌-◌, ◌<◌, ◌^◌, ◌≡◌, ◌≢◌, refl, ap, ◌∙◌, Bool, true, false, some, List, [],
  ◌∷◌, ◌++◌, Text, codes, text_eqb, text_eqb_iff, all, arith, length, Bool-cases, inl, inr,
}
use self_spawn_agents.Prelude.Digits.{
  digits, is_digit, read_digits, read_digits-digits, digits_are_digits, digits-nonempty,
}
use self_spawn_agents.Prelude.Int.{pos}
use self_spawn_agents.Prelude.Unicode.{Unicode, upper}
use self_spawn_agents.Core.Operator.{
  hex_value, match_pieces, is_uuid, uuid_from, uuid_value, match_cents, match_dollars, is_amount,
  dollars_from, cents_from, amount_value,
}
use self_spawn_agents.Core.Operator.Commands.{
  hex_digit, hex_before, uuid_from_behind, print_uuid, print_cents,
}
use self_spawn_agents.Core.Operator.Commands.Lexing.{visible, IsWord}

hex_value-hex_digit : (d : ℕ) → d < 16 → hex_value (hex_digit d) ≡ some d
hex_value-hex_digit d h = ground arith

visible-hex_digit : (d : ℕ) → d < 16 → visible (hex_digit d) ≡ true
visible-hex_digit d h = ground arith

-- How many numbers the digits of a pattern can hold.
abbrev room : List Bool → ℕ
room [] = 1
room (true ∷ ps) = 16 * room ps
room (false ∷ ps) = room ps

-- The pattern, read forwards, before another.
abbrev onto : List Bool → List Bool → List Bool
onto [] qs = qs
onto (p ∷ ps) qs = onto ps (p ∷ qs)

uuid_from-hex_before :
    (ps : List Bool) (n : ℕ) (rest : Text)
    → n < room ps
    → uuid_from 0 (hex_before ps n rest) ≡ uuid_from n rest
uuid_from-hex_before [] n rest h = ap (λ m. uuid_from m rest) (omega arith)
uuid_from-hex_before (true ∷ ps) n rest h =
    uuid_from-hex_before ps (n / 16) (hex_digit (n % 16) ∷ rest) (omega arith)
    ∙ rw (hex_value-hex_digit (n % 16) (omega arith)) (ap (λ m. uuid_from m rest) (omega arith))
uuid_from-hex_before (false ∷ ps) n rest h = uuid_from-hex_before ps n (45 ∷ rest) h

match-hex_before :
    (ps qs : List Bool) (n : ℕ) (rest : Text)
    → match_pieces (onto ps qs) (hex_before ps n rest) ≡ match_pieces qs rest
match-hex_before [] qs n rest = refl
match-hex_before (true ∷ ps) qs n rest =
    match-hex_before ps (true ∷ qs) (n / 16) (hex_digit (n % 16) ∷ rest)
    ∙ rw (hex_value-hex_digit (n % 16) (omega arith)) refl
match-hex_before (false ∷ ps) qs n rest = match-hex_before ps (false ∷ qs) n (45 ∷ rest)

hex_before-IsWord :
    (ps : List Bool) (n : ℕ) (rest : Text) → IsWord rest → IsWord (hex_before ps n rest)
hex_before-IsWord [] n rest h = h
hex_before-IsWord (true ∷ ps) n [] h = absurd h
hex_before-IsWord (true ∷ ps) n (c ∷ rest) h =
    hex_before-IsWord ps (n / 16) (hex_digit (n % 16) ∷ c ∷ rest)
      (rw (visible-hex_digit (n % 16) (omega arith)) h)
hex_before-IsWord (false ∷ ps) n [] h = absurd h
hex_before-IsWord (false ∷ ps) n (c ∷ rest) h = hex_before-IsWord ps n (45 ∷ c ∷ rest) h

length-hex_before :
    (ps : List Bool) (n : ℕ) (rest : Text) → length (hex_before ps n rest) ≡ length ps + length rest
length-hex_before [] n rest = omega arith
length-hex_before (true ∷ ps) n rest =
    omega (arith, length-hex_before ps (n / 16) (hex_digit (n % 16) ∷ rest))
length-hex_before (false ∷ ps) n rest = omega (arith, length-hex_before ps n (45 ∷ rest))

pub is_uuid-print_uuid : (n : ℕ) → is_uuid (print_uuid n) ≡ true
unfolding is_uuid print_uuid
is_uuid-print_uuid n = match-hex_before uuid_from_behind [] n []

pub uuid_value-print_uuid : (n : ℕ) → n < 2 ^ 128 → uuid_value (print_uuid n) ≡ n
unfolding uuid_value print_uuid
uuid_value-print_uuid n h = uuid_from-hex_before uuid_from_behind n [] h

-- The pattern, read from behind, starts with a digit.
abbrev ends_with_digit : List Bool → Bool
ends_with_digit [] = false
ends_with_digit (p ∷ ps) = p

started : (ps : List Bool) (n : ℕ) → ends_with_digit ps ≡ true → IsWord (hex_before ps n [])
started [] n h = cc
started (false ∷ ps) n h = cc
started (true ∷ ps) n h =
    hex_before-IsWord ps (n / 16) (hex_digit (n % 16) ∷ [])
      (rw (visible-hex_digit (n % 16) (omega arith)) refl)

pub print_uuid-IsWord : (n : ℕ) → IsWord (print_uuid n)
unfolding print_uuid
print_uuid-IsWord n = started uuid_from_behind n refl

length-print_uuid : (n : ℕ) → length (print_uuid n) ≡ 36
unfolding print_uuid
length-print_uuid n = length-hex_before uuid_from_behind n []

IsWord-visible : (w : Text) → IsWord w → all visible w ≡ true
IsWord-visible [] h = refl
IsWord-visible (c ∷ w) h = h

digit_value-digit : (u : Unicode) (c : ℕ) → is_digit c ≡ true → u.digit_value c ≡ some (c - 48)
digit_value-digit u c h = ground (arith, u.digit_value-ascii c)

module _ (u : Unicode) where
  length-upper : (s : Text) → all visible s ≡ true → length (upper u s) ≡ length s
  length-upper [] h = refl
  length-upper (c ∷ s) h = ground (arith, u.to_upper-ascii c, length-upper s)

  -- A UUID is not the word ALL.
  pub print_uuid-is_not_all : (n : ℕ) → text_eqb (upper u (print_uuid n)) (codes "ALL") ≡ false
  print_uuid-is_not_all n = elim (Bool-cases (text_eqb (upper u (print_uuid n)) (codes "ALL"))) [
    | inr other ↦ other
    | inl same ↦
        let three : length (upper u (print_uuid n)) ≡ 3 =
          ap length ((text_eqb_iff (upper u (print_uuid n)) (codes "ALL")).0 same) in
        let long : length (upper u (print_uuid n)) ≡ length (print_uuid n) =
          length-upper (print_uuid n) (IsWord-visible (print_uuid n) (print_uuid-IsWord n)) in
        absurd (omega (arith, three, long, length-print_uuid n))
  ]

  match_dollars-digits :
      (s t : Text)
      → all is_digit s ≡ true
      → match_cents u t ≡ true
      → match_dollars u (s ++ 46 ∷ t) ≡ true
  match_dollars-digits [] t h k = ground (arith, u.digit_value-ascii 46)
  match_dollars-digits (c ∷ s) t h k =
      ground (arith, digit_value-digit u c, match_dollars-digits s t)

  is_amount-digits :
      (s t : Text)
      → s ≢ []
      → all is_digit s ≡ true
      → match_cents u t ≡ true
      → is_amount u (s ++ 46 ∷ t) ≡ true
  unfolding is_amount
  is_amount-digits [] t ne h k = absurd (ne refl)
  is_amount-digits (c ∷ s) t ne h k =
      ground (arith, digit_value-digit u c, match_dollars-digits s t)

  dollars_from-digits :
      (n : ℕ) (s t : Text)
      → all is_digit s ≡ true
      → dollars_from u n (s ++ 46 ∷ t) ≡ cents_from u 100000 (read_digits n s * 1000000) t
  unfolding read_digits
  dollars_from-digits n [] t h = refl
  dollars_from-digits n (c ∷ s) t h =
      ground (arith, digit_value-digit u c, dollars_from-digits (10 * n + (c - 48)) s t)

  pub is_amount-print_cents : (c : ℕ) → is_amount u (print_cents c) ≡ true
  unfolding print_cents
  is_amount-print_cents c =
      is_amount-digits (digits (c / 100)) _ (digits-nonempty (c / 100))
        (digits_are_digits (c / 100))
        (ground (arith, digit_value-digit u (48 + c / 10 % 10), digit_value-digit u (48 + c % 10)))

  pub amount_value-print_cents : (c : ℕ) → amount_value u (print_cents c) ≡ pos (c * 10000)
  unfolding print_cents amount_value
  amount_value-print_cents c = ap pos (
      dollars_from-digits 0 (digits (c / 100)) _ (digits_are_digits (c / 100))
      ∙ rw
          (
            read_digits-digits,
            digit_value-digit u (48 + c / 10 % 10) (ground arith),
            digit_value-digit u (48 + c % 10) (ground arith),
          )
          (omega arith))

digits-visible :
    (s t : Text) → all is_digit s ≡ true → all visible t ≡ true → all visible (s ++ t) ≡ true
digits-visible [] t h k = k
digits-visible (c ∷ s) t h k = ground (arith, digits-visible s t)

digits-IsWord :
    (s t : Text) → s ≢ [] → all is_digit s ≡ true → all visible t ≡ true → IsWord (s ++ t)
digits-IsWord [] t ne h k = absurd (ne refl)
digits-IsWord (c ∷ s) t ne h k = digits-visible (c ∷ s) t h k

pub print_cents-IsWord : (c : ℕ) → IsWord (print_cents c)
unfolding print_cents
print_cents-IsWord c =
    digits-IsWord (digits (c / 100)) _ (digits-nonempty (c / 100)) (digits_are_digits (c / 100))
      (ground arith)
