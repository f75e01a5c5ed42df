-- ===== src/Prelude/Digits.antt =====
-- `str` of an `int`: its decimal digits, on as much fuel as the number itself.
use self_spawn_agents.Prelude.{
  ℕ, zero, suc, ◌+◌, ◌-◌, ◌*◌, ◌/◌, ◌%◌, ◌<◌, ◌≡◌, ◌≢◌, refl, [], ◌∷◌, ◌++◌, Text, ltb, leb, all,
  Bool, true, ◌&&◌, if◌then◌else◌, arith, Bool-cases, inl, inr,
}
use self_spawn_agents.Prelude.Int.{ℤ, pos, negsuc}

digits_from : ℕ → ℕ → Text
digits_from zero n = []
digits_from (suc f) n =
    let more = digits_from f (n / 10) ++ (48 + n % 10) ∷ [] in
    if ltb n 10 then (48 + n) ∷ [] else more

unfoldable pub digits : ℕ → Text
unfolding digits_from
digits n = digits_from (suc n) n

unfoldable pub print_int : ℤ → Text
unfolding digits
print_int (pos n) = digits n
print_int (negsuc n) = 45 ∷ digits (suc n)

-- The value of decimal digits that follow a value.
unfoldable pub read_digits : ℕ → Text → ℕ
read_digits n [] = n
read_digits n (c ∷ s) = read_digits (10 * n + (c - 48)) s

read_digits-append :
    (n c : ℕ) (s : Text) → read_digits n (s ++ c ∷ []) ≡ 10 * read_digits n s + (c - 48)
unfolding read_digits
read_digits-append n c [] = refl
read_digits-append n c (d ∷ s) = read_digits-append (10 * n + (d - 48)) c s

read_digits_from : (f n : ℕ) → n < f → read_digits 0 (digits_from f n) ≡ n
unfolding digits_from
read_digits_from zero n h = elim h [ ]
read_digits_from (suc f) n h = elim (Bool-cases (ltb n 10)) [
  | inl small ↦ rw small (unfold read_digits in omega arith)
  | inr large ↦
      rw (large, read_digits-append 0 (48 + n % 10) (digits_from f (n / 10)))
        (ground (arith, large, read_digits_from f (n / 10)))
]

-- The digits of a number read as that number.
pub read_digits-digits : (n : ℕ) → read_digits 0 (digits n) ≡ n
unfolding digits
read_digits-digits n = read_digits_from (suc n) n (omega arith)

all-append : (p : ℕ → Bool) (s t : Text) → all p s ≡ true → all p t ≡ true → all p (s ++ t) ≡ true
all-append p [] t h k = k
all-append p (c ∷ s) t h k = ground (arith, h, k, all-append p s t)

abbrev pub is_digit : ℕ → Bool
is_digit c = leb 48 c && leb c 57

digits_from-digits : (f n : ℕ) → all is_digit (digits_from f n) ≡ true
unfolding digits_from
digits_from-digits zero n = refl
digits_from-digits (suc f) n = elim (Bool-cases (ltb n 10)) [
  | inl small ↦ rw small (ground (arith, small))
  | inr large ↦ rw large (
      all-append is_digit (digits_from f (n / 10)) _ (digits_from-digits f (n / 10)) (ground arith))
]

pub digits_are_digits : (n : ℕ) → all is_digit (digits n) ≡ true
unfolding digits
digits_are_digits n = digits_from-digits (suc n) n

ends_nonempty : (s : Text) (c : ℕ) → s ++ c ∷ [] ≢ []
ends_nonempty [] c e = cc
ends_nonempty (d ∷ s) c e = cc

-- A number has a digit.
pub digits-nonempty : (n : ℕ) → digits n ≢ []
unfolding digits digits_from
digits-nonempty n = elim (Bool-cases (ltb n 10)) [
  | inl small ↦ rw small (λ e. cc)
  | inr large ↦ rw large (ends_nonempty (digits_from n (n / 10)) (48 + n % 10))
]
