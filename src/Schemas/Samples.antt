-- ===== src/Schemas/Samples.antt =====
-- Concrete values for the parameters of the models, which the tests use.
use self_spawn_agents.Prelude.{
  ℕ, ◌≡◌, ◌≤◌, ◌<◌, ◌%◌, ◌*◌, ◌^◌, ◌↔◌, ◌&&◌, Bool, true, Text, ◌++◌, ◌==◌, ltb, leb, length, arith,
}
use self_spawn_agents.Prelude.{refl, [], ◌∷◌}
use self_spawn_agents.Prelude.Unicode.{Unicode, ascii_space, ascii_upper, ascii_lower, ascii_digit}
use self_spawn_agents.Prelude.Decimal.{Money}
use self_spawn_agents.Prelude.Int.{magnitude}
use self_spawn_agents.Schemas.Common.{World, Pydantic}

abbrev pub decimal_ok : Money → Bool
decimal_ok a = magnitude a % 100 == 0 && ltb (magnitude a) (100 * 10 ^ 12)

abbrev pub length_ok : ℕ → Text → Bool
length_ok n s = leb (length s) n

pub decimal_ok_iff :
    (a : Money) → (decimal_ok a ≡ true) ↔ ((magnitude a % 100 ≡ 0) × (magnitude a < 100 * 10 ^ 12))
decimal_ok_iff a = ground arith

pub length_ok_iff : (n : ℕ) (s : Text) → (length_ok n s ≡ true) ↔ (length s ≤ n)
length_ok_iff n s = ground arith

-- The documented checks can be met.
abbrev pub checker : Pydantic
checker = record {
  decimal_12_4 = decimal_ok;
  decimal_12_4_iff = decimal_ok_iff;
  max_length = length_ok;
  max_length_iff = length_ok_iff;
}

abbrev pub world : World
world = record { uuid4 = λ n. n; utc_now = λ n. n }

-- A stand-in for the keyed hash.
abbrev pub toy_hmac : Text → Text → Text
toy_hmac secret msg = secret ++ msg

-- The database of ASCII: no other code point is a space, a digit or a letter with a case.
abbrev pub ascii : Unicode
ascii = record {
  is_space = ascii_space;
  is_space-ascii = λ c h. refl;
  to_upper = λ c. ascii_upper c ∷ [];
  to_upper-ascii = λ c h. refl;
  to_lower = λ c. ascii_lower c ∷ [];
  to_lower-ascii = λ c h. refl;
  digit_value = ascii_digit;
  digit_value-ascii = λ c h. refl;
}
