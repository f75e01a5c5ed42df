-- ===== src/Channels/Cents.antt =====
-- Prices on the wire.
use self_spawn_agents.Prelude.{
  ℕ, ◌+◌, ◌*◌, ◌≤◌, ◌<◌, ◌/◌, ◌≡◌, refl, Bool, Option, none, some, List, [], ◌∷◌, Text, codes,
  text_eq, arith, all, true, ◌≢◌,
}
use self_spawn_agents.Prelude.Int.{pos}
use self_spawn_agents.Prelude.Digits.{
  print_int, read_digits, read_digits-digits, is_digit, digits_are_digits, digits-nonempty,
}
use self_spawn_agents.Prelude.Dict.{lookup}
use self_spawn_agents.Prelude.Json.{Json, number, array, object, item, fields_of}
use self_spawn_agents.Channels.{Wire, Request, RequestBody, json_body, form_body, Operation, cents}
use self_spawn_agents.Channels.Stripe.{
  StripeConnectClient, create_payment_intent, create_transfer, create_payout,
}
use self_spawn_agents.Channels.Payments.{
  PolarClient, polar_create_product, LemonSqueezyClient, create_variant,
}

-- The value under a path of keys, where a list stands for its first item.
abbrev value_at : List Text → Option Json → Option Json
value_at [] j = j
value_at (k ∷ ks) (some (object fs)) = value_at ks (lookup k (fields_of fs))
value_at (k ∷ ks) (some (array (item (object fs) xs))) = value_at ks (lookup k (fields_of fs))
value_at (k ∷ ks) _ = none

-- The path of the amount in the body.
abbrev pub amount_at : List Text → RequestBody → Option Json
amount_at path (json_body j) = value_at path (some j)
amount_at (k ∷ ks) (form_body d) = value_at ks (lookup k d)
amount_at path _ = none

abbrev sent_body : List Request → Option RequestBody
sent_body [] = none
sent_body (r ∷ log) = some r.body

-- The operation sends the price of n micro-dollars as the decimal digits of its whole cents, with
-- no sign.
abbrev pub SendsCents : ℕ → List Text → Operation Json → Type 0
SendsCents n path op =
    (log : List Request)
    → (body : RequestBody) × (text : Text) × (sent_body (op log).1 ≡ some body)
      × (amount_at path body ≡ some (number text))
      × (text ≢ [])
      × (all is_digit text ≡ true)
      × (read_digits 0 text * 10000 ≤ n)
      × (n < read_digits 0 text * 10000 + 10000)

cents_bounds :
    (n : ℕ)
    → (print_int (cents (pos n)) ≢ [])
      × (all is_digit (print_int (cents (pos n))) ≡ true)
      × (read_digits 0 (print_int (cents (pos n))) * 10000 ≤ n)
      × (n < read_digits 0 (print_int (cents (pos n))) * 10000 + 10000)
unfolding cents print_int
cents_bounds n = (
  digits-nonempty (n / 10000),
  digits_are_digits (n / 10000),
  omega (arith, read_digits-digits (n / 10000)),
  omega (arith, read_digits-digits (n / 10000)),
)

-- For an amount that is not negative, the three Stripe operations with an amount, the product of
-- Polar and the variant of Lemon Squeezy send, at the place of the amount in the body, a text of
-- one or more decimal digits, with no sign, whose number of cents is the amount rounded down: at
-- most the amount, and less than a cent below it.
pub amount-SendsCents :
    (w : Wire) (n : ℕ) (s : Text) (b : Bool) (stripe : StripeConnectClient) (polar : PolarClient)
    (lemon : LemonSqueezyClient)
    → SendsCents n (codes "amount" ∷ []) (create_payment_intent w stripe (pos n) s)
      × SendsCents n (codes "amount" ∷ []) (create_transfer w stripe (pos n) s)
      × SendsCents n (codes "amount" ∷ []) (create_payout w stripe (pos n) s)
      × SendsCents n
          (codes "prices" ∷ codes "amount_cents" ∷ [])
          (polar_create_product w polar s (pos n) b)
      × SendsCents n
          (codes "data" ∷ codes "attributes" ∷ codes "price" ∷ [])
          (create_variant w lemon s (pos n))
amount-SendsCents w n s b stripe polar lemon =
    let (some_digit, all_digits, low, high) = cents_bounds n in
    (
      λ log. (_, _, refl, refl, some_digit, all_digits, low, high),
      λ log. (_, _, refl, refl, some_digit, all_digits, low, high),
      λ log. (_, _, refl, refl, some_digit, all_digits, low, high),
      λ log. (_, _, refl, refl, some_digit, all_digits, low, high),
      λ log. (_, _, refl, refl, some_digit, all_digits, low, high),
    )
