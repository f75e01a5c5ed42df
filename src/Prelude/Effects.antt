-- ===== src/Prelude/Effects.antt =====
-- Python's exceptions as values, and calls that change an object and may raise: what was written
-- before a raise stays written, so the state comes back beside the error too.
use mathlib.Core.Bool.{Bool, true, false}
use mathlib.Core.Path.{◌≡◌, refl}
use mathlib.Core.Logic.{◌⊎◌, inl, inr}

-- The exceptions that the program raises. Their messages are left out.
pub data Exception : Type 0 where
  trust_violation insufficient_funds reserve_locked bad_hmac : Exception
  value_error validation_error type_error key_error : Exception
  supervisor_error budget_exceeded system_halted : Exception
  tool_policy_error domain_not_allowed prereg_locked no_result_found : Exception
  file_not_found attribute_error json_error operational_error http_error : Exception
  multiple_results_found assertion_error called_process_error : Exception

pub data Result {ℓ} (A : Type ℓ) : Type ℓ where
  ok : A → Result A
  err : Exception → Result A

abbrev pub Action {ℓ κ} : Type ℓ → Type κ → Type (ℓ ⊔ κ)
Action S A = S → Result A × S

module _ {ℓ κ} {S : Type ℓ} {A : Type κ} where
  unfoldable pub pure : A → Action S A
  pure a s = (ok a, s)

  unfoldable pub gets : (S → A) → Action S A
  gets f s = (ok (f s), s)

  -- What a function without an effect on the state returns or raises.
  unfoldable pub of_result : Result A → Action S A
  of_result r s = (r, s)

module _ {ℓ} {S : Type ℓ} where
  -- `if not test: raise x`
  unfoldable pub require : Bool → Exception → Action S (Unit {0})
  require true x s = (ok tt, s)
  require false x s = (err x, s)

module _ {ℓ κ μ} {S : Type ℓ} {A : Type κ} {B : Type μ} where
  abbrev pub resume : Result A → (A → Action S B) → Action S B
  resume (ok a) f s = f a s
  resume (err x) f s = (err x, s)

  infixl 5 ◌>>=◌ ◌>>◌
  -- Opening this opens `pure`, `gets`, `of_result` and `require` too.
  unfoldable pub ◌>>=◌ : Action S A → (A → Action S B) → Action S B
  unfolding pure gets of_result require
  ◌>>=◌ m f s = let (r, s') = m s in resume r f s'

  abbrev pub ◌>>◌ : Action S A → Action S B → Action S B
  m >> k = m >>= λ _. k

-- What a test that may raise comes to.
pub test_cases : (r : Result Bool) → (r ≡ ok true) ⊎ (r ≡ ok false) ⊎ (x : Exception) × (r ≡ err x)
test_cases (ok true) = inl refl
test_cases (ok false) = inr (inl refl)
test_cases (err x) = inr (inr (x, refl))
