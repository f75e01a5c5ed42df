-- ===== src/Prelude/Keeps.antt =====
-- Invariants of actions, a rule for each way that the program builds one.
use mathlib.Core.Bool.{Bool, true, false}
use self_spawn_agents.Prelude.Effects.{
  Exception, Result, ok, err, Action, pure, gets, of_result, require, resume, ◌>>=◌,
}

-- The action keeps `P`, whether it returns or raises.
pub record Keeps {ℓ κ} {S : Type ℓ} {A : Type ℓ} (P : S → Type κ) (m : Action S A)
    : Type (ℓ ⊔ κ) where
  pub after : (s : S) → P s → P (m s).1

module _ {ℓ κ} {S A : Type ℓ} {P : S → Type κ} where
  pub Keeps-pure : (a : A) → Keeps P (pure a)
  unfolding pure
  Keeps-pure a = record { after = λ s h. h }

  pub Keeps-gets : (f : S → A) → Keeps P (gets f)
  unfolding gets
  Keeps-gets f = record { after = λ s h. h }

  pub Keeps-of_result : (r : Result A) → Keeps P (of_result r)
  unfolding of_result
  Keeps-of_result r = record { after = λ s h. h }

module _ {ℓ κ} {S A B : Type ℓ} {P : S → Type κ} where
  resume-keeps :
      (r : Result A) (f : A → Action S B) (s : S)
      → ((a : A) → Keeps P (f a))
      → P s
      → P (resume r f s).1
  resume-keeps (ok a) f s k h = (k a).after s h
  resume-keeps (err x) f s k h = h

  pub Keeps-bind :
      (m : Action S A) (f : A → Action S B)
      → Keeps P m
      → ((a : A) → Keeps P (f a))
      → Keeps P (m >>= f)
  unfolding ◌>>=◌
  Keeps-bind m f km kf = record { after = λ s h. resume-keeps (m s).0 f (m s).1 kf (km.after s h) }

module _ {κ} {S : Type 0} {P : S → Type κ} where
  pub Keeps-require : (b : Bool) (x : Exception) → Keeps P (require b x)
  unfolding require
  Keeps-require true x = record { after = λ s h. h }
  Keeps-require false x = record { after = λ s h. h }

pub ruleset keeps_rules = (Keeps-pure, Keeps-gets, Keeps-of_result, Keeps-bind, Keeps-require)
