-- ===== src/Prelude/Refines.antt =====
-- Refinement of actions, a rule for each way that the program builds one. An abstract action works
-- on a view of the state, returns what a function reads of the value that the action returns, and
-- raises what the action raises.
use mathlib.Core.Path.{◌≡◌, refl, ap, ◌∙◌}
use mathlib.Core.Bool.{Bool, true, false}
use self_spawn_agents.Prelude.Effects.{
  Exception, Result, ok, err, Action, pure, require, of_result, resume, ◌>>=◌,
}

-- What is read of a returned value.
abbrev pub seen : {A B : Type 0} → (A → B) → Result A → Result B
seen read (ok a) = ok (read a)
seen read (err x) = err x

module _ {S P : Type 0} (view : S → P) where
  abbrev pub observe : {A B : Type 0} → (A → B) → Result A × S → Result B × P
  observe read q = (seen read q.0, view q.1)

  -- The action answers and moves the view as the abstract one does.
  pub record Refines {A B : Type 0} (read : A → B) (m : Action S A) (am : Action P B) : Type 0 where
    pub shows : (s : S) → observe read (m s) ≡ am (view s)

  pub Refines-pure : {A B : Type 0} (read : A → B) (a : A) → Refines read (pure a) (pure (read a))
  unfolding pure
  Refines-pure read a = record { shows = λ s. refl }

  pub Refines-require :
      (b : Bool) (x : Exception) → Refines (λ (u : Unit {0}). u) (require b x) (require b x)
  unfolding require
  Refines-require true x = record { shows = λ s. refl }
  Refines-require false x = record { shows = λ s. refl }

  pub Refines-of_result :
      {A : Type 0} (r : Result A) → Refines (λ (a : A). a) (of_result r) (of_result r)
  unfolding of_result
  Refines-of_result (ok a) = record { shows = λ s. refl }
  Refines-of_result (err x) = record { shows = λ s. refl }

  module _ {A B C D : Type 0} (read : A → B) (read' : C → D) where
    resume-Refines :
        (r : Result A) (f : A → Action S C) (bf : B → Action P D) (s : S)
        → ((a : A) → Refines read' (f a) (bf (read a)))
        → observe read' (resume r f s) ≡ resume (seen read r) bf (view s)
    resume-Refines (ok a) f bf s k = (k a).shows s
    resume-Refines (err x) f bf s k = refl

    pub Refines-bind :
        (m : Action S A) (f : A → Action S C) (am : Action P B) (bf : B → Action P D)
        → Refines read m am
        → ((a : A) → Refines read' (f a) (bf (read a)))
        → Refines read' (m >>= f) (am >>= bf)
    unfolding ◌>>=◌
    Refines-bind m f am bf km kf = record {
      shows = λ s.
          resume-Refines (m s).0 f bf (m s).1 kf
          ∙ ap (λ (q : Result B × P). resume q.0 bf q.1) (km.shows s);
    }
