-- ===== src/Prelude/Chars.antt =====
-- Text as the list of its code points, with the equality and the tests that the program makes.
use Prim.Native.Nat.{ℕ}
use Prim.Native.Char.{code}
use Prim.Native.String.{String}
use mathlib.Core.Path.{◌≡◌}
use mathlib.Core.Logic.{◌↔◌}
use mathlib.Core.Bool.{Bool, true, false, ◌&&◌}
use mathlib.Core.List.{List, [], ◌∷◌, ◌++◌}
use native.Mathlib.Omega.{arith}
use self_spawn_agents.Prelude.Tests.{◌==◌}
use self_spawn_agents.Prelude.Dict.{Eq}

abbrev pub Text : Type 0
Text = List ℕ

-- A literal of the source.
abbrev pub codes : String → Text
codes String.[] = []
codes (String.◌∷◌ c s) = code c ∷ codes s

abbrev pub text_eqb : Text → Text → Bool
text_eqb [] [] = true
text_eqb [] (y ∷ ys) = false
text_eqb (x ∷ xs) [] = false
text_eqb (x ∷ xs) (y ∷ ys) = x == y && text_eqb xs ys

pub text_eqb_iff : (s t : Text) → (text_eqb s t ≡ true) ↔ (s ≡ t)
text_eqb_iff [] [] = ground arith
text_eqb_iff [] (y ∷ ys) = ground arith
text_eqb_iff (x ∷ xs) [] = ground arith
text_eqb_iff (x ∷ xs) (y ∷ ys) = ground (arith, text_eqb_iff xs ys)

instance abbrev pub text_eq : Eq Text
text_eq = record { beq = text_eqb; beq_iff = text_eqb_iff }

-- `"\n".join(lines)`
abbrev pub join_lines : List Text → Text
join_lines [] = []
join_lines (l ∷ []) = l
join_lines (l ∷ m ∷ ls) = l ++ 10 ∷ join_lines (m ∷ ls)
