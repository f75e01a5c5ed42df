-- ===== src/Prelude/Decimal.antt =====
-- `decimal.Decimal` amounts of money as whole numbers of micro-dollars (10^-6 USD), the finest
-- scale that the program quantizes to, with `quantize` in the default ROUND_HALF_EVEN mode.
use Prim.Native.Nat.{ℕ, suc, ◌+◌, ◌*◌, ◌/◌, ◌%◌, ◌≤◌}
use mathlib.Core.Path.{◌≡◌, refl}
use native.Mathlib.Omega.{arith}
use self_spawn_agents.Prelude.Tests.{ltb, ◌==◌, if◌then◌else◌}
use self_spawn_agents.Prelude.Int.{ℤ, pos, negsuc, neg, pos_part, neg_part, neg_parts}

abbrev pub Money : Type 0
Money = ℤ

-- `Decimal("n")` for a whole number n of dollars.
abbrev pub usd : ℕ → Money
usd n = pos (n * 1000000)

-- n / d to the nearest whole number, a tie to the even one.
unfoldable pub round_half_even : ℕ → ℕ → ℕ
round_half_even n d =
    if ltb (2 * (n % d)) d
    then n / d
    else if ltb d (2 * (n % d))
    then n / d + 1
    else if n / d % 2 == 0
    then n / d
    else n / d + 1

-- `(a * (num / 100)).quantize(Decimal("0.0001"))`
unfoldable pub percent_quantized : Money → ℕ → Money
unfolding round_half_even
percent_quantized (pos n) num = pos (round_half_even (n * num) 10000 * 100)
percent_quantized (negsuc n) num = neg (pos (round_half_even (suc n * num) 10000 * 100))

-- `a.quantize(Decimal("0.0001"))`
unfoldable pub quantize4 : Money → Money
unfolding percent_quantized
quantize4 a = percent_quantized a 100

-- A whole number of ten-thousandths of a dollar: what a ledger column can hold.
pub record IsLedgerUnit (a : Money) : Type 0 where
  pub up : pos_part a % 100 ≡ 0
  pub down : neg_part a % 100 ≡ 0

pub percent_unit : (a : Money) (num : ℕ) → IsLedgerUnit (percent_quantized a num)
unfolding percent_quantized
percent_unit (pos n) num = record { up = omega arith; down = refl }
percent_unit (negsuc n) num = record {
  up = omega (arith, neg_parts (pos (round_half_even (suc n * num) 10000 * 100)));
  down = omega (arith, neg_parts (pos (round_half_even (suc n * num) 10000 * 100)));
}

pub quantize4-eq : (a : Money) → IsLedgerUnit a → quantize4 a ≡ a
unfolding quantize4 neg
quantize4-eq (pos n) h = ground (arith, h.up)
quantize4-eq (negsuc n) h = ground (arith, h.down)

-- A share of a positive amount is within half a unit of the exact share.
pub percent_bounds :
    (n num : ℕ)
    → (pos_part (percent_quantized (pos n) num) * 100 ≤ n * num + 5000)
      × (n * num ≤ pos_part (percent_quantized (pos n) num) * 100 + 5000)
      × (neg_part (percent_quantized (pos n) num) ≡ 0)
unfolding percent_quantized
percent_bounds n num = (ground arith, ground arith, refl)
