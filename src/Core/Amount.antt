-- ===== src/Core/Amount.antt =====
-- internal/core/amount.go: checked uint64 arithmetic on amounts, and the fee.
pub mod Bounds
use cdml.Common.{ℕ, ◌+◌, ◌-◌, ◌/◌, ◌%◌, ◌^◌, ◌||◌, ltb, ◌==◌}
use cdml.Core.Errors.{
  Res, ok, err, fail_if, ◌>>◌, amount_zero, amount_exceed_max, amount_overflow, amount_underflow,
}
use cdml.Core.Types.{Amount, max_amount}

abbrev pub uint64_mod : ℕ
uint64_mod = 2 ^ 64

-- The second test is reached only with a at most the maximum, where the subtraction is exact.
unfoldable pub safe_add : Amount → Amount → Res Amount
safe_add a b = do
  fail_if (ltb max_amount a || ltb max_amount b) amount_exceed_max
  fail_if (ltb (max_amount - a) b) amount_overflow
  ok ((a + b) % uint64_mod)

-- The subtraction is reached only where it does not wrap.
unfoldable pub safe_sub : Amount → Amount → Res Amount
safe_sub a b = do fail_if (ltb a b) amount_underflow; ok (a - b)

unfoldable pub validate_amount : Amount → Res (Unit {0})
validate_amount a = do fail_if (a == 0) amount_zero; fail_if (ltb max_amount a) amount_exceed_max

abbrev pub bond_divisor : Amount
bond_divisor = 1000

calc_bond : Amount → Amount
calc_bond a = a / bond_divisor

unfoldable pub bond_amount : Amount → Amount
unfolding calc_bond
bond_amount a = calc_bond a
