-- ===== src/Core/Amount/Bounds.antt =====
-- When the checked operations succeed, what they return, and which error they give otherwise.
use cdml.Common.{ℕ, ◌+◌, ◌*◌, ◌≤◌, ◌<◌, ◌≡◌, ◌↔◌, arith}
use cdml.Core.Errors.{ok}
use cdml.Core.Types.{max_amount}
use cdml.Core.Amount.{safe_add, safe_sub, validate_amount, bond_amount}

-- SafeAdd succeeds exactly when the sum is at most the maximum, and then returns the exact sum: the
-- uint64 addition never wraps.
pub safe_add_exact : (a b c : ℕ) → (safe_add a b ≡ ok c) ↔ ((a + b ≤ max_amount) × (c ≡ a + b))
unfolding safe_add
safe_add_exact a b c = ground arith

-- SafeSub succeeds exactly when nothing underflows, and undoes an addition.
pub safe_sub_exact : (a b c : ℕ) → (safe_sub a b ≡ ok c) ↔ (c + b ≡ a)
unfolding safe_sub
safe_sub_exact a b c = ground arith

pub validate_amount_iff : (a : ℕ) → (validate_amount a ≡ ok tt) ↔ ((0 < a) × (a ≤ max_amount))
unfolding validate_amount
validate_amount_iff a = ground arith

-- A sum that SafeAdd returned can be taken apart again by SafeSub, and the rest added back, without
-- an error and without loss.
pub safe_sub-safe_add :
    (a b c : ℕ) → safe_add a b ≡ ok c → (safe_sub c b ≡ ok a) × (safe_sub c a ≡ ok b)
unfolding safe_sub safe_add
safe_sub-safe_add a b c h = ground arith

-- The fee is a thousandth, rounded down: it never exceeds the amount, and no wrap can hide it.
pub bond_amount_bounds : (a : ℕ) → (1000 * bond_amount a ≤ a) × (a < 1000 * (bond_amount a + 1))
unfolding bond_amount
bond_amount_bounds a = omega arith
