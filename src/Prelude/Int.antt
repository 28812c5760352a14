-- ===== src/Prelude/Int.antt =====
-- Go's signed integers, as far as the source looks into them: sign, zero and ranges.
use Prim.Native.Nat.{ℕ, ◌≤◌}
use mathlib.Core.Path.{◌≡◌}
use mathlib.Core.Bool.{Bool, true, false, ◌&&◌}
use native.Mathlib.Omega.{arith}
use esignet_relay_authentica.Prelude.Tests.{leb, eqb}

-- `negsuc n` is -(n + 1).
pub data ℤ : Type 0 where
  pos : ℕ → ℤ
  negsuc : ℕ → ℤ

abbrev pub is_zero : ℤ → Bool
is_zero (pos n) = eqb n 0
is_zero (negsuc n) = false

-- `lo <= i && i <= hi`, for bounds that are not negative.
abbrev pub in_range : ℕ → ℕ → ℤ → Bool
in_range lo hi (pos n) = leb lo n && leb n hi
in_range lo hi (negsuc n) = false

-- A value that is known not to be negative, as a natural number.
abbrev pub nat_of : ℤ → ℕ
nat_of (pos n) = n
nat_of (negsuc n) = 0

pub in_range_bounds :
    (lo hi : ℕ) (i : ℤ) → in_range lo hi i ≡ true → (lo ≤ nat_of i) × (nat_of i ≤ hi)
in_range_bounds lo hi (pos n) h = ground arith
in_range_bounds lo hi (negsuc n) h = cc
