-- ===== src/Base/Words.antt =====
-- The `u64` and `u32` operations that saturate.
use Prim.Native.Nat.{ℕ, ◌+◌, ◌≤◌, min}
use mathlib.Core.Path.{◌≡◌}
use native.Mathlib.Omega.{arith}

abbrev pub u64_max : ℕ
u64_max = 18446744073709551615

abbrev pub u32_max : ℕ
u32_max = 4294967295

unfoldable pub saturating_add : ℕ → ℕ → ℕ
saturating_add a b = min (a + b) u64_max

unfoldable pub saturating_add_u32 : ℕ → ℕ → ℕ
saturating_add_u32 a b = min (a + b) u32_max

-- `u64::try_from(len).unwrap_or(u64::MAX)`.
unfoldable pub clamp_u64 : ℕ → ℕ
clamp_u64 n = min n u64_max

unfoldable pub clamp_u32 : ℕ → ℕ
clamp_u32 n = min n u32_max

-- Below the end of the range saturation is the sum.
pub saturating_add-eq-add : (a b : ℕ) → a + b ≤ u64_max → saturating_add a b ≡ a + b
unfolding saturating_add
saturating_add-eq-add a b h = omega arith

pub saturating_add-le : (a b : ℕ) → saturating_add a b ≤ u64_max
unfolding saturating_add
saturating_add-le a b = omega arith
