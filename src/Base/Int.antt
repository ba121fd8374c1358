-- ===== src/Base/Int.antt =====
-- Signed integers over the native numbers, and the `i64` operations that saturate.
use Prim.Native.Nat.{ℕ, suc, ◌+◌, ◌-◌, ◌≤◌, ◌<◌}
use mathlib.Core.Bool.{Bool, true, false}
use native.Mathlib.Omega.{arith}
use chroma_go_local.Base.Tests.{ltb, leb, if◌then◌else◌}

-- `negsuc n` is -(n + 1).
pub data ℤ : Type 0 where
  pos : ℕ → ℤ
  negsuc : ℕ → ℤ

abbrev pub pos_part : ℤ → ℕ
pos_part (pos n) = n
pos_part (negsuc n) = 0

abbrev pub neg_part : ℤ → ℕ
neg_part (pos n) = 0
neg_part (negsuc n) = suc n

abbrev pub sub_ℕ : ℕ → ℕ → ℤ
sub_ℕ a b = if leb b a then pos (a - b) else negsuc (b - a - 1)

infix 50 ◌≤ℤ◌ ◌<ℤ◌
abbrev pub ◌≤ℤ◌ : ℤ → ℤ → Type 0
a ≤ℤ b = pos_part a + neg_part b ≤ pos_part b + neg_part a

abbrev pub ◌<ℤ◌ : ℤ → ℤ → Type 0
a <ℤ b = pos_part a + neg_part b < pos_part b + neg_part a

abbrev pub ltb_ℤ : ℤ → ℤ → Bool
ltb_ℤ a b = ltb (pos_part a + neg_part b) (pos_part b + neg_part a)

abbrev pub is_negative : ℤ → Bool
is_negative (pos n) = false
is_negative (negsuc n) = true

abbrev pub i64_max : ℕ
i64_max = 9223372036854775807

-- The values of an `i64`.
abbrev pub IsI64 : ℤ → Type 0
IsI64 a = (pos_part a ≤ i64_max) × (neg_part a ≤ i64_max + 1)

-- `i64::saturating_sub` with a subtrahend that is not negative: only the lower end can be met.
unfoldable pub saturating_sub_i64 : ℤ → ℕ → ℤ
saturating_sub_i64 a k =
    if leb (neg_part a + k) (pos_part a + (i64_max + 1))
    then sub_ℕ (pos_part a) (neg_part a + k)
    else negsuc i64_max

pub saturating_sub_i64-IsI64 : (a : ℤ) (k : ℕ) → IsI64 a → IsI64 (saturating_sub_i64 a k)
unfolding saturating_sub_i64
saturating_sub_i64-IsI64 a k h = ground arith

-- `a + k`, with no bound.
abbrev pub add_ℕ : ℤ → ℕ → ℤ
add_ℕ (pos n) k = pos (n + k)
add_ℕ (negsuc n) k = sub_ℕ k (suc n)

-- An `i64` is below a difference that saturates when it is below it in ℤ.
pub saturating_sub_i64_lem :
    (a b : ℤ) (k : ℕ)
    → IsI64 b
    → (b <ℤ saturating_sub_i64 a k → add_ℕ b k <ℤ a)
      × (add_ℕ b k <ℤ a → b <ℤ saturating_sub_i64 a k)
unfolding saturating_sub_i64
saturating_sub_i64_lem (pos n) (pos m) k h = (λ e. ground arith, λ e. ground arith)
saturating_sub_i64_lem (pos n) (negsuc m) k h = (λ e. ground arith, λ e. ground arith)
saturating_sub_i64_lem (negsuc n) (pos m) k h = (λ e. ground arith, λ e. ground arith)
saturating_sub_i64_lem (negsuc n) (negsuc m) k h = (λ e. ground arith, λ e. ground arith)
