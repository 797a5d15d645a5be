-- ===== src/Prelude/Int.antt =====
-- Signed integers over the native numbers, for `int64`, and the two's-complement pattern of one.
use Prim.Native.Nat.{ℕ, suc, ◌+◌, ◌-◌, ◌%◌, ◌^◌, ◌≤◌, ◌<◌}
use mathlib.Core.Path.{◌≡◌}
use mathlib.Core.Bool.{Bool}
use native.Mathlib.Omega.{arith}
use colossusx.Prelude.Tests.{ltb, leb, if◌then◌else◌}

-- `negsuc n` is -(n + 1).
pub data ℤ : Type 0 where
  pos : ℕ → ℤ
  negsuc : ℕ → ℤ

abbrev pub pos_part : ℤ → ℕ
pos_part (pos n) = n
pos_part (negsuc n) = 0

abbrev pub neg_part : ℤ → ℕ
neg_part (pos n) = 0
neg_part (negsuc n) = suc n

abbrev pub ltb_ℤ : ℤ → ℤ → Bool
ltb_ℤ a b = ltb (pos_part a + neg_part b) (pos_part b + neg_part a)

abbrev pub leb_ℤ : ℤ → ℤ → Bool
leb_ℤ a b = leb (pos_part a + neg_part b) (pos_part b + neg_part a)

infix 50 ◌<ℤ◌ ◌≤ℤ◌
abbrev pub ◌<ℤ◌ : ℤ → ℤ → Type 0
a <ℤ b = pos_part a + neg_part b < pos_part b + neg_part a

abbrev pub ◌≤ℤ◌ : ℤ → ℤ → Type 0
a ≤ℤ b = pos_part a + neg_part b ≤ pos_part b + neg_part a

-- The value of an `int64` lies from -2^63 up to 2^63 - 1.
abbrev pub IsInt64 : ℤ → Type 0
IsInt64 a = (pos_part a < 2 ^ 63) × (neg_part a ≤ 2 ^ 63)

-- `uint64(a)`
unfoldable pub to_u64 : ℤ → ℕ
to_u64 (pos n) = n % 2 ^ 64
to_u64 (negsuc n) = 2 ^ 64 - 1 - n % 2 ^ 64

-- `int64(n)`
unfoldable pub of_u64 : ℕ → ℤ
of_u64 n = if ltb n (2 ^ 63) then pos n else negsuc (2 ^ 64 - 1 - n)

-- `a + k` in `int64`, for a constant or a number of the same width: the sum wraps around.
unfoldable pub add_int64 : ℤ → ℕ → ℤ
unfolding to_u64 of_u64
add_int64 a k = of_u64 ((to_u64 a + k) % 2 ^ 64)

pub to_u64-lt : (a : ℤ) → to_u64 a < 2 ^ 64
unfolding to_u64
to_u64-lt (pos n) = omega arith
to_u64-lt (negsuc n) = omega arith

pub of_u64-to_u64 : (a : ℤ) → IsInt64 a → of_u64 (to_u64 a) ≡ a
unfolding of_u64 to_u64
of_u64-to_u64 (pos n) h = ground arith
of_u64-to_u64 (negsuc n) h = ground arith

-- Away from the top of the range the sum is exact.
pub add_int64-exact :
    (a : ℤ) (k : ℕ)
    → IsInt64 a
    → pos_part a + k < 2 ^ 63
    → pos_part (add_int64 a k) + neg_part a ≡ neg_part (add_int64 a k) + pos_part a + k
unfolding add_int64
add_int64-exact (pos n) k h fits = ground arith
add_int64-exact (negsuc n) k h fits = ground arith
