-- ===== src/Prelude/Int.antt =====
-- Signed integers over the native numbers, and the wrap-around of a Go int64.
use Prim.Native.Nat.{ℕ, suc, ◌+◌, ◌-◌, ◌*◌, ◌%◌, ◌^◌, ◌≤◌, ◌<◌}
use mathlib.Core.Path.{◌≡◌}
use mathlib.Core.Bool.{Bool}
use native.Mathlib.Omega.{arith}
use go_builder_relayer_clien.Prelude.Tests.{ltb, leb, ◌==◌, if◌then◌else◌}

-- `negsuc n` is -(n + 1).
pub data ℤ : Type 0 where
  pos : ℕ → ℤ
  negsuc : ℕ → ℤ

abbrev pub pos_part : ℤ → ℕ
pos_part (pos n) = n
pos_part (negsuc n) = 0

abbrev pub neg_part : ℤ → ℕ
neg_part (pos n) = 0
neg_part (negsuc n) = suc n

-- |a|
abbrev pub abs : ℤ → ℕ
abs (pos n) = n
abs (negsuc n) = suc n

-- a - b, as an integer
abbrev pub sub_ℕ : ℕ → ℕ → ℤ
sub_ℕ a b = if leb b a then pos (a - b) else negsuc (b - a - 1)

abbrev pub neg : ℤ → ℤ
neg a = sub_ℕ (neg_part a) (pos_part a)

abbrev pub ltb_ℤ : ℤ → ℤ → Bool
ltb_ℤ a b = ltb (pos_part a + neg_part b) (pos_part b + neg_part a)

abbrev pub leb_ℤ : ℤ → ℤ → Bool
leb_ℤ a b = leb (pos_part a + neg_part b) (pos_part b + neg_part a)

infix 50 ◌≤ℤ◌
abbrev pub ◌≤ℤ◌ : ℤ → ℤ → Type 0
a ≤ℤ b = pos_part a + neg_part b ≤ pos_part b + neg_part a

abbrev pub is_zero : ℤ → Bool
is_zero a = abs a == 0

-- The int64 that the low 64 bits of `u` stand for.
abbrev pub of_bits64 : ℕ → ℤ
of_bits64 u =
    if ltb (u % 2 ^ 64) (2 ^ 63) then pos (u % 2 ^ 64) else negsuc (2 ^ 64 - 1 - u % 2 ^ 64)

-- a * m in int64, for a factor m that is not negative
unfoldable pub mul_int64 : ℤ → ℕ → ℤ
mul_int64 (pos n) m = of_bits64 (n * m)
mul_int64 (negsuc n) m = of_bits64 (2 ^ 64 - (suc n * m) % 2 ^ 64)

-- a - b in int64, of two int64
unfoldable pub sub_int64 : ℤ → ℤ → ℤ
sub_int64 a b = of_bits64 (pos_part a + neg_part b + 2 ^ 64 - (neg_part a + pos_part b) % 2 ^ 64)

abbrev pub IsInt64 : ℤ → Type 0
IsInt64 a = (pos_part a < 2 ^ 63) × (neg_part a ≤ 2 ^ 63)

-- A product that fits is exact.
pub mul_int64_exact : (n m : ℕ) → n * m < 2 ^ 63 → mul_int64 (pos n) m ≡ pos (n * m)
unfolding mul_int64
mul_int64_exact n m h = ground arith

pub mul_int64-IsInt64 : (a : ℤ) (m : ℕ) → IsInt64 (mul_int64 a m)
unfolding mul_int64
mul_int64-IsInt64 (pos n) m = ground arith
mul_int64-IsInt64 (negsuc n) m = ground arith
