-- ===== src/Base/Int.antt =====
-- Signed integers over the native numbers, and the C conversions between integer types.
use Prim.Native.Nat.{ℕ, suc, ◌+◌, ◌-◌, ◌%◌, ◌^◌, ◌<◌}
use mathlib.Core.Path.{◌≡◌}
use mathlib.Core.Bool.{Bool}
use native.Mathlib.Omega.{arith}
use daemon_file_hosting.Base.Tests.{ltb, leb, if◌then◌else◌}

-- `negsuc n` is -(n + 1).
pub data ℤ : Type 0 where
  pos : ℕ → ℤ
  negsuc : ℕ → ℤ

abbrev pub pos_part : ℤ → ℕ
pos_part (pos n) = n
pos_part (negsuc n) = 0

abbrev pub neg_part : ℤ → ℕ
neg_part (pos n) = 0
neg_part (negsuc n) = suc n

-- a - b, as an integer.
abbrev pub sub_ℕ : ℕ → ℕ → ℤ
sub_ℕ a b = if leb b a then pos (a - b) else negsuc (b - a - 1)

infixl 65 ◌-ℤ◌
unfoldable pub ◌-ℤ◌ : ℤ → ℤ → ℤ
a -ℤ b = sub_ℕ (pos_part a + neg_part b) (neg_part a + pos_part b)

abbrev pub ltb_ℤ : ℤ → ℤ → Bool
ltb_ℤ a b = ltb (pos_part a + neg_part b) (pos_part b + neg_part a)

-- A signed value converted to `size_t`.
abbrev pub to_size : ℤ → ℕ
to_size (pos n) = n % 2 ^ 64
to_size (negsuc n) = 2 ^ 64 - 1 - n % 2 ^ 64

-- The `int` with the low 32 bits `u`.
abbrev pub int_of_bits : ℕ → ℤ
int_of_bits u = if ltb u (2 ^ 31) then pos u else negsuc (2 ^ 32 - u - 1)

-- A `long long` with the bits of `u`.
abbrev pub long_of_bits : ℕ → ℤ
long_of_bits u = if ltb u (2 ^ 63) then pos u else negsuc (2 ^ 64 - u - 1)

-- A `size_t` or a non-negative `long long` converted to `int`.
unfoldable pub size_to_int : ℕ → ℤ
size_to_int n = int_of_bits (n % 2 ^ 32)

-- A `long long` converted to `int`.
unfoldable pub to_int : ℤ → ℤ
unfolding size_to_int
to_int z = size_to_int (to_size z)

pub size_to_int-small : (n : ℕ) → n < 2 ^ 31 → size_to_int n ≡ pos n
unfolding size_to_int
size_to_int-small n h = ground arith
