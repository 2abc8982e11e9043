-- ===== src/Base/Int.antt =====
-- Go's signed `int` and `int64` (64 bits) over the native numbers.
use Prim.Native.Nat.{ℕ, zero, suc, ◌+◌, ◌-◌, ◌*◌, ◌%◌}
use mathlib.Core.Bool.{Bool, true, false}
use rd_testing_project.Base.Tests.{ltb, leb, if◌then◌else◌}

-- `negsuc n` is -(n + 1).
pub data ℤ : Type 0 where
  pos : ℕ → ℤ
  negsuc : ℕ → ℤ

abbrev pub pos_part : ℤ → ℕ
pos_part (pos n) = n
pos_part (negsuc n) = 0

abbrev pub neg_part : ℤ → ℕ
neg_part (pos n) = 0
neg_part (negsuc n) = suc n

-- a - b, as an integer.
abbrev pub sub_ℕ : ℕ → ℕ → ℤ
sub_ℕ a b = if leb b a then pos (a - b) else negsuc (b - a - 1)

abbrev pub ltb_ℤ : ℤ → ℤ → Bool
ltb_ℤ (pos a) (pos b) = ltb a b
ltb_ℤ (pos a) (negsuc b) = false
ltb_ℤ (negsuc a) (pos b) = true
ltb_ℤ (negsuc a) (negsuc b) = ltb b a

abbrev pub leb_ℤ : ℤ → ℤ → Bool
leb_ℤ (pos a) (pos b) = leb a b
leb_ℤ (pos a) (negsuc b) = false
leb_ℤ (negsuc a) (pos b) = true
leb_ℤ (negsuc a) (negsuc b) = leb b a

abbrev pub int_mod : ℕ
int_mod = 18446744073709551616

abbrev pub int_half : ℕ
int_half = 9223372036854775808

-- The signed integer of a 64-bit pattern.
abbrev pub of_bits : ℕ → ℤ
of_bits n = if ltb n int_half then pos n else negsuc (int_mod - n - 1)

-- `i++` wraps from 2^63 - 1 to -2^63.
abbrev pub int_inc : ℤ → ℤ
int_inc (pos n) = of_bits ((n + 1) % int_mod)
int_inc (negsuc zero) = pos 0
int_inc (negsuc (suc n)) = negsuc n

-- `i * k` for a positive constant k, which wraps too.
abbrev pub int_scale : ℤ → ℕ → ℤ
int_scale (pos n) k = of_bits ((n * k) % int_mod)
int_scale (negsuc n) k = of_bits ((int_mod - (suc n * k) % int_mod) % int_mod)

-- `i - n` for a length n, which wraps.
abbrev pub int_sub : ℤ → ℕ → ℤ
int_sub (pos a) n = if leb n a then pos (a - n) else of_bits ((a + int_mod - n % int_mod) % int_mod)
int_sub (negsuc a) n = of_bits ((int_mod - (suc a + n) % int_mod) % int_mod)
