-- ===== src/Base/Words.antt =====
-- Unsigned machine words as native numbers, with C's wrap-around written out.
use Prim.Native.Nat.{ℕ, ◌+◌, ◌-◌, ◌%◌, ◌^◌}

abbrev pub u16 : ℕ → ℕ
u16 x = x % 2 ^ 16

abbrev pub u32 : ℕ → ℕ
u32 x = x % 2 ^ 32

abbrev pub u64 : ℕ → ℕ
u64 x = x % 2 ^ 64

abbrev pub add32 : ℕ → ℕ → ℕ
add32 a b = u32 (a + b)

-- For `a` and `b` below 2 ^ 32: the subtraction of `uint32_t`.
abbrev pub sub32 : ℕ → ℕ → ℕ
sub32 a b = u32 (a + 2 ^ 32 - b)

abbrev pub add64 : ℕ → ℕ → ℕ
add64 a b = u64 (a + b)
