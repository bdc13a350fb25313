-- ===== src/Common/Words.antt =====
-- Unsigned machine words: wrap by a remainder, shift by a power of two.
use Prim.Native.Nat.{ℕ, ◌+◌, ◌-◌, ◌*◌, ◌/◌, ◌%◌, ◌^◌}

abbrev pub u8 : ℕ → ℕ
u8 n = n % 2 ^ 8

abbrev pub u16 : ℕ → ℕ
u16 n = n % 2 ^ 16

abbrev pub u32 : ℕ → ℕ
u32 n = n % 2 ^ 32

abbrev pub u64 : ℕ → ℕ
u64 n = n % 2 ^ 64

-- a - b of unsigned words; 2 ^ w is added first since `-` stops at 0.
abbrev pub sub32 : ℕ → ℕ → ℕ
sub32 a b = u32 (u32 a + 2 ^ 32 - u32 b)

abbrev pub sub64 : ℕ → ℕ → ℕ
sub64 a b = u64 (u64 a + 2 ^ 64 - u64 b)

infixl 70 ◌<<<◌ ◌>>>◌
abbrev pub ◌<<<◌ : ℕ → ℕ → ℕ
x <<< k = x * 2 ^ k

abbrev pub ◌>>>◌ : ℕ → ℕ → ℕ
x >>> k = x / 2 ^ k

-- x & (2^k - 1)
abbrev pub low_bits : ℕ → ℕ → ℕ
low_bits x k = x % 2 ^ k

-- x & ~(2^k - 1)
abbrev pub high_bits : ℕ → ℕ → ℕ
high_bits x k = x - x % 2 ^ k
