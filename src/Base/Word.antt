-- ===== src/Base/Word.antt =====
-- Unsigned machine words as native numbers: casts, shifts and the operations on bits.
use Prim.Native.Nat.{ℕ, ◌+◌, ◌-◌, ◌*◌, ◌/◌, ◌%◌, ◌^◌, bit_and, bit_xor}

abbrev pub u32 : ℕ → ℕ
u32 n = n % 2 ^ 32

-- `x << k` before any cast, and `x >> k`.
infixl 75 ◌<<<◌ ◌>>>◌
abbrev pub ◌<<<◌ : ℕ → ℕ → ℕ
x <<< k = x * 2 ^ k

abbrev pub ◌>>>◌ : ℕ → ℕ → ℕ
x >>> k = x / 2 ^ k

-- Unsigned subtraction on 32 bits, which wraps.
abbrev pub sub32 : ℕ → ℕ → ℕ
sub32 a b = u32 (u32 a + 2 ^ 32 - u32 b)

-- `a & ~b` on 32 bits.
abbrev pub and_not : ℕ → ℕ → ℕ
and_not a b = bit_and a (bit_xor b 0xffff_ffff)
