-- ===== src/Base/Words.antt =====
-- Machine words as native numbers. `size_t` is `uint64_t`, and `-` on ℕ stops at 0, so a
-- difference adds the modulus first.
use Prim.Native.Nat.{ℕ, ◌+◌, ◌-◌, ◌*◌, ◌/◌, ◌%◌, ◌^◌}
use mathlib.Core.Bool.{Bool}
use aether_plane.Base.Tests.{leb}

abbrev pub u8 : ℕ → ℕ
u8 n = n % 2 ^ 8

abbrev pub u16 : ℕ → ℕ
u16 n = n % 2 ^ 16

abbrev pub u32 : ℕ → ℕ
u32 n = n % 2 ^ 32

abbrev pub u64 : ℕ → ℕ
u64 n = n % 2 ^ 64

infixl 75 ◌<<<◌ ◌>>>◌
abbrev pub ◌<<<◌ : ℕ → ℕ → ℕ
x <<< k = x * 2 ^ k

abbrev pub ◌>>>◌ : ℕ → ℕ → ℕ
x >>> k = x / 2 ^ k

-- `uint64_t` addition and subtraction
abbrev pub add64 : ℕ → ℕ → ℕ
add64 a b = u64 (a + b)

abbrev pub sub64 : ℕ → ℕ → ℕ
sub64 a b = u64 (a + 2 ^ 64 - b)

-- `~x` on 32 and on 64 bits
abbrev pub not32 : ℕ → ℕ
not32 x = 2 ^ 32 - 1 - x

abbrev pub not64 : ℕ → ℕ
not64 x = 2 ^ 64 - 1 - x

-- `uint32_t` and `int32_t` arithmetic on the bit patterns, which wrap alike.
abbrev pub add32 : ℕ → ℕ → ℕ
add32 a b = u32 (a + b)

abbrev pub sub32 : ℕ → ℕ → ℕ
sub32 a b = u32 (a + 2 ^ 32 - b)

-- `a <= b` on `int32_t`, by the bit patterns.
abbrev pub sleb32 : ℕ → ℕ → Bool
sleb32 a b = leb (u32 (a + 2 ^ 31)) (u32 (b + 2 ^ 31))
