-- ===== src/Base/Words.antt =====
-- `unsigned int` and `unsigned long` arithmetic (32 and 64 bits), and the alignment functions of
-- lib/util.h.
use Prim.Native.Nat.{ℕ, ◌+◌, ◌-◌, ◌%◌, ◌^◌, ◌≤◌, ◌<◌}
use mathlib.Core.Path.{◌≡◌}
use native.Mathlib.Omega.{arith}

abbrev pub u16 : ℕ → ℕ
u16 n = n % 2 ^ 16

abbrev pub u32 : ℕ → ℕ
u32 n = n % 2 ^ 32

abbrev pub u64 : ℕ → ℕ
u64 n = n % 2 ^ 64

abbrev pub add_u32 : ℕ → ℕ → ℕ
add_u32 a b = (a + b) % 2 ^ 32

-- `-` on ℕ stops at 0, so the modulus is added first. The operands are below the modulus.
abbrev pub sub_u32 : ℕ → ℕ → ℕ
sub_u32 a b = (a + 2 ^ 32 - b) % 2 ^ 32

abbrev pub add_u64 : ℕ → ℕ → ℕ
add_u64 a b = (a + b) % 2 ^ 64

abbrev pub sub_u64 : ℕ → ℕ → ℕ
sub_u64 a b = (a + 2 ^ 64 - b) % 2 ^ 64

abbrev pub cache_line_size : ℕ
cache_line_size = 64

-- `x & TS_CACHE_LINE_MASK` clears the six low bits.
abbrev clear_line_bits : ℕ → ℕ
clear_line_bits x = x - x % 64

unfoldable pub align_uint_to_cacheline : ℕ → ℕ
align_uint_to_cacheline unum = clear_line_bits (add_u32 unum 63)

unfoldable pub align_ptr_to_cacheline : ℕ → ℕ
align_ptr_to_cacheline p = clear_line_bits (add_u64 p 63)

-- Rounding up gives the least multiple of the line that is not below the number, while the sum
-- does not pass the word.
pub align_uint_to_cacheline_lem :
    (x : ℕ)
    → x + 63 < 2 ^ 32
    → (align_uint_to_cacheline x % 64 ≡ 0)
      × (x ≤ align_uint_to_cacheline x)
      × (align_uint_to_cacheline x < x + 64)
unfolding align_uint_to_cacheline
align_uint_to_cacheline_lem x h = omega arith

pub align_ptr_to_cacheline_lem :
    (p : ℕ)
    → p + 63 < 2 ^ 64
    → (align_ptr_to_cacheline p % 64 ≡ 0)
      × (p ≤ align_ptr_to_cacheline p)
      × (align_ptr_to_cacheline p < p + 64)
unfolding align_ptr_to_cacheline
align_ptr_to_cacheline_lem p h = omega arith
