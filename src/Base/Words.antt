-- ===== src/Base/Words.antt =====
-- `u32` and `u64` arithmetic as the C code does it: results wrap at the width.
use Prim.Native.Nat.{ℕ, ◌+◌, ◌-◌, ◌/◌, ◌%◌, ◌^◌}

abbrev pub u16_mod : ℕ
u16_mod = 2 ^ 16

abbrev pub u32_mod : ℕ
u32_mod = 2 ^ 32

abbrev pub u64_mod : ℕ
u64_mod = 2 ^ 64

abbrev pub add32 : ℕ → ℕ → ℕ
add32 a b = (a + b) % u32_mod

-- `-` on ℕ stops at 0, hence the modulus first.
abbrev pub sub32 : ℕ → ℕ → ℕ
sub32 a b = (a + u32_mod - b) % u32_mod

abbrev pub add64 : ℕ → ℕ → ℕ
add64 a b = (a + b) % u64_mod

abbrev pub lower_32_bits : ℕ → ℕ
lower_32_bits n = n % u32_mod

abbrev pub upper_32_bits : ℕ → ℕ
upper_32_bits n = n % u64_mod / u32_mod
