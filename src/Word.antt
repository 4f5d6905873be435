-- ===== src/Word.antt =====
-- uint32_t, uint16_t and uint8_t values as native numbers below the width's power of two, with the
-- C operators on them. An `int` that the sources build from `~0` or `1 << 31` is its bit pattern:
-- gcc shifts negative integers arithmetically and without a trap, which the macros of util.h need.
pub mod Bits
pub mod Shift
pub mod Fields
use prog.Prelude.{ℕ, ◌+◌, ◌-◌, ◌*◌, ◌/◌, ◌%◌, ◌^◌}

abbrev pub u8 : ℕ → ℕ
u8 n = n % 2 ^ 8

abbrev pub u16 : ℕ → ℕ
u16 n = n % 2 ^ 16

abbrev pub u32 : ℕ → ℕ
u32 n = n % 2 ^ 32

-- a + b and a - b on uint32_t
abbrev pub add32 : ℕ → ℕ → ℕ
add32 a b = (a + b) % 2 ^ 32

abbrev pub sub32 : ℕ → ℕ → ℕ
sub32 a b = (a + 2 ^ 32 - b) % 2 ^ 32

-- ~a on uint32_t
abbrev pub not32 : ℕ → ℕ
not32 a = 0xffff_ffff - a

-- a << k and a >> k on uint32_t, for k < 32
abbrev pub shl32 : ℕ → ℕ → ℕ
shl32 a k = a * 2 ^ k % 2 ^ 32

abbrev pub shr : ℕ → ℕ → ℕ
shr a k = a / 2 ^ k

-- the digit of weight 2 ^ i
abbrev pub bit : ℕ → ℕ → ℕ
bit a i = a / 2 ^ i % 2
