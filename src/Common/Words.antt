-- ===== src/Common/Words.antt =====
-- Machine words: `uint32_t` values are numbers below 2 ^ 32, with the wrap-around written out.
use Prim.Native.Nat.{ℕ, ◌+◌, ◌-◌, ◌%◌, ◌^◌, ◌<◌}

abbrev pub u32_mod : ℕ
u32_mod = 2 ^ 32

-- `std::numeric_limits<uint32_t>::max()`, which is also `uint32_t(-1)`.
abbrev pub u32_max : ℕ
u32_max = 0xffff_ffff

abbrev pub IsU32 : ℕ → Type 0
IsU32 n = n < u32_mod

abbrev pub IsByte : ℕ → Type 0
IsByte b = b < 256

abbrev pub add32 : ℕ → ℕ → ℕ
add32 a b = (a + b) % u32_mod

abbrev pub sub32 : ℕ → ℕ → ℕ
sub32 a b = (a + u32_mod - b) % u32_mod
