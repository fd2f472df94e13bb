-- ===== src/Prelude/Words.antt =====
-- Bounds of the machine-width unsigned integers.
use Prim.Native.Nat.{ℕ, ◌^◌, ◌<◌}

abbrev pub u8_mod : ℕ
u8_mod = 2 ^ 8

abbrev pub u32_mod : ℕ
u32_mod = 2 ^ 32

abbrev pub u64_mod : ℕ
u64_mod = 2 ^ 64

abbrev pub u32_max : ℕ
u32_max = 4294967295

abbrev pub u64_max : ℕ
u64_max = 18446744073709551615

abbrev pub IsU8 : ℕ → Type 0
IsU8 n = n < u8_mod

abbrev pub IsU32 : ℕ → Type 0
IsU32 n = n < u32_mod

abbrev pub IsU64 : ℕ → Type 0
IsU64 n = n < u64_mod
