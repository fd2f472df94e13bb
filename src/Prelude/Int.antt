-- ===== src/Prelude/Int.antt =====
-- Signed integers over the native numbers, under the library's names, and the two's complement
-- pattern of an int64_t.
use Prim.Native.Nat.{ℕ, suc, ◌+◌, ◌-◌, ◌≤◌, ◌<◌, ◌^◌}
use mathlib.Core.Path.{◌≡◌}
use mathlib.Core.Bool.{Bool, ◌&&◌}
use native.Mathlib.Omega.{arith}
use eigen_book.Prelude.Tests.{ltb, leb, if◌then◌else◌}
use eigen_book.Prelude.Words.{u64_mod}

-- `negsuc n` is -(n + 1).
pub data ℤ : Type 0 where
  pos : ℕ → ℤ
  negsuc : ℕ → ℤ

abbrev pub pos_part : ℤ → ℕ
pos_part (pos n) = n
pos_part (negsuc n) = 0

abbrev pub neg_part : ℤ → ℕ
neg_part (pos n) = 0
neg_part (negsuc n) = suc n

infix 50 ◌≤ℤ◌ ◌<ℤ◌
abbrev pub ◌≤ℤ◌ : ℤ → ℤ → Type 0
a ≤ℤ b = pos_part a + neg_part b ≤ pos_part b + neg_part a

abbrev pub ◌<ℤ◌ : ℤ → ℤ → Type 0
a <ℤ b = pos_part a + neg_part b < pos_part b + neg_part a

abbrev pub leb_ℤ : ℤ → ℤ → Bool
leb_ℤ a b = leb (pos_part a + neg_part b) (pos_part b + neg_part a)

abbrev pub ltb_ℤ : ℤ → ℤ → Bool
ltb_ℤ a b = ltb (pos_part a + neg_part b) (pos_part b + neg_part a)

abbrev pub eqb_ℤ : ℤ → ℤ → Bool
eqb_ℤ a b = leb_ℤ a b && leb_ℤ b a

-- a value of int64_t
abbrev pub IsI64 : ℤ → Type 0
IsI64 (pos n) = n < 2 ^ 63
IsI64 (negsuc n) = n < 2 ^ 63

-- static_cast<std::uint64_t>, and memcpy of the eight bytes
abbrev pub u64_of_i64 : ℤ → ℕ
u64_of_i64 (pos n) = n
u64_of_i64 (negsuc n) = u64_mod - suc n

abbrev pub i64_of_u64 : ℕ → ℤ
i64_of_u64 n = if ltb n (2 ^ 63) then pos n else negsuc (u64_mod - suc n)

pub i64_of_u64-u64_of_i64 : (z : ℤ) → IsI64 z → i64_of_u64 (u64_of_i64 z) ≡ z
i64_of_u64-u64_of_i64 (pos n) h = ground arith
i64_of_u64-u64_of_i64 (negsuc n) h = ground arith

pub u64_of_i64-i64_of_u64 : (n : ℕ) → n < u64_mod → u64_of_i64 (i64_of_u64 n) ≡ n
u64_of_i64-i64_of_u64 n h = ground arith

pub u64_of_i64-lt : (z : ℤ) → IsI64 z → u64_of_i64 z < u64_mod
u64_of_i64-lt (pos n) h = omega arith
u64_of_i64-lt (negsuc n) h = omega arith

pub i64_of_u64-IsI64 : (n : ℕ) → n < u64_mod → IsI64 (i64_of_u64 n)
i64_of_u64-IsI64 n h = ground arith
