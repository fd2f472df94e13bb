-- ===== src/BookSide/Word.antt =====
-- include/BookSide.hpp: a uint64_t of occupancy bits, as its bits from the lowest; no operation reads a
-- bit from 64 on.
pub mod Scan
use eigen_book.Prelude.{
  ℕ, zero, suc, ◌-◌, Bool, true, false, ◌&&◌, ◌||◌, not, ◌==◌, leb, if◌then◌else◌,
}

abbrev pub Word : Type 0
Word = ℕ → Bool

abbrev pub zero_word : Word
zero_word i = false

-- `1ULL << k`
abbrev pub single_bit : ℕ → Word
single_bit k i = i == k

-- `a | b`, `a & b` and `~a`
abbrev pub word_or : Word → Word → Word
word_or a b i = a i || b i

abbrev pub word_and : Word → Word → Word
word_and a b i = a i && b i

abbrev pub word_not : Word → Word
word_not a i = not (a i)

-- low_bits_through, and `~0ULL << bit_index`
abbrev pub low_bits_through : ℕ → Word
low_bits_through bit_index i = leb i bit_index

abbrev pub bits_from : ℕ → Word
bits_from bit_index i = leb bit_index i

-- No bit below `n` is set; `bits == 0` is that of 64.
pub none_below : Word → ℕ → Bool
none_below a zero = true
none_below a (suc n) = not (a n) && none_below a n

unfoldable pub is_zero : Word → Bool
unfolding none_below
is_zero a = none_below a 64

-- The loop of lowest_set_bit over the `n` bits from `bit` on.
pub scan_up : Word → ℕ → ℕ → ℕ
scan_up a bit zero = bit
scan_up a bit (suc n) = let later = scan_up a (suc bit) n in if a bit then bit else later

unfoldable pub lowest_set_bit : Word → ℕ
unfolding scan_up
lowest_set_bit a = scan_up a 0 64

-- The loop of highest_set_bit over the `n` lowest bits.
pub scan_down : Word → ℕ → ℕ
scan_down a zero = 0
scan_down a (suc n) = let lower = scan_down a n in if a n then n else lower

unfoldable pub highest_set_bit : Word → ℕ
unfolding scan_down
highest_set_bit a = scan_down a 64
