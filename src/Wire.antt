-- ===== src/Wire.antt =====
-- include/Command.hpp: CommandWriter and CommandReader, little-endian fields in a span of bytes.
-- The byte `(value >> (i * 8)) & 0xff` is the i-th remainder of repeated division by 256; the bytes that
-- `|=` puts together stand in disjoint bits, so they add up.
pub mod Fields
use eigen_book.Prelude.{
  ℕ, zero, suc, ◌+◌, ◌-◌, ◌*◌, ◌/◌, ◌%◌, Bool, true, false, ◌||◌, not, Option, none, some, List,
  ltb, leb, get_or, set, length, if◌then◌else◌,
}
use eigen_book.Prelude.Int.{ℤ, u64_of_i64, i64_of_u64}

pub record Writer : Type 0 where
  pub buffer : List ℕ
  pub offset : ℕ
  pub is_ok : Bool

unfoldable pub new_writer : List ℕ → Writer
new_writer buffer = record { buffer = buffer; offset = 0; is_ok = true }

-- the loop of write_u32 and write_u64, over `n` bytes
pub store_le : List ℕ → ℕ → ℕ → ℕ → List ℕ
store_le buffer at value zero = buffer
store_le buffer at value (suc n) = store_le (set buffer at (value % 256)) (suc at) (value / 256) n

-- The guard `reserve` and the write of `n` bytes.
write : Writer → ℕ → ℕ → Writer
unfolding store_le
write w n value =
    if not w.is_ok || ltb (length w.buffer - w.offset) n
    then record w { is_ok = false }
    else record w { buffer = store_le w.buffer w.offset value n; offset = w.offset + n }

unfoldable pub write_u8 : Writer → ℕ → Writer
unfolding write
write_u8 w value = write w 1 value

unfoldable pub write_u32 : Writer → ℕ → Writer
unfolding write
write_u32 w value = write w 4 value

unfoldable pub write_u64 : Writer → ℕ → Writer
unfolding write
write_u64 w value = write w 8 value

unfoldable pub write_price : Writer → ℤ → Writer
unfolding write_u64
write_price w value = write_u64 w (u64_of_i64 value)

pub record Reader : Type 0 where
  pub buffer : List ℕ
  pub offset : ℕ

unfoldable pub new_reader : List ℕ → Reader
new_reader buffer = record { buffer = buffer; offset = 0 }

-- the loop of read_u32 and read_u64, over `n` bytes
pub load_le : List ℕ → ℕ → ℕ → ℕ
load_le buffer at zero = 0
load_le buffer at (suc n) = get_or buffer at 0 + 256 * load_le buffer (suc at) n

-- `none` is a read that returns false.
read : ℕ → Reader → Option (ℕ × Reader)
unfolding load_le
read n r =
    if leb n (length r.buffer - r.offset)
    then some (load_le r.buffer r.offset n, record r { offset = r.offset + n })
    else none

unfoldable pub read_u8 : Reader → Option (ℕ × Reader)
unfolding read
read_u8 r = read 1 r

unfoldable pub read_u32 : Reader → Option (ℕ × Reader)
unfolding read
read_u32 r = read 4 r

unfoldable pub read_u64 : Reader → Option (ℕ × Reader)
unfolding read
read_u64 r = read 8 r

unfoldable pub read_price : Reader → Option (ℤ × Reader)
unfolding read_u64
read_price r = elim (read_u64 r) [ none ↦ none | some (raw, r') ↦ some (i64_of_u64 raw, r') ]
