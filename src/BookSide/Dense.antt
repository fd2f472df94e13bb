-- ===== src/BookSide/Dense.antt =====
-- include/BookSide.hpp: DenseBookSide, a level for every price of the range, and an occupancy bit for each.
-- The levels and the occupancy words are functions of the index; level `i` has the address `base + i`.
use eigen_book.Prelude.{
  ℕ, zero, suc, ◌+◌, ◌-◌, ◌*◌, ◌/◌, ◌%◌, ◌^◌, Bool, true, false, ◌&&◌, ◌||◌, not, Option, none,
  some, ◌==◌, ltb, leb, update, u32_max, u32_mod, u64_mod, if◌then◌else◌,
}
use eigen_book.Prelude.Int.{ℤ, pos, leb_ℤ, ltb_ℤ, u64_of_i64, i64_of_u64}
use eigen_book.Types.Enums.{Side, is_buy, is_sell, invalid_index}
use eigen_book.Types.Config.{price_distance}
use eigen_book.PriceLevel.{PriceLevel, reset}
use eigen_book.BookSide.Word.{
  Word, zero_word, single_bit, word_or, word_and, word_not, low_bits_through, bits_from, is_zero,
  lowest_set_bit, highest_set_bit,
}
pub mod Orders
pub mod Liquidity
pub mod Preflight
pub mod Best
pub mod Marks
pub mod Queues
pub mod Search
pub mod Match

pub record DenseBookSide : Type 0 where
  pub side : Side
  pub min_price : ℤ
  pub max_price : ℤ
  pub tick_size : ℤ
  pub level_count : ℕ
  pub levels : ℕ → PriceLevel
  pub occupancy_word_count : ℕ
  pub occupancy : ℕ → Word
  pub best_index : ℕ
  pub base : ℕ

unfoldable pub compute_level_count : ℤ → ℤ → ℤ → ℕ
unfolding price_distance
compute_level_count min_price max_price tick_size =
    let range = price_distance min_price max_price in
    let tick = u64_of_i64 tick_size in
    if ltb_ℤ max_price min_price || leb_ℤ tick_size (pos 0)
    then 0
    else if ltb (2 ^ 63 - 1) range
    then 0
    else if not (range % tick == 0)
    then 0
    else if leb u32_max (range / tick)
    then 0
    else (range / tick + 1) % u32_mod

-- The sum of two int64_t values, in the two's complement that both have.
unfoldable pub price_at_index : ℤ → ℤ → ℕ → ℤ
price_at_index min_price tick_size index =
    let offset = index * u64_of_i64 tick_size % u64_mod in
    i64_of_u64 ((u64_of_i64 min_price + offset) % u64_mod)

-- the constructor
unfoldable pub new : ℕ → Side → ℤ → ℤ → ℤ → DenseBookSide
unfolding price_at_index reset
new base side min_price max_price tick_size =
    let level_count = compute_level_count min_price max_price tick_size in
    record {
      side = side;
      min_price = min_price;
      max_price = max_price;
      tick_size = tick_size;
      level_count = level_count;
      levels = λ i. reset (price_at_index min_price tick_size i);
      occupancy_word_count = if level_count == 0 then 0 else (level_count + 63) % u32_mod / 64;
      occupancy = λ i. zero_word;
      best_index = invalid_index;
      base = base;
    }

unfoldable pub clear : DenseBookSide → DenseBookSide
unfolding price_at_index reset
clear s = record s {
  levels = λ i.
      if ltb i s.level_count then reset (price_at_index s.min_price s.tick_size i) else s.levels i;
  occupancy = λ i. if ltb i s.occupancy_word_count then zero_word else s.occupancy i;
  best_index = invalid_index;
}

unfoldable pub price_in_range : DenseBookSide → ℤ → Bool
unfolding price_distance
price_in_range s price =
    if ltb_ℤ price s.min_price || ltb_ℤ s.max_price price || leb_ℤ s.tick_size (pos 0)
    then false
    else price_distance s.min_price price % u64_of_i64 s.tick_size == 0

unfoldable pub index_for_price : DenseBookSide → ℤ → ℕ
unfolding price_distance
index_for_price s price = price_distance s.min_price price / u64_of_i64 s.tick_size % u32_mod

unfoldable pub crosses : DenseBookSide → ℤ → ℤ → Bool
crosses s resting_price limit_price =
    if is_sell s.side then leb_ℤ resting_price limit_price else leb_ℤ limit_price resting_price

abbrev pub better : DenseBookSide → ℕ → ℕ → Bool
better s lhs rhs = if is_buy s.side then ltb rhs lhs else ltb lhs rhs

-- The words below `n` from the last on, and the `n` words from `word` on.
unfoldable pub highest_from : (ℕ → Word) → ℕ → ℕ
highest_from words zero = invalid_index
highest_from words (suc n) =
    let lower = highest_from words n in
    if not (is_zero (words n)) then n * 64 + highest_set_bit (words n) else lower

unfoldable pub lowest_from : (ℕ → Word) → ℕ → ℕ → ℕ
lowest_from words word zero = invalid_index
lowest_from words word (suc n) =
    let later = lowest_from words (suc word) n in
    if not (is_zero (words word)) then word * 64 + lowest_set_bit (words word) else later

unfoldable pub find_best_index : DenseBookSide → ℕ
find_best_index s =
    if s.occupancy_word_count == 0
    then invalid_index
    else if is_buy s.side
    then highest_from s.occupancy s.occupancy_word_count
    else lowest_from s.occupancy 0 s.occupancy_word_count

unfoldable pub set_occupied : DenseBookSide → ℕ → DenseBookSide
set_occupied s index =
    let word = index / 64 in
    record s {
      occupancy = update s.occupancy word (word_or (s.occupancy word) (single_bit (index % 64)));
      best_index =
          if s.best_index == invalid_index || better s index s.best_index
          then index
          else s.best_index;
    }

unfoldable pub clear_occupied : DenseBookSide → ℕ → DenseBookSide
clear_occupied s index =
    let word = index / 64 in
    let cleared : DenseBookSide = record s {
      occupancy =
          update s.occupancy word
            (word_and (s.occupancy word) (word_not (single_bit (index % 64))));
    } in
    if index == s.best_index
    then record cleared { best_index = find_best_index cleared }
    else cleared

-- find_next_index_after on a buy side, and on a sell side
unfoldable pub next_lower : DenseBookSide → ℕ → ℕ
next_lower s index =
    let next_index = index - 1 in
    let word = next_index / 64 in
    let bits = word_and (s.occupancy word) (low_bits_through (next_index % 64)) in
    if index == 0
    then invalid_index
    else if not (is_zero bits)
    then word * 64 + highest_set_bit bits
    else highest_from s.occupancy word

unfoldable pub next_higher : DenseBookSide → ℕ → ℕ
next_higher s index =
    let next_index = suc index in
    let word = next_index / 64 in
    let bits = word_and (s.occupancy word) (bits_from (next_index % 64)) in
    if leb s.level_count next_index
    then invalid_index
    else if not (is_zero bits)
    then word * 64 + lowest_set_bit bits
    else lowest_from s.occupancy (suc word) (s.occupancy_word_count - suc word)

unfoldable pub find_next_index_after : DenseBookSide → ℕ → ℕ
find_next_index_after s index =
    if leb s.level_count index
    then invalid_index
    else if is_buy s.side
    then next_lower s index
    else next_higher s index
