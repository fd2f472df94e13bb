-- ===== src/BookSide/Dense/Best.antt =====
-- include/BookSide.hpp: the best level of DenseBookSide, and the walk from it.
use eigen_book.Prelude.{
  ℕ, zero, suc, ◌+◌, ◌-◌, ◌*◌, ◌/◌, ◌%◌, ◌≤◌, ◌<◌, ◌≡◌, ◌⊎◌, inl, inr, refl, Bool, true, false, leb,
  ◌==◌, ==_iff, arith, Bool-cases, u32_max, u32_mod, if◌then◌else◌,
}
use eigen_book.Prelude.Int.{ℤ}
use eigen_book.Types.Enums.{Side, is_buy, invalid_index}
use eigen_book.BookSide.Word.{Word, word_and, low_bits_through, bits_from, is_zero}
use eigen_book.BookSide.Word.Scan.{Clear, Clear-none, is_zero-Clear}
use eigen_book.BookSide.Dense.{
  DenseBookSide, highest_from, lowest_from, find_best_index, next_lower, next_higher,
  find_next_index_after, new, compute_level_count,
}
use eigen_book.BookSide.Dense.Search.{
  bit_at, HighestIn, LowestIn, LowPart, HighPart, HighestIn-extend, LowestIn-extend, LowPart-Clear,
  HighPart-Clear, LowPart-HighestIn, HighPart-LowestIn, highest_from-HighestIn,
  lowest_from-LowestIn,
}

-- Level `i` is marked as occupied.
abbrev pub occupied_at : DenseBookSide → ℕ → Bool
occupied_at s = bit_at s.occupancy

-- `r` is the best occupied level, the highest of a buy side and the lowest of a sell side, or
-- kInvalidIndex where no level is occupied.
abbrev pub BestOf : DenseBookSide → ℕ → Type 0
BestOf s r =
    ((is_buy s.side ≡ true) × HighestIn s.occupancy 0 (s.occupancy_word_count * 64) r)
    ⊎ ((is_buy s.side ≡ false) × LowestIn s.occupancy 0 (s.occupancy_word_count * 64) r)

-- `r` is the best occupied level that is worse than `index`, or kInvalidIndex where there is none.
abbrev pub NextOf : DenseBookSide → ℕ → ℕ → Type 0
NextOf s index r =
    ((is_buy s.side ≡ true) × HighestIn s.occupancy 0 index r)
    ⊎ ((is_buy s.side ≡ false) × LowestIn s.occupancy (suc index) (s.occupancy_word_count * 64) r)

-- The cached best index is right, and no bit is set that stands for no level.
pub record IsIndexed (s : DenseBookSide) : Type 0 where
  pub covered : s.level_count ≤ s.occupancy_word_count * 64
  pub bounded : s.occupancy_word_count * 64 ≤ u32_max
  pub beyond : Clear (occupied_at s) s.level_count (s.occupancy_word_count * 64)
  pub best : BestOf s s.best_index

lowest_from-all : (words : ℕ → Word) (n : ℕ) → LowestIn words 0 (n * 64) (lowest_from words 0 n)
lowest_from-all words n =
    let start : 0 * 64 ≡ 0 = omega arith in
    let count : 0 + n ≡ n = omega arith in rw (start, count) at (lowest_from-LowestIn words 0 n)

no_words-BestOf : (s : DenseBookSide) → s.occupancy_word_count ≡ 0 → BestOf s invalid_index
no_words-BestOf s e =
    let clear : Clear (occupied_at s) 0 (s.occupancy_word_count * 64) =
      λ i l b. absurd (omega arith) in
    elim (Bool-cases (is_buy s.side)) [
      | inl b ↦ inl (b, inl (refl, clear))
      | inr b ↦ inr (b, inl (refl, clear))
    ]

-- The search over all words finds the best occupied level.
pub find_best_index-BestOf : (s : DenseBookSide) → BestOf s (find_best_index s)
unfolding find_best_index
find_best_index-BestOf s =
    let n = s.occupancy_word_count in
    elim (Bool-cases (n == 0)) [
      | inl e ↦ rw (find_best_index, e) (no_words-BestOf s ((==_iff n 0).0 e))
      | inr e ↦ elim (Bool-cases (is_buy s.side)) [
        | inl b ↦ inl (b, rw (find_best_index, e, b) (highest_from-HighestIn s.occupancy n))
        | inr b ↦ inr (b, rw (find_best_index, e, b) (lowest_from-all s.occupancy n))
      ]
    ]

next_lower-HighestIn :
    (s : DenseBookSide) (index : ℕ) → HighestIn s.occupancy 0 index (next_lower s index)
unfolding next_lower
next_lower-HighestIn s zero = inl (refl, Clear-none (occupied_at s) 0)
next_lower-HighestIn s (suc next) =
    let w = next / 64 in
    let b = next % 64 in
    let a = word_and (s.occupancy w) (low_bits_through b) in
    let part : LowPart s.occupancy w a (suc b) =
      (omega arith, (λ i l h. ground arith), (λ i h. ground arith)) in
    let end : w * 64 + suc b ≡ suc next = omega arith in
    let before : suc next - 1 ≡ next = omega arith in
    let positive : (suc next == 0) ≡ false = ground arith in
    elim (Bool-cases (is_zero a)) [
      | inl e ↦
          let here = LowPart-Clear s.occupancy w a (suc b) 0 part (is_zero-Clear a e) in
          let start : w * 64 + 0 ≡ w * 64 = omega arith in
          rw (next_lower, positive, before, e)
            (HighestIn-extend s.occupancy 0 (w * 64) (suc next) (highest_from s.occupancy w)
              (omega arith) (rw (start, end) at here) (highest_from-HighestIn s.occupancy w))
      | inr e ↦
          let found = LowPart-HighestIn s.occupancy w a (suc b) part e in
          rw (next_lower, positive, before, e) (rw end at found)
    ]

next_higher-LowestIn :
    (s : DenseBookSide) (index : ℕ)
    → IsIndexed s
    → LowestIn s.occupancy (suc index) (s.occupancy_word_count * 64) (next_higher s index)
unfolding next_higher
next_higher-LowestIn s index k =
    let n = s.occupancy_word_count in
    let w = suc index / 64 in
    let b = suc index % 64 in
    let a = word_and (s.occupancy w) (bits_from b) in
    let part : HighPart s.occupancy w a b =
      (omega arith, (λ i l h. ground arith), (λ i l h. ground arith)) in
    let start : w * 64 + b ≡ suc index = omega arith in
    elim (Bool-cases (leb s.level_count (suc index))) [
      | inl e ↦ rw (next_higher, e) (inl (refl, λ i l h. k.beyond i (ground arith) h))
      | inr e ↦
          let inside : suc index < s.level_count = ground arith in
          let covered = k.covered in
          let room : suc w ≤ n = omega (arith, inside, covered) in
          elim (Bool-cases (is_zero a)) [
            | inl z ↦
                let here =
                  HighPart-Clear s.occupancy w a b 64 part (omega arith) (is_zero-Clear a z) in
                let next : w * 64 + 64 ≡ suc w * 64 = omega arith in
                let end : suc w + (n - suc w) ≡ n = omega arith in
                let later = rw end at (lowest_from-LowestIn s.occupancy (suc w) (n - suc w)) in
                rw (next_higher, e, z)
                  (LowestIn-extend s.occupancy (suc index) (suc w * 64) (n * 64)
                    (lowest_from s.occupancy (suc w) (n - suc w)) (omega arith)
                    (rw (start, next) at here) later)
            | inr z ↦
                let found =
                  HighPart-LowestIn s.occupancy w a b (n * 64) part (omega (arith, room)) z in
                rw (next_higher, e, z) (rw start at found)
          ]
    ]

-- From a level of a well-formed side the search finds the best occupied level that is worse, or answers
-- kInvalidIndex, on a buy side and on a sell side.
pub find_next_index_after-NextOf :
    (s : DenseBookSide) (index : ℕ)
    → IsIndexed s
    → index < s.level_count
    → NextOf s index (find_next_index_after s index)
unfolding find_next_index_after
find_next_index_after-NextOf s index k h =
    let inside : leb s.level_count index ≡ false = ground arith in
    elim (Bool-cases (is_buy s.side)) [
      | inl b ↦ inl (b, rw (find_next_index_after, inside, b) (next_lower-HighestIn s index))
      | inr b ↦ inr (b, rw (find_next_index_after, inside, b) (next_higher-LowestIn s index k))
    ]

-- The words of `n` levels, where the sum does not wrap.
word_count-covers :
    (n : ℕ)
    → n ≤ u32_max - 63
    → let words = if n == 0 then 0 else (n + 63) % u32_mod / 64 in
      (n ≤ words * 64) × (words * 64 ≤ u32_max)
word_count-covers n h = elim (Bool-cases (n == 0)) [
  | inl e ↦ let none_at_all = (==_iff n 0).0 e in rw e (omega arith, omega arith)
  | inr e ↦
      let whole : (n + 63) % u32_mod ≡ n + 63 = omega arith in
      rw (e, whole) (omega arith, omega arith)
]

-- A side with at most 2^32 - 64 levels starts well-formed, with no level occupied.
pub new-IsIndexed :
    (base : ℕ) (side : Side) (min_price max_price tick_size : ℤ)
    → compute_level_count min_price max_price tick_size ≤ u32_max - 63
    → IsIndexed (new base side min_price max_price tick_size)
      × ((new base side min_price max_price tick_size).best_index ≡ invalid_index)
unfolding new
new-IsIndexed base side min_price max_price tick_size h =
    let s = new base side min_price max_price tick_size in
    let (covered, bounded) =
      word_count-covers (compute_level_count min_price max_price tick_size) h in
    let clear : Clear (occupied_at s) 0 (s.occupancy_word_count * 64) = λ i l b. refl in
    (
      record {
        covered = covered;
        bounded = bounded;
        beyond = λ i l b. refl;
        best = elim (Bool-cases (is_buy side)) [
          | inl b ↦ inl (b, inl (refl, clear))
          | inr b ↦ inr (b, inl (refl, clear))
        ];
      },
      refl,
    )
