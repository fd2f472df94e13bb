-- ===== src/BookSide/Dense/Marks.antt =====
-- include/BookSide.hpp: DenseBookSide keeps its best index right when a level fills up or empties.
use eigen_book.Prelude.{
  ℕ, suc, ◌*◌, ◌/◌, ◌%◌, ◌≤◌, ◌<◌, ◌≡◌, ◌≢◌, ◌⊎◌, inl, inr, refl, sym, ◌∙◌, true, false, ◌||◌, ltb,
  ◌==◌, ==_iff, arith, Bool-cases, update, u32_max, if◌then◌else◌,
}
use eigen_book.Types.Enums.{invalid_index}
use eigen_book.BookSide.Word.{Word, word_or, word_and, word_not, single_bit}
use eigen_book.BookSide.Word.Scan.{Clear}
use eigen_book.BookSide.Dense.{DenseBookSide, find_best_index, set_occupied, clear_occupied}
use eigen_book.BookSide.Dense.Search.{bit_at, HighestIn, LowestIn}
use eigen_book.BookSide.Dense.Best.{occupied_at, BestOf, IsIndexed, find_best_index-BestOf}

-- The occupancy words after a bit has been set, and after one has been cleared.
abbrev marked : (ℕ → Word) → ℕ → ℕ → Word
marked words index =
    update words (index / 64) (word_or (words (index / 64)) (single_bit (index % 64)))

abbrev pub unmarked : (ℕ → Word) → ℕ → ℕ → Word
unmarked words index =
    update words (index / 64) (word_and (words (index / 64)) (word_not (single_bit (index % 64))))

marked_self : (words : ℕ → Word) (index : ℕ) → bit_at (marked words index) index ≡ true
marked_self words index =
    let own : (index / 64 == index / 64) ≡ true = ground arith in
    let bit : (index % 64 == index % 64) ≡ true = ground arith in rw (own, bit) (ground arith)

unmarked_self : (words : ℕ → Word) (index : ℕ) → bit_at (unmarked words index) index ≡ false
unmarked_self words index =
    let own : (index / 64 == index / 64) ≡ true = ground arith in
    let bit : (index % 64 == index % 64) ≡ true = ground arith in rw (own, bit) (ground arith)

marked_ne :
    (words : ℕ → Word) (index i : ℕ) → i ≢ index → bit_at (marked words index) i ≡ bit_at words i
marked_ne words index i h = elim (Bool-cases (i / 64 == index / 64)) [
  | inl e ↦
      let same = (==_iff (i / 64) (index / 64)).0 e in
      let other : (i % 64 == index % 64) ≡ false = ground arith in
      rw (e, other, same) (ground arith)
  | inr e ↦ rw e refl
]

unmarked_ne :
    (words : ℕ → Word) (index i : ℕ) → i ≢ index → bit_at (unmarked words index) i ≡ bit_at words i
unmarked_ne words index i h = elim (Bool-cases (i / 64 == index / 64)) [
  | inl e ↦
      let same = (==_iff (i / 64) (index / 64)).0 e in
      let other : (i % 64 == index % 64) ≡ false = ground arith in
      rw (e, other, same) (ground arith)
  | inr e ↦ rw e refl
]

marked_keeps :
    (words : ℕ → Word) (index i : ℕ) → bit_at words i ≡ true → bit_at (marked words index) i ≡ true
marked_keeps words index i h = elim (Bool-cases (i == index)) [
  | inl e ↦ rw ((==_iff i index).0 e) (marked_self words index)
  | inr e ↦ marked_ne words index i (ground arith) ∙ h
]

marked-Clear :
    (words : ℕ → Word) (index lo hi : ℕ)
    → (hi ≤ index) ⊎ (index < lo)
    → Clear (bit_at words) lo hi
    → Clear (bit_at (marked words index)) lo hi
marked-Clear words index lo hi (inl o) c i l h = marked_ne words index i (omega arith) ∙ c i l h
marked-Clear words index lo hi (inr o) c i l h = marked_ne words index i (omega arith) ∙ c i l h

unmarked-Clear :
    (words : ℕ → Word) (index lo hi : ℕ)
    → Clear (bit_at words) lo hi
    → Clear (bit_at (unmarked words index)) lo hi
unmarked-Clear words index lo hi c i l h = elim (Bool-cases (i == index)) [
  | inl e ↦ rw ((==_iff i index).0 e) (unmarked_self words index)
  | inr e ↦ unmarked_ne words index i (ground arith) ∙ c i l h
]

module _ (words : ℕ → Word) (index n best : ℕ) (b : index < n) (u : n ≤ u32_max) where
  marked-HighestIn :
      HighestIn words 0 n best
      → HighestIn
          (marked words index)
          0
          n
          (if best == invalid_index || ltb best index then index else best)
  marked-HighestIn (inl (e, c)) =
      let first : (best == invalid_index) ≡ true = ground arith in
      rw first (
        inr (
          omega arith,
          b,
          marked_self words index,
          marked-Clear words index (suc index) n (inr (omega arith)) (λ i l h. c i (omega arith) h),
        ))
  marked-HighestIn (inr (l, h, o, c)) =
      let known : (best == invalid_index) ≡ false = ground arith in
      elim (Bool-cases (ltb best index)) [
        | inl e ↦
            let above : best < index = ground arith in
            rw (known, e)
              (inr (
                omega arith,
                b,
                marked_self words index,
                marked-Clear words index (suc index) n (inr (omega arith))
                    (λ i l h. c i (omega arith) h),
              ))
        | inr e ↦
            let below : index ≤ best = ground arith in
            rw (known, e)
              (inr (
                l,
                h,
                marked_keeps words index best o,
                marked-Clear words index (suc best) n (inr (omega arith)) c,
              ))
      ]

  marked-LowestIn :
      LowestIn words 0 n best
      → LowestIn
          (marked words index)
          0
          n
          (if best == invalid_index || ltb index best then index else best)
  marked-LowestIn (inl (e, c)) =
      let first : (best == invalid_index) ≡ true = ground arith in
      rw first (
        inr (
          omega arith,
          b,
          marked_self words index,
          marked-Clear words index 0 index (inl (omega arith)) (λ i l h. c i l (omega arith)),
        ))
  marked-LowestIn (inr (l, h, o, c)) =
      let known : (best == invalid_index) ≡ false = ground arith in
      elim (Bool-cases (ltb index best)) [
        | inl e ↦
            let below : index < best = ground arith in
            rw (known, e)
              (inr (
                omega arith,
                b,
                marked_self words index,
                marked-Clear words index 0 index (inl (omega arith)) (λ i l h. c i l (omega arith)),
              ))
        | inr e ↦
            let above : best ≤ index = ground arith in
            rw (known, e)
              (inr (
                l,
                h,
                marked_keeps words index best o,
                marked-Clear words index 0 best (inl above) c,
              ))
      ]

module _ (words : ℕ → Word) (index n best : ℕ) (d : index ≢ best) where
  unmarked-HighestIn : HighestIn words 0 n best → HighestIn (unmarked words index) 0 n best
  unmarked-HighestIn (inl (e, c)) = inl (e, unmarked-Clear words index 0 n c)
  unmarked-HighestIn (inr (l, h, o, c)) = inr (
    l,
    h,
    unmarked_ne words index best (λ e. d (sym e)) ∙ o,
    unmarked-Clear words index (suc best) n c,
  )

  unmarked-LowestIn : LowestIn words 0 n best → LowestIn (unmarked words index) 0 n best
  unmarked-LowestIn (inl (e, c)) = inl (e, unmarked-Clear words index 0 n c)
  unmarked-LowestIn (inr (l, h, o, c)) =
      inr (
        l,
        h,
        unmarked_ne words index best (λ e. d (sym e)) ∙ o,
        unmarked-Clear words index 0 best c,
      )

set_occupied-BestOf :
    (s : DenseBookSide) (index : ℕ)
    → IsIndexed s
    → index < s.level_count
    → BestOf (set_occupied s index) (set_occupied s index).best_index
unfolding set_occupied
set_occupied-BestOf s index k h =
    let n = s.occupancy_word_count * 64 in
    let covered = k.covered in
    let inside : index < n = omega (arith, covered) in
    elim k.best [
      | inl (b, o) ↦
          inl (b, rw b (marked-HighestIn s.occupancy index n s.best_index inside k.bounded o))
      | inr (b, o) ↦
          inr (b, rw b (marked-LowestIn s.occupancy index n s.best_index inside k.bounded o))
    ]

-- Marking a level of a well-formed side as occupied keeps the side well-formed, its best index right; it
-- marks that level and no other.
pub set_occupied-IsIndexed :
    (s : DenseBookSide) (index : ℕ)
    → IsIndexed s
    → index < s.level_count
    → IsIndexed (set_occupied s index)
      × (occupied_at (set_occupied s index) index ≡ true)
      × ((i : ℕ) → i ≢ index → occupied_at (set_occupied s index) i ≡ occupied_at s i)
unfolding set_occupied
set_occupied-IsIndexed s index k h =
    let n = s.occupancy_word_count * 64 in
    (
      record {
        covered = k.covered;
        bounded = k.bounded;
        beyond = marked-Clear s.occupancy index s.level_count n (inr h) k.beyond;
        best = set_occupied-BestOf s index k h;
      },
      marked_self s.occupancy index,
      marked_ne s.occupancy index,
    )

abbrev pub with_occupancy : DenseBookSide → (ℕ → Word) → DenseBookSide
with_occupancy s words = record s { occupancy = words }

abbrev pub best_without : DenseBookSide → ℕ → ℕ
best_without s index =
    if index == s.best_index
    then find_best_index (with_occupancy s (unmarked s.occupancy index))
    else s.best_index

pub clear_occupied-unmarked :
    (s : DenseBookSide) (index : ℕ)
    → clear_occupied s index
      ≡ record (with_occupancy s (unmarked s.occupancy index)) { best_index = best_without s index }
unfolding clear_occupied
clear_occupied-unmarked s index = elim (Bool-cases (index == s.best_index)) [
  | inl e ↦ rw (clear_occupied, e) refl
  | inr e ↦ rw (clear_occupied, e) refl
]

best_without-BestOf :
    (s : DenseBookSide) (index : ℕ)
    → IsIndexed s
    → BestOf (with_occupancy s (unmarked s.occupancy index)) (best_without s index)
best_without-BestOf s index k =
    let n = s.occupancy_word_count * 64 in
    elim (Bool-cases (index == s.best_index)) [
      | inl e ↦ rw e (find_best_index-BestOf (with_occupancy s (unmarked s.occupancy index)))
      | inr e ↦
          let apart : index ≢ s.best_index = ground arith in
          rw e (elim k.best [
            | inl (b, o) ↦ inl (b, unmarked-HighestIn s.occupancy index n s.best_index apart o)
            | inr (b, o) ↦ inr (b, unmarked-LowestIn s.occupancy index n s.best_index apart o)
          ])
    ]

-- Clearing a mark of a well-formed side keeps the side well-formed, its best index right; it clears that
-- mark and no other.
pub clear_occupied-IsIndexed :
    (s : DenseBookSide) (index : ℕ)
    → IsIndexed s
    → IsIndexed (clear_occupied s index)
      × (occupied_at (clear_occupied s index) index ≡ false)
      × ((i : ℕ) → i ≢ index → occupied_at (clear_occupied s index) i ≡ occupied_at s i)
clear_occupied-IsIndexed s index k =
    let n = s.occupancy_word_count * 64 in
    let best = best_without-BestOf s index k in
    rw (clear_occupied-unmarked s index) (
      record {
        covered = k.covered;
        bounded = k.bounded;
        beyond = unmarked-Clear s.occupancy index s.level_count n k.beyond;
        best = best;
      },
      unmarked_self s.occupancy index,
      unmarked_ne s.occupancy index,
    )
