-- ===== src/BookSide/Dense/Search.antt =====
-- include/BookSide.hpp: the searches over the occupancy words of DenseBookSide.
use eigen_book.Prelude.{
  ℕ, zero, suc, ◌+◌, ◌*◌, ◌/◌, ◌%◌, ◌≤◌, ◌<◌, ◌≡◌, ◌⊎◌, inl, inr, refl, sym, ◌∙◌, Bool, true, false,
  leb, arith, Bool-cases, ltb,
}
use eigen_book.Types.Enums.{invalid_index}
use eigen_book.BookSide.Word.{Word, is_zero, lowest_set_bit, highest_set_bit}
use eigen_book.BookSide.Word.Scan.{
  Clear, Clear-none, is_zero-Clear, lowest_set_bit-Clear, highest_set_bit-Clear,
}
use eigen_book.BookSide.Dense.{highest_from, lowest_from}

-- The bit of level `i`.
abbrev pub bit_at : (ℕ → Word) → ℕ → Bool
bit_at words i = words (i / 64) (i % 64)

-- `r` is the highest, or the lowest, set bit from `lo` on and below `hi`, or kInvalidIndex where none is.
abbrev pub HighestIn : (ℕ → Word) → ℕ → ℕ → ℕ → Type 0
HighestIn words lo hi r =
    ((r ≡ invalid_index) × Clear (bit_at words) lo hi)
    ⊎ ((lo ≤ r) × (r < hi) × (bit_at words r ≡ true) × Clear (bit_at words) (suc r) hi)

abbrev pub LowestIn : (ℕ → Word) → ℕ → ℕ → ℕ → Type 0
LowestIn words lo hi r =
    ((r ≡ invalid_index) × Clear (bit_at words) lo hi)
    ⊎ ((lo ≤ r) × (r < hi) × (bit_at words r ≡ true) × Clear (bit_at words) lo r)

pub Clear-join : (a : ℕ → Bool) (lo mid hi : ℕ) → Clear a lo mid → Clear a mid hi → Clear a lo hi
Clear-join a lo mid hi c d i l b = elim (Bool-cases (leb mid i)) [
  | inl e ↦ d i (ground arith) b
  | inr e ↦ c i l (ground arith)
]

-- Bits of a word are bits of the levels that it stands for.
bit_at-word : (words : ℕ → Word) (w b : ℕ) → b < 64 → bit_at words (w * 64 + b) ≡ words w b
bit_at-word words w b h =
    let high : (w * 64 + b) / 64 ≡ w = omega arith in
    let low : (w * 64 + b) % 64 ≡ b = omega arith in rw (high, low) refl

Clear-word :
    (words : ℕ → Word) (w lo hi : ℕ)
    → hi ≤ 64
    → Clear (words w) lo hi
    → Clear (bit_at words) (w * 64 + lo) (w * 64 + hi)
Clear-word words w lo hi h c i l b =
    let high : i / 64 ≡ w = omega arith in rw high (c (i % 64) (omega arith) (omega arith))

-- A search goes on past a clear stretch at its beginning.
pub HighestIn-extend :
    (words : ℕ → Word) (lo mid hi r : ℕ)
    → mid ≤ hi
    → Clear (bit_at words) mid hi
    → HighestIn words lo mid r
    → HighestIn words lo hi r
HighestIn-extend words lo mid hi r h c (inl (e, d)) =
    inl (e, Clear-join (bit_at words) lo mid hi d c)
HighestIn-extend words lo mid hi r h c (inr (l, b, o, d)) =
    inr (l, omega arith, o, Clear-join (bit_at words) (suc r) mid hi d c)

pub LowestIn-extend :
    (words : ℕ → Word) (lo mid hi r : ℕ)
    → lo ≤ mid
    → Clear (bit_at words) lo mid
    → LowestIn words mid hi r
    → LowestIn words lo hi r
LowestIn-extend words lo mid hi r h c (inl (e, d)) =
    inl (e, Clear-join (bit_at words) lo mid hi c d)
LowestIn-extend words lo mid hi r h c (inr (l, b, o, d)) =
    inr (omega arith, b, o, Clear-join (bit_at words) lo mid r c d)

-- `a` is word `w` up to bit `m`, or from it on.
abbrev pub LowPart : (ℕ → Word) → ℕ → Word → ℕ → Type 0
LowPart words w a m = (m ≤ 64) × Clear a m 64 × ((b : ℕ) → b < m → a b ≡ words w b)

abbrev pub HighPart : (ℕ → Word) → ℕ → Word → ℕ → Type 0
HighPart words w a m = (m ≤ 64) × Clear a 0 m × ((b : ℕ) → m ≤ b → b < 64 → a b ≡ words w b)

pub LowPart-Clear :
    (words : ℕ → Word) (w : ℕ) (a : Word) (m b : ℕ)
    → LowPart words w a m
    → Clear a b 64
    → Clear (bit_at words) (w * 64 + b) (w * 64 + m)
LowPart-Clear words w a m b (small, above, same) c =
    Clear-word words w b m small (λ i l h. sym (same i h) ∙ c i l (omega arith))

pub HighPart-Clear :
    (words : ℕ → Word) (w : ℕ) (a : Word) (m b : ℕ)
    → HighPart words w a m
    → b ≤ 64
    → Clear a 0 b
    → Clear (bit_at words) (w * 64 + m) (w * 64 + b)
HighPart-Clear words w a m b (small, below, same) h c =
    Clear-word words w m b h (λ i l k. sym (same i l (omega arith)) ∙ c i (omega arith) k)

-- Where the part has a set bit, that is what the search answers.
pub LowPart-HighestIn :
    (words : ℕ → Word) (w : ℕ) (a : Word) (m : ℕ)
    → LowPart words w a m
    → is_zero a ≡ false
    → HighestIn words 0 (w * 64 + m) (w * 64 + highest_set_bit a)
LowPart-HighestIn words w a m (small, above, same) e =
    let (b, set, higher) = highest_set_bit-Clear a e in
    let r = highest_set_bit a in
    elim (Bool-cases (ltb r m)) [
      | inl h ↦
          let inside : r < m = ground arith in
          let rest = LowPart-Clear words w a m (suc r) (small, above, same) higher in
          let start : w * 64 + suc r ≡ suc (w * 64 + r) = omega arith in
          inr (
            omega arith,
            omega arith,
            bit_at-word words w r b ∙ sym (same r inside) ∙ set,
            rw start at rest,
          )
      | inr h ↦ let wrong = above r (ground arith) b in absurd (ground arith)
    ]

pub HighPart-LowestIn :
    (words : ℕ → Word) (w : ℕ) (a : Word) (m hi : ℕ)
    → HighPart words w a m
    → suc w * 64 ≤ hi
    → is_zero a ≡ false
    → LowestIn words (w * 64 + m) hi (w * 64 + lowest_set_bit a)
HighPart-LowestIn words w a m hi (small, below, same) k e =
    let (b, set, lower) = lowest_set_bit-Clear a e in
    let r = lowest_set_bit a in
    elim (Bool-cases (leb m r)) [
      | inl h ↦
          let inside : m ≤ r = ground arith in
          let rest = HighPart-Clear words w a m r (small, below, same) (omega arith) lower in
          inr
            (omega arith, omega arith, bit_at-word words w r b ∙ sym (same r inside b) ∙ set, rest)
      | inr h ↦ let wrong = below r (omega arith) (ground arith) in absurd (ground arith)
    ]

-- The search down over the words below `n` answers the highest level there.
pub highest_from-HighestIn :
    (words : ℕ → Word) (n : ℕ) → HighestIn words 0 (n * 64) (highest_from words n)
unfolding highest_from
highest_from-HighestIn words zero = inl (refl, λ i l b. absurd (omega arith))
highest_from-HighestIn words (suc n) =
    let part : LowPart words n (words n) 64 = (omega arith, Clear-none (words n) 64, λ b h. refl) in
    let end : n * 64 + 64 ≡ suc n * 64 = omega arith in
    elim (Bool-cases (is_zero (words n))) [
      | inl e ↦
          let here = LowPart-Clear words n (words n) 64 0 part (is_zero-Clear (words n) e) in
          let start : n * 64 + 0 ≡ n * 64 = omega arith in
          rw (highest_from, e)
            (HighestIn-extend words 0 (n * 64) (suc n * 64) (highest_from words n) (omega arith)
              (rw (start, end) at here) (highest_from-HighestIn words n))
      | inr e ↦ rw (highest_from, e, ← end) (LowPart-HighestIn words n (words n) 64 part e)
    ]

-- The search up over the `n` words from `word` on answers the lowest level there.
pub lowest_from-LowestIn :
    (words : ℕ → Word) (word n : ℕ)
    → LowestIn words (word * 64) ((word + n) * 64) (lowest_from words word n)
unfolding lowest_from
lowest_from-LowestIn words word zero = inl (refl, λ i l b. absurd (omega arith))
lowest_from-LowestIn words word (suc n) =
    let part : HighPart words word (words word) 0 =
      (omega arith, Clear-none (words word) 0, λ b l h. refl) in
    let start : word * 64 + 0 ≡ word * 64 = omega arith in
    elim (Bool-cases (is_zero (words word))) [
      | inl e ↦
          let here =
            HighPart-Clear words word (words word) 0 64 part (omega arith)
              (is_zero-Clear (words word) e) in
          let next : word * 64 + 64 ≡ suc word * 64 = omega arith in
          let end : (suc word + n) * 64 ≡ (word + suc n) * 64 = omega arith in
          let later = rw end at (lowest_from-LowestIn words (suc word) n) in
          rw (lowest_from, e)
            (LowestIn-extend words (word * 64) (suc word * 64) ((word + suc n) * 64)
              (lowest_from words (suc word) n) (omega arith) (rw (start, next) at here) later)
      | inr e ↦
          let found =
            HighPart-LowestIn words word (words word) 0 ((word + suc n) * 64) part (omega arith)
              e in
          rw (lowest_from, e) (rw start at found)
    ]
