-- ===== src/BookSide/Word/Scan.antt =====
-- include/BookSide.hpp: the lowest and the highest set bit of a word.
use eigen_book.Prelude.{
  ℕ, zero, suc, ◌+◌, ◌≤◌, ◌<◌, ◌≡◌, ◌⊎◌, inl, inr, Bool, true, false, arith, Bool-cases, ◌==◌,
  ==_iff,
}
use eigen_book.BookSide.Word.{
  Word, none_below, is_zero, scan_up, scan_down, lowest_set_bit, highest_set_bit,
}

-- No bit from `lo` on and below `hi` is set.
abbrev pub Clear : (ℕ → Bool) → ℕ → ℕ → Type 0
Clear a lo hi = (i : ℕ) → lo ≤ i → i < hi → a i ≡ false

pub Clear-first : (a : ℕ → Bool) (lo hi : ℕ) → a lo ≡ false → Clear a (suc lo) hi → Clear a lo hi
Clear-first a lo hi h c i l b = elim (Bool-cases (i == lo)) [
  | inl e ↦ rw ((==_iff i lo).0 e) h
  | inr e ↦ c i (ground arith) b
]

pub Clear-last : (a : ℕ → Bool) (lo hi : ℕ) → a hi ≡ false → Clear a lo hi → Clear a lo (suc hi)
Clear-last a lo hi h c i l b = elim (Bool-cases (i == hi)) [
  | inl e ↦ rw ((==_iff i hi).0 e) h
  | inr e ↦ c i l (ground arith)
]

pub Clear-none : (a : ℕ → Bool) (lo : ℕ) → Clear a lo lo
Clear-none a lo i l b = absurd (omega arith)

none_below-Clear : (a : Word) (n : ℕ) → none_below a n ≡ true → Clear a 0 n
unfolding none_below
none_below-Clear a zero h = Clear-none a 0
none_below-Clear a (suc n) h = Clear-last a 0 n (ground arith) (none_below-Clear a n (ground arith))

some_below : (a : Word) (n : ℕ) → none_below a n ≡ false → (i : ℕ) × (i < n) × (a i ≡ true)
unfolding none_below
some_below a zero h = absurd (ground arith)
some_below a (suc n) h = elim (Bool-cases (a n)) [
  | inl e ↦ (n, omega arith, e)
  | inr e ↦ let (i, b, o) = some_below a n (ground arith) in (i, omega arith, o)
]

scan_up-Clear :
    (a : Word) (bit n : ℕ)
    → let r = scan_up a bit n in
      (bit ≤ r) × Clear a bit r × ((r ≡ bit + n) ⊎ ((r < bit + n) × (a r ≡ true)))
unfolding scan_up
scan_up-Clear a bit zero = (omega arith, Clear-none a bit, inl (omega arith))
scan_up-Clear a bit (suc n) =
    let (l, c, o) = scan_up-Clear a (suc bit) n in
    elim (Bool-cases (a bit)) [
      | inl e ↦ rw (scan_up, e) (omega arith, Clear-none a bit, inr (omega arith, e))
      | inr e ↦
          rw (scan_up, e)
            (
              omega arith,
              Clear-first a bit (scan_up a (suc bit) n) e c,
              elim o [ inl d ↦ inl (omega arith) | inr d ↦ inr (omega (arith, d.0), d.1) ],
            )
    ]

scan_down-Clear :
    (a : Word) (n : ℕ)
    → let r = scan_down a n in Clear a (suc r) n × (Clear a 0 n ⊎ ((r < n) × (a r ≡ true)))
unfolding scan_down
scan_down-Clear a zero = ((λ i l b. absurd (omega arith)), inl (Clear-none a 0))
scan_down-Clear a (suc n) =
    let (c, o) = scan_down-Clear a n in
    elim (Bool-cases (a n)) [
      | inl e ↦ rw (scan_down, e) (Clear-none a (suc n), inr (omega arith, e))
      | inr e ↦
          rw (scan_down, e)
            (
              Clear-last a (suc (scan_down a n)) n e c,
              elim o [ inl d ↦ inl (Clear-last a 0 n e d) | inr d ↦ inr (omega (arith, d.0), d.1) ],
            )
    ]

pub is_zero-Clear : (a : Word) → is_zero a ≡ true → Clear a 0 64
unfolding is_zero
is_zero-Clear a h = none_below-Clear a 64 h

-- The lowest bit of a word that is not zero is set, and no lower one is.
pub lowest_set_bit-Clear :
    (a : Word)
    → is_zero a ≡ false
    → let r = lowest_set_bit a in (r < 64) × (a r ≡ true) × Clear a 0 r
unfolding is_zero lowest_set_bit
lowest_set_bit-Clear a h =
    let (l, c, o) = scan_up-Clear a 0 64 in
    let (i, b, some_bit) = some_below a 64 h in
    elim o [
      | inl e ↦ absurd (let clear = c i (omega arith) (omega arith) in ground arith)
      | inr e ↦ (omega (arith, e.0), e.1, c)
    ]

-- The highest bit of a word that is not zero is set, and no higher one is.
pub highest_set_bit-Clear :
    (a : Word)
    → is_zero a ≡ false
    → let r = highest_set_bit a in (r < 64) × (a r ≡ true) × Clear a (suc r) 64
unfolding is_zero highest_set_bit
highest_set_bit-Clear a h =
    let (c, o) = scan_down-Clear a 64 in
    let (i, b, some_bit) = some_below a 64 h in
    elim o [
      | inl e ↦ absurd (let clear = e i (omega arith) b in ground arith)
      | inr e ↦ (e.0, e.1, c)
    ]
