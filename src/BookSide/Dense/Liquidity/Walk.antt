-- ===== src/BookSide/Dense/Liquidity/Walk.antt =====
-- include/BookSide.hpp: the walk over the occupied levels ends within as many steps as there are levels.
use eigen_book.Prelude.{
  ℕ, zero, suc, ◌+◌, ◌*◌, ◌≤◌, ◌<◌, ◌≡◌, ◌≢◌, ◌⊎◌, inl, inr, refl, ap, true, false, ◌∷◌, ltb, ◌==◌,
  ==_iff, arith, Bool-cases,
}
use eigen_book.Types.Enums.{is_buy, invalid_index}
use eigen_book.BookSide.Dense.{DenseBookSide, find_next_index_after}
use eigen_book.BookSide.Dense.Best.{occupied_at, IsIndexed, find_next_index_after-NextOf}
use eigen_book.BookSide.Dense.Liquidity.{walk_levels}

-- From `index` a walk ends within `steps`.
pub Enough : DenseBookSide → ℕ → ℕ → Type 0
Enough s index steps =
    (index ≡ invalid_index)
    ⊎ ((index < s.level_count)
        × (((is_buy s.side ≡ true) × (index < steps))
            ⊎ ((is_buy s.side ≡ false) × (s.level_count ≤ index + steps))))

-- A marked level is one of the side's.
marked-lt :
    (s : DenseBookSide) (i : ℕ)
    → IsIndexed s
    → i < s.occupancy_word_count * 64
    → occupied_at s i ≡ true
    → i < s.level_count
marked-lt s i k h o = elim (Bool-cases (ltb i s.level_count)) [
  | inl e ↦ ground arith
  | inr e ↦ let clear = k.beyond i (ground arith) h in absurd (ground arith)
]

pub next-Enough :
    (s : DenseBookSide) (index steps : ℕ)
    → IsIndexed s
    → index < s.level_count
    → Enough s index (suc steps)
    → Enough s (find_next_index_after s index) steps
unfolding Enough
next-Enough s index steps k h (inl e) =
    let covered = k.covered in let bounded = k.bounded in absurd (omega arith)
next-Enough s index steps k h (inr (b, room)) = elim (find_next_index_after-NextOf s index k h) [
  | inl (buy, inl (e, c)) ↦ inl e
  | inl (buy, inr (l, below, o, c)) ↦ elim room [
    | inl (buy', r) ↦ inr (omega (arith, below, h), inl (buy, omega (arith, below, r)))
    | inr (sell, r) ↦ absurd (ground arith)
  ]
  | inr (sell, inl (e, c)) ↦ inl e
  | inr (sell, inr (above, inside, o, c)) ↦ elim room [
    | inl (buy, r) ↦ absurd (ground arith)
    | inr (sell', r) ↦ inr (
      marked-lt s (find_next_index_after s index) k inside o,
      inr (sell, omega (arith, above, r)),
    )
  ]
]

Enough-zero : (s : DenseBookSide) (index : ℕ) → Enough s index 0 → index ≡ invalid_index
unfolding Enough
Enough-zero s index (inl e) = e
Enough-zero s index (inr (h, inl (b, r))) = absurd (omega arith)
Enough-zero s index (inr (h, inr (b, r))) = absurd (omega arith)

pub Enough-lt :
    (s : DenseBookSide) (index steps : ℕ)
    → Enough s index steps
    → index ≢ invalid_index
    → index < s.level_count
unfolding Enough
Enough-lt s index steps (inl e) d = absurd (d e)
Enough-lt s index steps (inr m) d = m.0

walk_levels-Enough :
    (s : DenseBookSide) (index a b : ℕ)
    → IsIndexed s
    → Enough s index a
    → Enough s index b
    → walk_levels s index a ≡ walk_levels s index b
unfolding walk_levels Enough
walk_levels-Enough s index zero zero k m n = refl
walk_levels-Enough s index zero (suc b) k m n =
    let over : (index == invalid_index) ≡ true =
      (==_iff index invalid_index).1 (Enough-zero s index m) in
    rw (walk_levels, over) refl
walk_levels-Enough s index (suc a) zero k m n =
    let over : (index == invalid_index) ≡ true =
      (==_iff index invalid_index).1 (Enough-zero s index n) in
    rw (walk_levels, over) refl
walk_levels-Enough s index (suc a) (suc b) k m n = elim (Bool-cases (index == invalid_index)) [
  | inl e ↦ rw (walk_levels, e) refl
  | inr e ↦
      let h = Enough-lt s index (suc a) m (ground arith) in
      let rest =
        walk_levels-Enough s (find_next_index_after s index) a b k (next-Enough s index a k h m)
          (next-Enough s index b k h n) in
      rw (walk_levels, e) (ap (◌∷◌ (s.levels index)) rest)
]

pub best-Enough :
    (s : DenseBookSide) → IsIndexed s → (n : ℕ) → s.level_count ≤ n → Enough s s.best_index n
unfolding Enough
best-Enough s k n h = elim k.best [
  | inl (buy, inl (e, c)) ↦ inl e
  | inl (buy, inr (l, b, o, c)) ↦
      let inside = marked-lt s s.best_index k b o in inr (inside, inl (buy, omega (arith, inside)))
  | inr (sell, inl (e, c)) ↦ inl e
  | inr (sell, inr (l, b, o, c)) ↦ inr (marked-lt s s.best_index k b o, inr (sell, omega arith))
]

-- On a well-formed side the walk from the best level is over within `level_count` steps: with more it
-- visits the same levels.
pub walk_levels_complete :
    (s : DenseBookSide) (n : ℕ)
    → IsIndexed s
    → s.level_count ≤ n
    → walk_levels s s.best_index n ≡ walk_levels s s.best_index s.level_count
walk_levels_complete s n k h =
    walk_levels-Enough s s.best_index n s.level_count k (best-Enough s k n h)
      (best-Enough s k s.level_count (omega arith))
