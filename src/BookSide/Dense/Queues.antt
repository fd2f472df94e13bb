-- ===== src/BookSide/Dense/Queues.antt =====
-- include/BookSide.hpp: a dense side holds a queue of orders at every price, and marks the levels whose
-- queue is not empty.
pub mod Settle
pub mod Change
pub mod Reduce
use eigen_book.Prelude.{
  ℕ, ◌+◌, ◌<◌, ◌≤◌, ◌≡◌, ◌≢◌, refl, sym, ap, ◌∙◌, Bool, true, false, not, Option, none, some, List,
  [], ◌∷◌, ◌==◌, ==_iff, All, All-map, update, u32_max, u64_max, ◌-◌, subst, update_self, update_ne,
  Bool-cases, inl, inr, arith,
}
use eigen_book.Prelude.Int.{ℤ}
use eigen_book.Order.{Order}
use eigen_book.PriceLevel.{PriceLevel, Store, reset}
use eigen_book.Types.Enums.{Side}
use eigen_book.PriceLevel.Fifo.{Represents}
use eigen_book.PriceLevel.Frame.{Untouched, Untouched-Represents}
use eigen_book.BookSide.Dense.{
  DenseBookSide, price_in_range, index_for_price, new, compute_level_count, price_at_index,
}
use eigen_book.BookSide.Dense.Orders.{same_side}
use eigen_book.BookSide.Dense.Best.{IsIndexed, occupied_at, new-IsIndexed}

abbrev pub is_empty : List ℕ → Bool
is_empty [] = true
is_empty (x ∷ xs) = false

-- The order belongs at level `i` of the side.
abbrev pub IsAt : DenseBookSide → Order → ℕ → Type 0
IsAt s order i =
    (same_side order.side s.side ≡ true)
    × (price_in_range s order.price ≡ true)
    × (index_for_price s order.price ≡ i)

-- Level `i` holds the orders of `queue`, oldest first, which belong there, and is marked just when
-- there are any.
pub record HoldsAt (store : Store) (s : DenseBookSide) (i : ℕ) (queue : List ℕ) : Type 0 where
  pub held : Represents store (s.base + i) (s.levels i) queue
  pub marked : occupied_at s i ≡ not (is_empty queue)
  pub placed : All (λ p. IsAt s (store p) i) queue

-- Every level holds its queue, and the best index is right.
pub record IsSide (store : Store) (s : DenseBookSide) (queues : ℕ → List ℕ) : Type 0 where
  pub indexed : IsIndexed s
  pub holds : (i : ℕ) → i < s.level_count → HoldsAt store s i (queues i)

pub All-zip {ℓ κ μ ν} :
    {A : Type ℓ} {P : A → Type κ} {Q : A → Type μ} {R : A → Type ν} (xs : List A)
    → ((x : A) → P x → Q x → R x)
    → All P xs
    → All Q xs
    → All R xs
All-zip [] f h k = tt
All-zip (x ∷ xs) f h k = (f x h.0 k.0, All-zip xs f h.1 k.1)

-- What no operation on orders changes.
pub record SameRange (s s' : DenseBookSide) : Type 0 where
  pub side : s'.side ≡ s.side
  pub min_price : s'.min_price ≡ s.min_price
  pub max_price : s'.max_price ≡ s.max_price
  pub tick_size : s'.tick_size ≡ s.tick_size
  pub level_count : s'.level_count ≡ s.level_count
  pub base : s'.base ≡ s.base

IsAt_same :
    (s s' : DenseBookSide) (o o' : Order) (i : ℕ)
    → SameRange s s'
    → o'.side ≡ o.side
    → o'.price ≡ o.price
    → IsAt s o i
    → IsAt s' o' i
unfolding price_in_range index_for_price
IsAt_same s s' o o' i f d e a = rw (d, e, f.side, f.min_price, f.max_price, f.tick_size) a

-- A change of level `i`: the queue it holds then, and nothing of the other levels.
pub record Changes (store : Store) (s : DenseBookSide) (queues : ℕ → List ℕ) (i : ℕ)
    (store' : Store) (s' : DenseBookSide) (queue : List ℕ) : Type 0 where
  pub range : SameRange s s'
  pub indexed : IsIndexed s'
  pub holds : HoldsAt store' s' i queue
  pub levels : (j : ℕ) → j ≢ i → s'.levels j ≡ s.levels j
  pub marks : (j : ℕ) → j ≢ i → occupied_at s' j ≡ occupied_at s j
  pub orders : (j : ℕ) → j ≢ i → j < s.level_count → Untouched store store' (queues j)

pub Untouched-HoldsAt :
    (store store' : Store) (s s' : DenseBookSide) (j : ℕ) (queue : List ℕ)
    → SameRange s s'
    → s'.levels j ≡ s.levels j
    → occupied_at s' j ≡ occupied_at s j
    → Untouched store store' queue
    → HoldsAt store s j queue
    → HoldsAt store' s' j queue
Untouched-HoldsAt store store' s s' j queue f l m u k = record {
  held =
      rw (f.base, l) (Untouched-Represents store store' (s.base + j) (s.levels j) queue u k.held);
  marked = m ∙ k.marked;
  placed =
      All-zip queue
        (λ p e a.
          IsAt_same s s' (store p) (store' p) j f (ap (λ (o : Order). o.side) e)
            (ap (λ (o : Order). o.price) e) a)
        u k.placed;
}

pub Changes-IsSide :
    (store : Store) (s : DenseBookSide) (queues : ℕ → List ℕ) (i : ℕ) (store' : Store)
    (s' : DenseBookSide) (queue : List ℕ)
    → IsSide store s queues
    → Changes store s queues i store' s' queue
    → IsSide store' s' (update queues i queue)
Changes-IsSide store s queues i store' s' queue k c = record {
  indexed = c.indexed;
  holds = λ j h. elim (Bool-cases (j == i)) [
    | inl e ↦
        subst (λ x. HoldsAt store' s' x (update queues i queue x)) (sym ((==_iff j i).0 e))
          (subst (HoldsAt store' s' i) (sym (update_self queues i queue)) c.holds)
    | inr e ↦
        let apart : j ≢ i = ground arith in
        let inside = rw c.range.level_count at h in
        subst (HoldsAt store' s' j) (sym (update_ne queues i queue j apart)) (
          Untouched-HoldsAt store store' s s' j (queues j) c.range (c.levels j apart)
            (c.marks j apart) (c.orders j apart inside) (k.holds j inside))
  ];
}

reset-Represents : (store : Store) (self : ℕ) (price : ℤ) → Represents store self (reset price) []
unfolding reset
reset-Represents store self price = record {
  links = tt;
  head = refl;
  tail = refl;
  total_quantity = refl;
  order_count = refl;
  distinct = tt;
  bounded = omega arith;
}

-- A new side with at most 2^32 - 64 levels holds an empty queue at every price.
pub new-IsSide :
    (store : Store) (base : ℕ) (side : Side) (min_price max_price tick_size : ℤ)
    → compute_level_count min_price max_price tick_size ≤ u32_max - 63
    → IsSide store (new base side min_price max_price tick_size) (λ i. [])
unfolding new
new-IsSide store base side min_price max_price tick_size h = record {
  indexed = (new-IsIndexed base side min_price max_price tick_size h).0;
  holds = λ i b. record {
    held = reset-Represents store (base + i) (price_at_index min_price tick_size i);
    marked = refl;
    placed = tt;
  };
}
