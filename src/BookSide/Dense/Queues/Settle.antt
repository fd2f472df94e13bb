-- ===== src/BookSide/Dense/Queues/Settle.antt =====
-- include/BookSide.hpp: a level is written and marked as its queue wants it.
use eigen_book.Prelude.{
  ℕ, ◌+◌, ◌<◌, ◌≡◌, ◌≢◌, refl, ap, ◌∙◌, Bool, true, false, not, List, [], ◌∷◌, All, All-map, update,
  update_self, update_ne, Bool-cases, inl, inr, if◌then◌else◌,
}
use eigen_book.PriceLevel.{PriceLevel, Store, empty}
use eigen_book.PriceLevel.Fifo.{Represents}
use eigen_book.PriceLevel.Frame.{Untouched}
use eigen_book.BookSide.Dense.{DenseBookSide, set_occupied, clear_occupied}
use eigen_book.BookSide.Dense.Orders.{with_level}
use eigen_book.BookSide.Dense.Best.{IsIndexed, occupied_at}
use eigen_book.BookSide.Dense.Marks.{
  set_occupied-IsIndexed, clear_occupied-IsIndexed, clear_occupied-unmarked,
}
use eigen_book.BookSide.Dense.Queues.{is_empty, IsAt, HoldsAt, SameRange, IsAt_same, Changes}

empty-is_empty :
    (store : Store) (self : ℕ) (level : PriceLevel) (queue : List ℕ)
    → Represents store self level queue
    → empty level ≡ is_empty queue
unfolding empty
empty-is_empty store self level [] r = rw r.head refl
empty-is_empty store self level (x ∷ queue) r = rw r.head refl

with_level-IsIndexed :
    (s : DenseBookSide) (i : ℕ) (level : PriceLevel)
    → IsIndexed s
    → IsIndexed (with_level s i level)
with_level-IsIndexed s i level k = record {
  covered = k.covered;
  bounded = k.bounded;
  beyond = k.beyond;
  best = k.best;
}

-- The side after a level has been written, marked as the queue wants it.
pub record Settles (s : DenseBookSide) (i : ℕ) (level : PriceLevel) (wanted : Bool)
    (s' : DenseBookSide) : Type 0 where
  pub range : SameRange s s'
  pub indexed : IsIndexed s'
  pub levels : s'.levels ≡ update s.levels i level
  pub mark : occupied_at s' i ≡ wanted
  pub marks : (j : ℕ) → j ≢ i → occupied_at s' j ≡ occupied_at s j

pub Settles-kept :
    (s : DenseBookSide) (i : ℕ) (level : PriceLevel)
    → IsIndexed s
    → Settles s i level (occupied_at s i) (with_level s i level)
Settles-kept s i level k = record {
  range = record {
    side = refl;
    min_price = refl;
    max_price = refl;
    tick_size = refl;
    level_count = refl;
    base = refl;
  };
  indexed = with_level-IsIndexed s i level k;
  levels = refl;
  mark = refl;
  marks = λ j h. refl;
}

Settles-set :
    (s : DenseBookSide) (i : ℕ) (level : PriceLevel)
    → IsIndexed s
    → i < s.level_count
    → Settles s i level true (set_occupied (with_level s i level) i)
unfolding set_occupied
Settles-set s i level k h =
    let (indexed, own, others) =
      set_occupied-IsIndexed (with_level s i level) i (with_level-IsIndexed s i level k) h in
    record {
      range = record {
        side = refl;
        min_price = refl;
        max_price = refl;
        tick_size = refl;
        level_count = refl;
        base = refl;
      };
      indexed = indexed;
      levels = refl;
      mark = own;
      marks = others;
    }

Settles-cleared :
    (s : DenseBookSide) (i : ℕ) (level : PriceLevel)
    → IsIndexed s
    → Settles s i level false (clear_occupied (with_level s i level) i)
Settles-cleared s i level k =
    let (indexed, own, others) =
      clear_occupied-IsIndexed (with_level s i level) i (with_level-IsIndexed s i level k) in
    let shape = clear_occupied-unmarked (with_level s i level) i in
    record {
      range = rw shape (record {
        side = refl;
        min_price = refl;
        max_price = refl;
        tick_size = refl;
        level_count = refl;
        base = refl;
      });
      indexed = indexed;
      levels = rw shape refl;
      mark = own;
      marks = others;
    }

pub Settles-Changes :
    (store : Store) (s : DenseBookSide) (queues : ℕ → List ℕ) (i : ℕ) (store' : Store)
    (level : PriceLevel) (s' : DenseBookSide) (queue : List ℕ)
    → Settles s i level (not (is_empty queue)) s'
    → Represents store' (s.base + i) level queue
    → All (λ p. IsAt s (store' p) i) queue
    → ((j : ℕ) → j ≢ i → j < s.level_count → Untouched store store' (queues j))
    → Changes store s queues i store' s' queue
Settles-Changes store s queues i store' level s' queue t r a u = record {
  range = t.range;
  indexed = t.indexed;
  holds = record {
    held = rw (t.range.base, t.levels, update_self s.levels i level) r;
    marked = t.mark;
    placed = All-map queue (λ p w. IsAt_same s s' (store' p) (store' p) i t.range refl refl w) a;
  };
  levels = λ j h. rw t.levels (update_ne s.levels i level j h);
  marks = t.marks;
  orders = u;
}

-- The mark that a level gets when an order joins it.
pub Settles-add :
    (store : Store) (s : DenseBookSide) (i : ℕ) (level : PriceLevel) (queue : List ℕ)
    → IsIndexed s
    → i < s.level_count
    → HoldsAt store s i queue
    → Settles s i level true
        (if empty (s.levels i) then set_occupied (with_level s i level) i else with_level s i level)
Settles-add store s i level queue k h own =
    let same = empty-is_empty store (s.base + i) (s.levels i) queue own.held in
    elim (Bool-cases (is_empty queue)) [
      | inl e ↦ rw (same, e) (Settles-set s i level k h)
      | inr e ↦
          let marked = own.marked ∙ ap not e in
          rw (same, e) (rw marked at (Settles-kept s i level k))
    ]

-- The mark that a level keeps or loses when an order has left it.
pub Settles-remove :
    (store store' : Store) (s : DenseBookSide) (i : ℕ) (level : PriceLevel) (queue rest : List ℕ)
    → IsIndexed s
    → HoldsAt store s i queue
    → is_empty queue ≡ false
    → Represents store' (s.base + i) level rest
    → Settles s i level
        (not (is_empty rest))
        (if empty level then clear_occupied (with_level s i level) i else with_level s i level)
Settles-remove store store' s i level queue rest k own some_order left =
    let same = empty-is_empty store' (s.base + i) level rest left in
    elim (Bool-cases (is_empty rest)) [
      | inl e ↦ rw (same, e) (Settles-cleared s i level k)
      | inr e ↦
          let marked = own.marked ∙ ap not some_order in
          rw (same, e) (rw marked at (Settles-kept s i level k))
    ]
