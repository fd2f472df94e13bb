-- ===== src/OrderBook/Cancelled.antt =====
-- include/OrderBook.hpp: two sides of a book in one memory, and cancel_order on them.
use eigen_book.Prelude.{
  ℕ, ◌+◌, ◌<◌, ◌≡◌, ◌≢◌, inl, inr, refl, ap, ◌∙◌, Bool, true, false, not, none, List, ◌∷◌, ◌++◌,
  All-map, update, update_ne, Bool-cases, ◌||◌, subst, if◌then◌else◌,
}
use eigen_book.Types.Enums.{Status, accepted, internal_error}
use eigen_book.Order.{Order, cleared}
use eigen_book.PriceLevel.{PriceLevel, Store, remove, empty, points_to}
use eigen_book.PriceLevel.Fifo.{unlinked-NotIn}
use eigen_book.PriceLevel.Frame.{Untouched, remove-Untouched}
use eigen_book.PriceLevel.Remove.{Removes, remove-Represents}
use eigen_book.BookSide.Dense.{DenseBookSide, index_for_price, price_in_range, clear_occupied}
use eigen_book.BookSide.Dense.Orders.{remove_order, same_side, with_level}
use eigen_book.BookSide.Dense.Marks.{clear_occupied-unmarked}
use eigen_book.BookSide.Dense.Match.Priority.{SameRange-refl}
use eigen_book.BookSide.Dense.Queues.{IsAt, IsSide, HoldsAt, SameRange, Untouched-HoldsAt}
use eigen_book.BookSide.Dense.Queues.Change.{remove_order-IsSide, own_address, All-without}

-- The levels of two sides have different addresses.
abbrev pub Disjoint : DenseBookSide → DenseBookSide → Type 0
Disjoint s s' = (i j : ℕ) → i < s.level_count → j < s'.level_count → s.base + i ≢ s'.base + j

-- A side whose orders are as they were still holds its queues.
pub Untouched-IsSide :
    (store store' : Store) (s : DenseBookSide) (queues : ℕ → List ℕ)
    → ((j : ℕ) → j < s.level_count → Untouched store store' (queues j))
    → IsSide store s queues
    → IsSide store' s queues
Untouched-IsSide store store' s queues u k = record {
  indexed = k.indexed;
  holds = λ j h.
      Untouched-HoldsAt store store' s s j (queues j)
        (record {
          side = refl;
          min_price = refl;
          max_price = refl;
          tick_size = refl;
          level_count = refl;
          base = refl;
        })
        refl refl (u j h) (k.holds j h);
}

-- A write to an order that belongs to no level.
pub unlinked-IsSide :
    (store : Store) (s : DenseBookSide) (queues : ℕ → List ℕ) (p : ℕ) (o : Order)
    → (store p).level ≡ none
    → IsSide store s queues
    → IsSide (update store p o) s queues
unlinked-IsSide store s queues p o e k =
    Untouched-IsSide store (update store p o) s queues
      (λ j h.
        let apart =
          unlinked-NotIn store (s.base + j) none (queues j) none p e (k.holds j h).held.links in
        All-map (queues j) (λ x d. update_ne store p o x d) apart)
      k

clear_occupied-SameRange : (s : DenseBookSide) (i : ℕ) → SameRange s (clear_occupied s i)
clear_occupied-SameRange s i = rw (clear_occupied-unmarked s i) (record {
  side = refl;
  min_price = refl;
  max_price = refl;
  tick_size = refl;
  level_count = refl;
  base = refl;
})

pub with_level-SameRange :
    (s : DenseBookSide) (i : ℕ) (level : PriceLevel) (s' : DenseBookSide)
    → SameRange (with_level s i level) s'
    → SameRange s s'
with_level-SameRange s i level s' f = record {
  side = f.side;
  min_price = f.min_price;
  max_price = f.max_price;
  tick_size = f.tick_size;
  level_count = f.level_count;
  base = f.base;
}

pub if_SameRange :
    (s : DenseBookSide) (b : Bool) (x y : Store × DenseBookSide × Status)
    → SameRange s x.1
    → SameRange s y.1
    → SameRange s (if b then x else y).1
if_SameRange s true x y f g = f
if_SameRange s false x y f g = g

-- Removing an order keeps the side's range, whatever it answers.
pub remove_order-SameRange :
    (store : Store) (s : DenseBookSide) (p : ℕ) → SameRange s (remove_order store s p).1
unfolding remove_order
remove_order-SameRange store s p =
    let order = store p in
    let index = index_for_price s order.price in
    let (store', level', removed) = remove store (s.base + index) (s.levels index) p in
    let s' = with_level s index level' in
    let kept = SameRange-refl s in
    let left : SameRange s (if empty level' then clear_occupied s' index else s') =
      elim (Bool-cases (empty level')) [
        | inl e ↦ rw e (
            with_level-SameRange s index level' (clear_occupied s' index)
              (clear_occupied-SameRange s' index))
        | inr e ↦ rw e (with_level-SameRange s index level' s' (SameRange-refl s'))
      ] in
    if_SameRange s (not (same_side order.side s.side) || not (price_in_range s order.price))
      (store, s, internal_error) _ kept
      (if_SameRange s (not (points_to order.level (s.base + index)) || not removed)
        (store, s, internal_error) _ kept left)

-- An order of the queue at its price leaves its side, and the other side is as it was.
module _ (store : Store) (mine other : DenseBookSide) (queues others : ℕ → List ℕ) (p : ℕ)
    (before after : List ℕ) (k : IsSide store mine queues) (l : IsSide store other others)
    (apart : Disjoint mine other) (inside : index_for_price mine (store p).price < mine.level_count)
    (e : queues (index_for_price mine (store p).price) ≡ before ++ p ∷ after) where
  abbrev i : ℕ
  i = index_for_price mine (store p).price

  own : HoldsAt store mine i (before ++ p ∷ after)
  own = subst (HoldsAt store mine i) e (k.holds i inside)

  abbrev left_store : Store
  left_store = (remove store (mine.base + i) (mine.levels i) p).0

  removes :
      Removes store
        (mine.base + i)
        (mine.levels i)
        (before ++ after)
        p
        (remove store (mine.base + i) (mine.levels i) p)
  removes = remove-Represents store (mine.base + i) (mine.levels i) before p after own.held

  -- The memory after remove_order is the one after the level's remove.
  remove_order-store : (remove_order store mine p).0 ≡ left_store
  unfolding remove_order
  remove_order-store =
      let here = (All-without (λ j. IsAt mine (store j) i) before p after own.placed).0 in
      let address = own_address store (mine.base + i) (mine.levels i) before p after own.held in
      rw (here.0, here.1, address, removes.succeeds) refl

  -- Removed and cleared, it is on neither side.
  pub remove_order-both :
      let (store', mine', status) = remove_order store mine p in
      let cleared_store = update store' p cleared in
      (status ≡ accepted)
      × IsSide cleared_store mine' (update queues i (before ++ after))
      × IsSide cleared_store other others
  remove_order-both =
      let (status, held) = remove_order-IsSide store mine queues p k before after inside e in
      let unlinked : ((remove_order store mine p).0 p).level ≡ none =
        ap (λ (s : Store). (s p).level) remove_order-store
        ∙ ap (λ (o : Order). o.level) removes.unlinked in
      let others_left : (j : ℕ)
          → j < other.level_count
          → Untouched store (remove_order store mine p).0 (others j) =
        λ j h. rw remove_order-store (
          remove-Untouched store (mine.base + i) (mine.levels i) before p after (other.base + j)
            (other.levels j) (others j) own.held (l.holds j h).held (apart i j inside h)) in
      let store' = (remove_order store mine p).0 in
      (
        status,
        unlinked-IsSide store' (remove_order store mine p).1 (update queues i (before ++ after)) p
            cleared unlinked held,
        unlinked-IsSide store' other others p cleared unlinked
            (Untouched-IsSide store store' other others others_left l),
      )
