-- ===== src/OrderBook/Queued.antt =====
-- include/OrderBook.hpp: a book holds queues of orders on both sides, and cancel_order takes an order out.
use eigen_book.Prelude.{
  ℕ, ◌<◌, ◌≡◌, refl, Bool, true, false, not, Option, List, ◌∷◌, ◌++◌, All, update, ◌&&◌, Bool-cases,
  inl, inr, arith, subst, if◌then◌else◌,
}
use eigen_book.Types.Enums.{Side, accepted, cancelled, is_buy}
use eigen_book.Types.Results.{CancelResult}
use eigen_book.OrderIdMap.Erase.{find_for_erase}
use eigen_book.OrderIdMap.{OrderIdMap}
use eigen_book.EventLog
use eigen_book.MarketData
use eigen_book.MarketData.{enabled}
use eigen_book.BookSide.Dense.{DenseBookSide, index_for_price}
use eigen_book.BookSide.Dense.Orders.{same_side}
use eigen_book.BookSide.Dense.Queues.{IsAt, IsSide}
use eigen_book.BookSide.Dense.Queues.Change.{All-without}
use eigen_book.BookSide.Dense.Match.{orders_of}
use eigen_book.OrderBook.{OrderBook, begin_operation, start_operation}
use eigen_book.OrderBook.Capacity.{required_single_level_market_data_count}
use eigen_book.OrderBook.Cancel.{map_address}
use eigen_book.OrderBook.Cancelled.{Disjoint}
use eigen_book.OrderBook.Refused.{SameBook}

-- The bids, for true, and the asks.
abbrev pub side_of : OrderBook → Bool → DenseBookSide
side_of book b = if b then book.bids else book.asks

abbrev side_name : Bool → Side
side_name b = if b then Side.buy else Side.sell

-- Both sides hold queues of orders, the bids those for true, in one memory and on levels of their own.
pub record IsBook (book : OrderBook) (queues : Bool → ℕ → List ℕ) : Type 0 where
  pub sides : (b : Bool) → IsSide (orders_of book.orders) (side_of book b) (queues b)
  pub names : (b : Bool) → (side_of book b).side ≡ side_name b
  pub apart : Disjoint book.bids book.asks

pub IsBook-of :
    (book : OrderBook) (queues : Bool → ℕ → List ℕ)
    → IsSide (orders_of book.orders) book.bids (queues true)
    → IsSide (orders_of book.orders) book.asks (queues false)
    → book.bids.side ≡ Side.buy
    → book.asks.side ≡ Side.sell
    → Disjoint book.bids book.asks
    → IsBook book queues
IsBook-of book queues bids asks buys sells apart = record {
  sides = sides;
  names = names;
  apart = apart;
}
  where
    sides : (b : Bool) → IsSide (orders_of book.orders) (side_of book b) (queues b)
    sides true = bids
    sides false = asks

    names : (b : Bool) → (side_of book b).side ≡ side_name b
    names true = buys
    names false = sells

-- Another queue at index `i` of one of the sides.
abbrev pub changed : (Bool → ℕ → List ℕ) → Bool → ℕ → List ℕ → Bool → ℕ → List ℕ
changed queues true i queue true = update (queues true) i queue
changed queues true i queue false = queues false
changed queues false i queue true = queues true
changed queues false i queue false = update (queues false) i queue

pub SameBook-IsBook :
    (book book' : OrderBook) (queues : Bool → ℕ → List ℕ)
    → SameBook book book'
    → IsBook book queues
    → IsBook book' queues
SameBook-IsBook book book' queues f k = record {
  sides = λ b. rw (f.orders, f.bids, f.asks) (k.sides b);
  names = λ b. rw (f.bids, f.asks) (k.names b);
  apart = rw (f.bids, f.asks) k.apart;
}

-- An order that belongs on a side is for that side.
same_side-is_buy : (b : Bool) (s : Side) → same_side s (side_name b) ≡ true → is_buy s ≡ b
same_side-is_buy true Side.buy e = refl
same_side-is_buy true Side.sell e = absurd (ground arith)
same_side-is_buy true (Side.raw n) e = absurd (ground arith)
same_side-is_buy false Side.buy e = absurd (ground arith)
same_side-is_buy false Side.sell e = refl
same_side-is_buy false (Side.raw n) e = absurd (ground arith)

-- Where an order rests: on which side, and in which queue behind which orders and ahead of which.
pub record RestsAt (book : OrderBook) (queues : Bool → ℕ → List ℕ) (p : ℕ) (b : Bool)
    (before after : List ℕ) : Type 0 where
  pub inside :
      index_for_price (side_of book b) (orders_of book.orders p).price
      < (side_of book b).level_count
  pub queued :
      queues b (index_for_price (side_of book b) (orders_of book.orders p).price)
      ≡ before ++ p ∷ after

pub own_side :
    (book : OrderBook) (queues : Bool → ℕ → List ℕ) (p : ℕ) (b : Bool) (before after : List ℕ)
    → IsBook book queues
    → RestsAt book queues p b before after
    → is_buy (orders_of book.orders p).side ≡ b
own_side book queues p b before after k r =
    let store = orders_of book.orders in
    let s = side_of book b in
    let i = index_for_price s (store p).price in
    let placed =
      subst (All (λ j. IsAt s (store j) i)) r.queued ((k.sides b).holds i r.inside).placed in
    let here = (All-without (λ j. IsAt s (store j) i) before p after placed).0 in
    same_side-is_buy b (store p).side (rw (k.names b) at here.0)

-- The two results of a cancellation, as the book's queues see them.
abbrev pub Cancels :
    OrderBook → (Bool → ℕ → List ℕ) → ℕ → Bool → List ℕ → OrderBook × CancelResult → Type 0
Cancels book queues p b rest r =
    (r.1.status ≡ cancelled)
    × (r.1.canceled_quantity ≡ (orders_of book.orders p).quantity)
    × IsBook r.0
        (changed queues b (index_for_price (side_of book b) (orders_of book.orders p).price) rest)

-- The book with another id map.
abbrev pub with_ids : OrderBook → OrderIdMap → OrderBook
with_ids book ids = record book { order_ids = ids }

pub start_operation-ids :
    (book : OrderBook) (ids : OrderIdMap) (events told : ℕ)
    → (start_operation (with_ids book ids) events told).1 ≡ (start_operation book events told).1
unfolding start_operation
start_operation-ids book ids events told =
    elim (Bool-cases (EventLog.can_record book.event_log events)) [
      | inl room ↦
          elim (Bool-cases
            (enabled book.market_data && not (MarketData.can_record book.market_data told))) [
              | inl e ↦ rw (room, e) refl
              | inr e ↦ rw (room, e) refl
            ]
      | inr full ↦ rw full refl
    ]

-- The order that the id map finds for an id.
abbrev pub found_order : OrderBook → ℕ → Option ℕ
found_order book id = (find_for_erase map_address book.order_ids id).0.order

-- Both logs have room for the events of one changed level.
abbrev pub HasRoom : OrderBook → Type 0
HasRoom book =
    let opened = begin_operation book in
    (start_operation opened 1
      (required_single_level_market_data_count (enabled opened.market_data))).1
    ≡ accepted
