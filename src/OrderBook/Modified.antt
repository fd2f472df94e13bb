-- ===== src/OrderBook/Modified.antt =====
-- include/OrderBook.hpp: modify_order on a book of queues.
use eigen_book.Prelude.{
  ℕ, ◌+◌, ◌≤◌, ◌<◌, ◌≡◌, refl, sym, ap, ◌∙◌, Bool, true, false, not, ◌&&◌, ◌||◌, none, some, List,
  ◌∷◌, ◌++◌, ◌==◌, ltb, min, update, update_self, Bool-cases, inl, inr, arith, subst, if◌then◌else◌,
}
use eigen_book.Types.Enums.{accepted, quantity_increase_rejected}
use eigen_book.Types.Results.{ModifyResult, no_modify}
use eigen_book.Order.{Order}
use eigen_book.PriceLevel.{Store, set_quantity_keep_priority}
use eigen_book.PriceLevel.Segment.{Links-split}
use eigen_book.PriceLevel.Frame.{update-Untouched}
use eigen_book.MemoryPool.{MemoryPool}
use eigen_book.OrderIdMap.{find}
use eigen_book.EventLog
use eigen_book.MarketData
use eigen_book.MarketData.{enabled}
use eigen_book.BookSide.Dense.{DenseBookSide, index_for_price, price_in_range}
use eigen_book.BookSide.Dense.Orders.{reduce_order, same_side, with_level}
use eigen_book.BookSide.Dense.Queues.{IsSide, HoldsAt, SameRange}
use eigen_book.BookSide.Dense.Queues.Reduce.{reduce_order-IsSide}
use eigen_book.BookSide.Dense.Match.{orders_of}
use eigen_book.BookSide.Dense.Match.Priority.{SameRange-refl}
use eigen_book.OrderBook.{
  OrderBook, begin_operation, start_operation, append_event, valid_lot_quantity,
}
use eigen_book.OrderBook.Capacity.{required_single_level_market_data_count}
use eigen_book.OrderBook.Modify.{reduce_resting, modify_found, modify_order}
use eigen_book.OrderBook.Cancelled.{Disjoint, Untouched-IsSide, with_level-SameRange, if_SameRange}
use eigen_book.OrderBook.Refused.{start_operation-SameBook}
use eigen_book.OrderBook.Queued.{
  IsBook, IsBook-of, RestsAt, HasRoom, own_side, SameBook-IsBook, with_ids, start_operation-ids,
}

reduce_order-SameRange :
    (store : Store) (s : DenseBookSide) (p n : ℕ) → SameRange s (reduce_order store s p n).1
unfolding reduce_order
reduce_order-SameRange store s p n =
    let order = store p in
    let index = index_for_price s order.price in
    let reduced = set_quantity_keep_priority store (s.base + index) (s.levels index) p n in
    let s' = with_level s index reduced.1 in
    if_SameRange s (not (same_side order.side s.side) || not (price_in_range s order.price)) _ _
      (SameRange-refl s) (with_level-SameRange s index reduced.1 s' (SameRange-refl s'))

-- An order of the queue at its price is reduced on its side, and the other side is as it was.
reduce_order-both :
    (store : Store) (mine other : DenseBookSide) (queues others : ℕ → List ℕ) (p n : ℕ)
    (before after : List ℕ)
    → IsSide store mine queues
    → IsSide store other others
    → Disjoint mine other
    → index_for_price mine (store p).price < mine.level_count
    → queues (index_for_price mine (store p).price) ≡ before ++ p ∷ after
    → 0 < n
    → n ≤ (store p).quantity
    → let (store', mine', status) = reduce_order store mine p n in
      (status ≡ accepted)
      × (store' ≡ update store p (record (store p) { quantity = n }))
      × IsSide store' mine' queues
      × IsSide store' other others
reduce_order-both store mine other queues others p n before after k l apart inside e low high =
    let i = index_for_price mine (store p).price in
    let (status, written, held) =
      reduce_order-IsSide store mine queues p n before after k inside e low high in
    let own : HoldsAt store mine i (before ++ p ∷ after) =
      subst (HoldsAt store mine i) e (k.holds i inside) in
    let address =
      (Links-split store (mine.base + i) none before (p ∷ after) none own.held.links).1.2 in
    let reduced : Order = record (store p) { quantity = n } in
    let kept : IsSide (update store p reduced) other others =
      Untouched-IsSide store (update store p reduced) other others
        (λ j h.
          update-Untouched store (mine.base + i) p reduced (other.base + j) (other.levels j)
            (others j) address (l.holds j h).held (apart i j inside h))
        l in
    (status, written, held, rw written kept)

-- What a modification answers and leaves: the book holds the same queues.
abbrev pub Modifies : OrderBook → (Bool → ℕ → List ℕ) → ℕ → ℕ → OrderBook × ModifyResult → Type 0
Modifies book queues p n r =
    let q = (orders_of book.orders p).quantity in
    IsBook r.0 queues
    × (r.1.status ≡ (if ltb q n then quantity_increase_rejected else accepted))
    × (r.1.old_quantity ≡ q)
    × (r.1.new_quantity ≡ n)
    × ((orders_of r.0.orders p).quantity ≡ min q n)

module _ (book : OrderBook) (queues : Bool → ℕ → List ℕ) (p id n timestamp : ℕ)
    (before after : List ℕ) (result : ModifyResult) (k : IsBook book queues) (low : 0 < n)
    (less : n < (orders_of book.orders p).quantity) where
  abbrev Reduces : OrderBook × ModifyResult → Type 0
  Reduces r =
      IsBook r.0 queues
      × (r.1.status ≡ accepted)
      × (r.1.old_quantity ≡ result.old_quantity)
      × (r.1.new_quantity ≡ result.new_quantity)
      × ((orders_of r.0.orders p).quantity ≡ n)

  reduce_resting-Reduces :
      (b : Bool)
      → RestsAt book queues p b before after
      → Reduces (reduce_resting book p id n timestamp result)
  unfolding reduce_resting append_event
  reduce_resting-Reduces true r =
      let side = own_side book queues p true before after k r in
      let store = orders_of book.orders in
      let (status, written, mine, other) =
        reduce_order-both store book.bids book.asks (queues true) (queues false) p n before after
          (k.sides true) (k.sides false) k.apart r.inside r.queued low (omega (arith, less)) in
      let range = reduce_order-SameRange store book.bids p n in
      let first : ((reduce_order store book.bids p n).0 p).quantity ≡ n =
        ap (λ (s : Store). (s p).quantity) written
        ∙ ap (λ (o : Order). o.quantity)
            (update_self store p (record (store p) { quantity = n })) in
      rw (side, status)
        (
          IsBook-of _ queues mine other (range.side ∙ k.names true) (k.names false)
              (λ i j h l. rw range.base (k.apart i j (omega (arith, h, range.level_count)) l)),
          refl,
          refl,
          refl,
          first,
        )
  reduce_resting-Reduces false r =
      let side = own_side book queues p false before after k r in
      let store = orders_of book.orders in
      let (status, written, mine, other) =
        reduce_order-both store book.asks book.bids (queues false) (queues true) p n before after
          (k.sides false) (k.sides true) (λ i j h l e. k.apart j i l h (sym e)) r.inside r.queued
          low (omega (arith, less)) in
      let range = reduce_order-SameRange store book.asks p n in
      let first : ((reduce_order store book.asks p n).0 p).quantity ≡ n =
        ap (λ (s : Store). (s p).quantity) written
        ∙ ap (λ (o : Order). o.quantity)
            (update_self store p (record (store p) { quantity = n })) in
      rw (side, status)
        (
          IsBook-of _ queues other mine (k.names true) (range.side ∙ k.names false)
              (λ i j h l. rw range.base (k.apart i j h (omega (arith, l, range.level_count)))),
          refl,
          refl,
          refl,
          first,
        )

appended-IsBook :
    (book : OrderBook) (queues : Bool → ℕ → List ℕ) (entry : EventLog.OrderEntry)
    → IsBook book queues
    → IsBook (append_event book entry) queues
unfolding append_event
appended-IsBook book queues entry k = record { sides = k.sides; names = k.names; apart = k.apart }

abbrev needed_for : OrderBook → ℕ → ℕ → ℕ
needed_for book n q =
    if ltb n q then required_single_level_market_data_count (enabled book.market_data) else 0

modify_found-Modifies :
    (book : OrderBook) (queues : Bool → ℕ → List ℕ) (p id n timestamp : ℕ) (b : Bool)
    (before after : List ℕ)
    → IsBook book queues
    → RestsAt book queues p b before after
    → 0 < n
    → (start_operation book 1 (needed_for book n (orders_of book.orders p).quantity)).1 ≡ accepted
    → Modifies book queues p n (modify_found book p id n timestamp)
unfolding modify_found append_event
modify_found-Modifies book queues p id n timestamp b before after k r low room =
    let q = (orders_of book.orders p).quantity in
    let needed = needed_for book n q in
    let started = (start_operation book 1 needed).0 in
    let f = start_operation-SameBook book 1 needed in
    let k' = SameBook-IsBook book started queues f k in
    let same : (orders_of started.orders p).quantity ≡ q =
      ap (λ (o : MemoryPool Order). (orders_of o p).quantity) f.orders in
    elim (Bool-cases (n == q)) [
      | inl e ↦
          let no_more : ltb q n ≡ false = ground arith in
          let as_much : q ≡ min q n = ground arith in
          rw (modify_found, room, e, no_more)
            (appended-IsBook started queues _ k', refl, refl, refl, same ∙ as_much)
      | inr e ↦ elim (Bool-cases (ltb q n)) [
        | inl more ↦
            let as_much : q ≡ min q n = ground arith in
            rw (modify_found, room, e, more)
              (appended-IsBook started queues _ k', refl, refl, refl, same ∙ as_much)
        | inr less ↦
            let here : RestsAt started queues p b before after = record {
              inside = rw (f.orders, f.bids, f.asks) r.inside;
              queued = rw (f.orders, f.bids, f.asks) r.queued;
            } in
            let reported : ModifyResult = record no_modify { old_quantity = q; new_quantity = n } in
            let reduced =
              reduce_resting-Reduces started queues p id n timestamp before after reported k' low
                (rw same (ground arith)) b here in
            let least : n ≡ min q n = ground arith in
            rw (modify_found, room, e, less)
              (reduced.0, reduced.1, reduced.2, reduced.3, reduced.4 ∙ least)
      ]
    ]

-- There is always room for no event.
can_record_none :
    (log : MarketData.MarketDataLog) → (enabled log && not (MarketData.can_record log 0)) ≡ false
unfolding MarketData.can_record
can_record_none log = elim (Bool-cases (enabled log)) [ inl e ↦ rw e refl | inr e ↦ rw e refl ]

-- Room for the events of a changed level is room for fewer.
room_for_less :
    (book : OrderBook) (n q : ℕ)
    → (start_operation book 1
        (required_single_level_market_data_count (enabled book.market_data))).1
      ≡ accepted
    → (start_operation book 1 (needed_for book n q)).1 ≡ accepted
unfolding start_operation
room_for_less book n q room = elim (Bool-cases (ltb n q)) [
  | inl e ↦ rw e room
  | inr e ↦ elim (Bool-cases (EventLog.can_record book.event_log 1)) [
    | inl fits ↦ rw (e, fits, can_record_none book.market_data) refl
    | inr full ↦ absurd (ground (arith, rw full at room))
  ]
]

lots_positive : (book : OrderBook) (n : ℕ) → valid_lot_quantity book n ≡ true → 0 < n
unfolding valid_lot_quantity
lots_positive book n e = elim (Bool-cases (n == 0)) [
  | inl z ↦ absurd (ground (arith, e, z))
  | inr z ↦ ground arith
]

-- On a book of queues, modifying an order that the id map finds in one of them, to a quantity of whole lots,
-- with room in both logs: more than it has is refused and changes nothing; otherwise it keeps its place
-- with the quantity asked for. The book holds the same queues.
pub modify_order-Modifies :
    (book : OrderBook) (queues : Bool → ℕ → List ℕ) (id n timestamp p : ℕ) (b : Bool)
    (before after : List ℕ)
    → IsBook book queues
    → RestsAt book queues p b before after
    → (find book.order_ids id).0 ≡ some p
    → valid_lot_quantity book n ≡ true
    → HasRoom book
    → Modifies book queues p n (modify_order book id n timestamp)
unfolding modify_order begin_operation
modify_order-Modifies book queues id n timestamp p b before after k r found lots room =
    let opened = begin_operation book in
    let looked = (find book.order_ids id).1 in
    let k' : IsBook (with_ids opened looked) queues = record {
      sides = k.sides;
      names = k.names;
      apart = k.apart;
    } in
    let r' : RestsAt (with_ids opened looked) queues p b before after = record {
      inside = r.inside;
      queued = r.queued;
    } in
    let needed = needed_for opened n (orders_of book.orders p).quantity in
    let room' =
      start_operation-ids opened looked 1 needed
      ∙ room_for_less opened n (orders_of book.orders p).quantity room in
    rw (modify_order, lots, found)
      (modify_found-Modifies (with_ids opened looked) queues p id n timestamp b before after k' r'
        (lots_positive book n lots) room')
