-- ===== src/OrderBook/Restore.antt =====
-- include/OrderBook.hpp: what the restore of a snapshot does to the book.
use eigen_book.Prelude.{ℕ, Bool, not, none, some, update, if◌then◌else◌}
use eigen_book.Prelude.Int.{ℤ}
use eigen_book.Types.Enums.{Side, OrderState, Status, accepted, pool_exhausted}
use eigen_book.Order.{Order, reset, cleared}
use eigen_book.MemoryPool
use eigen_book.MemoryPool.{allocate}
use eigen_book.OrderIdMap
use eigen_book.OrderIdMap.{insert}
use eigen_book.EventLog
use eigen_book.MarketData
use eigen_book.BookSide.Dense
use eigen_book.BookSide.Dense.Orders.{add_order, remove_order}
use eigen_book.BookSide.Dense.Match.{orders_of, with_orders}
use eigen_book.OrderBook.{OrderBook, book_side, with_side, is_accepted}
use eigen_book.OrderBook.Add.{give_back}

pub record BookSnapshotOrder : Type 0 where
  pub id : ℕ
  pub side : Side
  pub price : ℤ
  pub quantity : ℕ
  pub timestamp : ℕ
  pub sequence : ℕ
  pub participant_id : ℕ
  pub post_only : Bool
  pub initial_quantity : ℕ
  pub state : OrderState

unfoldable pub clear_for_snapshot_restore : OrderBook → OrderBook
clear_for_snapshot_restore book = record book {
  bids = Dense.clear book.bids;
  asks = Dense.clear book.asks;
  order_ids = OrderIdMap.clear book.order_ids;
  orders = MemoryPool.clear book.orders;
  next_sequence = 0;
  event_log = EventLog.reset book.event_log 0;
  market_data = MarketData.reset book.market_data 0;
}

-- The order at `p` joins its level and the id map, and gets what its snapshot says of its life.
pub restore_at : OrderBook → BookSnapshotOrder → ℕ → OrderBook × Status
restore_at book r p =
    let before = book_side book r.side in
    let (store, after, status) = add_order (orders_of book.orders) before p in
    let (id_status, order_ids) = insert book.order_ids r.id (some p) in
    let (store', without, status') = remove_order store after p in
    let undone = record (with_side book r.side without) {
      orders = with_orders book.orders store';
      order_ids = order_ids;
    } in
    let lived : Order = record (store p) {
      initial_quantity = r.initial_quantity;
      state = r.state;
    } in
    let done = record (with_side book r.side after) {
      orders = with_orders book.orders (update store p lived);
      order_ids = order_ids;
    } in
    if not (is_accepted status)
    then (give_back book p, status)
    else if not (is_accepted id_status)
    then (give_back undone p, id_status)
    else (done, accepted)

unfoldable pub restore_snapshot_order : OrderBook → BookSnapshotOrder → OrderBook × Status
unfolding restore_at
restore_snapshot_order book r =
    let (pool, slot) = allocate book.orders cleared in
    elim slot [
      | none ↦ (book, pool_exhausted)
      | some p ↦
          let order =
            reset r.id r.side r.price r.quantity r.timestamp r.sequence r.participant_id
              r.post_only in
          restore_at (record book { orders = with_orders pool (update (orders_of pool) p order) }) r
            p
    ]

unfoldable pub finish_snapshot_restore : OrderBook → ℕ → ℕ → ℕ → OrderBook
finish_snapshot_restore book next_sequence event_next_sequence market_data_sequence = record book {
  next_sequence = next_sequence;
  event_log = EventLog.reset book.event_log event_next_sequence;
  market_data = MarketData.reset book.market_data market_data_sequence;
}
