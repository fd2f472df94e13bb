-- ===== src/OrderBook/Cancel.antt =====
-- include/OrderBook.hpp: cancel_order.
use eigen_book.Prelude.{ℕ, not, none, some, update, if◌then◌else◌}
use eigen_book.Prelude.Int.{pos}
use eigen_book.Types.Enums.{Side, gtc, cancelled, unknown_order_id}
use eigen_book.Types.Events.{BookEventKind}
use eigen_book.Types.Results.{CancelResult, no_cancel}
use eigen_book.Order.{cleared}
use eigen_book.MemoryPool.{release}
use eigen_book.OrderIdMap.Erase.{EraseToken, find_for_erase, erase_token}
use eigen_book.MarketData.{enabled}
use eigen_book.BookSide.Dense.Orders.{remove_order}
use eigen_book.BookSide.Dense.Match.{orders_of, with_orders}
use eigen_book.OrderBook.{
  OrderBook, book_side, with_side, is_accepted, begin_operation, start_operation, rejection,
  order_entry, append_event, reject, finish_cancel, tell_level,
}
use eigen_book.OrderBook.Capacity.{required_single_level_market_data_count}

-- The address of the book's id map, which its tokens carry.
abbrev pub map_address : ℕ
map_address = 0

-- The order at `p` leaves its side, the id map and the pool.
unfoldable pub take_out : OrderBook → EraseToken → ℕ → ℕ → ℕ → OrderBook × CancelResult
take_out book token p id timestamp =
    let order = orders_of book.orders p in
    let before = book_side book order.side in
    let (store', after, status) = remove_order (orders_of book.orders) before p in
    let reported : CancelResult = record no_cancel { canceled_quantity = order.quantity } in
    let removed = record (with_side book order.side after) {
      order_ids = (erase_token map_address book.order_ids token).1;
      orders = release (with_orders book.orders (update store' p cleared)) (some p);
      market_data = tell_level book.market_data order.side order.price before after timestamp;
    } in
    let kept =
      append_event book (rejection status id order.side order.price order.quantity timestamp gtc) in
    let done = append_event removed (
      order_entry BookEventKind.order_cancelled cancelled id order.side order.price order.quantity
        timestamp gtc 0 0) in
    if not (is_accepted status)
    then (kept, finish_cancel kept (record reported { status = status }))
    else (done, finish_cancel done (record reported { status = cancelled }))

unfoldable pub cancel_found : OrderBook → EraseToken → ℕ → ℕ → ℕ → OrderBook × CancelResult
cancel_found book token p id timestamp =
    let (started, status) =
      start_operation book 1 (required_single_level_market_data_count (enabled book.market_data)) in
    if not (is_accepted status)
    then (started, finish_cancel started (record no_cancel { status = status }))
    else take_out started token p id timestamp

unfoldable pub cancel_order : OrderBook → ℕ → ℕ → OrderBook × CancelResult
cancel_order book id timestamp =
    let opened = begin_operation book in
    let (token, looked) = find_for_erase map_address opened.order_ids id in
    let found = record opened { order_ids = looked } in
    elim token.order [
      | none ↦
          let (rejected, status) =
            reject found (rejection unknown_order_id id Side.buy (pos 0) 0 timestamp gtc) in
          (rejected, finish_cancel rejected (record no_cancel { status = status }))
      | some p ↦ cancel_found found token p id timestamp
    ]
