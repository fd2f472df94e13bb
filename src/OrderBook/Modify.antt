-- ===== src/OrderBook/Modify.antt =====
-- include/OrderBook.hpp: modify_order.
use eigen_book.Prelude.{ℕ, not, none, some, ◌==◌, ltb, if◌then◌else◌}
use eigen_book.Prelude.Int.{pos}
use eigen_book.Types.Enums.{
  Side, gtc, Status, accepted, unknown_order_id, quantity_increase_rejected,
}
use eigen_book.Types.Events.{BookEventKind}
use eigen_book.Types.Results.{ModifyResult, no_modify}
use eigen_book.OrderIdMap.{find}
use eigen_book.MarketData.{enabled}
use eigen_book.BookSide.Dense.Orders.{reduce_order}
use eigen_book.BookSide.Dense.Match.{orders_of, with_orders}
use eigen_book.OrderBook.{
  OrderBook, book_side, with_side, is_accepted, valid_lot_quantity, lot_status, begin_operation,
  start_operation, rejection, order_entry, append_event, reject, finish_modify, tell_level,
}
use eigen_book.OrderBook.Capacity.{required_single_level_market_data_count}

-- The order at `p` is reduced, and the reduction is reported.
unfoldable pub reduce_resting : OrderBook → ℕ → ℕ → ℕ → ℕ → ModifyResult → OrderBook × ModifyResult
reduce_resting book p id new_quantity timestamp result =
    let order = orders_of book.orders p in
    let before = book_side book order.side in
    let (store', after, status) = reduce_order (orders_of book.orders) before p new_quantity in
    let written = record (with_side book order.side after) {
      orders = with_orders book.orders store';
    } in
    let told = record written {
      market_data =
          if is_accepted status
          then tell_level book.market_data order.side order.price before after timestamp
          else book.market_data;
    } in
    let kind =
      if is_accepted status then BookEventKind.order_modified else BookEventKind.order_rejected in
    let done = append_event told (
      order_entry kind status id order.side order.price new_quantity timestamp gtc order.quantity
        new_quantity) in
    (done, finish_modify done (record result { status = status }))

unfoldable pub modify_found : OrderBook → ℕ → ℕ → ℕ → ℕ → OrderBook × ModifyResult
modify_found book p id new_quantity timestamp =
    let order = orders_of book.orders p in
    let needed =
      if ltb new_quantity order.quantity
      then required_single_level_market_data_count (enabled book.market_data)
      else 0 in
    let (started, status) = start_operation book 1 needed in
    let reported : ModifyResult = record no_modify {
      old_quantity = order.quantity;
      new_quantity = new_quantity;
    } in
    let kept = append_event started (
      order_entry BookEventKind.order_modified accepted id order.side order.price new_quantity
        timestamp gtc order.quantity new_quantity) in
    let refused = append_event started (
      order_entry BookEventKind.order_rejected quantity_increase_rejected id order.side order.price
        new_quantity timestamp gtc order.quantity new_quantity) in
    if not (is_accepted status)
    then (started, finish_modify started (record no_modify { status = status }))
    else if new_quantity == order.quantity
    then (kept, finish_modify kept (record reported { status = accepted }))
    else if ltb order.quantity new_quantity
    then (refused, finish_modify refused (record reported { status = quantity_increase_rejected }))
    else reduce_resting started p id new_quantity timestamp reported

-- A modification that is rejected before the order's book is touched.
abbrev modify_rejected : OrderBook → Status → ℕ → ℕ → ℕ → OrderBook × ModifyResult
modify_rejected book reason id new_quantity timestamp =
    let (rejected, status) =
      reject book (rejection reason id Side.buy (pos 0) new_quantity timestamp gtc) in
    (rejected, finish_modify rejected (record no_modify { status = status }))

unfoldable pub modify_order : OrderBook → ℕ → ℕ → ℕ → OrderBook × ModifyResult
modify_order book id new_quantity timestamp =
    let opened = begin_operation book in
    let (order, looked) = find opened.order_ids id in
    let found = record opened { order_ids = looked } in
    if not (valid_lot_quantity book new_quantity)
    then modify_rejected opened (lot_status new_quantity) id new_quantity timestamp
    else elim order [
      | none ↦ modify_rejected found unknown_order_id id new_quantity timestamp
      | some p ↦ modify_found found p id new_quantity timestamp
    ]
