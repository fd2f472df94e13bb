-- ===== src/OrderBook/Replace.antt =====
-- include/OrderBook.hpp: replace_order.
use eigen_book.Prelude.{
  ℕ, ◌-◌, Bool, ◌&&◌, ◌||◌, not, Option, none, some, ◌==◌, ◌!=◌, ltb, leb, update, if◌then◌else◌,
}
use eigen_book.Prelude.Int.{ℤ, eqb_ℤ}
use eigen_book.Types.Enums.{
  Side, TimeInForce, gtc, Status, accepted, rejected, filled, no_liquidity, cancelled,
  unknown_order_id, invalid_post_only_time_in_force, post_only_would_cross, fok_rejected,
  internal_error, self_trade_prevented,
}
use eigen_book.Types.Events.{BookEventKind}
use eigen_book.Types.Results.{ReplaceResult, MatchResult, no_replace}
use eigen_book.Order.{Order, reset}
use eigen_book.OrderIdMap.{insert}
use eigen_book.OrderIdMap.Erase.{EraseToken, find_for_erase, erase_token}
use eigen_book.EventLog.{OrderEntry}
use eigen_book.MarketData.{enabled}
use eigen_book.BookSide.Dense.Orders.{
  add_order, remove_order, reduce_order, can_accept_replacement_residual,
}
use eigen_book.BookSide.Dense.Liquidity.{executable_quantity}
use eigen_book.BookSide.Dense.Preflight.{MatchPreflight, preflight}
use eigen_book.BookSide.Dense.Match.{orders_of, with_orders, Aggressor}
use eigen_book.OrderBook.{
  OrderBook, book_side, with_side, is_accepted, is_gtc, valid_time_in_force,
  validate_replacement_order, begin_operation, start_event_operation, start_operation, rejection,
  order_entry, append_event, append_preflight_rejection, reject, finish_replace, tell_level,
  next_sequence,
}
use eigen_book.OrderBook.Cancel.{map_address}
use eigen_book.OrderBook.Market.{contra, match_side}
use eigen_book.OrderBook.Add.{is_fok, is_ioc, or_partially, is_internal_error, give_back}
use eigen_book.OrderBook.Capacity.{
  required_replace_event_count, required_replace_market_data_count,
  required_single_level_market_data_count,
}

-- The arguments of replace_order.
pub record Replacement : Type 0 where
  pub id : ℕ
  pub new_price : ℤ
  pub new_quantity : ℕ
  pub timestamp : ℕ
  pub time_in_force : TimeInForce
  pub post_only : Bool

-- What the result shows of a replacement, and of the order it replaces.
abbrev asked : Replacement → ReplaceResult
asked r = record no_replace { new_price = r.new_price; new_quantity = r.new_quantity }

abbrev shown : Replacement → Order → ReplaceResult
shown r order = record (asked r) { old_price = order.price; old_quantity = order.quantity }

-- An event about the order that is replaced, with the two quantities.
abbrev replace_entry :
    BookEventKind → Status → Replacement → Order → ℤ → ℕ → TimeInForce → OrderEntry
replace_entry kind status r order price quantity time_in_force =
    order_entry kind status r.id order.side price quantity r.timestamp time_in_force order.quantity
      r.new_quantity

-- The tests before the priority of the order is at stake.
pub replacement_refusal : OrderBook → Replacement → Option Status
replacement_refusal book r =
    let validation_status = validate_replacement_order book r.new_price r.new_quantity in
    if not (is_accepted validation_status)
    then some validation_status
    else if not (valid_time_in_force r.time_in_force)
    then some rejected
    else if r.post_only && not (is_gtc r.time_in_force)
    then some invalid_post_only_time_in_force
    else none

pub replacement_flight : OrderBook → Replacement → Order → MatchPreflight
replacement_flight book r order =
    preflight (orders_of book.orders) book.config.self_trade_policy order.participant_id
      (book_side book (contra order.side)) r.new_quantity (some r.new_price)

-- The tests of a replacement that loses its priority.
pub reentry_refusal : OrderBook → Replacement → Order → Option Status
unfolding replacement_flight
reentry_refusal book r order =
    let other = book_side book (contra order.side) in
    let flight = replacement_flight book r order in
    let storage_status =
      can_accept_replacement_residual (book_side book order.side) order r.new_price
        (r.new_quantity - flight.executable_quantity) in
    if r.post_only && executable_quantity other r.new_quantity (some r.new_price) != 0
    then some post_only_would_cross
    else if is_fok r.time_in_force
        && (ltb flight.executable_quantity r.new_quantity || flight.aggressor_cancelled)
    then some fok_rejected
    else if is_gtc r.time_in_force
        && ltb flight.executable_quantity r.new_quantity
        && not flight.aggressor_cancelled
        && not (is_accepted storage_status)
    then some storage_status
    else none

-- A refused replacement is reported, if there is room for it.
unfoldable pub refuse_replacement :
    OrderBook → Replacement → Order → Status → OrderBook × ReplaceResult
refuse_replacement book r order status =
    let (started, room) = start_event_operation book 1 in
    let told = append_preflight_rejection started (
      replace_entry BookEventKind.order_rejected status r order r.new_price r.new_quantity
        r.time_in_force) in
    if not room
    then (
      started,
      finish_replace started (record (shown r order) { status = Status.event_log_full }),
    )
    else (told, finish_replace told (record (shown r order) { status = status }))

-- The order at `p` with another mark.
abbrev mark_post_only : OrderBook → ℕ → Bool → OrderBook
mark_post_only book p post_only = record book {
  orders = with_orders book.orders (
      update (orders_of book.orders) p
        (record (orders_of book.orders p) { post_only = post_only }));
}

-- A reduction at the same price keeps the priority.
pub reduce_in_place : OrderBook → Replacement → ℕ → OrderBook × ReplaceResult
reduce_in_place book r p =
    let order = orders_of book.orders p in
    let before = book_side book order.side in
    let (store', after, status) = reduce_order (orders_of book.orders) before p r.new_quantity in
    let written = record (with_side book order.side after) {
      orders = with_orders book.orders store';
    } in
    let marked = record (mark_post_only written p r.post_only) {
      market_data = tell_level book.market_data order.side order.price before after r.timestamp;
    } in
    let done =
      append_event marked (
        replace_entry BookEventKind.order_modified status r order order.price r.new_quantity gtc) in
    let failed =
      append_event written (
        replace_entry BookEventKind.order_rejected status r order order.price r.new_quantity gtc) in
    if is_accepted status
    then (
      done,
      finish_replace done
          (record (shown r order) { status = status; resting_quantity = r.new_quantity }),
    )
    else (failed, finish_replace failed (record (shown r order) { status = status }))

pub replace_in_place : OrderBook → Replacement → ℕ → OrderBook × ReplaceResult
unfolding reduce_in_place
replace_in_place book r p =
    let order = orders_of book.orders p in
    let same = r.new_quantity == order.quantity in
    let needed =
      if same then 0 else required_single_level_market_data_count (enabled book.market_data) in
    let (started, status) = start_operation book 1 needed in
    let kept = append_event (mark_post_only started p r.post_only) (
      replace_entry BookEventKind.order_modified accepted r order order.price r.new_quantity gtc) in
    if not (is_accepted status)
    then (started, finish_replace started (record (shown r order) { status = status }))
    else if same
    then (
      kept,
      finish_replace kept
          (record (shown r order) { status = accepted; resting_quantity = order.quantity }),
    )
    else reduce_in_place started r p

abbrev replaced_result : Replacement → Order → MatchResult → ReplaceResult
replaced_result r order m = record (shown r order) {
  executed_quantity = m.executed_quantity;
  fills = m.fills;
  has_last_price = m.has_last_price;
  last_price = m.last_price;
  aggressor_cancelled_by_stp = m.aggressor_cancelled_by_stp;
  resting_orders_cancelled_by_stp = m.resting_orders_cancelled_by_stp;
}

-- The rest of a replacement that does not rest is cancelled, and its slot given back.
pub cancel_reentry :
    OrderBook → Replacement → Order → ℕ → ℕ → Status → ReplaceResult → OrderBook × ReplaceResult
cancel_reentry book r order p remaining reason result =
    let told = append_event (give_back book p) (
      replace_entry BookEventKind.order_cancelled reason r order r.new_price remaining
        r.time_in_force) in
    (told, finish_replace told result)

-- The replacement at `p` joins its level and the id map.
pub place_replacement :
    OrderBook → Replacement → Order → ℕ → ReplaceResult → OrderBook × ReplaceResult
place_replacement book r order p result =
    let before = book_side book order.side in
    let (store, after, status) = add_order (orders_of book.orders) before p in
    let placed = record (with_side book order.side after) {
      orders = with_orders book.orders store;
    } in
    let (id_status, order_ids) = insert book.order_ids r.id (some p) in
    let (store', without, status') = remove_order store after p in
    let undone = record (with_side book order.side without) {
      orders = with_orders book.orders store';
      order_ids = order_ids;
    } in
    let told = record placed {
      order_ids = order_ids;
      market_data = tell_level book.market_data order.side r.new_price before after r.timestamp;
    } in
    let resting = (store p).quantity in
    let done = append_event told (
      replace_entry BookEventKind.order_resting accepted r order r.new_price resting
        r.time_in_force) in
    if not (is_accepted status)
    then (give_back book p, finish_replace book (record result { status = status }))
    else if not (is_accepted id_status)
    then (give_back undone p, finish_replace undone (record result { status = id_status }))
    else (
      done,
      finish_replace done (record result {
        resting_quantity = resting;
        status = or_partially result.executed_quantity accepted;
      }),
    )

-- The slot of the replaced order is used again for what is left.
pub rest_replacement :
    OrderBook → Replacement → Order → ℕ → ℕ → ReplaceResult → OrderBook × ReplaceResult
unfolding place_replacement
rest_replacement book r order p remaining result =
    let (numbered, sequence) = next_sequence book in
    let built =
      reset r.id order.side r.new_price remaining r.timestamp sequence
        (orders_of book.orders p).participant_id r.post_only in
    place_replacement
      (record numbered {
        orders = with_orders numbered.orders (update (orders_of numbered.orders) p built);
      })
      r order p result

-- After the match of the replacement.
pub settle_replacement :
    OrderBook → Replacement → Order → ℕ → MatchResult → OrderBook × ReplaceResult
unfolding cancel_reentry rest_replacement
settle_replacement book r order p m =
    let result = replaced_result r order m in
    let returned = give_back book p in
    if is_internal_error m.status
    then (returned, finish_replace returned (record result { status = internal_error }))
    else if m.remaining_quantity == 0
    then (returned, finish_replace returned (record result { status = filled }))
    else if m.aggressor_cancelled_by_stp
    then cancel_reentry book r order p m.remaining_quantity self_trade_prevented
        (record result { status = or_partially m.executed_quantity self_trade_prevented })
    else if is_ioc r.time_in_force
    then cancel_reentry book r order p m.remaining_quantity cancelled
        (record result { status = or_partially m.executed_quantity no_liquidity })
    else rest_replacement book r order p m.remaining_quantity result

-- The order has left its side: it leaves the id map, and the replacement is matched.
pub match_replacement : OrderBook → Replacement → Order → EraseToken → ℕ → OrderBook × ReplaceResult
unfolding settle_replacement
match_replacement book r order token p =
    let erased = record book { order_ids = (erase_token map_address book.order_ids token).1 } in
    let announced =
      append_event
        (append_event erased (
          order_entry BookEventKind.order_cancelled cancelled r.id order.side order.price
            order.quantity r.timestamp gtc 0 0))
        (replace_entry BookEventKind.order_accepted accepted r order r.new_price r.new_quantity
          r.time_in_force) in
    let aggressor : Aggressor = record {
      id = r.id;
      side = order.side;
      timestamp = r.timestamp;
      participant = order.participant_id;
      policy = book.config.self_trade_policy;
    } in
    let (matched, m) =
      match_side announced (contra order.side) aggressor (some r.new_price) r.new_quantity in
    settle_replacement matched r order p m

-- The order leaves its level, and enters again as the replacement.
pub reenter : OrderBook → Replacement → EraseToken → ℕ → OrderBook × ReplaceResult
unfolding match_replacement
reenter book r token p =
    let order = orders_of book.orders p in
    let before = book_side book order.side in
    let (store', after, status) = remove_order (orders_of book.orders) before p in
    let removed = record (with_side book order.side after) {
      orders = with_orders book.orders store';
      market_data = tell_level book.market_data order.side order.price before after r.timestamp;
    } in
    let failed =
      append_event book (
        replace_entry BookEventKind.order_rejected status r order order.price order.quantity gtc) in
    if not (is_accepted status)
    then (failed, finish_replace failed (record (shown r order) { status = status }))
    else match_replacement removed r order token p

-- A replacement that loses its priority, if no test refuses it and both logs have room.
unfoldable pub replace_by_reentry :
    OrderBook → Replacement → EraseToken → ℕ → OrderBook × ReplaceResult
replace_by_reentry book r token p =
    let order = orders_of book.orders p in
    let flight = replacement_flight book r order in
    let executable = flight.executable_quantity in
    let (started, status) =
      start_operation book (required_replace_event_count flight r.new_quantity executable) (
        required_replace_market_data_count (enabled book.market_data) flight r.new_quantity
          executable) in
    elim (reentry_refusal book r order) [
      | some refused ↦ refuse_replacement book r order refused
      | none ↦
          if not (is_accepted status)
          then (started, finish_replace started (record (shown r order) { status = status }))
          else reenter started r token p
    ]

unfoldable pub replace_found : OrderBook → Replacement → EraseToken → ℕ → OrderBook × ReplaceResult
replace_found book r token p =
    let order = orders_of book.orders p in
    elim (replacement_refusal book r) [
      | some status ↦ refuse_replacement book r order status
      | none ↦
          if eqb_ℤ r.new_price order.price && leb r.new_quantity order.quantity
          then replace_in_place book r p
          else replace_by_reentry book r token p
    ]

unfoldable pub replace_order : OrderBook → Replacement → OrderBook × ReplaceResult
replace_order book r =
    let opened = begin_operation book in
    let (token, looked) = find_for_erase map_address opened.order_ids r.id in
    let found = record opened { order_ids = looked } in
    let (refused, status) = reject found (
      rejection unknown_order_id r.id Side.buy r.new_price r.new_quantity r.timestamp
        r.time_in_force) in
    elim token.order [
      | none ↦ (refused, finish_replace refused (record (asked r) { status = status }))
      | some p ↦ replace_found found r token p
    ]
