-- ===== src/OrderBook/Add.antt =====
-- include/OrderBook.hpp: add_limit_order.
use eigen_book.Prelude.{
  ℕ, ◌-◌, Bool, true, false, ◌&&◌, ◌||◌, not, Option, none, some, ◌==◌, ◌!=◌, ltb, update,
  if◌then◌else◌,
}
use eigen_book.Prelude.Int.{ℤ}
use eigen_book.Types.Enums.{
  Side, TimeInForce, Status, accepted, rejected, filled, partially_filled, no_liquidity, cancelled,
  invalid_command, invalid_post_only_time_in_force, post_only_would_cross, fok_rejected,
  pool_exhausted, internal_error, self_trade_prevented,
}
use eigen_book.Types.Events.{BookEventKind}
use eigen_book.Types.Results.{AddOrderResult, MatchResult, no_add}
use eigen_book.Order.{reset, cleared}
use eigen_book.MemoryPool.{allocate, release, available}
use eigen_book.OrderIdMap.{can_insert, insert}
use eigen_book.EventLog.{OrderEntry}
use eigen_book.MarketData.{enabled}
use eigen_book.BookSide.Dense.Orders.{add_order, remove_order, can_accept_residual}
use eigen_book.BookSide.Dense.Liquidity.{executable_quantity}
use eigen_book.BookSide.Dense.Preflight.{MatchPreflight}
use eigen_book.BookSide.Dense.Match.{orders_of, with_orders, Aggressor}
use eigen_book.OrderBook.{
  OrderBook, book_side, with_side, is_accepted, is_gtc, valid_time_in_force, validate_new_order,
  begin_operation, start_event_operation, start_operation, order_entry, append_event,
  append_preflight_rejection, finish_add, tell_level, next_sequence,
}
use eigen_book.OrderBook.Market.{contra, named_side, book_preflight, match_side}
use eigen_book.OrderBook.Capacity.{required_limit_event_count, required_limit_market_data_count}

-- The arguments of add_limit_order.
pub record NewOrder : Type 0 where
  pub id : ℕ
  pub side : Side
  pub price : ℤ
  pub quantity : ℕ
  pub timestamp : ℕ
  pub time_in_force : TimeInForce
  pub participant_id : ℕ
  pub post_only : Bool

-- A reason to reject the order, and the accepted quantity that the result shows with it.
pub record Refusal : Type 0 where
  pub status : Status
  pub accepted_quantity : ℕ

abbrev refuse : Status → NewOrder → Option Refusal
refuse status o = some (record { status = status; accepted_quantity = o.quantity })

abbrev pub is_fok : TimeInForce → Bool
is_fok TimeInForce.fok = true
is_fok time_in_force = false

abbrev pub is_ioc : TimeInForce → Bool
is_ioc TimeInForce.ioc = true
is_ioc time_in_force = false

-- The id is there already, or is no id: the other answers of can_insert come later.
abbrev bad_id : Status → Bool
bad_id Status.duplicate_order_id = true
bad_id Status.invalid_order_id = true
bad_id status = false

-- The tests that do not look at the other side.
unfoldable pub static_refusal : OrderBook → NewOrder → Option Refusal
static_refusal book o =
    let validation_status = validate_new_order book o.id o.price o.quantity in
    let id_slot_status = can_insert book.order_ids o.id in
    if not (is_accepted validation_status)
    then refuse validation_status o
    else if not (valid_time_in_force o.time_in_force)
    then refuse rejected o
    else if o.post_only && not (is_gtc o.time_in_force)
    then refuse invalid_post_only_time_in_force o
    else if bad_id id_slot_status
    then refuse id_slot_status o
    else none

unfoldable pub flight_of : OrderBook → NewOrder → MatchPreflight
flight_of book o =
    book_preflight book (book_side book (contra o.side)) o.quantity (some o.price) o.participant_id

-- The order would leave a residual that rests.
pub leaves_residual : NewOrder → MatchPreflight → Bool
leaves_residual o flight =
    is_gtc o.time_in_force
    && ltb flight.executable_quantity o.quantity
    && not flight.aggressor_cancelled

-- residual_reject_status
unfoldable pub residual_reject_status : OrderBook → Status → Status
residual_reject_status book id_slot_status =
    if available book.orders == 0 then pool_exhausted else id_slot_status

-- The tests against what the match would do, and against the room for a residual.
unfoldable pub flight_refusal : OrderBook → NewOrder → Option Refusal
unfolding flight_of leaves_residual residual_reject_status
flight_refusal book o =
    let id_slot_status = can_insert book.order_ids o.id in
    let crossing = executable_quantity (book_side book (contra o.side)) o.quantity (some o.price) in
    let flight = flight_of book o in
    let level_status =
      can_accept_residual (book_side book o.side) o.price
        (o.quantity - flight.executable_quantity) in
    if o.post_only && crossing != 0
    then refuse post_only_would_cross o
    else if is_fok o.time_in_force
        && (ltb flight.executable_quantity o.quantity || flight.aggressor_cancelled)
    then refuse fok_rejected o
    else if leaves_residual o flight && not (is_accepted level_status)
    then some (record { status = level_status; accepted_quantity = 0 })
    else if leaves_residual o flight
        && (not (is_accepted id_slot_status) || available book.orders == 0)
    then refuse (residual_reject_status book id_slot_status) o
    else none

unfoldable pub refusal : OrderBook → NewOrder → Option Refusal
unfolding static_refusal flight_refusal
refusal book o = elim (static_refusal book o) [ none ↦ flight_refusal book o | some r ↦ some r ]

abbrev pub entry_of : BookEventKind → Status → NewOrder → ℕ → OrderEntry
entry_of kind status o quantity =
    order_entry kind status o.id o.side o.price quantity o.timestamp o.time_in_force 0 0

-- A rejection is reported, if there is room for it. The one for an overflow of the level has no number.
unfoldable pub refuse_add : OrderBook → NewOrder → Refusal → OrderBook × AddOrderResult
refuse_add book o r =
    let (started, room) = start_event_operation book 1 in
    let told =
      append_preflight_rejection started
        (entry_of BookEventKind.order_rejected r.status o o.quantity) in
    let result : AddOrderResult = record no_add { accepted_quantity = r.accepted_quantity } in
    if not room
    then (started, finish_add started (record result { status = Status.event_log_full }))
    else (told, finish_add told (record result { status = r.status }))

abbrev pub matched_result : NewOrder → MatchResult → AddOrderResult
matched_result o m = record no_add {
  accepted_quantity = o.quantity;
  executed_quantity = m.executed_quantity;
  fills = m.fills;
  has_last_price = m.has_last_price;
  last_price = m.last_price;
  aggressor_cancelled_by_stp = m.aggressor_cancelled_by_stp;
  resting_orders_cancelled_by_stp = m.resting_orders_cancelled_by_stp;
}

-- `executed == 0 ? status : PartiallyFilled`
abbrev pub or_partially : ℕ → Status → Status
or_partially executed status = if executed == 0 then status else partially_filled

-- The rest of an order that does not rest is cancelled.
pub cancel_rest : OrderBook → NewOrder → ℕ → Status → AddOrderResult → OrderBook × AddOrderResult
cancel_rest book o remaining reason result =
    let told = append_event book (entry_of BookEventKind.order_cancelled reason o remaining) in
    (told, finish_add told result)

-- An order whose slot is given back; the level it may have joined has lost it.
abbrev pub give_back : OrderBook → ℕ → OrderBook
give_back book p = record book {
  orders = release (with_orders book.orders (update (orders_of book.orders) p cleared)) (some p);
}

-- The order at `p` joins its level and the id map.
pub place : OrderBook → NewOrder → ℕ → AddOrderResult → OrderBook × AddOrderResult
place book o p result =
    let before = book_side book o.side in
    let (store, after, status) = add_order (orders_of book.orders) before p in
    let placed = record (with_side book o.side after) { orders = with_orders book.orders store } in
    let (id_status, order_ids) = insert book.order_ids o.id (some p) in
    let (store', without, status') = remove_order store after p in
    let undone = record (with_side book o.side without) {
      orders = with_orders book.orders store';
      order_ids = order_ids;
    } in
    let told = record placed {
      order_ids = order_ids;
      market_data = tell_level book.market_data o.side o.price before after o.timestamp;
    } in
    let resting = (store p).quantity in
    let done = append_event told (entry_of BookEventKind.order_resting accepted o resting) in
    if not (is_accepted status)
    then (give_back book p, finish_add book (record result { status = status }))
    else if not (is_accepted id_status)
    then (give_back undone p, finish_add undone (record result { status = id_status }))
    else (
      done,
      finish_add done (record result {
        resting_quantity = resting;
        status = or_partially result.executed_quantity accepted;
      }),
    )

-- What is left of a good-till-cancelled order rests.
pub rest_order : OrderBook → NewOrder → ℕ → AddOrderResult → OrderBook × AddOrderResult
unfolding place
rest_order book o remaining result =
    let (pool, slot) = allocate book.orders cleared in
    elim slot [
      | none ↦ (book, finish_add book (record result { status = pool_exhausted }))
      | some p ↦
          let (numbered, sequence) = next_sequence book in
          let order =
            reset o.id o.side o.price remaining o.timestamp sequence o.participant_id o.post_only in
          let built = record numbered {
            orders = with_orders pool (update (orders_of pool) p order);
          } in
          place built o p result
    ]

abbrev pub is_internal_error : Status → Bool
is_internal_error Status.internal_error = true
is_internal_error status = false

-- After the match.
unfoldable pub settle : OrderBook → NewOrder → Status → MatchResult → OrderBook × AddOrderResult
unfolding cancel_rest rest_order
settle book o id_slot_status m =
    let result = matched_result o m in
    if is_internal_error m.status
    then (book, finish_add book (record result { status = internal_error }))
    else if m.remaining_quantity == 0
    then (book, finish_add book (record result { status = filled }))
    else if m.aggressor_cancelled_by_stp
    then cancel_rest book o m.remaining_quantity self_trade_prevented
        (record result { status = or_partially m.executed_quantity self_trade_prevented })
    else if is_ioc o.time_in_force
    then cancel_rest book o m.remaining_quantity cancelled
        (record result { status = or_partially m.executed_quantity no_liquidity })
    else if not (is_accepted id_slot_status)
    then (book, finish_add book (record result { status = id_slot_status }))
    else rest_order book o m.remaining_quantity result

abbrev pub aggressor_of : OrderBook → NewOrder → Aggressor
aggressor_of book o = record {
  id = o.id;
  side = o.side;
  timestamp = o.timestamp;
  participant = o.participant_id;
  policy = book.config.self_trade_policy;
}

-- The order is accepted, if the logs have room for what it does: it is matched, and its rest settled.
unfoldable pub admit : OrderBook → NewOrder → OrderBook × AddOrderResult
unfolding flight_of settle
admit book o =
    let flight = flight_of book o in
    let executable = flight.executable_quantity in
    let (started, status) =
      start_operation book (required_limit_event_count flight o.quantity executable) (
        required_limit_market_data_count (enabled book.market_data) flight o.quantity executable) in
    let told = append_event started (entry_of BookEventKind.order_accepted accepted o o.quantity) in
    let (matched, m) =
      match_side told (contra o.side) (aggressor_of book o) (some o.price) o.quantity in
    if not (is_accepted status)
    then (started, finish_add started (record no_add { status = status }))
    else settle matched o (can_insert book.order_ids o.id) m

unfoldable pub add_limit_order : OrderBook → NewOrder → OrderBook × AddOrderResult
unfolding admit
add_limit_order book o =
    let opened = begin_operation book in
    if not (named_side o.side)
    then (opened, finish_add opened (record no_add { status = invalid_command }))
    else elim (refusal opened o) [ none ↦ admit opened o | some r ↦ refuse_add opened o r ]
