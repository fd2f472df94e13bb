-- ===== src/OrderBook.antt =====
-- include/OrderBook.hpp: the book of one instrument, with dense sides (PriceLevelMode::Dense).
-- The book's state without the workspace of the snapshots. What only reads the state is a field of it.
pub mod Capacity
pub mod Cancel
pub mod Modify
pub mod Market
pub mod Add
pub mod Replace
pub mod Checksum
pub mod Restore
pub mod Queries
pub mod Bounds
pub mod Refused
pub mod Cancelled
pub mod Queued
pub mod Fok
pub mod Modified
use eigen_book.Prelude.{
  ℕ, suc, ◌+◌, ◌%◌, Bool, true, false, ◌||◌, ◌&&◌, not, Option, none, some, ◌==◌, ◌!=◌, leb,
  u64_max, if◌then◌else◌,
}
use eigen_book.Prelude.Int.{ℤ, pos, ltb_ℤ, u64_of_i64}
use eigen_book.Types.Enums.{
  Side, is_buy, TimeInForce, gtc, Status, accepted, event_log_full, market_data_log_full,
  invalid_configuration, invalid_order_id, invalid_quantity, lot_size_violation, invalid_price,
  null_order_id, price_level_quantity_overflow,
}
use eigen_book.Types.Events.{BestQuote, BookEventKind}
use eigen_book.Types.Config.{BookConfig, valid, price_distance}
use eigen_book.Types.Results.{
  AddOrderResult, CancelResult, ModifyResult, ReplaceResult, MatchResult,
}
use eigen_book.Order.{Order, cleared}
use eigen_book.MemoryPool
use eigen_book.MemoryPool.{MemoryPool}
use eigen_book.OrderIdMap
use eigen_book.OrderIdMap.{OrderIdMap}
use eigen_book.EventLog
use eigen_book.EventLog.{EventLog, OrderEntry, append_order, append_unsequenced_order, last_events}
use eigen_book.MarketData
use eigen_book.MarketData.{MarketDataLog, enabled}
use eigen_book.BookSide.Market.{emit_level_change}
use eigen_book.BookSide.Dense
use eigen_book.BookSide.Dense.{DenseBookSide}
use eigen_book.BookSide.Dense.Liquidity.{best_quote, depth_at_price, order_count_at_price}
use eigen_book.OrderBook.Capacity.{normalize_config, effective_order_id_capacity}

pub record OrderBook : Type 0 where
  pub config : BookConfig
  pub instrument_id : ℕ
  pub orders : MemoryPool Order
  pub order_ids : OrderIdMap
  pub bids : DenseBookSide
  pub asks : DenseBookSide
  pub event_log : EventLog
  pub market_data : MarketDataLog
  pub next_sequence : ℕ

-- The constructor, with the addresses of the first levels of the two sides.
unfoldable pub new : ℕ → ℕ → BookConfig → ℕ → OrderBook
new bids_base asks_base config instrument_id =
    let c = normalize_config config in
    record {
      config = c;
      instrument_id = instrument_id;
      orders = MemoryPool.new c.max_orders cleared;
      order_ids = OrderIdMap.new (effective_order_id_capacity c);
      bids = Dense.new bids_base Side.buy c.min_price c.max_price c.tick_size;
      asks = Dense.new asks_base Side.sell c.min_price c.max_price c.tick_size;
      event_log = EventLog.new c.event_log_capacity instrument_id;
      market_data = MarketData.new c.market_data_capacity instrument_id;
      next_sequence = 0;
    }

-- `side == Side::Buy ? bids_ : asks_`
abbrev pub book_side : OrderBook → Side → DenseBookSide
book_side book side = if is_buy side then book.bids else book.asks

abbrev pub with_side : OrderBook → Side → DenseBookSide → OrderBook
with_side book side s = if is_buy side then record book { bids = s } else record book { asks = s }

abbrev pub is_accepted : Status → Bool
is_accepted Status.accepted = true
is_accepted status = false

abbrev pub is_gtc : TimeInForce → Bool
is_gtc TimeInForce.gtc = true
is_gtc time_in_force = false

unfoldable pub valid_time_in_force : TimeInForce → Bool
valid_time_in_force (TimeInForce.raw n) = false
valid_time_in_force time_in_force = true

unfoldable pub valid_lot_quantity : OrderBook → ℕ → Bool
valid_lot_quantity book quantity =
    quantity != 0 && (leb book.config.lot_size 1 || quantity % book.config.lot_size == 0)

-- `quantity == 0 ? InvalidQuantity : LotSizeViolation`
abbrev pub lot_status : ℕ → Status
lot_status quantity = if quantity == 0 then invalid_quantity else lot_size_violation

-- The tests of the quantity and the price that the two validations share.
quantity_price_status : OrderBook → ℤ → ℕ → Status
unfolding valid_lot_quantity price_distance
quantity_price_status book price quantity =
    let c = book.config in
    if not (valid_lot_quantity book quantity)
    then lot_status quantity
    else if ltb_ℤ price c.min_price
        || ltb_ℤ c.max_price price
        || price_distance c.min_price price % u64_of_i64 c.tick_size != 0
    then invalid_price
    else accepted

unfoldable pub validate_new_order : OrderBook → ℕ → ℤ → ℕ → Status
unfolding quantity_price_status valid
validate_new_order book id price quantity =
    if not (valid book.config)
    then invalid_configuration
    else if id == null_order_id
    then invalid_order_id
    else quantity_price_status book price quantity

unfoldable pub validate_replacement_order : OrderBook → ℤ → ℕ → Status
unfolding quantity_price_status valid
validate_replacement_order book price quantity =
    if not (valid book.config)
    then invalid_configuration
    else quantity_price_status book price quantity

-- begin_operation, which leaves a disabled market-data log alone
unfoldable pub begin_market_data : MarketDataLog → ℕ → MarketDataLog
begin_market_data log count = if enabled log then MarketData.begin_operation log count else log

unfoldable pub begin_operation : OrderBook → OrderBook
unfolding begin_market_data
begin_operation book = record book {
  event_log = EventLog.begin_operation book.event_log 0;
  market_data = begin_market_data book.market_data 0;
}

unfoldable pub start_event_operation : OrderBook → ℕ → OrderBook × Bool
unfolding begin_market_data
start_event_operation book required =
    let told = record book { market_data = begin_market_data book.market_data 0 } in
    if not (EventLog.can_record book.event_log required)
    then (record told { event_log = EventLog.begin_operation book.event_log 0 }, false)
    else (record told { event_log = EventLog.begin_operation book.event_log required }, true)

unfoldable pub start_operation : OrderBook → ℕ → ℕ → OrderBook × Status
unfolding begin_operation begin_market_data
start_operation book required_events required_market_data =
    if not (EventLog.can_record book.event_log required_events)
    then (begin_operation book, event_log_full)
    else if enabled book.market_data
        && not (MarketData.can_record book.market_data required_market_data)
    then (begin_operation book, market_data_log_full)
    else (
      record book {
        event_log = EventLog.begin_operation book.event_log required_events;
        market_data = begin_market_data book.market_data required_market_data;
      },
      accepted,
    )

-- active_market_data
unfoldable pub active_market_data : OrderBook → Option MarketDataLog
active_market_data book = if enabled book.market_data then some book.market_data else none

-- The arguments of emit_order_rejected, and of append_order as the book calls it.
abbrev pub order_entry :
    BookEventKind → Status → ℕ → Side → ℤ → ℕ → ℕ → TimeInForce → ℕ → ℕ → OrderEntry
order_entry kind status id side price quantity timestamp time_in_force old_quantity new_quantity =
    record {
      kind = kind;
      status = status;
      order_id = id;
      side = side;
      price = price;
      quantity = quantity;
      timestamp = timestamp;
      time_in_force = time_in_force;
      old_quantity = old_quantity;
      new_quantity = new_quantity;
    }

abbrev pub rejection : Status → ℕ → Side → ℤ → ℕ → ℕ → TimeInForce → OrderEntry
rejection reason id side price quantity timestamp time_in_force =
    order_entry BookEventKind.order_rejected reason id side price quantity timestamp time_in_force 0
      0

unfoldable pub append_event : OrderBook → OrderEntry → OrderBook
append_event book entry = record book { event_log = append_order book.event_log entry }

abbrev is_overflow : Status → Bool
is_overflow Status.price_level_quantity_overflow = true
is_overflow status = false

-- emit_preflight_order_rejected
unfoldable pub append_preflight_rejection : OrderBook → OrderEntry → OrderBook
unfolding append_event
append_preflight_rejection book entry =
    if is_overflow entry.status
    then record book { event_log = append_unsequenced_order book.event_log entry }
    else append_event book entry

-- An operation that reports a rejection, if there is room for it: the book, and the status it answers.
unfoldable pub reject : OrderBook → OrderEntry → OrderBook × Status
unfolding start_event_operation append_event
reject book entry =
    let (started, room) = start_event_operation book 1 in
    if not room then (started, event_log_full) else (append_event started entry, entry.status)

-- finish_result, for each of the results
abbrev pub finish_add : OrderBook → AddOrderResult → AddOrderResult
finish_add book result = record result {
  events_emitted = book.event_log.last_count;
  events = last_events book.event_log;
}

abbrev pub finish_cancel : OrderBook → CancelResult → CancelResult
finish_cancel book result = record result {
  events_emitted = book.event_log.last_count;
  events = last_events book.event_log;
}

abbrev pub finish_modify : OrderBook → ModifyResult → ModifyResult
finish_modify book result = record result {
  events_emitted = book.event_log.last_count;
  events = last_events book.event_log;
}

abbrev pub finish_replace : OrderBook → ReplaceResult → ReplaceResult
finish_replace book result = record result {
  events_emitted = book.event_log.last_count;
  events = last_events book.event_log;
}

abbrev pub finish_match : OrderBook → MatchResult → MatchResult
finish_match book result = record result {
  events_emitted = book.event_log.last_count;
  events = last_events book.event_log;
}

-- The market data of a change of the level at a price, from one side to another.
unfoldable pub tell_level :
    MarketDataLog → Side → ℤ → DenseBookSide → DenseBookSide → ℕ → MarketDataLog
tell_level log side price before after timestamp = emit_level_change log (record {
  side = side;
  price = price;
  previous_quantity = depth_at_price before price;
  quantity = depth_at_price after price;
  order_count = order_count_at_price after price;
  previous_best = best_quote before;
  best = best_quote after;
  timestamp = timestamp;
})

unfoldable pub next_sequence : OrderBook → OrderBook × ℕ
next_sequence book =
    if book.next_sequence != u64_max
    then (record book { next_sequence = suc book.next_sequence }, suc book.next_sequence)
    else (book, book.next_sequence)
