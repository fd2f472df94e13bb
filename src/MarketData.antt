-- ===== src/MarketData.antt =====
-- include/MarketData.hpp: the market-data ring of a book, and the detector of gaps on the consumer's side.
-- The array is a list of `capacity` events.
pub mod Window
pub mod Detector
pub mod Feed
use eigen_book.Prelude.{
  ℕ, suc, ◌+◌, ◌-◌, Bool, true, ◌&&◌, ◌||◌, not, List, [], ◌∷◌, ltb, leb, ◌==◌, ◌!=◌, u64_max, take,
  drop, set, replicate, if◌then◌else◌,
}
use eigen_book.Prelude.Int.{ℤ, pos}
use eigen_book.Types.Enums.{Side, is_buy}
use eigen_book.Types.Events.{MarketDataEvent, MarketDataKind, BestQuote, blank_market_data}
use eigen_book.Ring.{advance}

pub record MarketDataLog : Type 0 where
  pub events : List MarketDataEvent
  pub capacity : ℕ
  pub write_index : ℕ
  pub last_begin : ℕ
  pub last_count : ℕ
  pub current_sequence : ℕ
  pub instrument_id : ℕ

-- the constructor
unfoldable pub new : ℕ → ℕ → MarketDataLog
new capacity instrument_id = record {
  events = replicate capacity blank_market_data;
  capacity = capacity;
  write_index = 0;
  last_begin = 0;
  last_count = 0;
  current_sequence = 0;
  instrument_id = instrument_id;
}

unfoldable pub enabled : MarketDataLog → Bool
enabled log = log.capacity != 0

unfoldable pub reset : MarketDataLog → ℕ → MarketDataLog
reset log current_sequence = record log {
  write_index = 0;
  last_begin = 0;
  last_count = 0;
  current_sequence = current_sequence;
}

unfoldable pub begin_operation : MarketDataLog → ℕ → MarketDataLog
unfolding enabled
begin_operation log max_event_count =
    let opened = record log { last_count = 0 } in
    let wanted = if ltb log.capacity max_event_count then log.capacity else max_event_count in
    let start = if ltb (log.capacity - log.write_index) wanted then 0 else log.write_index in
    if not (enabled log)
    then record opened { last_begin = 0 }
    else record opened { write_index = start; last_begin = start }

unfoldable pub can_record : MarketDataLog → ℕ → Bool
unfolding enabled
can_record log event_count =
    if not (enabled log) || event_count == 0
    then true
    else leb event_count log.capacity && leb event_count (u64_max - log.current_sequence)

-- the private append
unfoldable pub append : MarketDataLog → MarketDataEvent → MarketDataLog
unfolding enabled
append log event =
    let sequence = suc log.current_sequence in
    let numbered = record event { instrument_id = log.instrument_id; sequence = sequence } in
    if not (enabled log) || log.last_count == log.capacity || log.current_sequence == u64_max
    then log
    else record log {
      current_sequence = sequence;
      events = set log.events log.write_index numbered;
      last_count = suc log.last_count;
      write_index = advance log.capacity log.write_index;
    }

-- The arguments of append_level, append_trade and append_best.
pub record LevelUpdate : Type 0 where
  pub kind : MarketDataKind
  pub side : Side
  pub price : ℤ
  pub previous_quantity : ℕ
  pub quantity : ℕ
  pub order_count : ℕ
  pub timestamp : ℕ

pub record TradeUpdate : Type 0 where
  pub aggressor_side : Side
  pub price : ℤ
  pub quantity : ℕ
  pub aggressor_id : ℕ
  pub resting_id : ℕ
  pub timestamp : ℕ

pub level_event : LevelUpdate → MarketDataEvent
level_event u = record blank_market_data {
  kind = u.kind;
  side = u.side;
  price = u.price;
  previous_quantity = u.previous_quantity;
  quantity = u.quantity;
  order_count = u.order_count;
  timestamp = u.timestamp;
}

pub trade_event : TradeUpdate → MarketDataEvent
trade_event u = record blank_market_data {
  kind = MarketDataKind.trade;
  side = u.aggressor_side;
  price = u.price;
  quantity = u.quantity;
  aggressor_id = u.aggressor_id;
  resting_id = u.resting_id;
  trade_quantity = u.quantity;
  timestamp = u.timestamp;
}

pub best_event : Side → BestQuote → ℕ → MarketDataEvent
best_event side quote timestamp = record blank_market_data {
  kind = if is_buy side then MarketDataKind.best_bid_changed else MarketDataKind.best_ask_changed;
  side = side;
  price = if quote.valid then quote.price else pos 0;
  quantity = if quote.valid then quote.quantity else 0;
  order_count = if quote.valid then quote.order_count else 0;
  timestamp = timestamp;
}

unfoldable pub append_level : MarketDataLog → LevelUpdate → MarketDataLog
unfolding append level_event
append_level log u = append log (level_event u)

unfoldable pub append_trade : MarketDataLog → TradeUpdate → MarketDataLog
unfolding append trade_event
append_trade log u = append log (trade_event u)

unfoldable pub append_best : MarketDataLog → Side → BestQuote → ℕ → MarketDataLog
unfolding append best_event
append_best log side quote timestamp = append log (best_event side quote timestamp)

unfoldable pub last_events : MarketDataLog → List MarketDataEvent
unfolding enabled
last_events log =
    if not (enabled log) || log.last_count == 0
    then []
    else take log.last_count (drop log.last_begin log.events)

-- One call of an append method, and the calls of one operation in order.
pub data Update : Type 0 where
  level : LevelUpdate → Update
  trade : TradeUpdate → Update
  best : Side → BestQuote → ℕ → Update

unfoldable pub record_update : MarketDataLog → Update → MarketDataLog
unfolding append_level append_trade append_best
record_update log (level u) = append_level log u
record_update log (trade u) = append_trade log u
record_update log (best side quote timestamp) = append_best log side quote timestamp

unfoldable pub record_all : MarketDataLog → List Update → MarketDataLog
record_all log [] = log
record_all log (u ∷ us) = record_all (record_update log u) us
