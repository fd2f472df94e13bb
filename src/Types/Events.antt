-- ===== src/Types/Events.antt =====
-- include/Types.hpp: the events of the two logs, and the quotes that they carry.
use eigen_book.Prelude.{ℕ, Bool, false}
use eigen_book.Prelude.Int.{ℤ, pos}
use eigen_book.Types.Enums.{Side, TimeInForce, Status}

pub record TradeEvent : Type 0 where
  pub instrument_id : ℕ
  pub aggressor_id : ℕ
  pub resting_id : ℕ
  pub aggressor_side : Side
  pub price : ℤ
  pub quantity : ℕ
  pub timestamp : ℕ
  pub sequence : ℕ

-- BookEvent::Kind
pub data BookEventKind : Type 0 where
  trade order_accepted order_resting order_cancelled order_modified order_rejected : BookEventKind

pub record BookEvent : Type 0 where
  pub kind : BookEventKind
  pub instrument_id : ℕ
  pub status : Status
  pub order_id : ℕ
  pub side : Side
  pub price : ℤ
  pub quantity : ℕ
  pub old_quantity : ℕ
  pub new_quantity : ℕ
  pub timestamp : ℕ
  pub sequence : ℕ
  pub time_in_force : TimeInForce
  pub trade : TradeEvent

-- MarketDataEvent::Kind
pub data MarketDataKind : Type 0 where
  level_created level_quantity_changed level_deleted trade best_bid_changed best_ask_changed :
      MarketDataKind

pub record MarketDataEvent : Type 0 where
  pub kind : MarketDataKind
  pub instrument_id : ℕ
  pub sequence : ℕ
  pub side : Side
  pub price : ℤ
  pub previous_quantity : ℕ
  pub quantity : ℕ
  pub order_count : ℕ
  pub aggressor_id : ℕ
  pub resting_id : ℕ
  pub trade_quantity : ℕ
  pub timestamp : ℕ

pub record BestQuote : Type 0 where
  pub valid : Bool
  pub price : ℤ
  pub quantity : ℕ
  pub order_count : ℕ

-- The values of `TradeEvent{}`, `BookEvent{}`, `MarketDataEvent{}` and `BestQuote{}`.
abbrev pub no_trade : TradeEvent
no_trade = record {
  instrument_id = 0;
  aggressor_id = 0;
  resting_id = 0;
  aggressor_side = Side.buy;
  price = pos 0;
  quantity = 0;
  timestamp = 0;
  sequence = 0;
}

abbrev pub blank_event : BookEvent
blank_event = record {
  kind = BookEventKind.order_rejected;
  instrument_id = 0;
  status = Status.internal_error;
  order_id = 0;
  side = Side.buy;
  price = pos 0;
  quantity = 0;
  old_quantity = 0;
  new_quantity = 0;
  timestamp = 0;
  sequence = 0;
  time_in_force = TimeInForce.gtc;
  trade = no_trade;
}

abbrev pub blank_market_data : MarketDataEvent
blank_market_data = record {
  kind = MarketDataKind.level_quantity_changed;
  instrument_id = 0;
  sequence = 0;
  side = Side.buy;
  price = pos 0;
  previous_quantity = 0;
  quantity = 0;
  order_count = 0;
  aggressor_id = 0;
  resting_id = 0;
  trade_quantity = 0;
  timestamp = 0;
}

abbrev pub no_quote : BestQuote
no_quote = record { valid = false; price = pos 0; quantity = 0; order_count = 0 }
