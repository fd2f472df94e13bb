-- ===== src/Runs/OrderBook.antt =====
-- include/OrderBook.hpp: a book with one ask, which is cancelled, and orders that are not admitted.
use eigen_book.Prelude.{ℕ, ◌≤◌, ◌≡◌, refl, true, false, Bool, arith, some, List, []}
use eigen_book.Prelude.Int.{pos}
use eigen_book.Types.Enums.{Side, SelfTradePolicy, PriceLevelMode, TimeInForce, filled}
use eigen_book.Types.Config.{BookConfig, price_distance}
use eigen_book.OrderIdMap
use eigen_book.OrderIdMap.{insert, find, find_index, hash}
use eigen_book.OrderIdMap.Hash.{splitmix64}
use eigen_book.EventLog
use eigen_book.MarketData
use eigen_book.PriceLevel.{reset, append, empty}
use eigen_book.BookSide.Dense.{
  DenseBookSide, new, compute_level_count, price_in_range, index_for_price, set_occupied,
}
use eigen_book.BookSide.Dense.Orders.{add_order}
use eigen_book.BookSide.Dense.Queues.{new-IsSide}
use eigen_book.BookSide.Dense.Preflight.{MatchPreflight}
use eigen_book.OrderBook.{OrderBook, begin_operation, start_operation, begin_market_data}
use eigen_book.OrderBook.Capacity.{
  required_limit_event_count, required_replace_event_count, minimum_event_log_capacity,
}
use eigen_book.OrderBook.Bounds.{required_event_count-default}
use eigen_book.OrderBook.Queued.{IsBook, IsBook-of, RestsAt, HasRoom}
use eigen_book.Types.Config.{valid}
use eigen_book.OrderIdMap.{can_insert}
use eigen_book.BookSide.Dense.{crosses, find_next_index_after}
use eigen_book.BookSide.Dense.Liquidity.{
  beyond, executable_quantity, executable_fill_count, count_level_fills,
}
use eigen_book.OrderBook.{validate_new_order, valid_lot_quantity, valid_time_in_force}
use eigen_book.OrderBook.Market.{book_preflight}
use eigen_book.OrderBook.Capacity.{required_limit_market_data_count}
use eigen_book.OrderBook.Modify.{modify_order}
use eigen_book.OrderBook.Modified.{Modifies, modify_order-Modifies}
use eigen_book.OrderBook.Fok.{add_limit_order-Filled}
use eigen_book.OrderBook.Add.{
  NewOrder, add_limit_order, refusal, static_refusal, flight_refusal, flight_of,
}
use eigen_book.OrderBook.Refused.{Admitted}
use eigen_book.Runs.BookSide.{added, added-IsSide}
use eigen_book.Runs.BookSide.Match.{floor, queues, floor_positive}

abbrev config : BookConfig
config = record {
  min_price = pos 100;
  max_price = pos 200;
  max_orders = 8;
  order_id_map_capacity = 4;
  tick_size = pos 1;
  event_log_capacity = 8;
  price_level_mode = PriceLevelMode.dense;
  lot_size = 1;
  self_trade_policy = SelfTradePolicy.disabled;
  market_data_capacity = 0;
}

abbrev no_bids : DenseBookSide
no_bids = new 5000 Side.buy (pos 100) (pos 200) (pos 1)

-- The ask is order 42, for 5 at 103, at address 7.
abbrev book : OrderBook
book = record {
  config = config;
  instrument_id = 1;
  orders = floor.pool;
  order_ids = (insert (OrderIdMap.new 4) 42 (some 7)).1;
  bids = no_bids;
  asks = added.1;
  event_log = EventLog.new 8 1;
  market_data = MarketData.new 0 1;
  next_sequence = 1;
}

abbrev book_queues : Bool → ℕ → List ℕ
book_queues true = λ i. []
book_queues false = queues

book-IsBook : IsBook book book_queues
unfolding new compute_level_count add_order append empty set_occupied reset index_for_price
    price_in_range
book-IsBook =
    IsBook-of book book_queues
      (new-IsSide added.0 5000 Side.buy (pos 100) (pos 200) (pos 1) (omega arith)) added-IsSide refl
      refl (λ i j h l e. omega arith)

ask-RestsAt : RestsAt book book_queues 7 false [] []
unfolding new compute_level_count add_order append empty set_occupied reset index_for_price
    price_in_range price_distance
ask-RestsAt = record { inside = omega arith; queued = refl }

book-HasRoom : HasRoom book
unfolding begin_operation start_operation begin_market_data EventLog.new MarketData.new
    EventLog.begin_operation EventLog.can_record MarketData.enabled
book-HasRoom = refl

abbrev bid : NewOrder
bid = record {
  id = 43;
  side = Side.buy;
  price = pos 105;
  quantity = 7;
  timestamp = 12;
  time_in_force = TimeInForce.fok;
  participant_id = 0;
  post_only = false;
}

abbrev flight : MatchPreflight
flight = record {
  executable_quantity = 5;
  fill_count = 1;
  resting_cancel_count = 0;
  aggressor_cancelled = false;
}

required_event_count-default_example :
    (required_limit_event_count flight 7 5 ≤ minimum_event_log_capacity 8)
    × (required_replace_event_count flight 7 5 ≤ minimum_event_log_capacity 9)
required_event_count-default_example =
    required_event_count-default flight 7 5 8 (omega arith) (omega arith)

abbrev whole_bid : NewOrder
whole_bid = record bid { quantity = 5 }

whole_bid-Admitted : Admitted book whole_bid
unfolding new compute_level_count add_order append empty set_occupied reset index_for_price
    price_in_range price_distance insert find_index hash splitmix64 OrderIdMap.new begin_operation
    start_operation begin_market_data EventLog.new MarketData.new EventLog.begin_operation
    EventLog.can_record MarketData.enabled refusal static_refusal flight_refusal flight_of
    validate_new_order valid valid_lot_quantity valid_time_in_force can_insert book_preflight
    executable_quantity executable_fill_count beyond crosses required_limit_event_count
    required_limit_market_data_count find_next_index_after count_level_fills
whole_bid-Admitted = record { named = refl; no_refusal = refl; room = refl }

add_limit_order-Filled_example :
    let result = (add_limit_order book whole_bid).1 in
    (result.status ≡ filled) × (result.executed_quantity ≡ 5)
unfolding MarketData.enabled MarketData.new
add_limit_order-Filled_example =
    add_limit_order-Filled book whole_bid queues refl refl refl added-IsSide floor_positive
      (omega arith) whole_bid-Admitted

ask_found_again : (find book.order_ids 42).0 ≡ some 7
unfolding insert find_index hash splitmix64 find OrderIdMap.new
ask_found_again = refl

modify_order-Modifies_example : Modifies book book_queues 7 2 (modify_order book 42 2 11)
unfolding valid_lot_quantity
modify_order-Modifies_example =
    modify_order-Modifies book book_queues 42 2 11 7 false [] [] book-IsBook ask-RestsAt
      ask_found_again refl book-HasRoom
