-- ===== src/Runs/MatchingEngine.antt =====
-- include/MatchingEngine.hpp: an engine with two instruments.
use eigen_book.Prelude.{ℕ, ◌≡◌, refl, true}
use eigen_book.Prelude.Int.{pos}
use eigen_book.Types.Enums.{Side, Status, SelfTradePolicy, PriceLevelMode, TimeInForce}
use eigen_book.Types.Config.{BookConfig, InstrumentConfig, valid, price_distance}
use eigen_book.OrderIdMap.Hash.{splitmix64}
use eigen_book.OrderBook
use eigen_book.OrderBook.{OrderBook}
use eigen_book.Command.{CommandOp, VenueCommand, valid_venue_command, valid_command}
use eigen_book.MatchingEngine.{
  InitError, MatchingEngine, find_book, lookup_in, lookup_loop, add_limit_order, route,
}
use eigen_book.MatchingEngine.Setup.{
  blank_engine, insert_instrument, lookup_insert_slot, insert_slot_loop, stored_config,
  put_instrument, lookup_capacity_for,
}
use eigen_book.MatchingEngine.Dispatch.{
  dispatch, dispatch_op, answer, finish_dispatch, with_market_data, count_dispatch_op,
}
use eigen_book.MatchingEngine.Tallied.{IsTallied, Tallies, dispatch-Tallies}

abbrev book_config : BookConfig
book_config = record {
  min_price = pos 100;
  max_price = pos 110;
  max_orders = 8;
  order_id_map_capacity = 0;
  tick_size = pos 1;
  event_log_capacity = 16;
  price_level_mode = PriceLevelMode.dense;
  lot_size = 0;
  self_trade_policy = SelfTradePolicy.disabled;
  market_data_capacity = 0;
}

abbrev instrument : ℕ → InstrumentConfig
instrument id = record {
  instrument_id = id;
  book_config = book_config;
  tick_size = pos 0;
  lot_size = 5;
  self_trade_policy = SelfTradePolicy.cancel_resting;
  market_data_capacity = 0;
}

abbrev address : ℕ → ℕ × ℕ
address i = (1000, 2000)

abbrev blank : MatchingEngine
blank = blank_engine 2

-- the engine with one instrument
abbrev one_engine : MatchingEngine
one_engine = put_instrument address blank (instrument 7) 3

abbrev one_book : OrderBook
one_book = OrderBook.new 1000 2000 (stored_config (instrument 7)).book_config 7

-- It is what insert_instrument makes of the blank engine.
one_inserted : insert_instrument address blank (instrument 7) ≡ (one_engine, InitError.no_error)
unfolding insert_instrument lookup_insert_slot insert_slot_loop lookup_capacity_for splitmix64 valid
    price_distance
one_inserted = refl

abbrev two_engine : MatchingEngine
two_engine = (insert_instrument address one_engine (instrument 9)).0

abbrev command : CommandOp → ℕ → VenueCommand
command op instrument_id = record {
  command = record {
    instrument_id = instrument_id;
    op = op;
    order_id = 42;
    side = Side.buy;
    price = pos 105;
    quantity = 5;
    time_in_force = TimeInForce.gtc;
    timestamp = 0;
  };
  participant_id = 0;
  post_only = true;
}

-- A cancel may not be post-only, and an add for an unknown instrument is refused.
bad_cancel : (dispatch one_engine (command CommandOp.cancel 7)).1.status ≡ Status.invalid_command
unfolding dispatch valid_venue_command valid_command finish_dispatch
bad_cancel = refl

unknown_add : (dispatch one_engine (command CommandOp.add 8)).1.status ≡ Status.unknown_instrument
unfolding dispatch valid_venue_command valid_command dispatch_op add_limit_order route find_book
    lookup_in lookup_loop put_instrument splitmix64 lookup_capacity_for answer finish_dispatch
    with_market_data count_dispatch_op
unknown_add = refl

one_engine-IsTallied : IsTallied one_engine
unfolding put_instrument
one_engine-IsTallied = record { counters = refl; total = refl }

dispatch-Tallies_example :
    Tallies one_engine
      (dispatch one_engine (command CommandOp.cancel 7)).0
      (dispatch one_engine (command CommandOp.cancel 7)).1.status
dispatch-Tallies_example =
    dispatch-Tallies one_engine (command CommandOp.cancel 7) one_engine-IsTallied
