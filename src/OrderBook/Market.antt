-- ===== src/OrderBook/Market.antt =====
-- include/OrderBook.hpp: match_market_order.
use eigen_book.Prelude.{ℕ, Bool, false, not, ◌||◌, Option, none, some, if◌then◌else◌}
use eigen_book.Prelude.Int.{ℤ, pos}
use eigen_book.Types.Enums.{Side, is_buy, is_sell, gtc, invalid_command}
use eigen_book.Types.Results.{MatchResult, no_match}
use eigen_book.MarketData.{MarketDataLog, enabled}
use eigen_book.BookSide.Dense.{DenseBookSide}
use eigen_book.BookSide.Dense.Liquidity.{executable_quantity, executable_fill_count}
use eigen_book.BookSide.Dense.Preflight.{MatchPreflight, is_disabled, preflight}
use eigen_book.BookSide.Dense.Match.{orders_of, Aggressor, MatchState}
use eigen_book.BookSide.Dense.Match.Venue.{match}
use eigen_book.OrderBook.{
  OrderBook, book_side, with_side, is_accepted, valid_lot_quantity, lot_status, begin_operation,
  start_operation, active_market_data, rejection, reject, finish_match,
}
use eigen_book.OrderBook.Capacity.{saturated_add, required_match_market_data_count}

-- The other side of the book, by the value of the enumeration's byte.
abbrev pub contra : Side → Side
contra Side.buy = Side.sell
contra side = Side.buy

abbrev pub named_side : Side → Bool
named_side side = is_buy side || is_sell side

-- What the match of an aggressor would do, as the book counts it under its policy.
unfoldable pub book_preflight : OrderBook → DenseBookSide → ℕ → Option ℤ → ℕ → MatchPreflight
book_preflight book s quantity limit participant =
    let store = orders_of book.orders in
    if is_disabled book.config.self_trade_policy
    then record {
      executable_quantity = executable_quantity s quantity limit;
      fill_count = executable_fill_count store s quantity limit;
      resting_cancel_count = 0;
      aggressor_cancelled = false;
    }
    else preflight store book.config.self_trade_policy participant s quantity limit

abbrev or_kept : Option MarketDataLog → MarketDataLog → MarketDataLog
or_kept none log = log
or_kept (some told) log = told

-- What a match on a side of the book writes to.
abbrev pub matching : OrderBook → Side → MatchState
matching book side = record {
  side = book_side book side;
  pool = book.orders;
  order_ids = book.order_ids;
  event_log = book.event_log;
  market_data = active_market_data book;
  result = no_match;
}

-- The match on a side of the book, and the book with what it writes to.
unfoldable pub match_side : OrderBook → Side → Aggressor → Option ℤ → ℕ → OrderBook × MatchResult
match_side book side a limit quantity =
    let m = match a limit quantity (matching book side) in
    (
      record (with_side book side m.side) {
        orders = m.pool;
        order_ids = m.order_ids;
        event_log = m.event_log;
        market_data = or_kept m.market_data book.market_data;
      },
      m.result,
    )

pub match_valid : OrderBook → Aggressor → ℕ → OrderBook × MatchResult
match_valid book a quantity =
    let flight = book_preflight book (book_side book (contra a.side)) quantity none a.participant in
    let (started, status) =
      start_operation book (saturated_add flight.fill_count flight.resting_cancel_count)
        (required_match_market_data_count (enabled book.market_data) flight) in
    let failed : MatchResult = record no_match {
      requested_quantity = quantity;
      remaining_quantity = quantity;
      status = status;
    } in
    let (matched, result) = match_side started (contra a.side) a none quantity in
    if not (is_accepted status)
    then (started, finish_match started failed)
    else (matched, finish_match matched result)

-- The policy of the aggressor is the book's.
unfoldable pub match_market_order : OrderBook → Aggressor → ℕ → OrderBook × MatchResult
unfolding match_valid
match_market_order book a quantity =
    let opened = begin_operation book in
    let echoed : MatchResult = record no_match {
      requested_quantity = quantity;
      remaining_quantity = quantity;
    } in
    let (rejected, status) =
      reject opened
        (rejection (lot_status quantity) a.id a.side (pos 0) quantity a.timestamp gtc) in
    if not (named_side a.side)
    then (opened, finish_match opened (record echoed { status = invalid_command }))
    else if not (valid_lot_quantity book quantity)
    then (rejected, finish_match rejected (record echoed { status = status }))
    else match_valid opened (record a { policy = book.config.self_trade_policy }) quantity
