-- ===== src/OrderBook/Queries.antt =====
-- include/OrderBook.hpp: what the book tells of itself.
use eigen_book.Prelude.{ℕ, Option, List}
use eigen_book.Prelude.Int.{ℤ}
use eigen_book.Types.Enums.{Side, Status, accepted}
use eigen_book.Types.Events.{BestQuote, BookEvent, MarketDataEvent}
use eigen_book.OrderIdMap
use eigen_book.EventLog
use eigen_book.MarketData
use eigen_book.BookSide.Dense.Liquidity
use eigen_book.BookSide.Dense.Liquidity.{DepthLevel}
use eigen_book.OrderBook.{OrderBook, book_side}

pub record TopOfBook : Type 0 where
  pub status : Status
  pub bid : BestQuote
  pub ask : BestQuote

unfoldable pub best_bid : OrderBook → BestQuote
best_bid book = Liquidity.best_quote book.bids

unfoldable pub best_ask : OrderBook → BestQuote
best_ask book = Liquidity.best_quote book.asks

unfoldable pub top_of_book : OrderBook → TopOfBook
top_of_book book = record { status = accepted; bid = best_bid book; ask = best_ask book }

unfoldable pub depth_at_price : OrderBook → Side → ℤ → ℕ
depth_at_price book side price = Liquidity.depth_at_price (book_side book side) price

unfoldable pub depth : OrderBook → Side → ℕ → List DepthLevel
depth book side max_levels = Liquidity.depth (book_side book side) max_levels

unfoldable pub order_count_at_price : OrderBook → Side → ℤ → ℕ
order_count_at_price book side price = Liquidity.order_count_at_price (book_side book side) price

-- find_order, which counts its probes in the id map
unfoldable pub find_order : OrderBook → ℕ → Option ℕ × OrderBook
find_order book id =
    let (order, looked) = OrderIdMap.find book.order_ids id in
    (order, record book { order_ids = looked })

unfoldable pub last_events : OrderBook → List BookEvent
last_events book = EventLog.last_events book.event_log

unfoldable pub last_market_data_events : OrderBook → List MarketDataEvent
last_market_data_events book = MarketData.last_events book.market_data
