-- ===== src/MatchingEngine/Queries.antt =====
-- include/MatchingEngine.hpp: what the engine tells of its books, and the hash of its state.
use eigen_book.Prelude.{
  ℕ, zero, suc, Option, none, some, List, [], ◌++◌, false, ◌&&◌, ltb, leb, u32_max, if◌then◌else◌,
}
use eigen_book.Prelude.Int.{ℤ, pos}
use eigen_book.Types.Enums.{Side, Status, null_instrument_id}
use eigen_book.Types.Events.{BestQuote, BookEvent, MarketDataEvent}
use eigen_book.BookSide.Dense.Liquidity.{DepthLevel}
use eigen_book.OrderBook.{OrderBook}
use eigen_book.OrderBook.Queries
use eigen_book.OrderBook.Queries.{TopOfBook}
use eigen_book.OrderBook.Checksum.{checksum_bytes, checksum_offset_basis, le_bytes}
use eigen_book.OrderBook.Checksum
use eigen_book.MatchingEngine.{MatchingEngine, find_book}

-- `BestQuote{}`
abbrev no_quote : BestQuote
no_quote = record { valid = false; price = pos 0; quantity = 0; order_count = 0 }

-- The answer of a book, or the one for an instrument that is unknown.
abbrev ask {ℓ} : {A : Type ℓ} → MatchingEngine → ℕ → A → (OrderBook → A) → A
ask engine id unknown answer = elim (find_book engine id) [
  | none ↦ unknown
  | some book ↦ answer book
]

unfoldable pub depth : MatchingEngine → ℕ → Side → ℕ → List DepthLevel
depth engine id side max_levels = ask engine id [] (λ book. Queries.depth book side max_levels)

unfoldable pub top_of_book : MatchingEngine → ℕ → TopOfBook
top_of_book engine id =
    ask engine id (record { status = Status.unknown_instrument; bid = no_quote; ask = no_quote })
      Queries.top_of_book

unfoldable pub best_bid : MatchingEngine → ℕ → BestQuote
best_bid engine id = ask engine id no_quote Queries.best_bid

unfoldable pub best_ask : MatchingEngine → ℕ → BestQuote
best_ask engine id = ask engine id no_quote Queries.best_ask

unfoldable pub depth_at_price : MatchingEngine → ℕ → Side → ℤ → ℕ
depth_at_price engine id side price =
    ask engine id 0 (λ book. Queries.depth_at_price book side price)

unfoldable pub order_count_at_price : MatchingEngine → ℕ → Side → ℤ → ℕ
order_count_at_price engine id side price =
    ask engine id 0 (λ book. Queries.order_count_at_price book side price)

unfoldable pub last_events : MatchingEngine → ℕ → List BookEvent
last_events engine id = ask engine id [] Queries.last_events

unfoldable pub last_market_data_events : MatchingEngine → ℕ → List MarketDataEvent
last_market_data_events engine id = ask engine id [] Queries.last_market_data_events

unfoldable pub market_data_sequence : MatchingEngine → ℕ → ℕ
market_data_sequence engine id = ask engine id 0 (λ book. book.market_data.current_sequence)

-- The inner loop of state_checksum, with the instruments left from `index` on.
select_loop : MatchingEngine → ℕ → ℕ → ℕ → ℕ × Option OrderBook → ℕ × Option OrderBook
select_loop engine previous index zero selected = selected
select_loop engine previous index (suc steps) selected =
    let state = engine.instruments index in
    let candidate = state.config.instrument_id in
    select_loop engine previous (suc index) steps (
      if ltb previous candidate && leb candidate selected.0
      then (candidate, state.book)
      else selected)

-- The outer loop, with the ranks left: the bytes that are fed.
ranked_bytes : MatchingEngine → ℕ → ℕ → List ℕ
unfolding select_loop
ranked_bytes engine previous zero = []
ranked_bytes engine previous (suc ranks) =
    let selected = select_loop engine previous 0 engine.instrument_count (u32_max, none) in
    elim selected.1 [
      | none ↦ []
      | some book ↦
          le_bytes 8 selected.0
          ++ le_bytes 8 (Checksum.state_checksum book)
          ++ ranked_bytes engine selected.0 ranks
    ]

unfoldable pub state_checksum : MatchingEngine → ℕ
unfolding ranked_bytes
state_checksum engine = checksum_bytes checksum_offset_basis (
    le_bytes 8 engine.instrument_count
    ++ ranked_bytes engine null_instrument_id engine.instrument_count)
