-- ===== src/Runs/BookSide/Match.antt =====
-- include/BookSide.hpp: a request against a side with one order, through the pool, the id map and the logs.
use eigen_book.Prelude.{
  ℕ, ◌+◌, ◌≡◌, ◌⊎◌, true, false, arith, none, some, List, [], ◌∷◌, ◌==◌, All, map, update,
  Bool-cases, inl, inr,
}
use eigen_book.Prelude.Int.{pos}
use eigen_book.Types.Enums.{Side, SelfTradePolicy, invalid_index}
use eigen_book.Types.Results.{no_match}
use eigen_book.Order.{cleared}
use eigen_book.OrderIdMap
use eigen_book.EventLog
use eigen_book.EventLog.{TradeEntry, Entry, record_all}
use eigen_book.MemoryPool
use eigen_book.PriceLevel.{reset, append, empty}
use eigen_book.BookSide.Dense.{
  new, compute_level_count, price_in_range, index_for_price, set_occupied,
}
use eigen_book.BookSide.Dense.Orders.{add_order}
use eigen_book.BookSide.Dense.Liquidity.{beyond, executable_quantity}
use eigen_book.BookSide.Dense.Match.{
  Aggressor, MatchState, with_orders, orders_of, match_without_venue,
}
use eigen_book.BookSide.Dense.Match.Levels.{AllPositive}
use eigen_book.BookSide.Dense.Match.Priority.{Matched, match_without_venue-Matched}
use eigen_book.BookSide.Dense.Match.Predicted.{match_without_venue-executable_quantity}
use eigen_book.BookSide.Dense.Match.Outcome.{
  traded_quantity, match_without_venue-conserved, match_without_venue-uncrossed,
}
use eigen_book.Runs.BookSide.{added, added-IsSide}

abbrev taker : Aggressor
taker = record {
  id = 50;
  side = Side.buy;
  timestamp = 9;
  participant = 0;
  policy = SelfTradePolicy.disabled;
}

-- The side, and a pool that holds its order.
abbrev pub floor : MatchState
floor = record {
  side = added.1;
  pool = with_orders (MemoryPool.new 8 cleared) added.0;
  order_ids = OrderIdMap.new 16;
  event_log = EventLog.new 8 1;
  market_data = none;
  result = no_match;
}

abbrev pub queues : ℕ → List ℕ
queues = update (λ i. []) 3 (7 ∷ [])

pub floor_positive : AllPositive (orders_of floor.pool) floor.side queues
unfolding index_for_price price_in_range new reset compute_level_count add_order append empty
    set_occupied
floor_positive j h = elim (Bool-cases (j == 3)) [ inl e ↦ rw e (omega arith, tt) | inr e ↦ rw e tt ]

match_without_venue-Matched_example :
    Matched taker
      (some (pos 110))
      9
      queues
      floor
      (match_without_venue taker (some (pos 110)) 9 floor)
match_without_venue-Matched_example =
    match_without_venue-Matched taker (some (pos 110)) 9 queues floor added-IsSide floor_positive
      (omega arith)

match_without_venue-conserved_example :
    let m' = match_without_venue taker (some (pos 110)) 9 floor in
    (trades : List TradeEntry) × (m'.event_log
      ≡ record_all floor.event_log (map Entry.trade trades))
    × (traded_quantity trades ≡ m'.result.executed_quantity)
    × (m'.result.executed_quantity + m'.result.remaining_quantity ≡ 9)
    × All (λ t. beyond floor.side (some (pos 110)) t.price ≡ false) trades
match_without_venue-conserved_example =
    match_without_venue-conserved taker (some (pos 110)) 9 queues floor added-IsSide floor_positive
      (omega arith)

match_without_venue-uncrossed_example :
    let m' = match_without_venue taker (some (pos 110)) 9 floor in
    (m'.result.remaining_quantity ≡ 0)
    ⊎ ((m'.side.best_index ≡ invalid_index)
        ⊎ (beyond m'.side (some (pos 110)) (m'.side.levels m'.side.best_index).price ≡ true))
match_without_venue-uncrossed_example =
    match_without_venue-uncrossed taker (some (pos 110)) 9 queues floor added-IsSide floor_positive
      (omega arith)

match_without_venue-executable_quantity_example :
    (match_without_venue taker (some (pos 110)) 9 floor).result.executed_quantity
    ≡ executable_quantity floor.side 9 (some (pos 110))
match_without_venue-executable_quantity_example =
    match_without_venue-executable_quantity taker (some (pos 110)) 9 queues floor added-IsSide
      floor_positive (omega arith)
