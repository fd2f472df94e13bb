-- ===== src/BookSide/Dense/Match.antt =====
-- include/BookSide.hpp: DenseBookSide::match_without_venue, and what it shares with the match of a venue.
-- A walk over a level's orders takes at most its `order_count` steps, one over the levels `level_count`.
pub mod Fills
pub mod Step
pub mod Level
pub mod Trading
pub mod Levels
pub mod Priority
pub mod Outcome
pub mod Predicted
pub mod Venue
use eigen_book.Prelude.{
  ℕ, zero, suc, ◌+◌, ◌-◌, ◌%◌, Bool, true, false, ◌&&◌, ◌||◌, not, Option, none, some, ◌==◌, ◌!=◌,
  u32_mod, u64_mod, if◌then◌else◌, update,
}
use eigen_book.Prelude.Int.{ℤ}
use eigen_book.Types.Enums.{
  Side, Status, internal_error, no_liquidity, filled, partially_filled, SelfTradePolicy,
  invalid_index,
}
use eigen_book.Types.Results.{MatchResult, no_match}
use eigen_book.Order.{Order, cleared}
use eigen_book.PriceLevel.{PriceLevel, Store, empty, fill_front, remove}
use eigen_book.MemoryPool.{MemoryPool, Slot, release}
use eigen_book.OrderIdMap.{OrderIdMap}
use eigen_book.OrderIdMap.Erase.{erase}
use eigen_book.EventLog.{EventLog, TradeEntry, append_trade}
use eigen_book.MarketData.{MarketDataLog}
use eigen_book.BookSide.Dense.{DenseBookSide, clear_occupied}
use eigen_book.BookSide.Dense.Orders.{with_level, level_address}
use eigen_book.BookSide.Dense.Liquidity.{beyond}

-- The orders that the pool's slots hold, and the pool with other orders in its slots.
abbrev pub orders_of : MemoryPool Order → Store
orders_of pool = λ i. (pool.slots i).storage

abbrev pub with_orders : MemoryPool Order → Store → MemoryPool Order
with_orders pool store = record pool { slots = λ i. record (pool.slots i) { storage = store i } }

-- The order that matches: the arguments that the loops only read.
pub record Aggressor : Type 0 where
  pub id : ℕ
  pub side : Side
  pub timestamp : ℕ
  pub participant : ℕ
  pub policy : SelfTradePolicy

-- What a match writes to, with its result so far.
pub record MatchState : Type 0 where
  pub side : DenseBookSide
  pub pool : MemoryPool Order
  pub order_ids : OrderIdMap
  pub event_log : EventLog
  pub market_data : Option MarketDataLog
  pub result : MatchResult

abbrev pub requesting : MatchState → ℕ → MatchState
requesting m quantity = record m {
  result = record no_match { requested_quantity = quantity; remaining_quantity = quantity };
}

abbrev pub with_status : MatchState → Status → MatchState
with_status m status = record m { result = record m.result { status = status } }

-- The result after an execution at a price.
abbrev pub count_fill : MatchResult → ℤ → ℕ → MatchResult
count_fill r price executed = record r {
  remaining_quantity = r.remaining_quantity - executed;
  executed_quantity = (r.executed_quantity + executed) % u64_mod;
  fills = suc r.fills % u32_mod;
  has_last_price = true;
  last_price = price;
}

abbrev pub trade_entry : Aggressor → ℕ → ℤ → ℕ → TradeEntry
trade_entry a resting_id price executed = record {
  aggressor_id = a.id;
  resting_id = resting_id;
  aggressor_side = a.side;
  price = price;
  quantity = executed;
  timestamp = a.timestamp;
}

-- Takes the order at `p` off level `i`, forgets its id and gives its slot back; false where the level
-- does not give it up.
pub retire : ℕ → ℕ → ℕ → MatchState → MatchState × Bool
retire i p resting_id m =
    let (store', level', removed) =
      remove (orders_of m.pool) (level_address m.side i) (m.side.levels i) p in
    if not removed then (with_status m internal_error, false) else (
      record m {
        side = with_level m.side i level';
        order_ids = (erase m.order_ids resting_id).1;
        pool = release (with_orders m.pool (update store' p cleared)) (some p);
      },
      true,
    )

-- The execution against the order at `p`, the oldest of level `i`, up to the trade event.
pub execute : Aggressor → ℕ → ℕ → MatchState → MatchState × ℕ
execute a i p m =
    let resting_id = (orders_of m.pool p).id in
    let (store', level', executed) =
      fill_front (orders_of m.pool) (m.side.levels i) m.result.remaining_quantity in
    let written : MatchState = record m {
      side = with_level m.side i level';
      pool = with_orders m.pool store';
    } in
    if executed == 0 then (with_status written internal_error, 0) else (
      record written {
        result = count_fill m.result level'.price executed;
        event_log = append_trade m.event_log (trade_entry a resting_id level'.price executed);
      },
      executed,
    )

-- One round of the inner loop; false where it answers InternalError.
pub fill_resting : Aggressor → ℕ → ℕ → MatchState → MatchState × Bool
unfolding execute retire
fill_resting a i p m =
    let (traded, executed) = execute a i p m in
    if executed == 0
    then (traded, false)
    else if (orders_of traded.pool p).quantity == 0
    then retire i p (orders_of m.pool p).id traded
    else (traded, true)

-- The inner loop of match_without_venue on level `i`.
pub fill_level : Aggressor → ℕ → MatchState → ℕ → MatchState × Bool
fill_level a i m zero = (m, true)
fill_level a i m (suc steps) = elim (m.result.remaining_quantity == 0) [
  | true ↦ (m, true)
  | false ↦ elim (m.side.levels i).head [
    | none ↦ (m, true)
    | some p ↦
        let (m', running) = fill_resting a i p m in
        elim running [ true ↦ fill_level a i m' steps | false ↦ (m', false) ]
  ]
]

abbrev pub leave_level : ℕ → MatchState → MatchState
leave_level i m = record m {
  side = if empty (m.side.levels i) then clear_occupied m.side i else m.side;
}

-- The outer loop of match_without_venue.
pub fill_levels : Aggressor → Option ℤ → MatchState → ℕ → MatchState × Bool
fill_levels a limit m zero = (m, true)
fill_levels a limit m (suc steps) =
    let i = m.side.best_index in
    elim (m.result.remaining_quantity == 0
      || i == invalid_index
      || beyond m.side limit (m.side.levels i).price) [
        | true ↦ (m, true)
        | false ↦
            let (m', running) = fill_level a i m (m.side.levels i).order_count in
            elim running [
              | true ↦ fill_levels a limit (leave_level i m') steps
              | false ↦ (m', false)
            ]
      ]

abbrev pub outcome : MatchResult → Status
outcome r =
    if r.executed_quantity == 0
    then no_liquidity
    else if r.remaining_quantity == 0
    then filled
    else partially_filled

unfoldable pub match_without_venue : Aggressor → Option ℤ → ℕ → MatchState → MatchState
unfolding fill_levels
match_without_venue a limit requested_quantity m =
    let (m', running) = fill_levels a limit (requesting m requested_quantity) m.side.level_count in
    if running then with_status m' (outcome m'.result) else m'
