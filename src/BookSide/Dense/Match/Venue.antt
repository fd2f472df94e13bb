-- ===== src/BookSide/Dense/Match/Venue.antt =====
-- include/BookSide.hpp: DenseBookSide::match, with self-trade prevention and market data.
-- A walk over a level's orders takes at most its `order_count` steps, one over the levels `level_count`.
use eigen_book.Prelude.{
  ℕ, zero, suc, Bool, true, false, ◌&&◌, ◌||◌, not, Option, none, some, ◌==◌, if◌then◌else◌,
}
use eigen_book.Prelude.Int.{ℤ}
use eigen_book.Types.Enums.{self_trade_prevented, SelfTradePolicy, invalid_index, gtc}
use eigen_book.Types.Events.{BookEventKind}
use eigen_book.PriceLevel.{empty}
use eigen_book.EventLog.{append_order}
use eigen_book.MarketData.{MarketDataLog, append_trade}
use eigen_book.BookSide.Market.{emit_market_data_level_change}
use eigen_book.BookSide.Dense.Liquidity.{beyond, best_quote, count_saturating}
use eigen_book.BookSide.Dense.Preflight.{is_disabled, self_trades}
use eigen_book.BookSide.Dense.Match.{
  orders_of, Aggressor, MatchState, requesting, with_status, execute, retire, leave_level, outcome,
  match_without_venue,
}

-- After a change of level `i`: its mark, and what the market-data log is told of it, against the level and
-- the best quote of `before`.
pub tell_change : Aggressor → ℕ → MatchState → MatchState → MatchState
tell_change a i before m =
    let left = leave_level i m in
    record left {
      market_data = emit_market_data_level_change m.market_data (record {
        side = m.side.side;
        price = (before.side.levels i).price;
        previous_quantity = (before.side.levels i).total_quantity;
        quantity = (m.side.levels i).total_quantity;
        order_count = (m.side.levels i).order_count;
        previous_best = best_quote before.side;
        best = best_quote left.side;
        timestamp = a.timestamp;
      });
    }

-- How a round of the inner loop ends: the loop goes on, the level is done with, matching stops, or it
-- answers InternalError.
pub data Round : Type 0 where
  goes_on leaves_level stops_matching fails : Round

abbrev pub next_round : Bool → Round
next_round true = leaves_level
next_round false = goes_on

abbrev pub cancel_aggressor : MatchState → MatchState
cancel_aggressor m = record m { result = record m.result { aggressor_cancelled_by_stp = true } }

abbrev pub cancels_both : SelfTradePolicy → Bool
cancels_both SelfTradePolicy.cancel_both = true
cancels_both policy = false

abbrev pub cancels_aggressor : SelfTradePolicy → Bool
cancels_aggressor SelfTradePolicy.cancel_aggressor = true
cancels_aggressor policy = false

-- The resting order at `p` is cancelled, as it is the aggressor's own.
pub cancel_resting : Aggressor → ℕ → ℕ → MatchState → MatchState × Bool
cancel_resting a i p m =
    let order = orders_of m.pool p in
    let (retired, removed) = retire i p order.id m in
    let counted : MatchState = record retired {
      result = record retired.result {
        resting_orders_cancelled_by_stp =
            count_saturating retired.result.resting_orders_cancelled_by_stp;
      };
      event_log = append_order retired.event_log (record {
        kind = BookEventKind.order_cancelled;
        status = self_trade_prevented;
        order_id = order.id;
        side = m.side.side;
        price = (m.side.levels i).price;
        quantity = order.quantity;
        timestamp = a.timestamp;
        time_in_force = gtc;
        old_quantity = 0;
        new_quantity = 0;
      });
    } in
    if not removed then (retired, false) else (tell_change a i m counted, true)

pub self_trade_round : Aggressor → ℕ → ℕ → MatchState → MatchState × Round
unfolding cancel_resting
self_trade_round a i p m =
    let (cancelled, removed) = cancel_resting a i p m in
    if cancels_aggressor a.policy
    then (cancel_aggressor m, stops_matching)
    else if not removed
    then (cancelled, fails)
    else if cancels_both a.policy
    then (cancel_aggressor cancelled, stops_matching)
    else (cancelled, next_round (empty (cancelled.side.levels i)))

tell_trade : Aggressor → ℕ → ℤ → ℕ → Option MarketDataLog → Option MarketDataLog
tell_trade a resting_id price executed none = none
tell_trade a resting_id price executed (some log) = some (
    append_trade log (record {
      aggressor_side = a.side;
      price = price;
      quantity = executed;
      aggressor_id = a.id;
      resting_id = resting_id;
      timestamp = a.timestamp;
    }))

pub trade_round : Aggressor → ℕ → ℕ → MatchState → MatchState × Round
unfolding tell_trade
trade_round a i p m =
    let resting_id = (orders_of m.pool p).id in
    let (traded, executed) = execute a i p m in
    let told : MatchState = record traded {
      market_data = tell_trade a resting_id (m.side.levels i).price executed traded.market_data;
    } in
    let (settled, removed) =
      if (orders_of told.pool p).quantity == 0 then retire i p resting_id told else (told, true) in
    let changed = tell_change a i m settled in
    if executed == 0
    then (traded, fails)
    else if not removed
    then (settled, fails)
    else (changed, next_round (empty (changed.side.levels i)))

-- The inner loop of match on level `i`.
pub venue_level : Aggressor → ℕ → MatchState → ℕ → MatchState × Round
unfolding self_trade_round trade_round
venue_level a i m zero = (m, goes_on)
venue_level a i m (suc steps) = elim (m.result.remaining_quantity == 0) [
  | true ↦ (m, goes_on)
  | false ↦ elim (m.side.levels i).head [
    | none ↦ (m, goes_on)
    | some p ↦
        let own = self_trades a.policy a.participant (orders_of m.pool p).participant_id in
        let (m', round) = if own then self_trade_round a i p m else trade_round a i p m in
        elim round [
          | goes_on ↦ venue_level a i m' steps
          | leaves_level ↦ (m', leaves_level)
          | stops_matching ↦ (m', stops_matching)
          | fails ↦ (m', fails)
        ]
  ]
]

-- The outer loop of match; false where it answers InternalError.
pub venue_levels : Aggressor → Option ℤ → MatchState → ℕ → MatchState × Bool
unfolding venue_level
venue_levels a limit m zero = (m, true)
venue_levels a limit m (suc steps) =
    let i = m.side.best_index in
    elim (m.result.remaining_quantity == 0
      || i == invalid_index
      || beyond m.side limit (m.side.levels i).price) [
        | true ↦ (m, true)
        | false ↦
            let (m', round) = venue_level a i m (m.side.levels i).order_count in
            elim round [
              | goes_on ↦ venue_levels a limit m' steps
              | leaves_level ↦ venue_levels a limit m' steps
              | stops_matching ↦ (m', true)
              | fails ↦ (m', false)
            ]
      ]

abbrev is_none : Option MarketDataLog → Bool
is_none none = true
is_none (some log) = false

unfoldable pub match : Aggressor → Option ℤ → ℕ → MatchState → MatchState
unfolding venue_levels
match a limit requested_quantity m =
    let (m', running) = venue_levels a limit (requesting m requested_quantity) m.side.level_count in
    let status =
      if m'.result.aggressor_cancelled_by_stp && m'.result.executed_quantity == 0
      then self_trade_prevented
      else outcome m'.result in
    if is_disabled a.policy && is_none m.market_data
    then match_without_venue a limit requested_quantity m
    else if running
    then with_status m' status
    else m'
