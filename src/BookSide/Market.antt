-- ===== src/BookSide/Market.antt =====
-- include/BookSide.hpp: what a change of a level tells the market-data log; no log is the null pointer.
use eigen_book.Prelude.{
  ℕ, Bool, true, false, ◌&&◌, ◌||◌, not, Option, none, some, ◌==◌, if◌then◌else◌,
}
use eigen_book.Prelude.Int.{ℤ, eqb_ℤ}
use eigen_book.Types.Enums.{Side}
use eigen_book.Types.Events.{
  BestQuote, MarketDataKind, level_created, level_deleted, level_quantity_changed,
}
use eigen_book.MarketData.{MarketDataLog, enabled, append_level, append_best}

abbrev eqb_Bool : Bool → Bool → Bool
eqb_Bool true b = b
eqb_Bool false b = not b

unfoldable pub same_best_quote : BestQuote → BestQuote → Bool
same_best_quote lhs rhs =
    eqb_Bool lhs.valid rhs.valid
    && (not lhs.valid
        || (eqb_ℤ lhs.price rhs.price
            && lhs.quantity == rhs.quantity
            && lhs.order_count == rhs.order_count))

-- The arguments of emit_market_data_level_change but the log.
pub record LevelChange : Type 0 where
  pub side : Side
  pub price : ℤ
  pub previous_quantity : ℕ
  pub quantity : ℕ
  pub order_count : ℕ
  pub previous_best : BestQuote
  pub best : BestQuote
  pub timestamp : ℕ

abbrev pub change_kind : LevelChange → MarketDataKind
change_kind c =
    if c.previous_quantity == 0
    then level_created
    else if c.quantity == 0
    then level_deleted
    else level_quantity_changed

pub emit_level_change : MarketDataLog → LevelChange → MarketDataLog
unfolding enabled
emit_level_change log c =
    let levelled = append_level log (record {
      kind = change_kind c;
      side = c.side;
      price = c.price;
      previous_quantity = c.previous_quantity;
      quantity = c.quantity;
      order_count = c.order_count;
      timestamp = c.timestamp;
    }) in
    if not (enabled log)
    then log
    else if not (same_best_quote c.previous_best c.best)
    then append_best levelled c.side c.best c.timestamp
    else levelled

unfoldable pub emit_market_data_level_change :
    Option MarketDataLog → LevelChange → Option MarketDataLog
unfolding emit_level_change
emit_market_data_level_change none c = none
emit_market_data_level_change (some log) c = some (emit_level_change log c)
