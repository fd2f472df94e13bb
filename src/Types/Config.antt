-- ===== src/Types/Config.antt =====
-- include/Types.hpp: price_distance and BookConfig.
use eigen_book.Prelude.{
  ℕ, ◌+◌, ◌-◌, ◌/◌, ◌%◌, ◌^◌, Bool, true, false, ◌||◌, not, ◌==◌, ◌!=◌, ltb, u32_max, u64_mod,
  if◌then◌else◌,
}
use eigen_book.Prelude.Int.{ℤ, pos, ltb_ℤ, leb_ℤ, u64_of_i64}
use eigen_book.Types.Enums.{PriceLevelMode, SelfTradePolicy}

-- upper - lower in uint64_t arithmetic
unfoldable pub price_distance : ℤ → ℤ → ℕ
price_distance lower upper = (u64_of_i64 upper + u64_mod - u64_of_i64 lower) % u64_mod

pub record BookConfig : Type 0 where
  pub min_price : ℤ
  pub max_price : ℤ
  pub max_orders : ℕ
  pub order_id_map_capacity : ℕ
  pub tick_size : ℤ
  pub event_log_capacity : ℕ
  pub price_level_mode : PriceLevelMode
  pub lot_size : ℕ
  pub self_trade_policy : SelfTradePolicy
  pub market_data_capacity : ℕ

named_mode : PriceLevelMode → Bool
named_mode PriceLevelMode.dense = true
named_mode PriceLevelMode.sparse = true
named_mode (PriceLevelMode.raw n) = false

-- `policy > CancelBoth` holds of the unnamed values alone
pub unnamed_policy : SelfTradePolicy → Bool
unnamed_policy (SelfTradePolicy.raw n) = true
unnamed_policy p = false

-- BookConfig::valid, from the second statement on
valid_range : BookConfig → Bool
valid_range c =
    let range = price_distance c.min_price c.max_price in
    let tick = u64_of_i64 c.tick_size in
    if ltb (2 ^ 63 - 1) range
    then false
    else if range % tick != 0
    then false
    else ltb (range / tick) u32_max

-- BookConfig::valid
unfoldable pub valid : BookConfig → Bool
unfolding named_mode unnamed_policy valid_range price_distance
valid c =
    if ltb_ℤ c.max_price c.min_price
      || c.max_orders == 0
      || leb_ℤ c.tick_size (pos 0)
      || not (named_mode c.price_level_mode)
      || unnamed_policy c.self_trade_policy
    then false
    else valid_range c

-- BookConfig::price_level_count
unfoldable pub price_level_count : BookConfig → ℕ
unfolding valid price_distance
price_level_count c =
    if not (valid c)
    then 0
    else (price_distance c.min_price c.max_price / u64_of_i64 c.tick_size + 1) % 2 ^ 32

pub record InstrumentConfig : Type 0 where
  pub instrument_id : ℕ
  pub book_config : BookConfig
  pub tick_size : ℤ
  pub lot_size : ℕ
  pub self_trade_policy : SelfTradePolicy
  pub market_data_capacity : ℕ
