-- ===== src/OrderBook/Capacity.antt =====
-- include/OrderBook.hpp: the capacities that a configuration leaves open, and how many events an operation
-- has to have room for. A count is a 32-bit number.
use eigen_book.Prelude.{ℕ, ◌+◌, ◌-◌, ◌*◌, ◌/◌, Bool, ◌&&◌, not, ◌==◌, ltb, u32_max, if◌then◌else◌}
use eigen_book.Types.Config.{BookConfig}
use eigen_book.BookSide.Dense.Preflight.{MatchPreflight}

abbrev pub max : ℕ → ℕ → ℕ
max a b = if ltb a b then b else a

unfoldable pub saturated_double : ℕ → ℕ
saturated_double value = if ltb (u32_max / 2) value then u32_max else max 2 (value * 2)

unfoldable pub minimum_event_log_capacity : ℕ → ℕ
minimum_event_log_capacity max_orders =
    if ltb (u32_max - 2) max_orders then u32_max else max 8 (max_orders + 2)

unfoldable pub normalize_config : BookConfig → BookConfig
unfolding saturated_double minimum_event_log_capacity
normalize_config c = record c {
  order_id_map_capacity =
      if c.order_id_map_capacity == 0 && not (c.max_orders == 0)
      then saturated_double c.max_orders
      else c.order_id_map_capacity;
  event_log_capacity =
      if c.event_log_capacity == 0
      then minimum_event_log_capacity c.max_orders
      else c.event_log_capacity;
}

unfoldable pub effective_order_id_capacity : BookConfig → ℕ
unfolding saturated_double
effective_order_id_capacity c =
    if c.order_id_map_capacity == 0 then saturated_double c.max_orders else c.order_id_map_capacity

unfoldable pub saturated_add : ℕ → ℕ → ℕ
saturated_add lhs rhs = if ltb (u32_max - lhs) rhs then u32_max else lhs + rhs

unfoldable pub saturated_multiply : ℕ → ℕ → ℕ
saturated_multiply value multiplier =
    if ltb (u32_max / multiplier) value then u32_max else value * multiplier

unfoldable pub residual_event_count : ℕ → ℕ → ℕ
residual_event_count requested executable = if ltb executable requested then 1 else 0

unfoldable pub required_limit_event_count : MatchPreflight → ℕ → ℕ → ℕ
unfolding saturated_add residual_event_count
required_limit_event_count p requested executable =
    saturated_add (saturated_add (saturated_add 1 p.fill_count) p.resting_cancel_count)
      (residual_event_count requested executable)

unfoldable pub required_replace_event_count : MatchPreflight → ℕ → ℕ → ℕ
unfolding saturated_add residual_event_count
required_replace_event_count p requested executable =
    saturated_add (saturated_add (saturated_add 2 p.fill_count) p.resting_cancel_count)
      (residual_event_count requested executable)

-- The market-data counts, by whether the market-data log is enabled.
unfoldable pub required_single_level_market_data_count : Bool → ℕ
required_single_level_market_data_count enabled = if enabled then 2 else 0

unfoldable pub required_match_market_data_count : Bool → MatchPreflight → ℕ
unfolding saturated_add saturated_multiply
required_match_market_data_count enabled p =
    if not enabled
    then 0
    else saturated_add (saturated_multiply p.fill_count 3)
        (saturated_multiply p.resting_cancel_count 2)

unfoldable pub required_limit_market_data_count : Bool → MatchPreflight → ℕ → ℕ → ℕ
unfolding saturated_add required_match_market_data_count required_single_level_market_data_count
required_limit_market_data_count enabled p requested executable =
    let required = required_match_market_data_count enabled p in
    if not p.aggressor_cancelled && ltb executable requested
    then saturated_add required (required_single_level_market_data_count enabled)
    else required

unfoldable pub required_replace_market_data_count : Bool → MatchPreflight → ℕ → ℕ → ℕ
unfolding saturated_add required_match_market_data_count required_single_level_market_data_count
required_replace_market_data_count enabled p requested executable =
    let required =
      saturated_add (required_single_level_market_data_count enabled)
        (required_match_market_data_count enabled p) in
    if not enabled
    then 0
    else if not p.aggressor_cancelled && ltb executable requested
    then saturated_add required (required_single_level_market_data_count enabled)
    else required
