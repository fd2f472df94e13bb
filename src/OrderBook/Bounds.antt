-- ===== src/OrderBook/Bounds.antt =====
-- include/OrderBook.hpp: the event counts against the capacity that a configuration gets by default.
use eigen_book.Prelude.{ℕ, suc, ◌+◌, ◌≤◌, ◌≡◌, u32_max, min, arith}
use eigen_book.BookSide.Dense.Preflight.{MatchPreflight}
use eigen_book.OrderBook.Capacity.{
  saturated_add, residual_event_count, minimum_event_log_capacity, required_limit_event_count,
  required_replace_event_count,
}

pub saturated_add-min : (a b : ℕ) → a ≤ u32_max → saturated_add a b ≡ min (a + b) u32_max
unfolding saturated_add
saturated_add-min a b h = ground arith

residual_event_count_le : (requested executable : ℕ) → residual_event_count requested executable ≤ 1
unfolding residual_event_count
residual_event_count_le requested executable = ground arith

minimum_event_log_capacity_ge :
    (max_orders : ℕ)
    → max_orders ≤ u32_max
    → min (max_orders + 2) u32_max ≤ minimum_event_log_capacity max_orders
unfolding minimum_event_log_capacity
minimum_event_log_capacity_ge max_orders h = ground arith

-- The sum that both counts are, with what they start from.
summed_le :
    (start fills cancels residual bound : ℕ)
    → start ≤ u32_max
    → start + fills + cancels + residual ≤ bound
    → saturated_add (saturated_add (saturated_add start fills) cancels) residual ≤ min bound u32_max
summed_le start fills cancels residual bound h k =
    let one = saturated_add-min start fills h in
    let two = saturated_add-min (saturated_add start fills) cancels (omega (arith, one)) in
    let three =
      saturated_add-min (saturated_add (saturated_add start fills) cancels) residual
        (omega (arith, two)) in
    omega (arith, one, two, three, k)

-- A match that meets at most as many orders as a pool holds needs no more events than the event log of such a
-- book has by default, and neither does a replacement in a pool that holds the replaced order as well: the
-- sums do not wrap.
pub required_event_count-default :
    (p : MatchPreflight) (requested executable max_orders : ℕ)
    → suc max_orders ≤ u32_max
    → p.fill_count + p.resting_cancel_count ≤ max_orders
    → (required_limit_event_count p requested executable ≤ minimum_event_log_capacity max_orders)
      × (required_replace_event_count p requested executable
          ≤ minimum_event_log_capacity (suc max_orders))
unfolding required_limit_event_count required_replace_event_count
required_event_count-default p requested executable max_orders h k =
    let residual = residual_event_count_le requested executable in
    let limit =
      summed_le 1 p.fill_count p.resting_cancel_count (residual_event_count requested executable)
        (max_orders + 2) (omega arith) (omega (arith, residual, k)) in
    let replace =
      summed_le 2 p.fill_count p.resting_cancel_count (residual_event_count requested executable)
        (max_orders + 3) (omega arith) (omega (arith, residual, k)) in
    (
      omega (arith, limit, minimum_event_log_capacity_ge max_orders (omega arith)),
      omega (arith, replace, minimum_event_log_capacity_ge (suc max_orders) h),
    )
