-- ===== src/BookSide/Dense/Orders.antt =====
-- include/BookSide.hpp: the operations of DenseBookSide that place, remove and reduce orders, and its
-- tests of room for a residual. The orders live in a memory that the operations write to.
use eigen_book.Prelude.{
  ℕ, ◌+◌, ◌-◌, Bool, true, false, ◌&&◌, ◌||◌, not, ◌==◌, ltb, update, u64_max, if◌then◌else◌,
}
use eigen_book.Prelude.Int.{ℤ, eqb_ℤ}
use eigen_book.Types.Enums.{
  Side, Status, accepted, internal_error, invalid_quantity, invalid_price,
  price_level_quantity_overflow,
}
use eigen_book.Order.{Order}
use eigen_book.PriceLevel.{
  PriceLevel, Store, is_null, points_to, empty, append, remove, set_quantity_keep_priority,
}
use eigen_book.BookSide.Dense.{
  DenseBookSide, price_in_range, index_for_price, set_occupied, clear_occupied,
}

-- The value of the enumeration's byte.
abbrev pub same_side : Side → Side → Bool
same_side Side.buy Side.buy = true
same_side Side.sell Side.sell = true
same_side (Side.raw m) (Side.raw n) = m == n
same_side a b = false

-- `&levels_[index]`
abbrev pub level_address : DenseBookSide → ℕ → ℕ
level_address s index = s.base + index

abbrev pub with_level : DenseBookSide → ℕ → PriceLevel → DenseBookSide
with_level s index level = record s { levels = update s.levels index level }

unfoldable pub add_order : Store → DenseBookSide → ℕ → Store × DenseBookSide × Status
add_order store s p =
    let order = store p in
    let index = index_for_price s order.price in
    let level = s.levels index in
    let (store', level', appended) = append store (level_address s index) level p in
    let s' = with_level s index level' in
    if not (same_side order.side s.side)
    then (store, s, internal_error)
    else if order.quantity == 0
    then (store, s, invalid_quantity)
    else if not (price_in_range s order.price)
    then (store, s, invalid_price)
    else if ltb (u64_max - level.total_quantity) order.quantity
    then (store, s, price_level_quantity_overflow)
    else if not appended
    then (store, s, internal_error)
    else (store', if empty level then set_occupied s' index else s', accepted)

unfoldable pub can_accept_residual : DenseBookSide → ℤ → ℕ → Status
can_accept_residual s price residual_quantity =
    let target_quantity = (s.levels (index_for_price s price)).total_quantity in
    if residual_quantity == 0
    then accepted
    else if not (price_in_range s price)
    then internal_error
    else if ltb (u64_max - target_quantity) residual_quantity
    then price_level_quantity_overflow
    else accepted

unfoldable pub can_accept_replacement_residual : DenseBookSide → Order → ℤ → ℕ → Status
can_accept_replacement_residual s old_order new_price residual_quantity =
    let target_index = index_for_price s new_price in
    let target_quantity = (s.levels target_index).total_quantity in
    let same_price = eqb_ℤ new_price old_order.price in
    let others = if same_price then target_quantity - old_order.quantity else target_quantity in
    if residual_quantity == 0
    then accepted
    else if not (same_side old_order.side s.side)
        || not (price_in_range s old_order.price)
        || not (price_in_range s new_price)
        || is_null old_order.level
    then internal_error
    else if same_price
        && (not (points_to old_order.level (level_address s target_index))
            || ltb target_quantity old_order.quantity)
    then internal_error
    else if ltb (u64_max - others) residual_quantity
    then price_level_quantity_overflow
    else accepted

unfoldable pub remove_order : Store → DenseBookSide → ℕ → Store × DenseBookSide × Status
remove_order store s p =
    let order = store p in
    let index = index_for_price s order.price in
    let address = level_address s index in
    let (store', level', removed) = remove store address (s.levels index) p in
    let s' = with_level s index level' in
    if not (same_side order.side s.side) || not (price_in_range s order.price)
    then (store, s, internal_error)
    else if not (points_to order.level address) || not removed
    then (store, s, internal_error)
    else (store', if empty level' then clear_occupied s' index else s', accepted)

unfoldable pub reduce_order : Store → DenseBookSide → ℕ → ℕ → Store × DenseBookSide × Status
reduce_order store s p new_quantity =
    let order = store p in
    let index = index_for_price s order.price in
    let (store', level', reduced) =
      set_quantity_keep_priority store (level_address s index) (s.levels index) p new_quantity in
    if not (same_side order.side s.side) || not (price_in_range s order.price)
    then (store, s, internal_error)
    else (store', with_level s index level', if reduced then accepted else internal_error)
