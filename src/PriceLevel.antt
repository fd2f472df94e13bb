-- ===== src/PriceLevel.antt =====
-- include/PriceLevel.hpp: the intrusive doubly linked queue of the orders at one price.
-- The orders live in a memory that the level's operations write to; `self` is the level's address.
-- A C++ method that returns false answers the state it was given.
pub mod Fifo
pub mod Segment
pub mod Append
pub mod Remove
pub mod Quantity
pub mod Frame
use eigen_book.Prelude.{
  ℕ, suc, ◌+◌, ◌-◌, Bool, true, false, ◌||◌, not, Option, none, some, ◌==◌, ltb, u64_max, min,
  update, if◌then◌else◌,
}
use eigen_book.Prelude.Int.{ℤ}
use eigen_book.Types.Enums.{OrderState, resting, filled, partially_filled}
use eigen_book.Order.{Order}

pub record PriceLevel : Type 0 where
  pub price : ℤ
  pub total_quantity : ℕ
  pub order_count : ℕ
  pub head : Option ℕ
  pub tail : Option ℕ

abbrev pub Store : Type 0
Store = ℕ → Order

unfoldable pub reset : ℤ → PriceLevel
reset price = record {
  price = price;
  total_quantity = 0;
  order_count = 0;
  head = none;
  tail = none;
}

abbrev pub is_null : Option ℕ → Bool
is_null none = true
is_null (some p) = false

-- `pointer == q`
abbrev pub points_to : Option ℕ → ℕ → Bool
points_to none q = false
points_to (some p) q = p == q

-- `if (pointer != nullptr) pointer->next = value`, and the same for `prev`
abbrev pub set_next : Store → Option ℕ → Option ℕ → Store
set_next store none value = store
set_next store (some p) value = update store p (record (store p) { next = value })

abbrev pub set_prev : Store → Option ℕ → Option ℕ → Store
set_prev store none value = store
set_prev store (some p) value = update store p (record (store p) { prev = value })

unfoldable pub empty : PriceLevel → Bool
empty level = is_null level.head

append_linked : Store → ℕ → PriceLevel → ℕ → Store × PriceLevel × Bool
append_linked store self level p =
    let order = store p in
    let placed = record order {
      level = some self;
      prev = level.tail;
      next = none;
      state = resting;
    } in
    (
      set_next (update store p placed) level.tail (some p),
      record level {
        head = if is_null level.tail then some p else level.head;
        tail = some p;
        total_quantity = level.total_quantity + order.quantity;
        order_count = suc level.order_count;
      },
      true,
    )

unfoldable pub append : Store → ℕ → PriceLevel → ℕ → Store × PriceLevel × Bool
unfolding append_linked
append store self level p =
    let order = store p in
    if order.quantity == 0
      || not (is_null order.level)
      || not (is_null order.prev)
      || not (is_null order.next)
    then (store, level, false)
    else if ltb (u64_max - level.total_quantity) order.quantity
    then (store, level, false)
    else append_linked store self level p

remove_linked : Store → PriceLevel → ℕ → Store × PriceLevel × Bool
remove_linked store level p =
    let order = store p in
    let bridged = set_prev (set_next store order.prev order.next) order.next order.prev in
    (
      update bridged p (record (bridged p) { prev = none; next = none; level = none }),
      record level {
        head = if is_null order.prev then order.next else level.head;
        tail = if is_null order.next then order.prev else level.tail;
        total_quantity = level.total_quantity - order.quantity;
        order_count = level.order_count - 1;
      },
      true,
    )

unfoldable pub remove : Store → ℕ → PriceLevel → ℕ → Store × PriceLevel × Bool
unfolding remove_linked
remove store self level p =
    let order = store p in
    if not (points_to order.level self)
      || level.order_count == 0
      || ltb level.total_quantity order.quantity
    then (store, level, false)
    else remove_linked store level p

unfoldable pub set_quantity_keep_priority :
    Store → ℕ → PriceLevel → ℕ → ℕ → Store × PriceLevel × Bool
set_quantity_keep_priority store self level p new_quantity =
    let order = store p in
    let delta = order.quantity - new_quantity in
    if not (points_to order.level self) || new_quantity == 0 || ltb order.quantity new_quantity
    then (store, level, false)
    else if ltb level.total_quantity delta
    then (store, level, false)
    else (
      update store p (record order { quantity = new_quantity }),
      record level { total_quantity = level.total_quantity - delta },
      true,
    )

fill_head : Store → PriceLevel → ℕ → ℕ → Store × PriceLevel × ℕ
fill_head store level h requested_quantity =
    let executed = min requested_quantity (store h).quantity in
    let left = (store h).quantity - executed in
    (
      update store h (record (store h) {
        quantity = left;
        state = if left == 0 then filled else partially_filled;
      }),
      record level { total_quantity = level.total_quantity - executed },
      executed,
    )

unfoldable pub fill_front : Store → PriceLevel → ℕ → Store × PriceLevel × ℕ
unfolding fill_head
fill_front store level requested_quantity =
    if is_null level.head || requested_quantity == 0 then (store, level, 0) else elim level.head [
      | none ↦ (store, level, 0)
      | some h ↦ fill_head store level h requested_quantity
    ]
