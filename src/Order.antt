-- ===== src/Order.antt =====
-- include/Order.hpp: a resting order. Pointers to orders are indices into the book's memory, a pointer
-- to a level is the level's address.
use eigen_book.Prelude.{ℕ, Bool, true, false, Option, none, some}
use eigen_book.Prelude.Int.{ℤ, pos}
use eigen_book.Types.Enums.{
  Side, OrderState, inactive, resting, null_order_id, anonymous_participant_id,
}

pub record Order : Type 0 where
  pub id : ℕ
  pub price : ℤ
  pub quantity : ℕ
  pub initial_quantity : ℕ
  pub timestamp : ℕ
  pub sequence : ℕ
  pub participant_id : ℕ
  pub side : Side
  pub state : OrderState
  pub prev : Option ℕ
  pub next : Option ℕ
  pub level : Option ℕ
  pub post_only : Bool
  pub active : Bool

-- Order::reset
unfoldable pub reset : ℕ → Side → ℤ → ℕ → ℕ → ℕ → ℕ → Bool → Order
reset id side price quantity timestamp sequence participant_id post_only = record {
  id = id;
  price = price;
  quantity = quantity;
  initial_quantity = quantity;
  timestamp = timestamp;
  sequence = sequence;
  participant_id = participant_id;
  side = side;
  state = resting;
  prev = none;
  next = none;
  level = none;
  post_only = post_only;
  active = true;
}

-- Order::clear, which is also what the default constructor makes
abbrev pub cleared : Order
cleared = record {
  id = null_order_id;
  price = pos 0;
  quantity = 0;
  initial_quantity = 0;
  timestamp = 0;
  sequence = 0;
  participant_id = anonymous_participant_id;
  side = Side.buy;
  state = inactive;
  prev = none;
  next = none;
  level = none;
  post_only = false;
  active = false;
}

-- Order::linked
unfoldable pub linked : Order → Bool
linked o = elim o.level [ none ↦ false | some l ↦ true ]
