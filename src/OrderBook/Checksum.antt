-- ===== src/OrderBook/Checksum.antt =====
-- include/OrderBook.hpp: state_checksum, the FNV-1a hash of a book's logical state. The bytes are fed one
-- after the other, as a list. A walk over a level's orders has its order count, one over the levels of a
-- side as many steps as there are levels.
use eigen_book.Prelude.{
  ℕ, zero, suc, ◌*◌, ◌/◌, ◌%◌, Bool, true, false, Option, none, some, List, [], ◌∷◌, ◌++◌, u64_mod,
}
use eigen_book.Prelude.Int.{u64_of_i64}
use eigen_book.Prelude.Bits.{bit_xor}
use eigen_book.Types.Enums.{Side, SelfTradePolicy, OrderState}
use eigen_book.Order.{Order}
use eigen_book.PriceLevel.{PriceLevel, Store}
use eigen_book.BookSide.Dense.{DenseBookSide}
use eigen_book.BookSide.Dense.Liquidity.{walk_levels}
use eigen_book.BookSide.Dense.Match.{orders_of}
use eigen_book.OrderBook.{OrderBook}

-- kChecksumOffsetBasis and kChecksumPrime
abbrev pub checksum_offset_basis : ℕ
checksum_offset_basis = 14695981039346656037

abbrev pub checksum_prime : ℕ
checksum_prime = 1099511628211

unfoldable pub checksum_u8 : ℕ → ℕ → ℕ
checksum_u8 hash value = bit_xor 64 hash value * checksum_prime % u64_mod

pub checksum_bytes : ℕ → List ℕ → ℕ
unfolding checksum_u8
checksum_bytes hash [] = hash
checksum_bytes hash (byte ∷ bytes) = checksum_bytes (checksum_u8 hash byte) bytes

-- The bytes that checksum_u32 and checksum_u64 feed, the lowest first.
pub le_bytes : ℕ → ℕ → List ℕ
le_bytes zero value = []
le_bytes (suc n) value = value % 256 ∷ le_bytes n (value / 256)

abbrev u32 : ℕ → List ℕ
u32 = le_bytes 4

abbrev u64 : ℕ → List ℕ
u64 = le_bytes 8

-- The underlying bytes of the enumerations.
abbrev side_byte : Side → ℕ
side_byte Side.buy = 0
side_byte Side.sell = 1
side_byte (Side.raw n) = n

abbrev policy_byte : SelfTradePolicy → ℕ
policy_byte SelfTradePolicy.disabled = 0
policy_byte SelfTradePolicy.cancel_aggressor = 1
policy_byte SelfTradePolicy.cancel_resting = 2
policy_byte SelfTradePolicy.cancel_both = 3
policy_byte (SelfTradePolicy.raw n) = n

abbrev state_byte : OrderState → ℕ
state_byte OrderState.inactive = 0
state_byte OrderState.resting = 1
state_byte OrderState.partially_filled = 2
state_byte OrderState.filled = 3
state_byte OrderState.cancelled = 4

abbrev bool_byte : Bool → ℕ
bool_byte true = 1
bool_byte false = 0

pub order_bytes : Order → List ℕ
order_bytes o =
    79 ∷ u64 o.id
    ++ u64 (u64_of_i64 o.price)
    ++ u64 o.quantity
    ++ u64 o.timestamp
    ++ u64 o.sequence
    ++ u64 o.participant_id
    ++ bool_byte o.post_only ∷ u64 o.initial_quantity
    ++ state_byte o.state ∷ []

-- The loop over a level's orders.
pub orders_bytes : Store → Option ℕ → ℕ → List ℕ
unfolding order_bytes
orders_bytes store order zero = []
orders_bytes store none (suc steps) = []
orders_bytes store (some p) (suc steps) =
    order_bytes (store p) ++ orders_bytes store (store p).next steps

pub level_bytes : Store → PriceLevel → List ℕ
unfolding orders_bytes
level_bytes store level =
    76 ∷ u64 (u64_of_i64 level.price)
    ++ u64 level.total_quantity
    ++ u32 level.order_count
    ++ orders_bytes store level.head level.order_count

pub levels_bytes : Store → List PriceLevel → List ℕ
unfolding level_bytes
levels_bytes store [] = []
levels_bytes store (level ∷ levels) = level_bytes store level ++ levels_bytes store levels

-- checksum_side
pub side_bytes : Store → Side → DenseBookSide → List ℕ
unfolding levels_bytes
side_bytes store name s =
    side_byte name ∷ levels_bytes store (walk_levels s s.best_index s.level_count)

pub head_bytes : OrderBook → List ℕ
head_bytes book =
    let c = book.config in
    u32 book.instrument_id
    ++ u64 (u64_of_i64 c.min_price)
    ++ u64 (u64_of_i64 c.max_price)
    ++ u64 (u64_of_i64 c.tick_size)
    ++ u64 c.lot_size
    ++ policy_byte c.self_trade_policy ∷ u64 book.next_sequence
    ++ u64 book.market_data.current_sequence

unfoldable pub state_bytes : OrderBook → List ℕ
unfolding head_bytes side_bytes
state_bytes book =
    head_bytes book
    ++ side_bytes (orders_of book.orders) Side.buy book.bids
    ++ side_bytes (orders_of book.orders) Side.sell book.asks

unfoldable pub state_checksum : OrderBook → ℕ
unfolding checksum_bytes state_bytes
state_checksum book = checksum_bytes checksum_offset_basis (state_bytes book)
