-- ===== src/Command.antt =====
-- include/Command.hpp: the 39-byte wire format of a command.
pub mod Codec
use eigen_book.Prelude.{
  ℕ, ◌-◌, Bool, true, false, ◌&&◌, ◌||◌, not, Option, none, some, List, ◌++◌, ◌==◌, ltb, length,
  take, drop, if◌then◌else◌,
}
use eigen_book.Prelude.Int.{ℤ}
use eigen_book.Types.Enums.{Side, TimeInForce, Status, accepted, buffer_too_small, invalid_command}
use eigen_book.Wire.{
  Writer, Reader, new_writer, write_u8, write_u32, write_u64, write_price, new_reader, read_u8,
  read_u32, read_u64, read_price,
}

pub data CommandOp : Type 0 where
  add cancel modify replace market : CommandOp
  raw : ℕ → CommandOp

-- kCommandWireSize
abbrev pub command_wire_size : ℕ
command_wire_size = 39

pub record Command : Type 0 where
  pub instrument_id : ℕ
  pub op : CommandOp
  pub order_id : ℕ
  pub side : Side
  pub price : ℤ
  pub quantity : ℕ
  pub time_in_force : TimeInForce
  pub timestamp : ℕ

pub record VenueCommand : Type 0 where
  pub command : Command
  pub participant_id : ℕ
  pub post_only : Bool

-- The casts between an enumeration and its byte.
abbrev pub op_byte : CommandOp → ℕ
op_byte CommandOp.add = 0
op_byte CommandOp.cancel = 1
op_byte CommandOp.modify = 2
op_byte CommandOp.replace = 3
op_byte CommandOp.market = 4
op_byte (CommandOp.raw n) = n

abbrev pub op_of_byte : ℕ → CommandOp
op_of_byte n =
    if n == 0
    then CommandOp.add
    else if n == 1
    then CommandOp.cancel
    else if n == 2
    then CommandOp.modify
    else if n == 3
    then CommandOp.replace
    else if n == 4
    then CommandOp.market
    else CommandOp.raw n

abbrev pub side_byte : Side → ℕ
side_byte Side.buy = 0
side_byte Side.sell = 1
side_byte (Side.raw n) = n

abbrev pub side_of_byte : ℕ → Side
side_of_byte n = if n == 0 then Side.buy else if n == 1 then Side.sell else Side.raw n

abbrev pub time_in_force_byte : TimeInForce → ℕ
time_in_force_byte TimeInForce.gtc = 0
time_in_force_byte TimeInForce.ioc = 1
time_in_force_byte TimeInForce.fok = 2
time_in_force_byte (TimeInForce.raw n) = n

abbrev pub time_in_force_of_byte : ℕ → TimeInForce
time_in_force_of_byte n =
    if n == 0
    then TimeInForce.gtc
    else if n == 1
    then TimeInForce.ioc
    else if n == 2
    then TimeInForce.fok
    else TimeInForce.raw n

abbrev pub valid_command_op : CommandOp → Bool
valid_command_op (CommandOp.raw n) = false
valid_command_op op = true

abbrev pub valid_command_side : Side → Bool
valid_command_side (Side.raw n) = false
valid_command_side side = true

abbrev pub valid_command_time_in_force : TimeInForce → Bool
valid_command_time_in_force (TimeInForce.raw n) = false
valid_command_time_in_force t = true

unfoldable pub valid_command : Command → Bool
valid_command c =
    valid_command_op c.op
    && valid_command_side c.side
    && valid_command_time_in_force c.time_in_force

may_post : CommandOp → Bool
may_post CommandOp.add = true
may_post CommandOp.replace = true
may_post op = false

-- the overload for VenueCommand
unfoldable pub valid_venue_command : VenueCommand → Bool
unfolding valid_command may_post
valid_venue_command v =
    if not (valid_command v.command)
    then false
    else if v.post_only && not (may_post v.command.op)
    then false
    else true

-- The writes of encode, in order.
write_command : Writer → Command → Writer
write_command w c =
    let w₁ = write_u32 w c.instrument_id in
    let w₂ = write_u8 w₁ (op_byte c.op) in
    let w₃ = write_u64 w₂ c.order_id in
    let w₄ = write_u8 w₃ (side_byte c.side) in
    let w₅ = write_price w₄ c.price in
    let w₆ = write_u64 w₅ c.quantity in
    let w₇ = write_u8 w₆ (time_in_force_byte c.time_in_force) in write_u64 w₇ c.timestamp

-- The span is the first bytes of the caller's buffer, which encode returns as it leaves it.
unfoldable pub encode : Command → List ℕ → Status × List ℕ
unfolding write_command
encode c out_buffer =
    let written = write_command (new_writer (take command_wire_size out_buffer)) c in
    if ltb (length out_buffer) command_wire_size
    then (buffer_too_small, out_buffer)
    else if not (valid_command c)
    then (invalid_command, out_buffer)
    else (
      if written.is_ok then accepted else buffer_too_small,
      written.buffer ++ drop command_wire_size out_buffer,
    )

infixl 5 ◌>>=◌
abbrev ◌>>=◌ {ℓ κ} : {A : Type ℓ} {B : Type κ} → Option A → (A → Option B) → Option B
none >>= f = none
some a >>= f = f a

-- The reads of decode, in order; `none` is a read that fails.
read_command : Reader → Option Command
read_command r = do
  (instrument_id, r₁) ← read_u32 r
  (op, r₂) ← read_u8 r₁
  (order_id, r₃) ← read_u64 r₂
  (side, r₄) ← read_u8 r₃
  (price, r₅) ← read_price r₄
  (quantity, r₆) ← read_u64 r₅
  (time_in_force, r₇) ← read_u8 r₆
  (timestamp, r₈) ← read_u64 r₇
  some (record {
    instrument_id = instrument_id;
    op = op_of_byte op;
    order_id = order_id;
    side = side_of_byte side;
    price = price;
    quantity = quantity;
    time_in_force = time_in_force_of_byte time_in_force;
    timestamp = timestamp;
  })

-- The command is assigned through the reference, also where it turns out invalid.
unfoldable pub decode : List ℕ → Command → Status × Command
unfolding read_command valid_command
decode buffer command =
    if ltb (length buffer) command_wire_size
    then (buffer_too_small, command)
    else elim (read_command (new_reader (take command_wire_size buffer))) [
      | none ↦ (buffer_too_small, command)
      | some c ↦ (if valid_command c then accepted else invalid_command, c)
    ]
