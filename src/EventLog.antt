-- ===== src/EventLog.antt =====
-- include/EventLog.hpp: the fixed-capacity event ring of a book.
-- The array is a list of `capacity` events; `events_ == nullptr` holds just when `capacity_` is 0.
pub mod Window
pub mod Stream
use eigen_book.Prelude.{
  ℕ, suc, ◌+◌, ◌-◌, Bool, true, false, ◌||◌, List, [], ◌∷◌, ltb, leb, ◌==◌, ◌!=◌, u64_max, take,
  drop, set, replicate, if◌then◌else◌,
}
use eigen_book.Prelude.Int.{ℤ}
use eigen_book.Types.Enums.{Side, TimeInForce, Status}
use eigen_book.Types.Events.{BookEvent, BookEventKind, TradeEvent, blank_event, no_trade}
use eigen_book.Ring.{advance}

pub record EventLog : Type 0 where
  pub events : List BookEvent
  pub capacity : ℕ
  pub write_index : ℕ
  pub last_begin : ℕ
  pub last_count : ℕ
  pub next_sequence : ℕ
  pub instrument_id : ℕ
  pub last_overflowed : Bool

-- The arguments of append_order and append_unsequenced_order, and of append_trade.
pub record OrderEntry : Type 0 where
  pub kind : BookEventKind
  pub status : Status
  pub order_id : ℕ
  pub side : Side
  pub price : ℤ
  pub quantity : ℕ
  pub timestamp : ℕ
  pub time_in_force : TimeInForce
  pub old_quantity : ℕ
  pub new_quantity : ℕ

pub record TradeEntry : Type 0 where
  pub aggressor_id : ℕ
  pub resting_id : ℕ
  pub aggressor_side : Side
  pub price : ℤ
  pub quantity : ℕ
  pub timestamp : ℕ

-- the constructor
unfoldable pub new : ℕ → ℕ → EventLog
new capacity instrument_id = record {
  events = replicate capacity blank_event;
  capacity = capacity;
  write_index = 0;
  last_begin = 0;
  last_count = 0;
  next_sequence = 0;
  instrument_id = instrument_id;
  last_overflowed = false;
}

unfoldable pub reset : EventLog → ℕ → EventLog
reset log next_sequence = record log {
  write_index = 0;
  last_begin = 0;
  last_count = 0;
  next_sequence = next_sequence;
  last_overflowed = false;
}

unfoldable pub begin_operation : EventLog → ℕ → EventLog
begin_operation log max_event_count =
    let opened = record log {
      last_begin = log.write_index;
      last_count = 0;
      last_overflowed = false;
    } in
    let wanted = if ltb log.capacity max_event_count then log.capacity else max_event_count in
    let start = if ltb (log.capacity - log.write_index) wanted then 0 else log.write_index in
    if log.capacity == 0 then opened else record opened { write_index = start; last_begin = start }

unfoldable pub can_record : EventLog → ℕ → Bool
can_record log event_count = leb event_count log.capacity

-- next_event_sequence: the counter stays at its maximum
abbrev pub next_event_sequence : ℕ → ℕ
next_event_sequence s = if s != u64_max then s + 1 else s

-- the private append
unfoldable pub append : EventLog → BookEvent → EventLog
append log event =
    if log.capacity == 0 || log.last_count == log.capacity
    then record log { last_overflowed = true }
    else record log {
      events = set log.events log.write_index event;
      last_count = suc log.last_count;
      write_index = advance log.capacity log.write_index;
    }

pub order_event : OrderEntry → ℕ → ℕ → BookEvent
order_event e instrument_id sequence = record {
  kind = e.kind;
  instrument_id = instrument_id;
  status = e.status;
  order_id = e.order_id;
  side = e.side;
  price = e.price;
  quantity = e.quantity;
  old_quantity = e.old_quantity;
  new_quantity = e.new_quantity;
  timestamp = e.timestamp;
  sequence = sequence;
  time_in_force = e.time_in_force;
  trade = no_trade;
}

trade_of : TradeEntry → ℕ → ℕ → TradeEvent
trade_of e instrument_id sequence = record {
  instrument_id = instrument_id;
  aggressor_id = e.aggressor_id;
  resting_id = e.resting_id;
  aggressor_side = e.aggressor_side;
  price = e.price;
  quantity = e.quantity;
  timestamp = e.timestamp;
  sequence = sequence;
}

pub trade_event : TradeEntry → ℕ → ℕ → BookEvent
unfolding trade_of
trade_event e instrument_id sequence = record blank_event {
  kind = BookEventKind.trade;
  instrument_id = instrument_id;
  status = Status.filled;
  order_id = e.aggressor_id;
  side = e.aggressor_side;
  price = e.price;
  quantity = e.quantity;
  timestamp = e.timestamp;
  sequence = sequence;
  trade = trade_of e instrument_id sequence;
}

unfoldable pub append_order : EventLog → OrderEntry → EventLog
unfolding order_event append
append_order log e =
    let sequence = next_event_sequence log.next_sequence in
    append (record log { next_sequence = sequence }) (order_event e log.instrument_id sequence)

unfoldable pub append_unsequenced_order : EventLog → OrderEntry → EventLog
unfolding order_event append
append_unsequenced_order log e = append log (order_event e log.instrument_id 0)

unfoldable pub append_trade : EventLog → TradeEntry → EventLog
unfolding trade_event append
append_trade log e =
    let sequence = next_event_sequence log.next_sequence in
    append (record log { next_sequence = sequence }) (trade_event e log.instrument_id sequence)

unfoldable pub last_events : EventLog → List BookEvent
last_events log =
    if log.capacity == 0 || log.last_count == 0
    then []
    else take log.last_count (drop log.last_begin log.events)

-- One call of an append method, and the calls of one operation in order.
pub data Entry : Type 0 where
  order : OrderEntry → Entry
  unsequenced : OrderEntry → Entry
  trade : TradeEntry → Entry

unfoldable pub record_entry : EventLog → Entry → EventLog
unfolding append_order append_unsequenced_order append_trade
record_entry log (order e) = append_order log e
record_entry log (unsequenced e) = append_unsequenced_order log e
record_entry log (trade e) = append_trade log e

unfoldable pub record_all : EventLog → List Entry → EventLog
record_all log [] = log
record_all log (e ∷ es) = record_all (record_entry log e) es
