-- ===== src/Runs/EventLog.antt =====
-- include/EventLog.hpp on a ring of four events whose next operation has to start again at the front.
use eigen_book.Prelude.{◌≡◌, refl, inr, false, List, [], ◌∷◌, arith, replicate}
use eigen_book.Prelude.Int.{pos}
use eigen_book.Types.Enums.{Side, TimeInForce, Status}
use eigen_book.Types.Events.{BookEventKind, blank_event}
use eigen_book.EventLog.{
  EventLog, Entry, OrderEntry, TradeEntry, order, trade, begin_operation, record_all, last_events,
  record_entry,
}
use eigen_book.EventLog.Window.{IsRing, stamp_all, counter_after_all, last_events-record_all}
use eigen_book.EventLog.Stream.{sequences, sequences-last_events}

abbrev ring : EventLog
ring = record {
  events = replicate 4 blank_event;
  capacity = 4;
  write_index = 3;
  last_begin = 1;
  last_count = 2;
  next_sequence = 9;
  instrument_id = 7;
  last_overflowed = false;
}

abbrev accepted_order : OrderEntry
accepted_order = record {
  kind = BookEventKind.order_accepted;
  status = Status.accepted;
  order_id = 21;
  side = Side.buy;
  price = pos 100;
  quantity = 5;
  timestamp = 1;
  time_in_force = TimeInForce.gtc;
  old_quantity = 0;
  new_quantity = 0;
}

abbrev first_trade : TradeEntry
first_trade = record {
  aggressor_id = 21;
  resting_id = 4;
  aggressor_side = Side.buy;
  price = pos 99;
  quantity = 2;
  timestamp = 1;
}

abbrev calls : List Entry
calls = order accepted_order ∷ trade first_trade ∷ []

ring-IsRing : IsRing ring
ring-IsRing = record { stored = refl; writes = inr (omega arith); counted = omega arith }

starts_again : (begin_operation ring 2).last_begin ≡ 0
unfolding begin_operation
starts_again = refl

numbers : sequences (last_events (record_all (begin_operation ring 2) calls)) ≡ 10 ∷ 11 ∷ []
unfolding begin_operation record_all record_entry last_events
numbers = refl

last_events-record_all_example :
    (last_events (record_all (begin_operation ring 2) calls) ≡ stamp_all 7 9 calls)
    × ((record_all (begin_operation ring 2) calls).last_count ≡ 2)
    × ((record_all (begin_operation ring 2) calls).last_overflowed ≡ false)
    × ((record_all (begin_operation ring 2) calls).next_sequence ≡ counter_after_all 9 calls)
last_events-record_all_example =
    last_events-record_all ring 2 calls ring-IsRing (omega arith) (omega arith)

sequences-last_events_example :
    (sequences (last_events (record_all (begin_operation ring 2) calls)) ≡ 10 ∷ 11 ∷ [])
    × ((record_all (begin_operation ring 2) calls).next_sequence ≡ 11)
sequences-last_events_example =
    sequences-last_events ring 2 calls ring-IsRing (omega arith) (omega arith) (refl, (refl, tt))
      (omega arith)
