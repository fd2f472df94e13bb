-- ===== src/EventLog/Window.antt =====
-- include/EventLog.hpp: the span that last_events returns, and that no write leaves the ring.
use eigen_book.Prelude.{
  ℕ, suc, ◌+◌, ◌-◌, ◌≤◌, ◌<◌, ◌≡◌, refl, sym, ◌∙◌, ◌⊎◌, inl, Bool, false, ◌||◌, List, [], ◌∷◌, ◌++◌,
  arith, length, take, drop, length-set, length-replicate, ◌==◌,
}
use mathlib.Core.List.{append_assoc, append-nil}
use eigen_book.Ring.{IsWindow, write-IsWindow, write-window}
use eigen_book.Types.Events.{BookEvent}
use eigen_book.EventLog.{
  EventLog, Entry, order, unsequenced, trade, order_event, trade_event, next_event_sequence,
  begin_operation, append, record_entry, record_all, last_events, new, reset,
}

-- Every index lies in the ring.
pub record IsRing (log : EventLog) : Type 0 where
  pub stored : length log.events ≡ log.capacity
  pub writes : (log.write_index ≡ 0) ⊎ (log.write_index < log.capacity)
  pub counted : log.last_count ≤ log.capacity

abbrev Open : EventLog → ℕ → Type 0
Open log room = IsWindow log.events log.capacity log.write_index log.last_begin log.last_count room

abbrev window : EventLog → List BookEvent
window log = take log.last_count (drop log.last_begin log.events)

-- What a call of an append method writes, and the counter after it.
abbrev pub stamp : ℕ → ℕ → Entry → BookEvent
stamp instrument_id s (order e) = order_event e instrument_id (next_event_sequence s)
stamp instrument_id s (unsequenced e) = order_event e instrument_id 0
stamp instrument_id s (trade e) = trade_event e instrument_id (next_event_sequence s)

abbrev pub counter_after : ℕ → Entry → ℕ
counter_after s (order e) = next_event_sequence s
counter_after s (unsequenced e) = s
counter_after s (trade e) = next_event_sequence s

abbrev pub stamp_all : ℕ → ℕ → List Entry → List BookEvent
stamp_all instrument_id s [] = []
stamp_all instrument_id s (e ∷ es) =
    stamp instrument_id s e ∷ stamp_all instrument_id (counter_after s e) es

abbrev pub counter_after_all : ℕ → List Entry → ℕ
counter_after_all s [] = s
counter_after_all s (e ∷ es) = counter_after_all (counter_after s e) es

abbrev is_full : EventLog → Bool
is_full log = log.capacity == 0 || log.last_count == log.capacity

abbrev stamped : EventLog → Entry → EventLog
stamped log e = record log { next_sequence = counter_after log.next_sequence e }

record_entry_lem :
    (log : EventLog) (e : Entry)
    → record_entry log e ≡ append (stamped log e) (stamp log.instrument_id log.next_sequence e)
unfolding record_entry
record_entry_lem log (order e) = refl
record_entry_lem log (unsequenced e) = refl
record_entry_lem log (trade e) = refl

pub new-IsRing : (capacity instrument_id : ℕ) → IsRing (new capacity instrument_id)
unfolding new
new-IsRing capacity instrument_id = record {
  stored = length-replicate capacity _;
  writes = inl refl;
  counted = omega arith;
}

pub reset-IsRing : (log : EventLog) (s : ℕ) → IsRing log → IsRing (reset log s)
unfolding reset
reset-IsRing log s r = record { stored = r.stored; writes = inl refl; counted = omega arith }

append-IsRing : (log : EventLog) (event : BookEvent) → IsRing log → IsRing (append log event)
unfolding append
append-IsRing log event r = ground (arith, length-set log.events log.write_index event)

pub record_entry-IsRing : (log : EventLog) (e : Entry) → IsRing log → IsRing (record_entry log e)
record_entry-IsRing log e r = rw record_entry_lem (
    append-IsRing (stamped log e) _
      (record { stored = r.stored; writes = r.writes; counted = r.counted }))

pub begin_operation-IsRing : (log : EventLog) (n : ℕ) → IsRing log → IsRing (begin_operation log n)
unfolding begin_operation
begin_operation-IsRing log n r = ground arith

begin_operation-Open :
    (log : EventLog) (n : ℕ) → IsRing log → n ≤ log.capacity → Open (begin_operation log n) n
unfolding begin_operation
begin_operation-Open log n r h = ground arith

-- What one append with room left does to the rest of the state.
record Grows (log : EventLog) (event : BookEvent) (sequence room : ℕ) (r : EventLog) : Type 0 where
  opens : Open r room
  shows : window r ≡ window log ++ event ∷ []
  count : r.last_count ≡ suc log.last_count
  keeps : r.last_overflowed ≡ log.last_overflowed
  same_instrument : r.instrument_id ≡ log.instrument_id
  new_sequence : r.next_sequence ≡ sequence

has_room : (log : EventLog) (room : ℕ) → Open log (suc room) → is_full log ≡ false
has_room log room w = ground arith

append-Grows :
    (log : EventLog) (event : BookEvent) (room : ℕ)
    → Open log (suc room)
    → Grows log event log.next_sequence room (append log event)
unfolding append
append-Grows log event room w = rw (has_room log room w) (record {
  opens = write-IsWindow event w;
  shows = write-window event w;
  count = refl;
  keeps = refl;
  same_instrument = refl;
  new_sequence = refl;
})

record_entry-Grows :
    (log : EventLog) (e : Entry) (room : ℕ)
    → Open log (suc room)
    → Grows log
        (stamp log.instrument_id log.next_sequence e)
        (counter_after log.next_sequence e)
        room
        (record_entry log e)
record_entry-Grows log e room w =
    let g =
      append-Grows (stamped log e) (stamp log.instrument_id log.next_sequence e) room
        (record { stored = w.stored; fits = w.fits; next = w.next }) in
    rw record_entry_lem (record {
      opens = g.opens;
      shows = g.shows;
      count = g.count;
      keeps = g.keeps;
      same_instrument = g.same_instrument;
      new_sequence = g.new_sequence;
    })

record_all-Grows :
    (log : EventLog) (es : List Entry) (room : ℕ)
    → Open log (length es + room)
    → Open (record_all log es) room
      × (window (record_all log es)
          ≡ window log ++ stamp_all log.instrument_id log.next_sequence es)
      × ((record_all log es).last_count ≡ log.last_count + length es)
      × ((record_all log es).last_overflowed ≡ log.last_overflowed)
      × ((record_all log es).next_sequence ≡ counter_after_all log.next_sequence es)
unfolding record_all
record_all-Grows log [] room w = (
  record { stored = w.stored; fits = omega arith; next = w.next },
  sym (append-nil _),
  omega arith,
  refl,
  refl,
)
record_all-Grows log (e ∷ es) room w =
    let g =
      record_entry-Grows log e (length es + room)
        (record { stored = w.stored; fits = omega arith; next = w.next }) in
    let ih = record_all-Grows (record_entry log e) es room g.opens in
    (
      ih.0,
      ih.1
          ∙ rw (g.shows, g.same_instrument, g.new_sequence)
              (append_assoc (window log) (stamp log.instrument_id log.next_sequence e ∷ [])
                (stamp_all log.instrument_id (counter_after log.next_sequence e) es)),
      omega (arith, ih.2, g.count),
      ih.3 ∙ g.keeps,
      ih.4 ∙ rw g.new_sequence,
    )

begin_operation-keeps :
    (log : EventLog) (n : ℕ)
    → ((begin_operation log n).last_count ≡ 0)
      × ((begin_operation log n).last_overflowed ≡ false)
      × ((begin_operation log n).instrument_id ≡ log.instrument_id)
      × ((begin_operation log n).next_sequence ≡ log.next_sequence)
unfolding begin_operation
begin_operation-keeps log n = ground arith

last_events-window : (log : EventLog) → log.last_count ≤ log.capacity → last_events log ≡ window log
unfolding last_events
last_events-window log r = ground arith

-- An operation that begins with room for `n` events and appends no more of them shows exactly what it
-- appended, in order and stamped one after the other; nothing overflows, and the counter moves on
-- by the stamps given.
pub last_events-record_all :
    (log : EventLog) (n : ℕ) (es : List Entry)
    → IsRing log
    → n ≤ log.capacity
    → length es ≤ n
    → (last_events (record_all (begin_operation log n) es)
        ≡ stamp_all log.instrument_id log.next_sequence es)
      × ((record_all (begin_operation log n) es).last_count ≡ length es)
      × ((record_all (begin_operation log n) es).last_overflowed ≡ false)
      × ((record_all (begin_operation log n) es).next_sequence
          ≡ counter_after_all log.next_sequence es)
last_events-record_all log n es r h k =
    let start = begin_operation log n in
    let o = begin_operation-Open log n r h in
    let keeps = begin_operation-keeps log n in
    let g =
      record_all-Grows start es (n - length es)
        (record { stored = o.stored; fits = omega arith; next = o.next }) in
    let empty : window start ≡ [] = rw keeps.0 in
    (
      last_events-window (record_all start es) (omega (arith, g.0.fits))
          ∙ g.1
          ∙ rw (empty, keeps.2, keeps.3),
      omega (arith, g.2, keeps.0),
      g.3 ∙ keeps.1,
      g.4 ∙ rw keeps.3,
    )
