-- ===== src/MarketData/Window.antt =====
-- include/MarketData.hpp: the span that last_events returns, and that no write leaves the ring.
use eigen_book.Prelude.{
  ℕ, suc, ◌+◌, ◌-◌, ◌≤◌, ◌<◌, ◌≡◌, refl, sym, ◌∙◌, ◌⊎◌, inl, Bool, true, false, ◌||◌, not, List, [],
  ◌∷◌, ◌++◌, arith, length, take, drop, length-set, length-replicate, ◌==◌, u64_max,
}
use mathlib.Core.List.{append_assoc, append-nil}
use eigen_book.Ring.{IsWindow, write-IsWindow, write-window}
use eigen_book.Types.Events.{MarketDataEvent}
use eigen_book.MarketData.{
  MarketDataLog, Update, level, trade, best, level_event, trade_event, best_event, enabled,
  begin_operation, can_record, append, record_update, record_all, last_events, new, reset,
}

-- Every index lies in the ring.
pub record IsRing (log : MarketDataLog) : Type 0 where
  pub stored : length log.events ≡ log.capacity
  pub writes : (log.write_index ≡ 0) ⊎ (log.write_index < log.capacity)
  pub counted : log.last_count ≤ log.capacity

abbrev Open : MarketDataLog → ℕ → Type 0
Open log room = IsWindow log.events log.capacity log.write_index log.last_begin log.last_count room

abbrev window : MarketDataLog → List MarketDataEvent
window log = take log.last_count (drop log.last_begin log.events)

pub body : Update → MarketDataEvent
body (level u) = level_event u
body (trade u) = trade_event u
body (best side quote timestamp) = best_event side quote timestamp

abbrev pub numbered : ℕ → ℕ → MarketDataEvent → MarketDataEvent
numbered instrument_id s event = record event { instrument_id = instrument_id; sequence = suc s }

-- The updates of an operation as they are published, numbered after `s`.
abbrev pub number_all : ℕ → ℕ → List Update → List MarketDataEvent
number_all instrument_id s [] = []
number_all instrument_id s (u ∷ us) =
    numbered instrument_id s (body u) ∷ number_all instrument_id (suc s) us

record_update_lem : (log : MarketDataLog) (u : Update) → record_update log u ≡ append log (body u)
unfolding record_update body
record_update_lem log (level u) = refl
record_update_lem log (trade u) = refl
record_update_lem log (best side quote timestamp) = refl

pub new-IsRing : (capacity instrument_id : ℕ) → IsRing (new capacity instrument_id)
unfolding new
new-IsRing capacity instrument_id = record {
  stored = length-replicate capacity _;
  writes = inl refl;
  counted = omega arith;
}

pub reset-IsRing : (log : MarketDataLog) (s : ℕ) → IsRing log → IsRing (reset log s)
unfolding reset
reset-IsRing log s r = record { stored = r.stored; writes = inl refl; counted = omega arith }

append-IsRing :
    (log : MarketDataLog) (event : MarketDataEvent) → IsRing log → IsRing (append log event)
unfolding append
append-IsRing log event r = ground (
  arith,
  length-set log.events log.write_index (numbered log.instrument_id log.current_sequence event),
)

pub record_update-IsRing :
    (log : MarketDataLog) (u : Update) → IsRing log → IsRing (record_update log u)
record_update-IsRing log u r = rw record_update_lem (append-IsRing log (body u) r)

pub begin_operation-IsRing :
    (log : MarketDataLog) (n : ℕ) → IsRing log → IsRing (begin_operation log n)
unfolding begin_operation
begin_operation-IsRing log n r = ground arith

begin_operation-Open :
    (log : MarketDataLog) (n : ℕ) → IsRing log → n ≤ log.capacity → Open (begin_operation log n) n
unfolding begin_operation
begin_operation-Open log n r h = ground arith

-- What one append with room left does to the rest of the state.
record Grows (log : MarketDataLog) (event : MarketDataEvent) (room : ℕ) (r : MarketDataLog)
    : Type 0 where
  opens : Open r room
  shows : window r ≡ window log ++ numbered log.instrument_id log.current_sequence event ∷ []
  count : r.last_count ≡ suc log.last_count
  same_instrument : r.instrument_id ≡ log.instrument_id
  new_sequence : r.current_sequence ≡ suc log.current_sequence

abbrev is_dropped : MarketDataLog → Bool
is_dropped log =
    not (enabled log) || log.last_count == log.capacity || log.current_sequence == u64_max

has_room :
    (log : MarketDataLog) (room : ℕ)
    → Open log (suc room)
    → log.current_sequence < u64_max
    → is_dropped log ≡ false
unfolding enabled
has_room log room w h = ground arith

append-Grows :
    (log : MarketDataLog) (event : MarketDataEvent) (room : ℕ)
    → Open log (suc room)
    → log.current_sequence < u64_max
    → Grows log event room (append log event)
unfolding append
append-Grows log event room w h = rw (has_room log room w h) (record {
  opens = write-IsWindow (numbered log.instrument_id log.current_sequence event) w;
  shows = write-window (numbered log.instrument_id log.current_sequence event) w;
  count = refl;
  same_instrument = refl;
  new_sequence = refl;
})

record_update-Grows :
    (log : MarketDataLog) (u : Update) (room : ℕ)
    → Open log (suc room)
    → log.current_sequence < u64_max
    → Grows log (body u) room (record_update log u)
record_update-Grows log u room w h = rw record_update_lem (append-Grows log (body u) room w h)

record_all-Grows :
    (log : MarketDataLog) (us : List Update) (room : ℕ)
    → Open log (length us + room)
    → log.current_sequence + length us ≤ u64_max
    → Open (record_all log us) room
      × (window (record_all log us)
          ≡ window log ++ number_all log.instrument_id log.current_sequence us)
      × ((record_all log us).last_count ≡ log.last_count + length us)
      × ((record_all log us).current_sequence ≡ log.current_sequence + length us)
unfolding record_all
record_all-Grows log [] room w h = (
  record { stored = w.stored; fits = omega arith; next = w.next },
  sym (append-nil _),
  omega arith,
  omega arith,
)
record_all-Grows log (u ∷ us) room w h =
    let g =
      record_update-Grows log u (length us + room)
        (record { stored = w.stored; fits = omega arith; next = w.next }) (omega arith) in
    let ih =
      record_all-Grows (record_update log u) us room g.opens (omega (arith, g.new_sequence)) in
    (
      ih.0,
      ih.1
          ∙ rw (g.shows, g.same_instrument, g.new_sequence)
              (append_assoc (window log)
                (numbered log.instrument_id log.current_sequence (body u) ∷ [])
                (number_all log.instrument_id (suc log.current_sequence) us)),
      omega (arith, ih.2, g.count),
      omega (arith, ih.3, g.new_sequence),
    )

begin_operation-keeps :
    (log : MarketDataLog) (n : ℕ)
    → ((begin_operation log n).last_count ≡ 0)
      × ((begin_operation log n).instrument_id ≡ log.instrument_id)
      × ((begin_operation log n).current_sequence ≡ log.current_sequence)
unfolding begin_operation
begin_operation-keeps log n = ground arith

last_events-window :
    (log : MarketDataLog) → log.last_count ≤ log.capacity → last_events log ≡ window log
unfolding last_events
last_events-window log r = ground arith

pub can_record-bounds :
    (log : MarketDataLog) (n : ℕ)
    → enabled log ≡ true
    → log.current_sequence ≤ u64_max
    → can_record log n ≡ true
    → (n ≤ log.capacity) × (log.current_sequence + n ≤ u64_max)
unfolding can_record
can_record-bounds log n on s h = ground arith

-- An enabled log that can record `n` events and begins an operation for them publishes every update of
-- that operation, if there are no more than `n`: they are shown in order, numbered without a gap after
-- the last number published, and that number moves on by as many.
pub last_events-number_all :
    (log : MarketDataLog) (n : ℕ) (us : List Update)
    → IsRing log
    → enabled log ≡ true
    → log.current_sequence ≤ u64_max
    → can_record log n ≡ true
    → length us ≤ n
    → (last_events (record_all (begin_operation log n) us)
        ≡ number_all log.instrument_id log.current_sequence us)
      × ((record_all (begin_operation log n) us).last_count ≡ length us)
      × ((record_all (begin_operation log n) us).current_sequence
          ≡ log.current_sequence + length us)
last_events-number_all log n us r on m h k =
    let (low, high) = can_record-bounds log n on m h in
    let start = begin_operation log n in
    let o = begin_operation-Open log n r low in
    let keeps = begin_operation-keeps log n in
    let g =
      record_all-Grows start us (n - length us)
        (record { stored = o.stored; fits = omega arith; next = o.next })
        (omega (arith, keeps.2)) in
    let empty : window start ≡ [] = rw keeps.0 in
    (
      last_events-window (record_all start us) (omega (arith, g.0.fits))
          ∙ g.1
          ∙ rw (empty, keeps.1, keeps.2),
      omega (arith, g.2, keeps.0),
      omega (arith, g.3, keeps.2),
    )
