-- ===== src/EventLog/Stream.antt =====
-- include/EventLog.hpp: the numbering of the event stream.
use eigen_book.Prelude.{
  ℕ, suc, ◌+◌, ◌≤◌, ◌≡◌, refl, ap, ◌∙◌, Bool, true, false, List, [], ◌∷◌, map, arith, length, All,
  count_up, u64_max,
}
use eigen_book.Types.Events.{BookEvent}
use eigen_book.EventLog.{
  EventLog, Entry, order, unsequenced, trade, order_event, trade_event, begin_operation, record_all,
  last_events,
}
use eigen_book.EventLog.Window.{
  IsRing, stamp, counter_after, stamp_all, counter_after_all, last_events-record_all,
}

abbrev pub sequences : List BookEvent → List ℕ
sequences = map (λ event. event.sequence)

-- append_unsequenced_order alone leaves the counter.
abbrev pub IsSequenced : Entry → Type 0
IsSequenced e = is_sequenced e ≡ true
  where
    is_sequenced : Entry → Bool
    is_sequenced (order e) = true
    is_sequenced (unsequenced e) = false
    is_sequenced (trade e) = true

stamp-sequence :
    (i s : ℕ) (e : Entry)
    → IsSequenced e
    → suc s ≤ u64_max
    → ((stamp i s e).sequence ≡ suc s) × (counter_after s e ≡ suc s)
unfolding order_event trade_event
stamp-sequence i s (order e) q h = ground arith
stamp-sequence i s (unsequenced e) q h = cc
stamp-sequence i s (trade e) q h = ground arith

stamp_all-sequences :
    (i s : ℕ) (es : List Entry)
    → All IsSequenced es
    → s + length es ≤ u64_max
    → (sequences (stamp_all i s es) ≡ count_up s (length es))
      × (counter_after_all s es ≡ s + length es)
stamp_all-sequences i s [] q h = (refl, omega arith)
stamp_all-sequences i s (e ∷ es) q h =
    let (this, next) = stamp-sequence i s e q.0 (omega arith) in
    let (rest, last) = stamp_all-sequences i (suc s) es q.1 (omega arith) in
    (rw (this, next) (ap (◌∷◌ (suc s)) rest), rw next (omega (arith, last)))

-- Until the counter's maximum the events of one operation carry the numbers that follow the last one
-- given, without a gap, and the counter ends at the last of them.
pub sequences-last_events :
    (log : EventLog) (n : ℕ) (es : List Entry)
    → IsRing log
    → n ≤ log.capacity
    → length es ≤ n
    → All IsSequenced es
    → log.next_sequence + length es ≤ u64_max
    → (sequences (last_events (record_all (begin_operation log n) es))
        ≡ count_up log.next_sequence (length es))
      × ((record_all (begin_operation log n) es).next_sequence ≡ log.next_sequence + length es)
sequences-last_events log n es r h k q m =
    let t = last_events-record_all log n es r h k in
    let (s, c) = stamp_all-sequences log.instrument_id log.next_sequence es q m in
    (ap sequences t.0 ∙ s, t.3 ∙ c)
