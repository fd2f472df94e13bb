-- ===== src/MarketData/Feed.antt =====
-- include/MarketData.hpp: what the consumer's detector says of the stream that the log publishes.
use eigen_book.Prelude.{
  ℕ, suc, ◌+◌, ◌≤◌, ◌<◌, ◌≡◌, refl, ap, ◌∙◌, true, List, [], ◌∷◌, ◌++◌, arith, length, replicate,
  drop, length-append, u64_max,
}
use eigen_book.MarketData.{
  MarketDataLog, Update, enabled, begin_operation, can_record, record_all, last_events,
}
use eigen_book.MarketData.Window.{
  IsRing, body, numbered, number_all, can_record-bounds, last_events-number_all,
}
use eigen_book.MarketData.Detector.{
  SequenceGapDetector, contiguous, gap, duplicate_or_old, observe, observe_all,
}

-- The detector follows instrument `i` and has last seen number `s`.
pub record Follows (d : SequenceGapDetector) (i s : ℕ) : Type 0 where
  pub instrument : d.instrument_id ≡ i
  pub sequence : d.last_sequence ≡ s
  pub started : d.initialized ≡ true

abbrev after : SequenceGapDetector → ℕ → SequenceGapDetector
after d s = record d { last_sequence = s }

observe-next :
    (d : SequenceGapDetector) (i s : ℕ) (u : Update)
    → Follows d i s
    → s < u64_max
    → ((observe d (numbered i s (body u))).0 ≡ after d (suc s))
      × ((observe d (numbered i s (body u))).1.status ≡ contiguous)
unfolding observe
observe-next d i s u f h = ground arith

observe-later :
    (d : SequenceGapDetector) (i s t : ℕ) (u : Update)
    → Follows d i s
    → s < t
    → t < u64_max
    → ((observe d (numbered i t (body u))).0 ≡ after d (suc t))
      × ((observe d (numbered i t (body u))).1.status ≡ gap)
unfolding observe
observe-later d i s t u f h k = ground arith

observe-old :
    (d : SequenceGapDetector) (i s t : ℕ) (u : Update)
    → Follows d i s
    → t < s
    → s < u64_max
    → ((observe d (numbered i t (body u))).0 ≡ d)
      × ((observe d (numbered i t (body u))).1.status ≡ duplicate_or_old)
unfolding observe
observe-old d i s t u f h k = ground arith

observe_all-number_all :
    (d : SequenceGapDetector) (i s : ℕ) (us : List Update)
    → Follows d i s
    → s + length us ≤ u64_max
    → observe_all d (number_all i s us)
      ≡ (after d (s + length us), replicate (length us) contiguous)
unfolding observe_all
observe_all-number_all d i s [] f h = ground arith
observe_all-number_all d i s (u ∷ us) f h =
    let (moved, check) = observe-next d i s u f (omega arith) in
    let ih =
      observe_all-number_all (after d (suc s)) i (suc s) us
        (record { instrument = f.instrument; sequence = refl; started = f.started })
        (omega arith) in
    rw (moved, check, ih) (ground arith)

observe_all-old :
    (d : SequenceGapDetector) (i s t : ℕ) (us : List Update)
    → Follows d i s
    → t + length us ≤ s
    → s < u64_max
    → observe_all d (number_all i t us) ≡ (d, replicate (length us) duplicate_or_old)
unfolding observe_all
observe_all-old d i s t [] f h k = refl
observe_all-old d i s t (u ∷ us) f h k =
    let (still, check) = observe-old d i s t u f (omega arith) k in
    rw (still, check, observe_all-old d i s (suc t) us f (omega arith) k) refl

drop-number_all :
    (i s : ℕ) (lost us : List Update)
    → drop (length lost) (number_all i s (lost ++ us)) ≡ number_all i (s + length lost) us
drop-number_all i s [] us = ground arith
drop-number_all i s (u ∷ lost) us =
    drop-number_all i (suc s) lost us ∙ ap (λ t. number_all i t us) (omega arith)

module _ (log : MarketDataLog) (d : SequenceGapDetector) (n : ℕ) (ring : IsRing log)
    (on : enabled log ≡ true) (counter : log.current_sequence ≤ u64_max)
    (room : can_record log n ≡ true)
    (follows : Follows d log.instrument_id log.current_sequence) where
  -- A detector that has seen all up to the last number published finds every event of the next
  -- operation contiguous, and ends at the log's new number.
  pub observe_all-last_events :
      (us : List Update)
      → length us ≤ n
      → observe_all d (last_events (record_all (begin_operation log n) us)) ≡ (
        record d { last_sequence = (record_all (begin_operation log n) us).current_sequence },
        replicate (length us) contiguous,
      )
  observe_all-last_events us h =
      let t = last_events-number_all log n us ring on counter room h in
      let bound = can_record-bounds log n on counter room in
      rw (t.0, t.2)
        (observe_all-number_all d log.instrument_id log.current_sequence us follows (omega arith))

  -- If the first events of the operation are lost, and at least one is, the first event that arrives is
  -- a gap, those after it are contiguous, and the detector is back at the log's number.
  pub observe_all_lost :
      (l : Update) (lost : List Update) (u : Update) (us : List Update)
      → length (l ∷ lost) + length (u ∷ us) ≤ n
      → observe_all d (
          drop
            (length (l ∷ lost))
            (last_events (record_all (begin_operation log n) ((l ∷ lost) ++ u ∷ us))))
        ≡ (
          record d {
            last_sequence =
                (record_all (begin_operation log n) ((l ∷ lost) ++ u ∷ us)).current_sequence;
          },
          gap ∷ replicate (length us) contiguous,
        )
  unfolding observe_all
  observe_all_lost l lost u us h =
      let all = (l ∷ lost) ++ u ∷ us in
      let size = length-append (l ∷ lost) (u ∷ us) in
      let t = last_events-number_all log n all ring on counter room (omega arith) in
      let bound = can_record-bounds log n on counter room in
      let s = log.current_sequence + length (l ∷ lost) in
      let (jumped, check) =
        observe-later d log.instrument_id log.current_sequence s u follows (omega arith)
          (omega arith) in
      let ih =
        observe_all-number_all (after d (suc s)) log.instrument_id (suc s) us
          (record { instrument = follows.instrument; sequence = refl; started = follows.started })
          (omega arith) in
      rw
        (
          t.0,
          t.2,
          drop-number_all log.instrument_id log.current_sequence (l ∷ lost) (u ∷ us),
          jumped,
          check,
          ih,
          size,
        )
        (ground arith)

  -- Delivered once more, every event of the operation is a duplicate and the detector does not move,
  -- as long as the log's number has not reached its maximum.
  pub observe_all_again :
      (us : List Update) (again : SequenceGapDetector)
      → length us ≤ n
      → (record_all (begin_operation log n) us).current_sequence < u64_max
      → Follows again log.instrument_id (record_all (begin_operation log n) us).current_sequence
      → observe_all again (last_events (record_all (begin_operation log n) us))
        ≡ (again, replicate (length us) duplicate_or_old)
  observe_all_again us again h k f =
      let t = last_events-number_all log n us ring on counter room h in
      rw t.0
        (observe_all-old again log.instrument_id _ log.current_sequence us f (omega (arith, t.2)) k)
