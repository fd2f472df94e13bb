-- ===== src/MarketData/Detector.antt =====
-- include/MarketData.hpp: SequenceGapDetector.
use eigen_book.Prelude.{
  ℕ, ◌+◌, Bool, true, List, [], ◌∷◌, ltb, leb, ◌==◌, ◌!=◌, u64_max, if◌then◌else◌,
}
use eigen_book.Types.Events.{MarketDataEvent}

pub data SequenceCheck : Type 0 where
  first contiguous gap duplicate_or_old wrong_instrument : SequenceCheck

pub record SequenceCheckResult : Type 0 where
  pub status : SequenceCheck
  pub expected : ℕ
  pub received : ℕ

pub record SequenceGapDetector : Type 0 where
  pub instrument_id : ℕ
  pub last_sequence : ℕ
  pub initialized : Bool

-- the constructor
unfoldable pub new : ℕ → ℕ → SequenceGapDetector
new instrument_id snapshot_sequence = record {
  instrument_id = instrument_id;
  last_sequence = snapshot_sequence;
  initialized = snapshot_sequence != 0;
}

unfoldable pub next_expected : SequenceGapDetector → ℕ
next_expected d = if d.last_sequence == u64_max then d.last_sequence else d.last_sequence + 1

-- observe, from the call of next_expected on
observe_initialized :
    SequenceGapDetector → MarketDataEvent → SequenceGapDetector × SequenceCheckResult
unfolding next_expected
observe_initialized d event =
    let expected = next_expected d in
    let status =
      if event.sequence == expected
      then contiguous
      else if leb event.sequence d.last_sequence
      then duplicate_or_old
      else gap in
    (
      if ltb d.last_sequence event.sequence then record d { last_sequence = event.sequence } else d,
      record { status = status; expected = expected; received = event.sequence },
    )

unfoldable pub observe :
    SequenceGapDetector → MarketDataEvent → SequenceGapDetector × SequenceCheckResult
unfolding observe_initialized
observe d event =
    if event.instrument_id != d.instrument_id
    then (
      d,
      record { status = wrong_instrument; expected = next_expected d; received = event.sequence },
    )
    else if d.initialized
    then observe_initialized d event
    else (
      record d { initialized = true; last_sequence = event.sequence },
      record { status = first; expected = event.sequence; received = event.sequence },
    )

unfoldable pub reset : SequenceGapDetector → ℕ → SequenceGapDetector
reset d snapshot_sequence = record d {
  last_sequence = snapshot_sequence;
  initialized = snapshot_sequence != 0;
}

-- Observing a list of events: the detector at the end, and the checks in order.
unfoldable pub observe_all :
    SequenceGapDetector → List MarketDataEvent → SequenceGapDetector × List SequenceCheck
observe_all d [] = (d, [])
observe_all d (event ∷ events) =
    let (d', check) = observe d event in
    let rest = observe_all d' events in (rest.0, check.status ∷ rest.1)
