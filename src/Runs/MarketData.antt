-- ===== src/Runs/MarketData.antt =====
-- include/MarketData.hpp on a log of eight events that has published number 41.
use eigen_book.Prelude.{ℕ, ◌≡◌, refl, inr, true, List, [], ◌∷◌, arith, replicate, drop, u64_max}
use eigen_book.Prelude.Int.{pos}
use eigen_book.Types.Enums.{Side}
use eigen_book.Types.Events.{MarketDataEvent, MarketDataKind, blank_market_data, no_quote}
use eigen_book.MarketData.{
  MarketDataLog, Update, LevelUpdate, TradeUpdate, level, trade, best, enabled, can_record,
  begin_operation, record_all, record_update, last_events,
}
use eigen_book.MarketData.Window.{IsRing, number_all, last_events-number_all}
use eigen_book.MarketData.Detector.{
  SequenceGapDetector, contiguous, gap, duplicate_or_old, observe, observe_all,
}
use eigen_book.MarketData.Feed.{
  Follows, observe_all-last_events, observe_all_lost, observe_all_again,
}

abbrev feed : MarketDataLog
feed = record {
  events = replicate 8 blank_market_data;
  capacity = 8;
  write_index = 7;
  last_begin = 5;
  last_count = 2;
  current_sequence = 41;
  instrument_id = 7;
}

abbrev traded : TradeUpdate
traded = record {
  aggressor_side = Side.buy;
  price = pos 99;
  quantity = 2;
  aggressor_id = 21;
  resting_id = 4;
  timestamp = 1;
}

abbrev deleted : LevelUpdate
deleted = record {
  kind = MarketDataKind.level_deleted;
  side = Side.sell;
  price = pos 99;
  previous_quantity = 2;
  quantity = 0;
  order_count = 0;
  timestamp = 1;
}

abbrev updates : List Update
updates = trade traded ∷ level deleted ∷ best Side.sell no_quote 1 ∷ []

abbrev watcher : ℕ → SequenceGapDetector
watcher s = record { instrument_id = 7; last_sequence = s; initialized = true }

feed-IsRing : IsRing feed
feed-IsRing = record { stored = refl; writes = inr (omega arith); counted = omega arith }

feed_on : enabled feed ≡ true
unfolding enabled
feed_on = refl

feed_room : can_record feed 3 ≡ true
unfolding can_record
feed_room = refl

watcher-Follows : Follows (watcher 41) 7 41
watcher-Follows = record { instrument = refl; sequence = refl; started = refl }

last_events-number_all_example :
    (last_events (record_all (begin_operation feed 3) updates) ≡ number_all 7 41 updates)
    × ((record_all (begin_operation feed 3) updates).last_count ≡ 3)
    × ((record_all (begin_operation feed 3) updates).current_sequence ≡ 44)
last_events-number_all_example =
    last_events-number_all feed 3 updates feed-IsRing feed_on (omega arith) feed_room (omega arith)

observe_all-last_events_example :
    observe_all (watcher 41) (last_events (record_all (begin_operation feed 3) updates)) ≡ (
      watcher (record_all (begin_operation feed 3) updates).current_sequence,
      contiguous ∷ contiguous ∷ contiguous ∷ [],
    )
observe_all-last_events_example =
    observe_all-last_events feed (watcher 41) 3 feed-IsRing feed_on (omega arith) feed_room
      watcher-Follows updates (omega arith)

observe_all_lost_example :
    observe_all (watcher 41) (drop 1 (last_events (record_all (begin_operation feed 3) updates)))
    ≡ (
      watcher (record_all (begin_operation feed 3) updates).current_sequence,
      gap ∷ contiguous ∷ [],
    )
observe_all_lost_example =
    observe_all_lost feed (watcher 41) 3 feed-IsRing feed_on (omega arith) feed_room watcher-Follows
      (trade traded) [] (level deleted) (best Side.sell no_quote 1 ∷ []) (omega arith)

feed_end : (record_all (begin_operation feed 3) updates).current_sequence ≡ 44
unfolding record_all begin_operation record_update
feed_end = refl

observe_all_again_example :
    observe_all (watcher 44) (last_events (record_all (begin_operation feed 3) updates))
    ≡ (watcher 44, duplicate_or_old ∷ duplicate_or_old ∷ duplicate_or_old ∷ [])
observe_all_again_example =
    observe_all_again feed (watcher 41) 3 feed-IsRing feed_on (omega arith) feed_room
      watcher-Follows updates (watcher 44) (omega arith) (omega (arith, feed_end))
      (record { instrument = refl; sequence = omega (arith, feed_end); started = refl })

-- At the last number there is, a repeated event passes as contiguous: next_expected stays at it.
abbrev last_number : MarketDataEvent
last_number = record blank_market_data { instrument_id = 7; sequence = u64_max }

repeated_at_the_end : (observe (watcher u64_max) last_number).1.status ≡ contiguous
unfolding observe
repeated_at_the_end = refl
