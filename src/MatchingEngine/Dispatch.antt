-- ===== src/MatchingEngine/Dispatch.antt =====
-- include/MatchingEngine.hpp: the dispatch of a command, with the engine's statistics.
use eigen_book.Prelude.{
  ℕ, suc, ◌%◌, Bool, true, false, not, none, some, List, ltb, length, get_or, set, u32_mod, u64_mod,
  if◌then◌else◌,
}
use eigen_book.Prelude.Int.{pos}
use eigen_book.Types.Enums.{
  Side, TimeInForce, Status, SelfTradePolicy, invalid_command, null_order_id, null_instrument_id,
  anonymous_participant_id,
}
use eigen_book.Types.Results.{
  AddOrderResult, CancelResult, ModifyResult, ReplaceResult, MatchResult, DispatchResult,
  no_dispatch,
}
use eigen_book.Command.{
  CommandOp, Command, VenueCommand, valid_command_op, valid_venue_command, decode,
}
use eigen_book.OrderBook.{is_accepted}
use eigen_book.OrderBook.Queries.{last_market_data_events}
use eigen_book.MatchingEngine.{
  MatchingEngine, find_book, record_event_high_water, add_limit_order, cancel, modify, replace,
  match_market_order,
}

-- `static_cast<std::size_t>(status)`
abbrev pub status_index : Status → ℕ
status_index Status.accepted = 0
status_index Status.rejected = 1
status_index Status.cancelled = 2
status_index Status.filled = 3
status_index Status.partially_filled = 4
status_index Status.no_liquidity = 5
status_index Status.invalid_order_id = 6
status_index Status.unknown_order_id = 7
status_index Status.unknown_instrument = 8
status_index Status.invalid_quantity = 9
status_index Status.invalid_price = 10
status_index Status.duplicate_order_id = 11
status_index Status.pool_exhausted = 12
status_index Status.order_id_map_full = 13
status_index Status.quantity_increase_rejected = 14
status_index Status.invalid_configuration = 15
status_index Status.internal_error = 16
status_index Status.fok_rejected = 17
status_index Status.buffer_too_small = 18
status_index Status.snapshot_format_mismatch = 19
status_index Status.snapshot_version_mismatch = 20
status_index Status.snapshot_configuration_mismatch = 21
status_index Status.snapshot_capacity_exceeded = 22
status_index Status.invalid_command = 23
status_index Status.event_log_full = 24
status_index Status.lot_size_violation = 25
status_index Status.post_only_would_cross = 26
status_index Status.invalid_post_only_time_in_force = 27
status_index Status.self_trade_prevented = 28
status_index Status.market_data_log_full = 29
status_index Status.journal_format_mismatch = 30
status_index Status.journal_version_mismatch = 31
status_index Status.journal_length_mismatch = 32
status_index Status.journal_checksum_mismatch = 33
status_index Status.journal_invalid_field = 34
status_index Status.replay_diverged = 35
status_index Status.price_level_quantity_overflow = 36

-- kStatusCount
abbrev pub status_count : ℕ
status_count = 37

abbrev pub reject_status : Status → Bool
reject_status Status.accepted = false
reject_status Status.cancelled = false
reject_status Status.filled = false
reject_status Status.partially_filled = false
reject_status Status.no_liquidity = false
reject_status status = true

-- `++counter` on a uint64_t
abbrev pub next_count : ℕ → ℕ
next_count n = suc n % u64_mod

abbrev pub make_dispatch_result : Status → DispatchResult
make_dispatch_result status = record no_dispatch { status = status }

abbrev pub of_add : AddOrderResult → DispatchResult
of_add r = record no_dispatch {
  status = r.status;
  accepted_quantity = r.accepted_quantity;
  executed_quantity = r.executed_quantity;
  resting_quantity = r.resting_quantity;
  fills = r.fills;
  has_last_price = r.has_last_price;
  last_price = r.last_price;
  events_emitted = r.events_emitted;
  events = r.events;
  aggressor_cancelled_by_stp = r.aggressor_cancelled_by_stp;
  resting_orders_cancelled_by_stp = r.resting_orders_cancelled_by_stp;
}

abbrev pub of_cancel : CancelResult → DispatchResult
of_cancel r = record no_dispatch {
  status = r.status;
  canceled_quantity = r.canceled_quantity;
  events_emitted = r.events_emitted;
  events = r.events;
}

abbrev pub of_modify : ModifyResult → DispatchResult
of_modify r = record no_dispatch {
  status = r.status;
  old_quantity = r.old_quantity;
  new_quantity = r.new_quantity;
  events_emitted = r.events_emitted;
  events = r.events;
}

abbrev pub of_replace : ReplaceResult → DispatchResult
of_replace r = record no_dispatch {
  status = r.status;
  old_price = r.old_price;
  new_price = r.new_price;
  old_quantity = r.old_quantity;
  new_quantity = r.new_quantity;
  executed_quantity = r.executed_quantity;
  resting_quantity = r.resting_quantity;
  fills = r.fills;
  has_last_price = r.has_last_price;
  last_price = r.last_price;
  events_emitted = r.events_emitted;
  events = r.events;
  aggressor_cancelled_by_stp = r.aggressor_cancelled_by_stp;
  resting_orders_cancelled_by_stp = r.resting_orders_cancelled_by_stp;
}

abbrev pub of_match : MatchResult → DispatchResult
of_match r = record no_dispatch {
  status = r.status;
  requested_quantity = r.requested_quantity;
  executed_quantity = r.executed_quantity;
  remaining_quantity = r.remaining_quantity;
  fills = r.fills;
  has_last_price = r.has_last_price;
  last_price = r.last_price;
  events_emitted = r.events_emitted;
  events = r.events;
  aggressor_cancelled_by_stp = r.aggressor_cancelled_by_stp;
  resting_orders_cancelled_by_stp = r.resting_orders_cancelled_by_stp;
}

unfoldable pub with_market_data : MatchingEngine → ℕ → DispatchResult → DispatchResult
with_market_data engine id result = elim (find_book engine id) [
  | none ↦ result
  | some book ↦ record result {
    market_data_events = last_market_data_events book;
    market_data_events_emitted = length (last_market_data_events book) % u32_mod;
  }
]

-- `++rejects_` and `++rejects_by_status_[index]`
unfoldable pub count_reject : MatchingEngine → Status → MatchingEngine
count_reject engine status =
    let index = status_index status in
    let counts = engine.rejects_by_status in
    if reject_status status
    then record engine {
      rejects = next_count engine.rejects;
      rejects_by_status =
          if ltb index (length counts)
          then set counts index (next_count (get_or counts index 0))
          else counts;
    }
    else engine

unfoldable pub finish_dispatch : MatchingEngine → DispatchResult → MatchingEngine × DispatchResult
unfolding count_reject record_event_high_water
finish_dispatch engine result =
    (count_reject (record_event_high_water engine result.events_emitted) result.status, result)

unfoldable pub count_dispatch_op : MatchingEngine → CommandOp → MatchingEngine
count_dispatch_op engine CommandOp.add = record engine { adds = next_count engine.adds }
count_dispatch_op engine CommandOp.cancel = record engine { cancels = next_count engine.cancels }
count_dispatch_op engine CommandOp.modify = record engine { modifies = next_count engine.modifies }
count_dispatch_op engine CommandOp.replace = record engine { replaces = next_count engine.replaces }
count_dispatch_op engine CommandOp.market = record engine {
  market_matches = next_count engine.market_matches;
}
count_dispatch_op engine (CommandOp.raw n) = engine

-- finish_dispatch(with_market_data(...)) on what an operation answered
unfoldable pub answer : MatchingEngine → ℕ → DispatchResult → MatchingEngine × DispatchResult
unfolding finish_dispatch with_market_data
answer engine id result = finish_dispatch engine (with_market_data engine id result)

-- The switch over the operations of a valid command.
unfoldable pub dispatch_op :
    MatchingEngine → Command → ℕ → Bool → CommandOp → MatchingEngine × DispatchResult
dispatch_op engine c participant post_only CommandOp.add =
    let (after, result) = add_limit_order engine c.instrument_id (record {
      id = c.order_id;
      side = c.side;
      price = c.price;
      quantity = c.quantity;
      timestamp = c.timestamp;
      time_in_force = c.time_in_force;
      participant_id = participant;
      post_only = post_only;
    }) in
    answer after c.instrument_id (of_add result)
dispatch_op engine c participant post_only CommandOp.cancel =
    let (after, result) = cancel engine c.instrument_id c.order_id c.timestamp in
    answer after c.instrument_id (of_cancel result)
dispatch_op engine c participant post_only CommandOp.modify =
    let (after, result) = modify engine c.instrument_id c.order_id c.quantity c.timestamp in
    answer after c.instrument_id (of_modify result)
dispatch_op engine c participant post_only CommandOp.replace =
    let (after, result) = replace engine c.instrument_id (record {
      id = c.order_id;
      new_price = c.price;
      new_quantity = c.quantity;
      timestamp = c.timestamp;
      time_in_force = c.time_in_force;
      post_only = post_only;
    }) in
    answer after c.instrument_id (of_replace result)
dispatch_op engine c participant post_only CommandOp.market =
    let (after, result) =
      match_market_order engine c.instrument_id
        (record {
          id = c.order_id;
          side = c.side;
          timestamp = c.timestamp;
          participant = participant;
          policy = SelfTradePolicy.disabled;
        })
        c.quantity in
    answer after c.instrument_id (of_match result)
dispatch_op engine c participant post_only (CommandOp.raw n) =
    finish_dispatch engine (make_dispatch_result invalid_command)

-- dispatch(const VenueCommand&)
unfoldable pub dispatch : MatchingEngine → VenueCommand → MatchingEngine × DispatchResult
dispatch engine v =
    let counted = record engine { dispatch_count = next_count engine.dispatch_count } in
    let sorted = count_dispatch_op counted v.command.op in
    let refused = make_dispatch_result invalid_command in
    if not (valid_command_op v.command.op)
    then finish_dispatch counted refused
    else if not (valid_venue_command v)
    then finish_dispatch sorted refused
    else dispatch_op sorted v.command v.participant_id v.post_only v.command.op

-- dispatch(const Command&)
unfoldable pub dispatch_command : MatchingEngine → Command → MatchingEngine × DispatchResult
dispatch_command engine c =
    dispatch engine
      (record { command = c; participant_id = anonymous_participant_id; post_only = false })

-- `Command{}`
abbrev pub blank_command : Command
blank_command = record {
  instrument_id = null_instrument_id;
  op = CommandOp.add;
  order_id = null_order_id;
  side = Side.buy;
  price = pos 0;
  quantity = 0;
  time_in_force = TimeInForce.gtc;
  timestamp = 0;
}

-- dispatch(std::span<const std::byte>)
unfoldable pub dispatch_buffer : MatchingEngine → List ℕ → MatchingEngine × DispatchResult
dispatch_buffer engine buffer =
    let (status, command) = decode buffer blank_command in
    let counted = record engine {
      dispatch_count = next_count engine.dispatch_count;
      decode_errors = next_count engine.decode_errors;
    } in
    if not (is_accepted status)
    then finish_dispatch counted (make_dispatch_result status)
    else dispatch_command engine command
