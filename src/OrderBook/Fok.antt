-- ===== src/OrderBook/Fok.antt =====
-- include/OrderBook.hpp: a fill-or-kill order on a book without self-trade prevention and market data.
use eigen_book.Prelude.{
  ℕ, ◌≤◌, ◌≡◌, refl, ◌∙◌, true, false, ◌&&◌, ◌!=◌, Option, none, some, List, ◌==◌, ltb, Bool-cases,
  Option-cases, inl, inr, u64_max, arith,
}
use eigen_book.Prelude.Int.{ℤ}
use eigen_book.Types.Enums.{Side, Status, accepted, filled}
use eigen_book.Types.Results.{MatchResult}
use eigen_book.Types.Events.{BookEventKind}
use eigen_book.OrderIdMap.{can_insert}
use eigen_book.EventLog
use eigen_book.MarketData.{enabled}
use eigen_book.BookSide.Dense.Liquidity.{executable_quantity}
use eigen_book.BookSide.Dense.Preflight.{is_disabled}
use eigen_book.BookSide.Dense.Queues.{IsSide}
use eigen_book.BookSide.Dense.Match.{orders_of, Aggressor, outcome, match_without_venue}
use eigen_book.BookSide.Dense.Match.Venue.{match}
use eigen_book.BookSide.Dense.Match.Levels.{AllPositive}
use eigen_book.BookSide.Dense.Match.Priority.{match_without_venue-Matched}
use eigen_book.BookSide.Dense.Match.Predicted.{match_without_venue-executable_quantity}
use eigen_book.OrderBook.{
  OrderBook, book_side, begin_operation, start_operation, begin_market_data, append_event,
  active_market_data,
}
use eigen_book.OrderBook.Capacity.{required_limit_event_count, required_limit_market_data_count}
use eigen_book.OrderBook.Market.{contra, matching, book_preflight, match_side}
use eigen_book.OrderBook.Add.{
  NewOrder, is_fok, is_internal_error, static_refusal, flight_refusal, refusal, flight_of, settle,
  admit, add_limit_order, aggressor_of, entry_of,
}
use eigen_book.OrderBook.Refused.{Admitted, start_operation-SameBook}

-- An order that no test refuses, and that is to be filled in full or not at all, can be.
fok_refused_not :
    (book : OrderBook) (o : NewOrder)
    → is_fok o.time_in_force ≡ true
    → flight_refusal book o ≡ none
    → ltb (flight_of book o).executable_quantity o.quantity ≡ false
unfolding flight_refusal
fok_refused_not book o fok e =
    let other = book_side book (contra o.side) in
    elim (Bool-cases (ltb (flight_of book o).executable_quantity o.quantity)) [
      | inr enough ↦ enough
      | inl short ↦
          elim (Bool-cases
            (o.post_only && executable_quantity other o.quantity (some o.price) != 0)) [
              | inl crosses ↦ absurd (ground (arith, rw (flight_refusal, crosses) at e))
              | inr rests ↦ absurd (ground (arith, rw (flight_refusal, rests, fok, short) at e))
            ]
    ]

refusal-none :
    (book : OrderBook) (o : NewOrder) → refusal book o ≡ none → flight_refusal book o ≡ none
unfolding refusal
refusal-none book o e = elim (Option-cases (static_refusal book o)) [
  | inl n ↦ rw (refusal, n) at e
  | inr (r, n) ↦ absurd (ground (arith, rw (refusal, n) at e))
]

outcome_not_internal : (r : MatchResult) → is_internal_error (outcome r) ≡ false
outcome_not_internal r = ground arith

-- A disabled market-data log stays disabled.
begin_operation-disabled :
    (book : OrderBook)
    → enabled book.market_data ≡ false
    → enabled (begin_operation book).market_data ≡ false
unfolding begin_operation begin_market_data
begin_operation-disabled book e = rw e e

start_operation-disabled :
    (book : OrderBook) (events told : ℕ)
    → enabled book.market_data ≡ false
    → enabled (start_operation book events told).0.market_data ≡ false
unfolding start_operation begin_operation begin_market_data
start_operation-disabled book events told e =
    elim (Bool-cases (EventLog.can_record book.event_log events)) [
      | inl room ↦ rw (room, e) e
      | inr full ↦ rw (full, e) e
    ]

match_side-plain :
    (book : OrderBook) (side : Side) (a : Aggressor) (limit : Option ℤ) (quantity : ℕ)
    → is_disabled a.policy ≡ true
    → enabled book.market_data ≡ false
    → (match_side book side a limit quantity).1
      ≡ (match_without_venue a limit quantity (matching book side)).result
unfolding match_side match active_market_data
match_side-plain book side a limit quantity plain quiet = rw (plain, quiet) refl

-- After a match that has filled the order, the book answers Filled.
settle-Filled :
    (book : OrderBook) (o : NewOrder) (id_slot_status : Status) (m : MatchResult)
    → m.status ≡ outcome m
    → m.remaining_quantity ≡ 0
    → let result = (settle book o id_slot_status m).1 in
      (result.status ≡ filled) × (result.executed_quantity ≡ m.executed_quantity)
unfolding settle
settle-Filled book o id_slot_status m status none_left =
    let fine : is_internal_error m.status ≡ false = rw status (outcome_not_internal m) in
    let done : (m.remaining_quantity == 0) ≡ true = ground arith in
    rw (settle, fine, done) (refl, refl)

-- The dry run of a book without self-trade prevention is executable_quantity.
flight_of-plain :
    (book : OrderBook) (o : NewOrder)
    → is_disabled book.config.self_trade_policy ≡ true
    → (flight_of book o).executable_quantity
      ≡ executable_quantity (book_side book (contra o.side)) o.quantity (some o.price)
unfolding flight_of book_preflight
flight_of-plain book o plain = rw (flight_of, book_preflight, plain) refl

-- Where a side has all that is wanted, a match there takes it all.
match_side-whole :
    (book : OrderBook) (side : Side) (a : Aggressor) (limit : Option ℤ) (quantity : ℕ)
    (queues : ℕ → List ℕ)
    → is_disabled a.policy ≡ true
    → enabled book.market_data ≡ false
    → IsSide (orders_of book.orders) (book_side book side) queues
    → AllPositive (orders_of book.orders) (book_side book side) queues
    → quantity ≤ u64_max
    → quantity ≤ executable_quantity (book_side book side) quantity limit
    → let m = (match_side book side a limit quantity).1 in
      (m.status ≡ outcome m) × (m.remaining_quantity ≡ 0) × (m.executed_quantity ≡ quantity)
match_side-whole book side a limit quantity queues plain quiet k positive h enough =
    let start = matching book side in
    let t = match_without_venue-Matched a limit quantity queues start k positive h in
    let found =
      match_without_venue-executable_quantity a limit quantity queues start k positive h in
    rw (match_side-plain book side a limit quantity plain quiet) (
      t.status,
      omega (arith, t.conserved, found, enough),
      omega (arith, t.conserved, found, enough),
    )

-- The book that an admitted order is matched on.
abbrev started_for : OrderBook → NewOrder → OrderBook × Status
started_for book o =
    let flight = flight_of book o in
    let executable = flight.executable_quantity in
    start_operation book (required_limit_event_count flight o.quantity executable)
      (required_limit_market_data_count (enabled book.market_data) flight o.quantity executable)

admit-Filled :
    (book : OrderBook) (o : NewOrder) (queues : ℕ → List ℕ)
    → is_fok o.time_in_force ≡ true
    → is_disabled book.config.self_trade_policy ≡ true
    → enabled book.market_data ≡ false
    → IsSide (orders_of book.orders) (book_side book (contra o.side)) queues
    → AllPositive (orders_of book.orders) (book_side book (contra o.side)) queues
    → o.quantity ≤ u64_max
    → refusal book o ≡ none
    → (started_for book o).1 ≡ accepted
    → let result = (admit book o).1 in
      (result.status ≡ filled) × (result.executed_quantity ≡ o.quantity)
unfolding admit append_event
admit-Filled book o queues fok plain quiet k positive h fine room =
    let side = contra o.side in
    let flight = flight_of book o in
    let executable = flight.executable_quantity in
    let events = required_limit_event_count flight o.quantity executable in
    let told =
      required_limit_market_data_count (enabled book.market_data) flight o.quantity executable in
    let f = start_operation-SameBook book events told in
    let announced =
      append_event (started_for book o).0
        (entry_of BookEventKind.order_accepted accepted o o.quantity) in
    let a = aggressor_of book o in
    let short = fok_refused_not book o fok (refusal-none book o fine) in
    let enough : o.quantity ≤ executable_quantity (book_side book side) o.quantity (some o.price) =
      ground (arith, short, flight_of-plain book o plain) in
    let (status, none_left, all) =
      match_side-whole announced side a (some o.price) o.quantity queues plain
        (start_operation-disabled book events told quiet) (rw (f.orders, f.bids, f.asks) k)
        (rw (f.orders, f.bids, f.asks) positive) h (rw (f.bids, f.asks) enough) in
    let (matched, m) = match_side announced side a (some o.price) o.quantity in
    let settled = settle-Filled matched o (can_insert book.order_ids o.id) m status none_left in
    rw (admit, room) (settled.0, settled.1 ∙ all)

-- On a book without self-trade prevention and market data, whose other side holds queues of orders with
-- some quantity, a fill-or-kill order for at most 2^64 - 1 that is admitted is filled in full.
pub add_limit_order-Filled :
    (book : OrderBook) (o : NewOrder) (queues : ℕ → List ℕ)
    → is_fok o.time_in_force ≡ true
    → is_disabled book.config.self_trade_policy ≡ true
    → enabled book.market_data ≡ false
    → IsSide (orders_of book.orders) (book_side book (contra o.side)) queues
    → AllPositive (orders_of book.orders) (book_side book (contra o.side)) queues
    → o.quantity ≤ u64_max
    → Admitted book o
    → let result = (add_limit_order book o).1 in
      (result.status ≡ filled) × (result.executed_quantity ≡ o.quantity)
unfolding add_limit_order begin_operation
add_limit_order-Filled book o queues fok plain quiet k positive h admitted =
    rw (add_limit_order, admitted.named, admitted.no_refusal)
      (admit-Filled (begin_operation book) o queues fok plain (begin_operation-disabled book quiet)
        k positive h admitted.no_refusal admitted.room)
