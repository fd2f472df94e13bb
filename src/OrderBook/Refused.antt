-- ===== src/OrderBook/Refused.antt =====
-- include/OrderBook.hpp: a limit order that is not admitted leaves the book as it was.
use eigen_book.Prelude.{ℕ, ◌≡◌, inl, inr, refl, ◌∙◌, true, not, ◌&&◌, none, Bool-cases, arith}
use eigen_book.Types.Enums.{Status, accepted}
use eigen_book.EventLog
use eigen_book.MarketData
use eigen_book.MarketData.{enabled}
use eigen_book.OrderBook.{OrderBook, is_accepted, begin_operation, start_operation}
use eigen_book.OrderBook.Market.{named_side}
use eigen_book.OrderBook.Capacity.{required_limit_event_count, required_limit_market_data_count}
use eigen_book.OrderBook.Add.{NewOrder, refusal, flight_of}

-- All of the book but its two logs.
pub record SameBook (book book' : OrderBook) : Type 0 where
  pub config : book'.config ≡ book.config
  pub instrument_id : book'.instrument_id ≡ book.instrument_id
  pub orders : book'.orders ≡ book.orders
  pub order_ids : book'.order_ids ≡ book.order_ids
  pub bids : book'.bids ≡ book.bids
  pub asks : book'.asks ≡ book.asks
  pub next_sequence : book'.next_sequence ≡ book.next_sequence

pub begin_operation-SameBook : (book : OrderBook) → SameBook book (begin_operation book)
unfolding begin_operation
begin_operation-SameBook book = record {
  config = refl;
  instrument_id = refl;
  orders = refl;
  order_ids = refl;
  bids = refl;
  asks = refl;
  next_sequence = refl;
}

pub SameBook-trans :
    (first second third : OrderBook)
    → SameBook first second
    → SameBook second third
    → SameBook first third
SameBook-trans first second third f g = record {
  config = g.config ∙ f.config;
  instrument_id = g.instrument_id ∙ f.instrument_id;
  orders = g.orders ∙ f.orders;
  order_ids = g.order_ids ∙ f.order_ids;
  bids = g.bids ∙ f.bids;
  asks = g.asks ∙ f.asks;
  next_sequence = g.next_sequence ∙ f.next_sequence;
}

-- A book with other logs.
abbrev logged : OrderBook → EventLog.EventLog → MarketData.MarketDataLog → OrderBook
logged book log told = record book { event_log = log; market_data = told }

logged-SameBook :
    (book : OrderBook) (log : EventLog.EventLog) (told : MarketData.MarketDataLog)
    → SameBook book (logged book log told)
logged-SameBook book log told = record {
  config = refl;
  instrument_id = refl;
  orders = refl;
  order_ids = refl;
  bids = refl;
  asks = refl;
  next_sequence = refl;
}

pub start_operation-SameBook :
    (book : OrderBook) (events told : ℕ) → SameBook book (start_operation book events told).0
unfolding start_operation begin_operation
start_operation-SameBook book events told =
    elim (Bool-cases (EventLog.can_record book.event_log events)) [
      | inl room ↦
          elim (Bool-cases
            (enabled book.market_data && not (MarketData.can_record book.market_data told))) [
              | inl e ↦ rw (room, e) (logged-SameBook book _ _)
              | inr e ↦ rw (room, e) (logged-SameBook book _ _)
            ]
      | inr full ↦ rw full (logged-SameBook book _ _)
    ]

-- The order passes every test, and both logs have room for what it does.
pub record Admitted (book : OrderBook) (o : NewOrder) : Type 0 where
  pub named : named_side o.side ≡ true
  pub no_refusal : refusal (begin_operation book) o ≡ none
  pub room :
      let opened = begin_operation book in
      let flight = flight_of opened o in
      let executable = flight.executable_quantity in
      (start_operation opened (required_limit_event_count flight o.quantity executable) (
        required_limit_market_data_count
          (enabled opened.market_data)
          flight
          o.quantity
          executable)).1
      ≡ accepted

pub is_accepted-accepted : (status : Status) → is_accepted status ≡ true → status ≡ accepted
is_accepted-accepted Status.accepted e = refl
is_accepted-accepted _ e = absurd (ground arith)
