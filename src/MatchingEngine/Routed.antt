-- ===== src/MatchingEngine/Routed.antt =====
-- include/MatchingEngine.hpp: what a dispatched command leaves alone.
use eigen_book.Prelude.{ℕ, ◌≡◌, ◌⊎◌, false, none, some}
use eigen_book.Types.Enums.{Status}
use eigen_book.Command.{Command, VenueCommand, valid_venue_command}
use eigen_book.OrderBook.{OrderBook}
use eigen_book.MatchingEngine.{MatchingEngine, find_book, with_book}
use eigen_book.MatchingEngine.Dispatch.{next_count}

-- The book that `id` leads to is written, and nothing else of the instruments.
abbrev pub Written : MatchingEngine → MatchingEngine → ℕ → Type 0
Written before after id =
    (old book : OrderBook) × (find_book before id ≡ some old)
    × (after.instruments ≡ with_book before id book)

-- What stands in the engine while a command runs on the book of an instrument; `result` is `refusal`
-- where the instrument is unknown.
record Routed {ℓ} {R : Type ℓ} (before after : MatchingEngine) (id : ℕ) (refusal result : R)
    : Type ℓ where
  same_lookup : after.lookup ≡ before.lookup
  same_capacity : after.lookup_capacity ≡ before.lookup_capacity
  same_count : after.instrument_count ≡ before.instrument_count
  same_dispatches : after.dispatch_count ≡ before.dispatch_count
  reached :
      ((find_book before id ≡ none) × (result ≡ refusal) × (after.instruments ≡ before.instruments))
      ⊎ Written before after id

-- What a dispatched command does: it counts, keeps the lookup table, and either is invalid and refused,
-- or names an unknown instrument and is refused, or writes the book of its instrument alone.
pub record Dispatched (before after : MatchingEngine) (v : VenueCommand) (status : Status)
    : Type 0 where
  pub same_lookup : after.lookup ≡ before.lookup
  pub same_capacity : after.lookup_capacity ≡ before.lookup_capacity
  pub same_count : after.instrument_count ≡ before.instrument_count
  pub counted : after.dispatch_count ≡ next_count before.dispatch_count
  pub outcome :
      ((valid_venue_command v ≡ false)
        × (status ≡ Status.invalid_command)
        × (after.instruments ≡ before.instruments))
      ⊎ (((find_book before v.command.instrument_id ≡ none)
            × (status ≡ Status.unknown_instrument)
            × (after.instruments ≡ before.instruments))
          ⊎ Written before after v.command.instrument_id)

-- What no statistic belongs to.
pub record SameBooks (before after : MatchingEngine) : Type 0 where
  lookups : after.lookup ≡ before.lookup
  capacities : after.lookup_capacity ≡ before.lookup_capacity
  counts : after.instrument_count ≡ before.instrument_count
  books : after.instruments ≡ before.instruments
  dispatches : after.dispatch_count ≡ before.dispatch_count
