-- ===== src/MatchingEngine/Registered.antt =====
-- include/MatchingEngine.hpp: a registered instrument is found again.
use eigen_book.Prelude.{ℕ, ◌≤◌, ◌<◌, ◌≡◌, ◌≢◌, true, false, ◌==◌, u32_max}
use eigen_book.Types.Enums.{invalid_index, null_instrument_id}
use eigen_book.Types.Config.{InstrumentConfig}
use eigen_book.OrderBook
use eigen_book.OrderBook.{OrderBook}
use eigen_book.MatchingEngine.{MatchingEngine}
use eigen_book.MatchingEngine.Setup.{lookup_insert_slot, insert_instrument, put_instrument}

-- Every taken slot leads to an instrument, and there are no more of them than the engine's capacity.
pub record IsIndexed (e : MatchingEngine) : Type 0 where
  pub room : e.instrument_count ≤ e.max_instruments
  pub bound : e.max_instruments ≤ u32_max
  pub within :
      (s : ℕ) → (e.lookup s).occupied ≡ true → (e.lookup s).instrument_index < e.instrument_count

-- What holds where insert_instrument succeeds.
record Inserts (address : ℕ → ℕ × ℕ) (e : MatchingEngine) (c : InstrumentConfig) : Type 0 where
  open_slot : e.instrument_count < e.max_instruments
  named : (c.instrument_id == null_instrument_id) ≡ false
  fresh : lookup_insert_slot e c.instrument_id ≡ ((lookup_insert_slot e c.instrument_id).0, false)
  free : (lookup_insert_slot e c.instrument_id).0 ≢ invalid_index
  puts :
      (insert_instrument address e c).0
      ≡ put_instrument address e c (lookup_insert_slot e c.instrument_id).0

module _ (address : ℕ → ℕ × ℕ) (e : MatchingEngine) (c : InstrumentConfig) (k : IsIndexed e)
    (ins : Inserts address e c) where
  abbrev slot : ℕ
  slot = (lookup_insert_slot e c.instrument_id).0

  abbrev put : MatchingEngine
  put = put_instrument address e c slot
