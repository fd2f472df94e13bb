-- ===== src/MatchingEngine/Setup.antt =====
-- include/MatchingEngine.hpp: the engine's construction. `address` gives, for the book at an index, where
-- the allocator puts the first levels of its two sides. An allocation that fails is not modelled.
use eigen_book.Prelude.{
  ℕ, zero, suc, ◌*◌, ◌/◌, ◌+◌, ◌%◌, Bool, true, false, ◌||◌, ◌&&◌, not, none, some, List, [], ◌∷◌,
  ◌++◌, ◌==◌, ◌!=◌, ltb, leb, length, replicate, update, u32_max, u32_mod, u64_max, if◌then◌else◌,
}
use eigen_book.Prelude.Int.{pos, eqb_ℤ}
use eigen_book.Types.Enums.{SelfTradePolicy, PriceLevelMode, null_instrument_id, invalid_index}
use eigen_book.Types.Config.{InstrumentConfig, BookConfig, valid, unnamed_policy}
use eigen_book.OrderBook
use eigen_book.MatchingEngine.{InitError, LookupSlot, MatchingEngine, next_lookup, home}
use eigen_book.MatchingEngine.Dispatch.{status_count}

-- kMaxLookupCapacity
abbrev max_lookup_capacity : ℕ
max_lookup_capacity = u32_max / 2 + 1

-- The loop of lookup_capacity_for, with the doublings left: after 30 of them the capacity is the largest.
doubled : ℕ → ℕ → ℕ → ℕ
doubled zero required capacity = capacity
doubled (suc steps) required capacity =
    let rest = doubled steps required (capacity * 2 % u32_mod) in
    if ltb capacity required && ltb capacity max_lookup_capacity then rest else capacity

unfoldable pub lookup_capacity_for : ℕ → ℕ
unfolding doubled
lookup_capacity_for max_instruments =
    let required =
      if ltb (max_lookup_capacity / 2) max_instruments
      then max_lookup_capacity
      else max_instruments * 2 in
    if max_instruments == 0 then 0 else doubled 31 required 2

-- span_size_to_u32
abbrev pub span_size_to_u32 : ℕ → ℕ
span_size_to_u32 size = if ltb u32_max size then u32_max else size

abbrev is_no_error : InitError → Bool
is_no_error InitError.no_error = true
is_no_error error = false

-- kInvalidInstrumentConfigIndex
abbrev pub invalid_config_index : ℕ
invalid_config_index = u64_max

-- The loop over the prior configurations.
has_id : ℕ → List InstrumentConfig → Bool
has_id id [] = false
has_id id (c ∷ configs) = if c.instrument_id == id then true else has_id id configs

-- The loop of validate_configurations, at `index`, after the configurations `prior`.
validate_from : List InstrumentConfig → ℕ → List InstrumentConfig → InitError × ℕ
unfolding has_id valid
validate_from prior index [] = (InitError.no_error, invalid_config_index)
validate_from prior index (c ∷ configs) =
    let rest = validate_from (prior ++ (c ∷ [])) (suc index) configs in
    if c.instrument_id == null_instrument_id
    then (InitError.invalid_instrument_id, index)
    else if not (valid c.book_config)
    then (InitError.invalid_book_configuration, index)
    else if unnamed_policy c.self_trade_policy
    then (InitError.invalid_book_configuration, index)
    else if has_id c.instrument_id prior
    then (InitError.duplicate_instrument_id, index)
    else rest

unfoldable pub validate_configurations : ℕ → List InstrumentConfig → InitError × ℕ
unfolding validate_from
validate_configurations max_instruments configs =
    if ltb max_instruments (length configs)
    then (InitError.instrument_capacity_exceeded, max_instruments)
    else validate_from [] 0 configs

pub fail_initialization : MatchingEngine → InitError → ℕ → MatchingEngine
fail_initialization engine error config_index = record engine {
  instrument_count = 0;
  lookup_capacity = 0;
  is_valid = false;
  initialization_error = error;
  failed_config_index = config_index;
}

-- The loop of lookup_insert_slot, with the steps left: the slot, and whether the id is there.
unfoldable pub insert_slot_loop : (ℕ → LookupSlot) → ℕ → ℕ → ℕ → ℕ → ℕ × Bool
insert_slot_loop lookup capacity id slot zero = (invalid_index, false)
insert_slot_loop lookup capacity id slot (suc steps) = elim (lookup slot).occupied [
  | false ↦ (slot, false)
  | true ↦ elim ((lookup slot).instrument_id == id) [
    | true ↦ (slot, true)
    | false ↦ insert_slot_loop lookup capacity id (next_lookup capacity slot) steps
  ]
]

unfoldable pub lookup_insert_slot : MatchingEngine → ℕ → ℕ × Bool
lookup_insert_slot engine id =
    if engine.lookup_capacity == 0
    then (invalid_index, false)
    else insert_slot_loop engine.lookup engine.lookup_capacity id (home engine.lookup_capacity id)
        engine.lookup_capacity

abbrev is_disabled : SelfTradePolicy → Bool
is_disabled SelfTradePolicy.disabled = true
is_disabled policy = false

-- The configuration that is stored: each of the four settings goes from the instrument to its book, or
-- back where the instrument leaves it open.
unfoldable pub stored_config : InstrumentConfig → InstrumentConfig
stored_config c =
    let b = c.book_config in
    let tick = if eqb_ℤ c.tick_size (pos 0) then b.tick_size else c.tick_size in
    let lot = if c.lot_size != 0 then c.lot_size else b.lot_size in
    let policy =
      if not (is_disabled c.self_trade_policy) || is_disabled b.self_trade_policy
      then c.self_trade_policy
      else b.self_trade_policy in
    let told =
      if c.market_data_capacity != 0 then c.market_data_capacity else b.market_data_capacity in
    record c {
      tick_size = tick;
      lot_size = lot;
      self_trade_policy = policy;
      market_data_capacity = told;
      book_config = record b {
        lot_size = lot;
        self_trade_policy = policy;
        market_data_capacity = told;
      };
    }

-- The writes of insert_instrument.
unfoldable pub put_instrument : (ℕ → ℕ × ℕ) → MatchingEngine → InstrumentConfig → ℕ → MatchingEngine
unfolding stored_config
put_instrument address engine config slot =
    let stored = stored_config config in
    let index = engine.instrument_count in
    let book =
      OrderBook.new (address index).0 (address index).1 stored.book_config stored.instrument_id in
    record engine {
      instruments = update engine.instruments index (record { config = stored; book = some book });
      lookup = update engine.lookup slot (record {
        instrument_id = stored.instrument_id;
        instrument_index = index;
        occupied = true;
      });
      instrument_count = suc index;
    }

unfoldable pub insert_instrument :
    (ℕ → ℕ × ℕ) → MatchingEngine → InstrumentConfig → MatchingEngine × InitError
insert_instrument address engine config =
    let (slot, duplicate) = lookup_insert_slot engine config.instrument_id in
    if leb engine.max_instruments engine.instrument_count
    then (engine, InitError.instrument_capacity_exceeded)
    else if config.instrument_id == null_instrument_id
    then (engine, InitError.invalid_instrument_id)
    else if not (valid config.book_config)
    then (engine, InitError.invalid_book_configuration)
    else if duplicate
    then (engine, InitError.duplicate_instrument_id)
    else if slot == invalid_index
    then (engine, InitError.internal_insertion_failure)
    else (put_instrument address engine config slot, InitError.no_error)

-- The loop of the constructor.
pub insert_all : (ℕ → ℕ × ℕ) → MatchingEngine → ℕ → List InstrumentConfig → MatchingEngine
unfolding insert_instrument fail_initialization
insert_all address engine index [] = engine
insert_all address engine index (config ∷ configs) =
    let (inserted, error) = insert_instrument address engine config in
    let rest = insert_all address inserted (suc index) configs in
    if is_no_error error then rest else fail_initialization inserted error index

abbrev blank_book_config : BookConfig
blank_book_config = record {
  min_price = pos 0;
  max_price = pos 0;
  max_orders = 0;
  order_id_map_capacity = 0;
  tick_size = pos 1;
  event_log_capacity = 0;
  price_level_mode = PriceLevelMode.dense;
  lot_size = 0;
  self_trade_policy = SelfTradePolicy.disabled;
  market_data_capacity = 0;
}

-- The members before the constructor's body.
abbrev pub blank_engine : ℕ → MatchingEngine
blank_engine max_instruments = record {
  max_instruments = max_instruments;
  instruments = λ i. record {
    config = record {
      instrument_id = null_instrument_id;
      book_config = blank_book_config;
      tick_size = pos 0;
      lot_size = 0;
      self_trade_policy = SelfTradePolicy.disabled;
      market_data_capacity = 0;
    };
    book = none;
  };
  instrument_count = 0;
  lookup_capacity = lookup_capacity_for max_instruments;
  lookup = λ i. record {
    instrument_id = null_instrument_id;
    instrument_index = invalid_index;
    occupied = false;
  };
  is_valid = true;
  dispatch_count = 0;
  adds = 0;
  cancels = 0;
  modifies = 0;
  replaces = 0;
  market_matches = 0;
  rejects = 0;
  rejects_by_status = replicate status_count 0;
  event_log_high_water_mark = 0;
  decode_errors = 0;
  initialization_error = InitError.no_error;
  failed_config_index = invalid_config_index;
}

-- the constructor with a capacity
unfoldable pub new : (ℕ → ℕ × ℕ) → ℕ → List InstrumentConfig → MatchingEngine
unfolding insert_all validate_configurations fail_initialization lookup_capacity_for
new address max_instruments configs =
    let engine = blank_engine max_instruments in
    let (error, index) = validate_configurations max_instruments configs in
    if is_no_error error
    then insert_all address engine 0 configs
    else fail_initialization engine error index
