-- ===== src/MatchingEngine.antt =====
-- include/MatchingEngine.hpp: the engine's state and the routing of a command to an instrument's book.
-- An array is a function of the index, which no operation reads or writes out of its bounds.
pub mod Setup
pub mod Dispatch
pub mod Queries
pub mod Tallied
pub mod Routed
pub mod Lookup
pub mod Registered
use eigen_book.Prelude.{
  ℕ, zero, suc, ◌-◌, ◌%◌, Bool, true, false, ◌||◌, Option, none, some, List, ◌==◌, ltb, update,
  u32_mod, if◌then◌else◌,
}
use eigen_book.Prelude.Bits.{bit_and}
use eigen_book.Types.Enums.{Side, Status, null_instrument_id, invalid_index}
use eigen_book.Types.Config.{InstrumentConfig}
use eigen_book.Types.Results.{
  AddOrderResult, CancelResult, ModifyResult, ReplaceResult, MatchResult, no_add, no_cancel,
  no_modify, no_replace, no_match,
}
use eigen_book.OrderIdMap.Hash.{splitmix64}
use eigen_book.BookSide.Dense.Match.{Aggressor}
use eigen_book.OrderBook.{OrderBook}
use eigen_book.OrderBook.Add.{NewOrder}
use eigen_book.OrderBook.Replace.{Replacement}
use eigen_book.OrderBook.Add
use eigen_book.OrderBook.Cancel
use eigen_book.OrderBook.Modify
use eigen_book.OrderBook.Replace
use eigen_book.OrderBook.Market

pub data InitError : Type 0 where
  no_error instrument_capacity_exceeded invalid_instrument_id invalid_book_configuration
        duplicate_instrument_id allocation_failure internal_insertion_failure :
      InitError

pub record InstrumentState : Type 0 where
  pub config : InstrumentConfig
  pub book : Option OrderBook

pub record LookupSlot : Type 0 where
  pub instrument_id : ℕ
  pub instrument_index : ℕ
  pub occupied : Bool

pub record MatchingEngine : Type 0 where
  pub max_instruments : ℕ
  pub instruments : ℕ → InstrumentState
  pub instrument_count : ℕ
  pub lookup_capacity : ℕ
  pub lookup : ℕ → LookupSlot
  pub is_valid : Bool
  pub dispatch_count : ℕ
  pub adds : ℕ
  pub cancels : ℕ
  pub modifies : ℕ
  pub replaces : ℕ
  pub market_matches : ℕ
  pub rejects : ℕ
  pub rejects_by_status : List ℕ
  pub event_log_high_water_mark : ℕ
  pub decode_errors : ℕ
  pub initialization_error : InitError
  pub failed_config_index : ℕ

abbrev pub engine_hash : ℕ → ℕ
engine_hash instrument_id = splitmix64 instrument_id % u32_mod

-- `(slot + 1U) & mask`
abbrev pub next_lookup : ℕ → ℕ → ℕ
next_lookup capacity slot = bit_and 32 (suc slot % u32_mod) (capacity - 1)

-- The loop of lookup_index over the table, with the steps left.
unfoldable pub lookup_loop : (ℕ → LookupSlot) → ℕ → ℕ → ℕ → ℕ → ℕ
lookup_loop lookup capacity id slot zero = invalid_index
lookup_loop lookup capacity id slot (suc steps) = elim (lookup slot).occupied [
  | false ↦ invalid_index
  | true ↦ elim ((lookup slot).instrument_id == id) [
    | true ↦ (lookup slot).instrument_index
    | false ↦ lookup_loop lookup capacity id (next_lookup capacity slot) steps
  ]
]

-- The slot at which a probe for an id starts.
abbrev pub home : ℕ → ℕ → ℕ
home capacity id = bit_and 32 (engine_hash id) (capacity - 1)

-- lookup_index on the table.
unfoldable pub lookup_in : (ℕ → LookupSlot) → ℕ → ℕ → ℕ
lookup_in lookup capacity id =
    if capacity == 0 || id == null_instrument_id
    then invalid_index
    else lookup_loop lookup capacity id (home capacity id) capacity

abbrev pub lookup_index : MatchingEngine → ℕ → ℕ
lookup_index engine id = lookup_in engine.lookup engine.lookup_capacity id

unfoldable pub find_book : MatchingEngine → ℕ → Option OrderBook
find_book engine id =
    let index = lookup_index engine id in
    if index == invalid_index then none else (engine.instruments index).book

unfoldable pub record_event_high_water : MatchingEngine → ℕ → MatchingEngine
record_event_high_water engine events_emitted =
    if ltb engine.event_log_high_water_mark events_emitted
    then record engine { event_log_high_water_mark = events_emitted }
    else engine

-- The instruments with a write to the book behind the pointer that find_book answered.
unfoldable pub with_book : MatchingEngine → ℕ → OrderBook → ℕ → InstrumentState
with_book engine id book =
    let index = lookup_index engine id in
    update engine.instruments index (record (engine.instruments index) { book = some book })

unfoldable pub write_book : MatchingEngine → ℕ → OrderBook → MatchingEngine
write_book engine id book = record engine { instruments = with_book engine id book }

-- The body that the five commands share: `run` on the book, `unknown` without one.
unfoldable pub route {ℓ} :
    {R : Type ℓ}
    → MatchingEngine
    → ℕ
    → R
    → (R → ℕ)
    → (OrderBook → OrderBook × R)
    → MatchingEngine × R
unfolding write_book record_event_high_water
route engine id unknown events_emitted run = elim (find_book engine id) [
  | none ↦ (engine, unknown)
  | some book ↦
      let (after, result) = run book in
      (record_event_high_water (write_book engine id after) (events_emitted result), result)
]

unfoldable pub add_limit_order : MatchingEngine → ℕ → NewOrder → MatchingEngine × AddOrderResult
add_limit_order engine id order =
    route engine id (record no_add { status = Status.unknown_instrument }) (λ r. r.events_emitted)
      (λ book. Add.add_limit_order book order)

unfoldable pub cancel : MatchingEngine → ℕ → ℕ → ℕ → MatchingEngine × CancelResult
cancel engine id order_id timestamp =
    route engine id (record no_cancel { status = Status.unknown_instrument })
      (λ r. r.events_emitted) (λ book. Cancel.cancel_order book order_id timestamp)

unfoldable pub modify : MatchingEngine → ℕ → ℕ → ℕ → ℕ → MatchingEngine × ModifyResult
modify engine id order_id quantity timestamp =
    route engine id (record no_modify { status = Status.unknown_instrument })
      (λ r. r.events_emitted) (λ book. Modify.modify_order book order_id quantity timestamp)

unfoldable pub replace : MatchingEngine → ℕ → Replacement → MatchingEngine × ReplaceResult
replace engine id replacement =
    route engine id (record no_replace { status = Status.unknown_instrument })
      (λ r. r.events_emitted) (λ book. Replace.replace_order book replacement)

unfoldable pub match_market_order :
    MatchingEngine → ℕ → Aggressor → ℕ → MatchingEngine × MatchResult
match_market_order engine id aggressor quantity =
    route engine id (record no_match { status = Status.unknown_instrument }) (λ r. r.events_emitted)
      (λ book. Market.match_market_order book aggressor quantity)
