-- ===== src/Types/Results.antt =====
-- include/Types.hpp: the results of the book's operations. A span of events is the list of them.
use eigen_book.Prelude.{ℕ, Bool, false, List, []}
use eigen_book.Prelude.Int.{ℤ, pos}
use eigen_book.Types.Enums.{Status}
use eigen_book.Types.Events.{BookEvent, MarketDataEvent}

pub record MatchResult : Type 0 where
  pub status : Status
  pub requested_quantity : ℕ
  pub executed_quantity : ℕ
  pub remaining_quantity : ℕ
  pub fills : ℕ
  pub has_last_price : Bool
  pub last_price : ℤ
  pub events_emitted : ℕ
  pub events : List BookEvent
  pub aggressor_cancelled_by_stp : Bool
  pub resting_orders_cancelled_by_stp : ℕ

pub record AddOrderResult : Type 0 where
  pub status : Status
  pub accepted_quantity : ℕ
  pub executed_quantity : ℕ
  pub resting_quantity : ℕ
  pub fills : ℕ
  pub has_last_price : Bool
  pub last_price : ℤ
  pub events_emitted : ℕ
  pub events : List BookEvent
  pub aggressor_cancelled_by_stp : Bool
  pub resting_orders_cancelled_by_stp : ℕ

pub record CancelResult : Type 0 where
  pub status : Status
  pub canceled_quantity : ℕ
  pub events_emitted : ℕ
  pub events : List BookEvent

pub record ModifyResult : Type 0 where
  pub status : Status
  pub old_quantity : ℕ
  pub new_quantity : ℕ
  pub events_emitted : ℕ
  pub events : List BookEvent

pub record ReplaceResult : Type 0 where
  pub status : Status
  pub old_price : ℤ
  pub new_price : ℤ
  pub old_quantity : ℕ
  pub new_quantity : ℕ
  pub executed_quantity : ℕ
  pub resting_quantity : ℕ
  pub fills : ℕ
  pub has_last_price : Bool
  pub last_price : ℤ
  pub events_emitted : ℕ
  pub events : List BookEvent
  pub aggressor_cancelled_by_stp : Bool
  pub resting_orders_cancelled_by_stp : ℕ

-- The values of `ReplaceResult{}`, `MatchResult{}`, `AddOrderResult{}`, `CancelResult{}` and `ModifyResult{}`.
abbrev pub no_match : MatchResult
no_match = record {
  status = Status.internal_error;
  requested_quantity = 0;
  executed_quantity = 0;
  remaining_quantity = 0;
  fills = 0;
  has_last_price = false;
  last_price = pos 0;
  events_emitted = 0;
  events = [];
  aggressor_cancelled_by_stp = false;
  resting_orders_cancelled_by_stp = 0;
}

abbrev pub no_add : AddOrderResult
no_add = record {
  status = Status.internal_error;
  accepted_quantity = 0;
  executed_quantity = 0;
  resting_quantity = 0;
  fills = 0;
  has_last_price = false;
  last_price = pos 0;
  events_emitted = 0;
  events = [];
  aggressor_cancelled_by_stp = false;
  resting_orders_cancelled_by_stp = 0;
}

abbrev pub no_cancel : CancelResult
no_cancel = record {
  status = Status.internal_error;
  canceled_quantity = 0;
  events_emitted = 0;
  events = [];
}

abbrev pub no_modify : ModifyResult
no_modify = record {
  status = Status.internal_error;
  old_quantity = 0;
  new_quantity = 0;
  events_emitted = 0;
  events = [];
}

abbrev pub no_replace : ReplaceResult
no_replace = record {
  status = Status.internal_error;
  old_price = pos 0;
  new_price = pos 0;
  old_quantity = 0;
  new_quantity = 0;
  executed_quantity = 0;
  resting_quantity = 0;
  fills = 0;
  has_last_price = false;
  last_price = pos 0;
  events_emitted = 0;
  events = [];
  aggressor_cancelled_by_stp = false;
  resting_orders_cancelled_by_stp = 0;
}

pub record DispatchResult : Type 0 where
  pub status : Status
  pub accepted_quantity : ℕ
  pub requested_quantity : ℕ
  pub executed_quantity : ℕ
  pub remaining_quantity : ℕ
  pub resting_quantity : ℕ
  pub canceled_quantity : ℕ
  pub old_quantity : ℕ
  pub new_quantity : ℕ
  pub old_price : ℤ
  pub new_price : ℤ
  pub fills : ℕ
  pub has_last_price : Bool
  pub last_price : ℤ
  pub events_emitted : ℕ
  pub events : List BookEvent
  pub aggressor_cancelled_by_stp : Bool
  pub resting_orders_cancelled_by_stp : ℕ
  pub market_data_events_emitted : ℕ
  pub market_data_events : List MarketDataEvent

-- `DispatchResult{}`
abbrev pub no_dispatch : DispatchResult
no_dispatch = record {
  status = Status.internal_error;
  accepted_quantity = 0;
  requested_quantity = 0;
  executed_quantity = 0;
  remaining_quantity = 0;
  resting_quantity = 0;
  canceled_quantity = 0;
  old_quantity = 0;
  new_quantity = 0;
  old_price = pos 0;
  new_price = pos 0;
  fills = 0;
  has_last_price = false;
  last_price = pos 0;
  events_emitted = 0;
  events = [];
  aggressor_cancelled_by_stp = false;
  resting_orders_cancelled_by_stp = 0;
  market_data_events_emitted = 0;
  market_data_events = [];
}
