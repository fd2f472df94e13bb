-- ===== src/Types/Enums.antt =====
-- include/Types.hpp: the enumerations and the values that mark absence.
use eigen_book.Prelude.{ℕ, Bool, true, false, u32_max}

-- kInvalidOrderId, kInvalidInstrumentId, kAnonymousParticipantId, kInvalidIndex
abbrev pub null_order_id : ℕ
null_order_id = 0

abbrev pub null_instrument_id : ℕ
null_instrument_id = 0

abbrev pub anonymous_participant_id : ℕ
anonymous_participant_id = 0

abbrev pub invalid_index : ℕ
invalid_index = u32_max

pub data Side : Type 0 where
  buy sell : Side
  raw : ℕ → Side

pub data TimeInForce : Type 0 where
  gtc ioc fok : TimeInForce
  raw : ℕ → TimeInForce

pub data SelfTradePolicy : Type 0 where
  disabled cancel_aggressor cancel_resting cancel_both : SelfTradePolicy
  raw : ℕ → SelfTradePolicy

pub data PriceLevelMode : Type 0 where
  dense sparse : PriceLevelMode
  raw : ℕ → PriceLevelMode

pub data OrderState : Type 0 where
  inactive resting partially_filled filled cancelled : OrderState

pub data Status : Type 0 where
  accepted rejected cancelled filled partially_filled no_liquidity invalid_order_id unknown_order_id
        unknown_instrument invalid_quantity invalid_price duplicate_order_id pool_exhausted
        order_id_map_full quantity_increase_rejected invalid_configuration internal_error
        fok_rejected buffer_too_small snapshot_format_mismatch snapshot_version_mismatch
        snapshot_configuration_mismatch snapshot_capacity_exceeded invalid_command event_log_full
        lot_size_violation post_only_would_cross invalid_post_only_time_in_force
        self_trade_prevented market_data_log_full journal_format_mismatch journal_version_mismatch
        journal_length_mismatch journal_checksum_mismatch journal_invalid_field replay_diverged
        price_level_quantity_overflow :
      Status

abbrev pub is_buy : Side → Bool
is_buy Side.buy = true
is_buy Side.sell = false
is_buy (Side.raw n) = false

abbrev pub is_sell : Side → Bool
is_sell Side.buy = false
is_sell Side.sell = true
is_sell (Side.raw n) = false
