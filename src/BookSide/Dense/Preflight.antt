-- ===== src/BookSide/Dense/Preflight.antt =====
-- include/BookSide.hpp: DenseBookSide::preflight, which counts what a match under a self-trade policy would do.
-- A walk over a level's orders takes at most its `order_count` steps, one over the levels `level_count`.
pub mod Agree
use eigen_book.Prelude.{
  ℕ, zero, suc, ◌+◌, ◌-◌, min, Bool, true, false, ◌&&◌, ◌||◌, not, Option, none, some, ◌==◌, ◌!=◌,
}
use eigen_book.Prelude.Int.{ℤ}
use eigen_book.Types.Enums.{SelfTradePolicy, anonymous_participant_id, invalid_index}
use eigen_book.PriceLevel.{Store}
use eigen_book.BookSide.Dense.{DenseBookSide, find_next_index_after}
use eigen_book.BookSide.Dense.Liquidity.{beyond, count_saturating}

pub record MatchPreflight : Type 0 where
  pub executable_quantity : ℕ
  pub fill_count : ℕ
  pub resting_cancel_count : ℕ
  pub aggressor_cancelled : Bool

abbrev pub is_disabled : SelfTradePolicy → Bool
is_disabled SelfTradePolicy.disabled = true
is_disabled policy = false

abbrev pub self_trades : SelfTradePolicy → ℕ → ℕ → Bool
self_trades policy aggressor resting =
    not (is_disabled policy) && aggressor != anonymous_participant_id && resting == aggressor

-- A walk's state: what remains, the counts, and whether the aggressor was cancelled, which ends the walk.
pub record Walk : Type 0 where
  pub remaining : ℕ
  pub result : MatchPreflight

abbrev pub filled_in : Walk → ℕ → Walk
filled_in w quantity =
    let executed = min w.remaining quantity in
    record {
      remaining = w.remaining - executed;
      result = record w.result {
        executable_quantity = w.result.executable_quantity + executed;
        fill_count = count_saturating w.result.fill_count;
      };
    }

abbrev pub resting_cancelled : Walk → Walk
resting_cancelled w = record w {
  result = record w.result {
    resting_cancel_count = count_saturating w.result.resting_cancel_count;
  };
}

abbrev pub aggressor_cancelled : Walk → Walk
aggressor_cancelled w = record w { result = record w.result { aggressor_cancelled = true } }

abbrev pub both_cancelled : Walk → Walk
both_cancelled w = aggressor_cancelled (resting_cancelled w)

module _ (store : Store) (policy : SelfTradePolicy) (aggressor : ℕ) where
  -- An order of the aggressor's own participant: the walk goes on under CancelResting alone.
  pub meet_own : SelfTradePolicy → Walk → Bool × Walk
  meet_own SelfTradePolicy.cancel_resting w = (true, resting_cancelled w)
  meet_own SelfTradePolicy.cancel_both w = (false, both_cancelled w)
  meet_own p w = (false, aggressor_cancelled w)

  -- The inner loop of preflight.
  pub walk_orders : Option ℕ → Walk → ℕ → Walk
  unfolding meet_own
  walk_orders order w zero = w
  walk_orders none w (suc steps) = w
  walk_orders (some p) w (suc steps) =
      let order = store p in
      let (onward, met) = meet_own policy w in
      elim (w.remaining == 0) [
        | true ↦ w
        | false ↦ elim (self_trades policy aggressor order.participant_id) [
          | true ↦ elim onward [ true ↦ walk_orders order.next met steps | false ↦ met ]
          | false ↦ walk_orders order.next (filled_in w order.quantity) steps
        ]
      ]

  -- The outer loop of preflight.
  pub preflight_from : DenseBookSide → Option ℤ → ℕ → Walk → ℕ → Walk
  preflight_from s limit index w zero = w
  preflight_from s limit index w (suc steps) =
      let level = s.levels index in
      elim (w.remaining == 0 || index == invalid_index || beyond s limit level.price) [
        | true ↦ w
        | false ↦
            let walked = walk_orders level.head w level.order_count in
            elim walked.result.aggressor_cancelled [
              | true ↦ walked
              | false ↦ preflight_from s limit (find_next_index_after s index) walked steps
            ]
      ]

  unfoldable pub preflight : DenseBookSide → ℕ → Option ℤ → MatchPreflight
  unfolding preflight_from
  preflight s requested limit =
      let start : Walk = record {
        remaining = requested;
        result = record {
          executable_quantity = 0;
          fill_count = 0;
          resting_cancel_count = 0;
          aggressor_cancelled = false;
        };
      } in
      (preflight_from s limit s.best_index start s.level_count).result
