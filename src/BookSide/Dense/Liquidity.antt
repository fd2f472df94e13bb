-- ===== src/BookSide/Dense/Liquidity.antt =====
-- include/BookSide.hpp: what DenseBookSide tells of the liquidity it holds, and the dry run of a match.
-- A walk over the levels takes at most `level_count` steps, as each goes on to a level further off; a walk
-- over a level's orders takes at most its `order_count`.
pub mod Available
pub mod Walk
use eigen_book.Prelude.{
  ℕ, zero, suc, ◌+◌, ◌-◌, ◌%◌, min, Bool, true, false, ◌&&◌, ◌||◌, not, Option, none, some, List,
  [], ◌∷◌, ◌==◌, ◌!=◌, ltb, leb, length, u32_max, u64_mod, if◌then◌else◌,
}
use eigen_book.Prelude.Int.{ℤ, pos}
use eigen_book.Types.Enums.{SelfTradePolicy, anonymous_participant_id, invalid_index}
use eigen_book.Types.Events.{BestQuote, no_quote}
use eigen_book.Order.{Order}
use eigen_book.PriceLevel.{PriceLevel, Store}
use eigen_book.BookSide.Dense.{
  DenseBookSide, price_in_range, index_for_price, crosses, find_next_index_after,
}

-- `has_limit_price && !crosses(price, limit_price)`; `none` is no limit price.
unfoldable pub beyond : DenseBookSide → Option ℤ → ℤ → Bool
unfolding crosses
beyond s none price = false
beyond s (some limit_price) price = not (crosses s price limit_price)

unfoldable pub executable_from : DenseBookSide → Option ℤ → ℕ → ℕ → ℕ → ℕ → ℕ
executable_from s limit requested executable index zero = executable
executable_from s limit requested executable index (suc steps) =
    let level = s.levels index in
    elim (leb requested executable || index == invalid_index || beyond s limit level.price) [
      | true ↦ executable
      | false ↦ elim (leb (requested - executable) level.total_quantity) [
        | true ↦ requested
        | false ↦
            executable_from s limit requested (executable + level.total_quantity)
              (find_next_index_after s index) steps
      ]
    ]

unfoldable pub executable_quantity : DenseBookSide → ℕ → Option ℤ → ℕ
unfolding executable_from
executable_quantity s requested limit =
    executable_from s limit requested 0 s.best_index s.level_count

-- `if (count != max) ++count`
abbrev pub count_saturating : ℕ → ℕ
count_saturating n = if n != u32_max then suc n else n

-- The inner loop of executable_fill_count: what remains, the fills, and whether an empty order ended it.
unfoldable pub count_level_fills : Store → Option ℕ → ℕ → ℕ → ℕ → ℕ × ℕ × Bool
count_level_fills store order remaining fills zero = (remaining, fills, false)
count_level_fills store none remaining fills (suc steps) = (remaining, fills, false)
count_level_fills store (some p) remaining fills (suc steps) =
    let executed = min remaining (store p).quantity in
    elim (remaining == 0) [
      | true ↦ (remaining, fills, false)
      | false ↦ elim (executed == 0) [
        | true ↦ (remaining, fills, true)
        | false ↦
            count_level_fills store (store p).next (remaining - executed) (count_saturating fills)
              steps
      ]
    ]

pub fills_from : Store → DenseBookSide → Option ℤ → ℕ → ℕ → ℕ → ℕ → ℕ
fills_from store s limit remaining fills index zero = fills
fills_from store s limit remaining fills index (suc steps) =
    let level = s.levels index in
    elim (remaining == 0 || index == invalid_index || beyond s limit level.price) [
      | true ↦ fills
      | false ↦
          let (left, counted, stopped) =
            count_level_fills store level.head remaining fills level.order_count in
          elim stopped [
            | true ↦ counted
            | false ↦ fills_from store s limit left counted (find_next_index_after s index) steps
          ]
    ]

unfoldable pub executable_fill_count : Store → DenseBookSide → ℕ → Option ℤ → ℕ
unfolding fills_from
executable_fill_count store s requested limit =
    fills_from store s limit requested 0 s.best_index s.level_count

unfoldable pub best_quote : DenseBookSide → BestQuote
best_quote s =
    let level = s.levels s.best_index in
    if s.best_index == invalid_index then no_quote else record {
      valid = true;
      price = level.price;
      quantity = level.total_quantity;
      order_count = level.order_count;
    }

pub record DepthLevel : Type 0 where
  pub price : ℤ
  pub aggregate_quantity : ℕ
  pub order_count : ℕ

-- The levels that for_each_level visits.
pub walk_levels : DenseBookSide → ℕ → ℕ → List PriceLevel
walk_levels s index zero = []
walk_levels s index (suc steps) = elim (index == invalid_index) [
  | true ↦ []
  | false ↦ s.levels index ∷ walk_levels s (find_next_index_after s index) steps
]

abbrev pub depth_of : PriceLevel → DepthLevel
depth_of level = record {
  price = level.price;
  aggregate_quantity = level.total_quantity;
  order_count = level.order_count;
}

-- The entries that depth writes into the buffer, which are as many as it answers.
pub depth_from : DenseBookSide → ℕ → ℕ → ℕ → List DepthLevel
depth_from s index max_levels zero = []
depth_from s index zero (suc steps) = []
depth_from s index (suc max_levels) (suc steps) = elim (index == invalid_index) [
  | true ↦ []
  | false ↦
      depth_of (s.levels index) ∷ depth_from s (find_next_index_after s index) max_levels steps
]

unfoldable pub depth : DenseBookSide → ℕ → List DepthLevel
unfolding depth_from
depth s max_levels = depth_from s s.best_index max_levels s.level_count

unfoldable pub depth_at_price : DenseBookSide → ℤ → ℕ
unfolding price_in_range index_for_price
depth_at_price s price =
    if not (price_in_range s price) then 0 else (s.levels (index_for_price s price)).total_quantity

unfoldable pub order_count_at_price : DenseBookSide → ℤ → ℕ
unfolding price_in_range index_for_price
order_count_at_price s price =
    if not (price_in_range s price) then 0 else (s.levels (index_for_price s price)).order_count

unfoldable pub occupied_level_count : DenseBookSide → ℕ
unfolding walk_levels
occupied_level_count s = length (walk_levels s s.best_index s.level_count)
