-- ===== src/Runs/BookSide.antt =====
-- include/BookSide.hpp: a small sell side, whose best level moves as levels fill and empty.
pub mod Match
use eigen_book.Prelude.{ℕ, ◌≢◌, ◌≡◌, refl, true, false, arith, some, min, ◌==◌, if◌then◌else◌}
use eigen_book.Prelude.{[], ◌∷◌, update}
use eigen_book.Prelude.Int.{pos}
use eigen_book.Types.Enums.{Side, SelfTradePolicy, Status, accepted}
use eigen_book.BookSide.Word.{is_zero, lowest_set_bit}
use eigen_book.BookSide.Dense.{
  DenseBookSide, new, compute_level_count, set_occupied, clear_occupied, find_best_index,
  find_next_index_after, lowest_from, next_higher, price_at_index, crosses, price_in_range,
  index_for_price,
}
use eigen_book.PriceLevel.{Store, reset, append, empty}
use eigen_book.Order.{cleared}
use eigen_book.BookSide.Dense.Orders.{add_order, remove_order, reduce_order}
use eigen_book.BookSide.Dense.Queues.{IsSide, new-IsSide}
use eigen_book.BookSide.Dense.Liquidity.Walk.{walk_levels_complete}
use eigen_book.BookSide.Dense.Queues.Reduce.{reduce_order-IsSide}
use eigen_book.BookSide.Dense.Preflight.{preflight}
use eigen_book.BookSide.Dense.Preflight.Agree.{preflight-executable_quantity}
use eigen_book.BookSide.Dense.Queues.Change.{add_order-IsSide, remove_order-IsSide}
use eigen_book.BookSide.Dense.Liquidity.{executable_quantity, walk_levels, beyond}
use eigen_book.BookSide.Dense.Liquidity.Available.{available, executable_quantity-available}
use eigen_book.BookSide.Dense.Best.{
  IsIndexed, NextOf, occupied_at, new-IsIndexed, find_next_index_after-NextOf,
}
use eigen_book.BookSide.Dense.Marks.{set_occupied-IsIndexed, clear_occupied-IsIndexed}

abbrev asks : DenseBookSide
asks = new 1000 Side.sell (pos 100) (pos 200) (pos 1)

asks_levels : compute_level_count (pos 100) (pos 200) (pos 1) ≡ 101
unfolding compute_level_count
asks_levels = refl

abbrev two_levels : DenseBookSide
two_levels = set_occupied (set_occupied asks 70) 3

best_of_two : two_levels.best_index ≡ 3
unfolding set_occupied new
best_of_two = refl

best_without_first : (clear_occupied two_levels 3).best_index ≡ 70
unfolding set_occupied clear_occupied find_best_index new compute_level_count lowest_from is_zero
    lowest_set_bit
best_without_first = refl

next_of_first : find_next_index_after two_levels 3 ≡ 70
unfolding set_occupied find_next_index_after next_higher new compute_level_count lowest_from is_zero
    lowest_set_bit
next_of_first = refl

asks-IsIndexed : IsIndexed asks
unfolding compute_level_count
asks-IsIndexed = (new-IsIndexed 1000 Side.sell (pos 100) (pos 200) (pos 1) (omega arith)).0

two_levels-IsIndexed : IsIndexed two_levels
unfolding new compute_level_count set_occupied
two_levels-IsIndexed =
    let one = (set_occupied-IsIndexed asks 70 asks-IsIndexed (omega arith)).0 in
    (set_occupied-IsIndexed (set_occupied asks 70) 3 one (omega arith)).0

set_occupied-IsIndexed_example :
    IsIndexed (set_occupied asks 70)
    × (occupied_at (set_occupied asks 70) 70 ≡ true)
    × ((i : ℕ) → i ≢ 70 → occupied_at (set_occupied asks 70) i ≡ occupied_at asks i)
unfolding new compute_level_count
set_occupied-IsIndexed_example = set_occupied-IsIndexed asks 70 asks-IsIndexed (omega arith)

clear_occupied-IsIndexed_example :
    IsIndexed (clear_occupied two_levels 3)
    × (occupied_at (clear_occupied two_levels 3) 3 ≡ false)
    × ((i : ℕ) → i ≢ 3 → occupied_at (clear_occupied two_levels 3) i ≡ occupied_at two_levels i)
clear_occupied-IsIndexed_example = clear_occupied-IsIndexed two_levels 3 two_levels-IsIndexed

find_next_index_after-NextOf_example : NextOf two_levels 3 (find_next_index_after two_levels 3)
unfolding new compute_level_count set_occupied
find_next_index_after-NextOf_example =
    find_next_index_after-NextOf two_levels 3 two_levels-IsIndexed (omega arith)

abbrev two_quantities : DenseBookSide
two_quantities = record two_levels {
  levels = λ i. record (two_levels.levels i) {
    total_quantity = if i == 3 then 40 else if i == 70 then 9 else 0;
  };
}

executable_run : executable_quantity two_quantities 45 (some (pos 110)) ≡ 40
unfolding executable_quantity find_next_index_after next_higher new compute_level_count set_occupied
    lowest_from is_zero lowest_set_bit price_at_index beyond crosses reset
executable_run = refl

executable_quantity-available_example :
    executable_quantity two_quantities 45 (some (pos 110))
    ≡ min 45 (
        available two_quantities
          (some (pos 110))
          (walk_levels two_quantities two_quantities.best_index two_quantities.level_count))
executable_quantity-available_example =
    executable_quantity-available two_quantities 45 (some (pos 110))

-- One order for 5 at 103, at address 7 of the memory.
abbrev memory : Store
memory =
    update (λ i. cleared) 7
      (record cleared { id = 42; side = Side.sell; price = pos 103; quantity = 5 })

asks-IsSide : IsSide memory asks (λ i. [])
unfolding compute_level_count
asks-IsSide = new-IsSide memory 1000 Side.sell (pos 100) (pos 200) (pos 1) (omega arith)

abbrev pub added : Store × DenseBookSide × Status
added = add_order memory asks 7

add_order-IsSide_example :
    (added.2 ≡ accepted) × IsSide added.0 added.1 (update (λ i. []) 3 (7 ∷ []))
unfolding index_for_price price_in_range new reset compute_level_count
add_order-IsSide_example =
    add_order-IsSide memory asks (λ i. []) 7 asks-IsSide (omega arith) refl refl refl refl refl
      (omega arith) (omega arith)

pub added-IsSide : IsSide added.0 added.1 (update (λ i. []) 3 (7 ∷ []))
unfolding index_for_price price_in_range new reset compute_level_count
added-IsSide =
    (add_order-IsSide memory asks (λ i. []) 7 asks-IsSide (omega arith) refl refl refl refl refl
      (omega arith) (omega arith)).1

abbrev taken : Store × DenseBookSide × Status
taken = remove_order added.0 added.1 7

remove_order-IsSide_example :
    (taken.2 ≡ accepted) × IsSide taken.0 taken.1 (update (update (λ i. []) 3 (7 ∷ [])) 3 [])
unfolding index_for_price price_in_range new reset compute_level_count add_order append empty
    set_occupied
remove_order-IsSide_example =
    remove_order-IsSide added.0 added.1 (update (λ i. []) 3 (7 ∷ [])) 7 added-IsSide [] []
      (omega arith) refl

abbrev reduced : Store × DenseBookSide × Status
reduced = reduce_order added.0 added.1 7 2

reduce_order-IsSide_example :
    (reduced.2 ≡ accepted)
    × (reduced.0 ≡ update added.0 7 (record (added.0 7) { quantity = 2 }))
    × IsSide reduced.0 reduced.1 (update (λ i. []) 3 (7 ∷ []))
unfolding index_for_price price_in_range new reset compute_level_count add_order append empty
    set_occupied
reduce_order-IsSide_example =
    reduce_order-IsSide added.0 added.1 (update (λ i. []) 3 (7 ∷ [])) 7 2 [] [] added-IsSide
      (omega arith) refl (omega arith) (omega arith)

walk_levels_complete_example :
    walk_levels two_levels 3 150 ≡ walk_levels two_levels 3 two_levels.level_count
unfolding new compute_level_count set_occupied
walk_levels_complete_example =
    walk_levels_complete two_levels 150 two_levels-IsIndexed (omega arith)

preflight-executable_quantity_example :
    (preflight added.0 SelfTradePolicy.disabled 0 added.1 9 (some (pos 110))).executable_quantity
    ≡ executable_quantity added.1 9 (some (pos 110))
preflight-executable_quantity_example =
    preflight-executable_quantity added.0 0 added.1 (update (λ i. []) 3 (7 ∷ [])) 9 (some (pos 110))
      added-IsSide
