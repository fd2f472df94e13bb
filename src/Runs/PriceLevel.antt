-- ===== src/Runs/PriceLevel.antt =====
-- include/PriceLevel.hpp on a level at address 9 with two orders, and a third that is not linked yet.
use eigen_book.Prelude.{◌≡◌, refl, true, some, [], ◌∷◌, arith, update}
use eigen_book.Prelude.Int.{pos}
use eigen_book.Types.Enums.{OrderState}
use eigen_book.Order.{Order, cleared}
use eigen_book.PriceLevel.{
  PriceLevel, Store, append, remove, set_quantity_keep_priority, fill_front,
}
use eigen_book.PriceLevel.Fifo.{Represents}
use eigen_book.PriceLevel.Append.{Appends, append-Represents}
use eigen_book.PriceLevel.Remove.{Removes, remove-Represents}
use eigen_book.PriceLevel.Quantity.{set_quantity-Represents, fill_front-Represents}

abbrev older : Order
older = record cleared { id = 1; quantity = 5; next = some 2; level = some 9; active = true }

abbrev newer : Order
newer = record cleared { id = 2; quantity = 7; prev = some 1; level = some 9; active = true }

abbrev incoming : Order
incoming = record cleared { id = 3; quantity = 4; active = true }

abbrev memory : Store
memory = update (update (update (λ j. cleared) 1 older) 2 newer) 3 incoming

abbrev level : PriceLevel
level = record {
  price = pos 100;
  total_quantity = 12;
  order_count = 2;
  head = some 1;
  tail = some 2;
}

level-Represents : Represents memory 9 level (1 ∷ 2 ∷ [])
level-Represents = record {
  links = (refl, refl, refl, (refl, refl, refl, tt));
  head = refl;
  tail = refl;
  total_quantity = refl;
  order_count = refl;
  distinct = omega arith;
  bounded = omega arith;
}

append-Represents_example : Appends memory 9 level (1 ∷ 2 ∷ []) 3 (append memory 9 level 3)
append-Represents_example =
    append-Represents memory 9 level (1 ∷ 2 ∷ []) 3 level-Represents refl refl refl (omega arith)
      (omega arith)

remove-Represents_example : Removes memory 9 level (2 ∷ []) 1 (remove memory 9 level 1)
remove-Represents_example = remove-Represents memory 9 level [] 1 (2 ∷ []) level-Represents

set_quantity-Represents_example :
    ((set_quantity_keep_priority memory 9 level 2 3).2 ≡ true)
    × Represents
        (set_quantity_keep_priority memory 9 level 2 3).0
        9
        (set_quantity_keep_priority memory 9 level 2 3).1
        (1 ∷ 2 ∷ [])
    × ((set_quantity_keep_priority memory 9 level 2 3).0
        ≡ update memory 2 (record (memory 2) { quantity = 3 }))
set_quantity-Represents_example =
    set_quantity-Represents memory 9 level (1 ∷ []) 2 [] 3 level-Represents (omega arith)
      (omega arith)

fill_front-Represents_example :
    ((fill_front memory level 8).2 ≡ 5)
    × Represents (fill_front memory level 8).0 9 (fill_front memory level 8).1 (1 ∷ 2 ∷ [])
    × ((fill_front memory level 8).0
        ≡ update memory 1 (record (memory 1) { quantity = 0; state = OrderState.filled }))
fill_front-Represents_example =
    fill_front-Represents memory 9 level 1 (2 ∷ []) 8 level-Represents (omega arith)
