-- ===== src/BookSide/Dense/Liquidity/Available.antt =====
-- include/BookSide.hpp: executable_quantity against the sum over the levels that the limit reaches.
use eigen_book.Prelude.{
  ℕ, zero, suc, ◌+◌, ◌-◌, ◌≤◌, ◌≡◌, ap, ◌∙◌, min, Option, List, [], ◌∷◌, leb, ◌==◌, arith,
  Bool-cases, inl, inr, if◌then◌else◌,
}
use eigen_book.Prelude.Int.{ℤ}
use eigen_book.Types.Enums.{invalid_index}
use eigen_book.PriceLevel.{PriceLevel}
use eigen_book.BookSide.Dense.{DenseBookSide, find_next_index_after}
use eigen_book.BookSide.Dense.Liquidity.{beyond, executable_from, executable_quantity, walk_levels}

-- The quantity of the levels, best first, up to the first that the limit does not reach.
pub available : DenseBookSide → Option ℤ → List PriceLevel → ℕ
available s limit [] = 0
available s limit (level ∷ levels) =
    if beyond s limit level.price then 0 else level.total_quantity + available s limit levels

executable_from-available :
    (s : DenseBookSide) (limit : Option ℤ) (requested executable index steps : ℕ)
    → executable ≤ requested
    → executable_from s limit requested executable index steps
      ≡ min requested (executable + available s limit (walk_levels s index steps))
unfolding executable_from available walk_levels
executable_from-available s limit requested executable index zero h = omega arith
executable_from-available s limit requested executable index (suc steps) h =
    let level = s.levels index in
    let rest = available s limit (walk_levels s (find_next_index_after s index) steps) in
    elim (Bool-cases (leb requested executable)) [
      | inl e ↦
          let done : requested ≡ executable = ground arith in rw (executable_from, e) (omega arith)
      | inr e ↦ elim (Bool-cases (index == invalid_index)) [
        | inl i ↦ rw (executable_from, walk_levels, e, i) (omega arith)
        | inr i ↦ elim (Bool-cases (beyond s limit level.price)) [
          | inl b ↦ rw (executable_from, walk_levels, e, i, available, b) (omega arith)
          | inr b ↦ elim (Bool-cases (leb (requested - executable) level.total_quantity)) [
            | inl q ↦
                let enough : requested - executable ≤ level.total_quantity = ground arith in
                rw (executable_from, walk_levels, e, i, available, b, q) (omega arith)
            | inr q ↦
                let short : executable + level.total_quantity ≤ requested = ground arith in
                let later =
                  executable_from-available s limit requested (executable + level.total_quantity)
                    (find_next_index_after s index) steps short in
                rw (executable_from, walk_levels, e, i, available, b, q) (omega (arith, later))
          ]
        ]
      ]
    ]

-- The executable quantity is what is asked for, or all that the limit reaches if that is less.
pub executable_quantity-available :
    (s : DenseBookSide) (requested : ℕ) (limit : Option ℤ)
    → executable_quantity s requested limit
      ≡ min requested (available s limit (walk_levels s s.best_index s.level_count))
unfolding executable_quantity
executable_quantity-available s requested limit =
    executable_from-available s limit requested 0 s.best_index s.level_count (omega arith)
    ∙ ap (min requested) (omega arith)
