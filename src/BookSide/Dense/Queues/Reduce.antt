-- ===== src/BookSide/Dense/Queues/Reduce.antt =====
-- include/BookSide.hpp: reducing an order on a dense side keeps its place in the queue.
use eigen_book.Prelude.{
  ℕ, ◌+◌, ◌<◌, ◌≤◌, ◌≡◌, ◌≢◌, refl, sym, ◌∙◌, subst, none, List, ◌∷◌, ◌++◌, ◌==◌, ==_iff, All,
  All-map, update, update_self, update_ne, Bool-cases, inl, inr, arith,
}
use eigen_book.Types.Enums.{accepted}
use eigen_book.PriceLevel.{Store, set_quantity_keep_priority}
use eigen_book.PriceLevel.Quantity.{set_quantity-Represents}
use eigen_book.PriceLevel.Segment.{Links-split}
use eigen_book.PriceLevel.Frame.{Untouched, update-Untouched}
use eigen_book.BookSide.Dense.{DenseBookSide, index_for_price}
use eigen_book.BookSide.Dense.Orders.{with_level, reduce_order}
use eigen_book.BookSide.Dense.Queues.{IsAt, HoldsAt, IsSide, SameRange, IsAt_same, Changes-IsSide}
use eigen_book.BookSide.Dense.Queues.Settle.{Settles-kept, Settles-Changes}
use eigen_book.BookSide.Dense.Queues.Change.{All-without}

IsSide-same :
    (store : Store) (s : DenseBookSide) (queues queues' : ℕ → List ℕ)
    → ((i : ℕ) → queues i ≡ queues' i)
    → IsSide store s queues
    → IsSide store s queues'
IsSide-same store s queues queues' e k = record {
  indexed = k.indexed;
  holds = λ i h. subst (HoldsAt store s i) (e i) (k.holds i h);
}

update-same :
    (queues : ℕ → List ℕ) (i : ℕ) (queue : List ℕ)
    → queues i ≡ queue
    → (j : ℕ) → update queues i queue j ≡ queues j
update-same queues i queue e j = elim (Bool-cases (j == i)) [
  | inl q ↦
      let same = (==_iff j i).0 q in
      subst (λ x. update queues i queue x ≡ queues x) (sym same)
        (update_self queues i queue ∙ sym e)
  | inr q ↦ update_ne queues i queue j (ground arith)
]

-- A write of a quantity leaves an order where it belongs.
quantity-placed :
    (store : Store) (s : DenseBookSide) (i p n : ℕ) (queue : List ℕ)
    → All (λ j. IsAt s (store j) i) queue
    → All (λ j. IsAt s (update store p (record (store p) { quantity = n }) j) i) queue
quantity-placed store s i p n queue a =
    let same : SameRange s s = record {
      side = refl;
      min_price = refl;
      max_price = refl;
      tick_size = refl;
      level_count = refl;
      base = refl;
    } in
    All-map queue
      (λ j w.
        IsAt_same s s (store j) (update store p (record (store p) { quantity = n }) j) i same
          (ground arith) (ground arith) w)
      a

-- On a side that holds a queue at every price, reducing an order of the queue at its price to a positive
-- quantity no larger than its own is accepted; that order alone changes, in its quantity alone, and the
-- side holds the same queues.
pub reduce_order-IsSide :
    (store : Store) (s : DenseBookSide) (queues : ℕ → List ℕ) (p n : ℕ) (before after : List ℕ)
    → IsSide store s queues
    → index_for_price s (store p).price < s.level_count
    → queues (index_for_price s (store p).price) ≡ before ++ p ∷ after
    → 0 < n
    → n ≤ (store p).quantity
    → let (store', s', status) = reduce_order store s p n in
      (status ≡ accepted)
      × (store' ≡ update store p (record (store p) { quantity = n }))
      × IsSide store' s' queues
unfolding reduce_order
reduce_order-IsSide store s queues p n before after k h e low high =
    let i = index_for_price s (store p).price in
    let level = s.levels i in
    let queue = before ++ p ∷ after in
    let own : HoldsAt store s i queue = subst (HoldsAt store s i) e (k.holds i h) in
    let (succeeds, held, written) =
      set_quantity-Represents store (s.base + i) level before p after n own.held low high in
    let store' = update store p (record (store p) { quantity = n }) in
    let level' = (set_quantity_keep_priority store (s.base + i) level p n).1 in
    let held' = rw written at held in
    let (here, rest) = All-without (λ j. IsAt s (store j) i) before p after own.placed in
    let address =
      (Links-split store (s.base + i) none before (p ∷ after) none own.held.links).1.2 in
    let others : (j : ℕ) → j ≢ i → j < s.level_count → Untouched store store' (queues j) = λ j d b.
      update-Untouched store (s.base + i) p (record (store p) { quantity = n }) (s.base + j)
        (s.levels j) (queues j) address (k.holds j b).held (λ q. d (omega arith)) in
    let settled = rw own.marked at (Settles-kept s i level' k.indexed) in
    let changes =
      Settles-Changes store s queues i store' level' (with_level s i level') queue settled held'
        (quantity-placed store s i p n queue own.placed) others in
    let side = Changes-IsSide store s queues i store' (with_level s i level') queue k changes in
    rw (here.0, here.1, succeeds, written)
      (
        refl,
        refl,
        IsSide-same store' (with_level s i level') (update queues i queue) queues
            (update-same queues i queue e) side,
      )
