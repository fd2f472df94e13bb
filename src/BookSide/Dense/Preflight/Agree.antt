-- ===== src/BookSide/Dense/Preflight/Agree.antt =====
-- include/BookSide.hpp: without self-trade prevention preflight finds the executable quantity.
use eigen_book.Prelude.{
  ℕ, zero, suc, ◌+◌, ◌-◌, ◌≤◌, ◌<◌, ◌≡◌, refl, ap, ◌∙◌, true, false, min, Option, none, some, List,
  [], ◌∷◌, leb, ◌==◌, ==_iff, arith, length, Bool-cases, inl, inr,
}
use eigen_book.Prelude.Int.{ℤ}
use eigen_book.Types.Enums.{SelfTradePolicy, invalid_index}
use eigen_book.PriceLevel.{Store}
use eigen_book.PriceLevel.Segment.{first_or, Links, total}
use eigen_book.BookSide.Dense.{DenseBookSide, find_next_index_after}
use eigen_book.BookSide.Dense.Liquidity.{beyond, executable_from, executable_quantity}
use eigen_book.BookSide.Dense.Liquidity.Walk.{Enough, next-Enough, best-Enough, Enough-lt}
use eigen_book.BookSide.Dense.Queues.{IsSide}
use eigen_book.BookSide.Dense.Preflight.{Walk, filled_in, walk_orders, preflight_from, preflight}

-- A walk has taken what it could of a quantity, and cancelled nobody.
record Took (w w' : Walk) (quantity : ℕ) : Type 0 where
  remaining : w'.remaining ≡ w.remaining - quantity
  executed : w'.result.executable_quantity ≡ w.result.executable_quantity + min w.remaining quantity
  uncancelled : w'.result.aggressor_cancelled ≡ w.result.aggressor_cancelled

module _ (store : Store) (aggressor : ℕ) where
  walk_orders-Took :
      (self : ℕ) (b : Option ℕ) (queue : List ℕ) (w : Walk) (steps : ℕ)
      → Links store self b queue none
      → length queue ≤ steps
      → Took w
          (walk_orders store SelfTradePolicy.disabled aggressor (first_or none queue) w steps)
          (total store queue)
  unfolding walk_orders
  walk_orders-Took self b [] w zero l h = record {
    remaining = omega arith;
    executed = omega arith;
    uncancelled = refl;
  }
  walk_orders-Took self b [] w (suc steps) l h = record {
    remaining = omega arith;
    executed = omega arith;
    uncancelled = refl;
  }
  walk_orders-Took self b (p ∷ queue) w zero l h = absurd (omega arith)
  walk_orders-Took self b (p ∷ queue) w (suc steps) l h =
      let quantity = (store p).quantity in
      let later =
        walk_orders-Took self (some p) queue (filled_in w quantity) steps l.3 (omega arith) in
      elim (Bool-cases (w.remaining == 0)) [
        | inl e ↦
            let over = (==_iff w.remaining 0).0 e in
            rw (walk_orders, e)
              (record { remaining = omega arith; executed = omega arith; uncancelled = refl })
        | inr e ↦
            rw (walk_orders, e, l.1)
              (record {
                remaining = omega (arith, later.remaining);
                executed = omega (arith, later.executed);
                uncancelled = later.uncancelled;
              })
      ]

  level-Took :
      (s : DenseBookSide) (queues : ℕ → List ℕ) (index : ℕ) (w : Walk)
      → IsSide store s queues
      → index < s.level_count
      → let level = s.levels index in
        Took w
          (walk_orders store SelfTradePolicy.disabled aggressor level.head w level.order_count)
          level.total_quantity
  level-Took s queues index w k h =
      let held = (k.holds index h).held in
      let count = held.order_count in
      rw (held.head, held.total_quantity)
        (walk_orders-Took (s.base + index) none (queues index) w (s.levels index).order_count
          held.links (omega (arith, count)))

  preflight_from_over :
      (s : DenseBookSide) (limit : Option ℤ) (index : ℕ) (w : Walk) (steps : ℕ)
      → w.remaining ≡ 0
      → preflight_from store SelfTradePolicy.disabled aggressor s limit index w steps ≡ w
  unfolding preflight_from
  preflight_from_over s limit index w zero e = refl
  preflight_from_over s limit index w (suc steps) e =
      let over : (w.remaining == 0) ≡ true = (==_iff w.remaining 0).1 e in
      rw (preflight_from, over) refl

  preflight_from-executable_from :
      (s : DenseBookSide) (queues : ℕ → List ℕ) (limit : Option ℤ) (requested index : ℕ) (w : Walk)
      (steps : ℕ)
      → IsSide store s queues
      → Enough s index steps
      → w.result.executable_quantity ≤ requested
      → w.remaining ≡ requested - w.result.executable_quantity
      → w.result.aggressor_cancelled ≡ false
      → (preflight_from store SelfTradePolicy.disabled aggressor s limit index w
          steps).result.executable_quantity
        ≡ executable_from s limit requested w.result.executable_quantity index steps
  unfolding preflight_from executable_from
  preflight_from-executable_from s queues limit requested index w zero k m h r c = refl
  preflight_from-executable_from s queues limit requested index w (suc steps) k m h r c =
      let level = s.levels index in
      let taken = w.result.executable_quantity in
      elim (Bool-cases (leb requested taken)) [
        | inl e ↦
            let over : (w.remaining == 0) ≡ true = ground arith in
            rw (preflight_from, executable_from, over, e) refl
        | inr e ↦
            let left : (w.remaining == 0) ≡ false = ground arith in
            elim (Bool-cases (index == invalid_index)) [
              | inl i ↦ rw (preflight_from, executable_from, left, e, i) refl
              | inr i ↦ elim (Bool-cases (beyond s limit level.price)) [
                | inl b ↦ rw (preflight_from, executable_from, left, e, i, b) refl
                | inr b ↦
                    let inside = Enough-lt s index (suc steps) m (ground arith) in
                    let next = next-Enough s index steps k.indexed inside m in
                    let took = level-Took s queues index w k inside in
                    let walked =
                      walk_orders store SelfTradePolicy.disabled aggressor level.head w
                        level.order_count in
                    let uncancelled = took.uncancelled ∙ c in
                    elim (Bool-cases (leb (requested - taken) level.total_quantity)) [
                      | inl q ↦
                          let enough : requested - taken ≤ level.total_quantity = ground arith in
                          let nothing_left : walked.remaining ≡ 0 = omega (arith, took.remaining) in
                          let over =
                            preflight_from_over s limit (find_next_index_after s index) walked steps
                              nothing_left in
                          rw (preflight_from, executable_from, left, e, i, b, uncancelled, q, over)
                            (omega (arith, took.executed))
                      | inr q ↦
                          let short : level.total_quantity < requested - taken = ground arith in
                          let sum : walked.result.executable_quantity
                              ≡ taken + level.total_quantity =
                            omega (arith, took.executed) in
                          let later =
                            preflight_from-executable_from s queues limit requested
                              (find_next_index_after s index) walked steps k next
                              (omega (arith, sum)) (omega (arith, sum, took.remaining))
                              uncancelled in
                          rw (preflight_from, executable_from, left, e, i, b, uncancelled, q)
                            (later
                              ∙ ap
                                  (λ x.
                                    executable_from s limit requested x
                                      (find_next_index_after s index) steps)
                                  sum)
                    ]
              ]
            ]
      ]

  -- Without self-trade prevention preflight finds what executable_quantity does, on a side that holds a
  -- queue at every price.
  pub preflight-executable_quantity :
      (s : DenseBookSide) (queues : ℕ → List ℕ) (requested : ℕ) (limit : Option ℤ)
      → IsSide store s queues
      → (preflight store SelfTradePolicy.disabled aggressor s requested limit).executable_quantity
        ≡ executable_quantity s requested limit
  unfolding preflight executable_quantity
  preflight-executable_quantity s queues requested limit k =
      let start : Walk = record {
        remaining = requested;
        result = record {
          executable_quantity = 0;
          fill_count = 0;
          resting_cancel_count = 0;
          aggressor_cancelled = false;
        };
      } in
      preflight_from-executable_from s queues limit requested s.best_index start s.level_count k
        (best-Enough s k.indexed s.level_count (omega arith)) (omega arith) (omega arith) refl
