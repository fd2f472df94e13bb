-- ===== src/BookSide/Dense/Match/Level.antt =====
-- include/BookSide.hpp: the inner loop of DenseBookSide::match_without_venue works through a level's queue.
use eigen_book.Prelude.{
  ℕ, zero, suc, ◌+◌, ◌-◌, ◌≤◌, ◌<◌, ◌≡◌, refl, Bool, true, false, ltb, List, [], ◌∷◌, ◌==◌, length,
  Bool-cases, inl, inr, u64_max, min, arith, subst,
}
use eigen_book.PriceLevel.{PriceLevel}
use eigen_book.BookSide.Dense.Match.{
  orders_of, Aggressor, MatchState, trade_entry, fill_resting, fill_level,
}
use eigen_book.BookSide.Dense.Match.Fills.{
  Ready, Fills, Sweep, sweep_queue, Fills-none, Fills-cons, Fills-Ready, Fills-price,
  sweep_queue_same,
}
use eigen_book.BookSide.Dense.Match.Step.{
  left_level, filled_level, fill_resting-part, fill_resting-whole,
}

fill_level-done :
    (a : Aggressor) (i : ℕ) (m : MatchState) (steps : ℕ)
    → m.result.remaining_quantity ≡ 0
    → fill_level a i m steps ≡ (m, true)
unfolding fill_level
fill_level-done a i m zero e = refl
fill_level-done a i m (suc steps) e =
    let done : (m.result.remaining_quantity == 0) ≡ true = ground arith in
    rw (fill_level, done) refl

-- The inner loop ends well, and does to the level what the sweep of its queue says.
abbrev pub Filled : Aggressor → ℕ → MatchState → List ℕ → MatchState × Bool → Type 0
Filled a i m queue r =
    (r.1 ≡ true)
    × ((level : PriceLevel) × Fills i m r.0 level (
          sweep_queue a (orders_of m.pool) (m.side.levels i).price queue
            m.result.remaining_quantity))

-- A round that leaves something of the first order ends the sweep.
part_Filled :
    (a : Aggressor) (i : ℕ) (m : MatchState) (p : ℕ) (queue : List ℕ) (steps : ℕ)
    → Ready (orders_of m.pool) m.side i (m.side.levels i) (p ∷ queue)
    → 0 < m.result.remaining_quantity
    → m.result.executed_quantity + m.result.remaining_quantity ≤ u64_max
    → m.result.remaining_quantity < (orders_of m.pool p).quantity
    → Filled a i m (p ∷ queue) (fill_level a i m (suc steps))
unfolding sweep_queue fill_level
part_Filled a i m p queue steps r low b more =
    let wanted : (m.result.remaining_quantity == 0) ≡ false = ground arith in
    let less : ltb m.result.remaining_quantity (orders_of m.pool p).quantity ≡ true =
      ground arith in
    let (runs, fills) = fill_resting-part a i p queue m r low b more in
    let m' = (fill_resting a i p m).0 in
    let ended = fill_level-done a i m' steps fills.remaining in
    rw (fill_level, sweep_queue, wanted, less, r.held.head, runs, ended)
      (refl, (filled_level a i p queue m r low b, fills))

-- A round that fills the first order, and the sweep of the orders behind it.
whole_Filled :
    (a : Aggressor) (i : ℕ) (m : MatchState) (p : ℕ) (queue : List ℕ) (steps : ℕ)
    → Ready (orders_of m.pool) m.side i (m.side.levels i) (p ∷ queue)
    → 0 < m.result.remaining_quantity
    → m.result.executed_quantity + m.result.remaining_quantity ≤ u64_max
    → (orders_of m.pool p).quantity ≤ m.result.remaining_quantity
    → ((m' : MatchState)
        → Ready (orders_of m'.pool) m'.side i (m'.side.levels i) queue
        → m'.result.executed_quantity + m'.result.remaining_quantity ≤ u64_max
        → Filled a i m' queue (fill_level a i m' steps))
    → Filled a i m (p ∷ queue) (fill_level a i m (suc steps))
unfolding sweep_queue fill_level
whole_Filled a i m p queue steps r low b enough later =
    let n = m.result.remaining_quantity in
    let q = (orders_of m.pool p).quantity in
    let wanted : (n == 0) ≡ false = ground arith in
    let less : ltb n q ≡ false = ground arith in
    let (runs, fills, same) = fill_resting-whole a i p queue m r low b enough in
    let m' = (fill_resting a i p m).0 in
    let level = left_level a i p queue m r low b in
    let sweep : Sweep = record {
      trades = trade_entry a (orders_of m.pool p).id (m.side.levels i).price (min n q) ∷ [];
      left = n - q;
      stay = queue;
      gone = (orders_of m.pool p).id ∷ [];
    } in
    let (ran, (level', fills')) =
      later m' (Fills-Ready i m m' level sweep fills) (omega (arith, fills.conserved, b)) in
    let same_price : (m'.side.levels i).price ≡ (m.side.levels i).price =
      Fills-price i m m' level sweep fills in
    let rest = sweep_queue a (orders_of m.pool) (m.side.levels i).price queue (n - q) in
    let agrees : sweep_queue a (orders_of m'.pool) (m'.side.levels i).price queue
          m'.result.remaining_quantity
        ≡ rest =
      rw (same_price, fills.remaining)
        (sweep_queue_same a (orders_of m.pool) (orders_of m'.pool) (m.side.levels i).price queue
          (n - q) same) in
    let last = (fill_level a i m' steps).0 in
    let then_fills : Fills i m' last level' rest = subst (Fills i m' last level') agrees fills' in
    rw (fill_level, sweep_queue, wanted, less, r.held.head, runs)
      (
        ran,
        (
          level',
          Fills-cons i m m' last level level'
              (trade_entry a (orders_of m.pool p).id (m.side.levels i).price (min n q))
              (orders_of m.pool p).id (n - q) queue rest fills then_fills,
        ),
      )

-- On a level that holds a queue of orders with some quantity, as many rounds as there are orders are
-- enough, and none fails.
pub fill_level-Filled :
    (a : Aggressor) (i : ℕ) (m : MatchState) (queue : List ℕ) (steps : ℕ)
    → Ready (orders_of m.pool) m.side i (m.side.levels i) queue
    → m.result.executed_quantity + m.result.remaining_quantity ≤ u64_max
    → length queue ≤ steps
    → Filled a i m queue (fill_level a i m steps)
unfolding sweep_queue fill_level
fill_level-Filled a i m [] zero r b h =
    (refl, (m.side.levels i, Fills-none i m m.result.remaining_quantity [] refl r))
fill_level-Filled a i m [] (suc steps) r b h =
    let kept = Fills-none i m m.result.remaining_quantity [] refl r in
    elim (Bool-cases (m.result.remaining_quantity == 0)) [
      | inl e ↦ rw (fill_level, e) (refl, (m.side.levels i, kept))
      | inr e ↦ rw (fill_level, e, r.held.head) (refl, (m.side.levels i, kept))
    ]
fill_level-Filled a i m (p ∷ queue) zero r b h = absurd (omega arith)
fill_level-Filled a i m (p ∷ queue) (suc steps) r b h =
    let n = m.result.remaining_quantity in
    let later : (m' : MatchState)
        → Ready (orders_of m'.pool) m'.side i (m'.side.levels i) queue
        → m'.result.executed_quantity + m'.result.remaining_quantity ≤ u64_max
        → Filled a i m' queue (fill_level a i m' steps) =
      λ m' r' b'. fill_level-Filled a i m' queue steps r' b' (omega arith) in
    elim (Bool-cases (n == 0)) [
      | inl e ↦
          let none_wanted : n ≡ 0 = ground arith in
          rw (fill_level, sweep_queue, e)
            (refl, (m.side.levels i, Fills-none i m 0 (p ∷ queue) none_wanted r))
      | inr e ↦ elim (Bool-cases (ltb n (orders_of m.pool p).quantity)) [
        | inl more ↦ part_Filled a i m p queue steps r (ground arith) b (ground arith)
        | inr enough ↦ whole_Filled a i m p queue steps r (ground arith) b (ground arith) later
      ]
    ]
