-- ===== src/BookSide/Dense/Match/Step.antt =====
-- include/BookSide.hpp: one round of the inner loop of DenseBookSide::match_without_venue.
use eigen_book.Prelude.{
  ℕ, ◌+◌, ◌-◌, ◌≤◌, ◌<◌, ◌≡◌, ◌≢◌, refl, sym, ap, ◌∙◌, true, false, not, ◌||◌, Option, none, some,
  List, [], ◌∷◌, ◌==◌, ==_iff, ltb, All, All-map, NotIn, update, update_self, update_ne, Bool-cases,
  inl, inr, u64_max, min, arith, if◌then◌else◌, subst,
}
use eigen_book.Order.{Order, cleared}
use eigen_book.PriceLevel.{PriceLevel, Store, fill_front, remove}
use eigen_book.PriceLevel.Fifo.{Represents, All-quantity, contents}
use eigen_book.PriceLevel.Quantity.{fill_front-Represents, fill_front-price}
use eigen_book.PriceLevel.Remove.{Removes, remove-Represents}
use eigen_book.PriceLevel.Frame.{
  Untouched, Untouched-Represents, Links-level, some-injective, remove-Untouched,
}
use eigen_book.MemoryPool.{MemoryPool, release, slot_index, no_slot}
use eigen_book.OrderIdMap.Erase.{erase}
use eigen_book.EventLog.{TradeEntry, append_trade, record_all, record_entry}
use eigen_book.BookSide.Dense.Match.Fills.{
  Ready, Fills, OthersKeep, erase_all, SameOrders, Untouched-trans, with_level_twice,
}
use eigen_book.Types.Enums.{OrderState, partially_filled}
use eigen_book.BookSide.Dense.{DenseBookSide, price_in_range, index_for_price}
use eigen_book.BookSide.Dense.Orders.{with_level}
use eigen_book.BookSide.Dense.Queues.{IsAt, All-zip}
use eigen_book.BookSide.Dense.Queues.Change.{Keeps-placed}
use eigen_book.BookSide.Dense.Match.{
  orders_of, with_orders, Aggressor, MatchState, count_fill, trade_entry, execute, retire,
  fill_resting,
}

-- Giving a slot back leaves its storage, and every other, as it is.
pub release-orders_of :
    (pool : MemoryPool Order) (o : Option ℕ) → orders_of (release pool o) ≡ orders_of pool
unfolding release
release-orders_of pool o =
    let index = slot_index pool o in
    let released : (i : ℕ)
        → (update pool.slots index
            (record (pool.slots index) { in_use = false; next = pool.free_head }) i).storage
          ≡ (pool.slots i).storage =
      λ i. elim (Bool-cases (i == index)) [
        | inl e ↦ let same = (==_iff i index).0 e in rw (e, same) refl
        | inr e ↦ rw e refl
      ] in
    elim (Bool-cases (index == no_slot || not (pool.slots index).in_use)) [
      | inl e ↦ rw e refl
      | inr e ↦ rw e (λ t i. released i t)
    ]

update-NotIn-Untouched :
    (store : Store) (p : ℕ) (o : Order) (queue : List ℕ)
    → NotIn p queue
    → Untouched store (update store p o) queue
update-NotIn-Untouched store p o queue n = All-map queue (λ j d. update_ne store p o j d) n

-- The first order of one level's queue is in no other level's.
apart-NotIn :
    (store : Store) (self : ℕ) (level : PriceLevel) (p : ℕ) (rest : List ℕ) (self' : ℕ)
    (level' : PriceLevel) (queue' : List ℕ)
    → Represents store self level (p ∷ rest)
    → Represents store self' level' queue'
    → self ≢ self'
    → NotIn p queue'
apart-NotIn store self level p rest self' level' queue' r r' h =
    All-map queue'
      (λ j own e. h (some-injective (sym (r.links.2) ∙ ap (λ k. (store k).level) (sym e) ∙ own)))
      (Links-level store self' none queue' none r'.links)

IsAt_at : (s : DenseBookSide) (i : ℕ) {o o' : Order} → o' ≡ o → IsAt s o i → IsAt s o' i
IsAt_at s i e w = subst (λ o. IsAt s o i) (sym e) w

-- The oldest order of level `i`, with some quantity, against a request for some.
module _ (a : Aggressor) (i p : ℕ) (rest : List ℕ) (m : MatchState)
    (r : Ready (orders_of m.pool) m.side i (m.side.levels i) (p ∷ rest))
    (low : 0 < m.result.remaining_quantity)
    (bounded : m.result.executed_quantity + m.result.remaining_quantity ≤ u64_max) where
  abbrev store : Store
  store = orders_of m.pool

  abbrev self : ℕ
  self = m.side.base + i

  abbrev requested : ℕ
  requested = m.result.remaining_quantity

  abbrev filled_store : Store
  filled_store = (fill_front store (m.side.levels i) requested).0

  abbrev pub filled_level : PriceLevel
  filled_level = (fill_front store (m.side.levels i) requested).1

  abbrev executed : ℕ
  executed = min requested (store p).quantity

  abbrev own : TradeEntry
  own = trade_entry a (store p).id (m.side.levels i).price executed

  abbrev traded : MatchState
  traded = record m {
    side = with_level m.side i filled_level;
    pool = with_orders m.pool filled_store;
    result = count_fill m.result (m.side.levels i).price executed;
    event_log = append_trade m.event_log own;
  }

  abbrev filled : Order
  filled = record (store p) {
    quantity = (store p).quantity - requested;
    state = if ltb requested (store p).quantity then partially_filled else OrderState.filled;
  }

  fills :
      ((fill_front store (m.side.levels i) requested).2 ≡ executed)
      × Represents filled_store self filled_level (p ∷ rest)
      × (filled_store ≡ update store p filled)
  fills = fill_front-Represents store self (m.side.levels i) p rest requested r.held low

  execute-traded : execute a i p m ≡ (traded, executed)
  unfolding execute
  execute-traded =
      let positive : (min requested (store p).quantity == 0) ≡ false =
        ground (arith, r.positive.0) in
      let price = fill_front-price store (m.side.levels i) requested in
      rw (fills.0, positive, price) refl

  conserved :
      traded.result.executed_quantity + traded.result.remaining_quantity
      ≡ m.result.executed_quantity + m.result.remaining_quantity
  conserved = omega (arith, bounded)

  others_filled : OthersKeep store filled_store self
  others_filled self' level' queue' r' h = rw fills.2 (
      update-NotIn-Untouched store p filled queue'
        (apart-NotIn store self (m.side.levels i) p rest self' level' queue' r.held r' h))

  -- The orders behind the first are as they were after it has been filled.
  behind_filled : Untouched store filled_store rest
  behind_filled = rw fills.2 (update-NotIn-Untouched store p filled rest r.held.distinct.0)

  -- Every order is still where it belongs.
  placed_filled : All (λ j. IsAt m.side (filled_store j) i) (p ∷ rest)
  unfolding price_in_range index_for_price
  placed_filled =
      let first : filled_store p ≡ filled = ap (λ f. f p) fills.2 ∙ update_self store p filled in
      (rw first r.placed.0, All-zip rest (λ j e w. IsAt_at m.side i e w) behind_filled r.placed.1)

  positive_behind : All (λ j. 0 < (filled_store j).quantity) rest
  positive_behind = All-zip rest (λ j e w. rw e w) behind_filled r.positive.1

  positive_filled :
      requested < (store p).quantity → All (λ j. 0 < (filled_store j).quantity) (p ∷ rest)
  positive_filled more =
      let first : filled_store p ≡ filled = ap (λ f. f p) fills.2 ∙ update_self store p filled in
      (rw first (omega (arith, more)), positive_behind)

  -- A request for less than the order has takes it from that order, which stays the first.
  pub fill_resting-part :
      requested < (store p).quantity
      → ((fill_resting a i p m).1 ≡ true)
        × Fills i m
            (fill_resting a i p m).0
            filled_level
            (record { trades = own ∷ []; left = 0; stay = p ∷ rest; gone = [] })
  unfolding fill_resting erase_all record_all record_entry price_in_range index_for_price
  fill_resting-part more =
      let positive : (executed == 0) ≡ false = ground (arith, r.positive.0) in
      let first : filled_store p ≡ filled = ap (λ f. f p) fills.2 ∙ update_self store p filled in
      let some_left : ((filled_store p).quantity == 0) ≡ false = rw first (ground arith) in
      rw (execute-traded, positive, some_left)
        (
          refl,
          record {
            ready = record {
              held = fills.1;
              placed = placed_filled;
              positive = positive_filled more;
            };
            side = refl;
            same_price = fill_front-price store (m.side.levels i) requested;
            others = others_filled;
            recorded = refl;
            erased = refl;
            remaining = omega (arith, more);
            conserved = conserved;
          },
        )

  removal : Removes filled_store self filled_level rest p (remove filled_store self filled_level p)
  removal = remove-Represents filled_store self filled_level [] p rest fills.1

  abbrev left_store : Store
  left_store = (remove filled_store self filled_level p).0

  abbrev pub left_level : PriceLevel
  left_level = (remove filled_store self filled_level p).1

  abbrev final_store : Store
  final_store = update left_store p cleared

  abbrev retired : MatchState
  retired = record traded {
    side = with_level traded.side i left_level;
    order_ids = (erase m.order_ids (store p).id).1;
    pool = release (with_orders traded.pool final_store) (some p);
  }

  retire-retired : retire i p (store p).id traded ≡ (retired, true)
  unfolding retire
  retire-retired =
      let level : update m.side.levels i filled_level i ≡ filled_level =
        update_self m.side.levels i filled_level in
      rw (level, removal.succeeds) refl

  behind_left : Untouched left_store final_store rest
  behind_left = update-NotIn-Untouched left_store p cleared rest r.held.distinct.0

  others_left : OthersKeep store final_store self
  others_left self' level' queue' r' h =
      let before = others_filled self' level' queue' r' h in
      let held = Untouched-Represents store filled_store self' level' queue' before r' in
      let removed =
        remove-Untouched filled_store self filled_level [] p rest self' level' queue' fills.1 held
          h in
      let apart = apart-NotIn store self (m.side.levels i) p rest self' level' queue' r.held r' h in
      Untouched-trans store filled_store final_store queue' before (
        Untouched-trans filled_store left_store final_store queue' removed
          (update-NotIn-Untouched left_store p cleared queue' apart))

  -- The orders behind the first, when it has gone.
  Ready-left : Ready final_store m.side i left_level rest
  Ready-left =
      let apart = r.held.distinct.0 in
      let placed =
        Keeps-placed filled_store left_store m.side i p rest removal.keeps apart placed_filled.1 in
      let same : All (λ j. (left_store j).quantity ≡ (filled_store j).quantity) rest =
        All-quantity filled_store left_store p rest removal.keeps apart in
      let positive = All-zip rest (λ j e w. rw e w) same positive_behind in
      record {
        held =
            Untouched-Represents left_store final_store self left_level rest behind_left
              removal.queued;
        placed = All-zip rest (λ j e w. IsAt_at m.side i e w) behind_left placed;
        positive = All-zip rest (λ j e w. rw e w) behind_left positive;
      }

  same_behind : SameOrders store final_store rest
  same_behind =
      let apart = r.held.distinct.0 in
      let removed = All-zip rest (λ j n e. removal.keeps j n) apart behind_filled in
      let kept = All-zip rest (λ j e c. ap contents e ∙ c) behind_left removed in
      All-zip rest
        (λ j e c. (
          ap (λ (o : Order). o.id) c ∙ ap (λ (o : Order). o.id) e,
          ap (λ (o : Order). o.quantity) c ∙ ap (λ (o : Order). o.quantity) e,
        ))
        behind_filled kept

  -- A request for at least what the order has fills it, which takes it off the level and out of the pool.
  pub fill_resting-whole :
      (store p).quantity ≤ requested
      → ((fill_resting a i p m).1 ≡ true)
        × Fills i m (fill_resting a i p m).0 left_level (record {
          trades = own ∷ [];
          left = requested - (store p).quantity;
          stay = rest;
          gone = (store p).id ∷ [];
        })
        × SameOrders store (orders_of (fill_resting a i p m).0.pool) rest
  unfolding fill_resting erase_all record_all record_entry
  fill_resting-whole enough =
      let positive : (executed == 0) ≡ false = ground (arith, r.positive.0) in
      let first : filled_store p ≡ filled = ap (λ f. f p) fills.2 ∙ update_self store p filled in
      let none_left : ((filled_store p).quantity == 0) ≡ true = rw first (ground arith) in
      let released : orders_of retired.pool ≡ final_store =
        release-orders_of (with_orders traded.pool final_store) (some p) in
      rw (execute-traded, positive, none_left, retire-retired)
        (
          refl,
          record {
            ready = rw released Ready-left;
            side = with_level_twice m.side i filled_level left_level;
            same_price = removal.same_price ∙ fill_front-price store (m.side.levels i) requested;
            others = rw released others_left;
            recorded = refl;
            erased = refl;
            remaining = omega (arith, enough);
            conserved = conserved;
          },
          rw released same_behind,
        )
