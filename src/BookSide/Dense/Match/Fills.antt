-- ===== src/BookSide/Dense/Match/Fills.antt =====
-- include/BookSide.hpp: what the inner loop of DenseBookSide::match_without_venue does to a level and to the
-- match's state, against a queue of orders that a request works through from its front.
use eigen_book.Prelude.{
  ℕ, ◌+◌, ◌-◌, ◌<◌, ◌≡◌, ◌≢◌, refl, sym, ap, ◌∙◌, List, [], ◌∷◌, ◌==◌, ==_iff, ltb, All, map,
  update, update_self, Bool-cases, inl, inr, min, subst, if◌then◌else◌,
}
use eigen_book.Prelude.Int.{ℤ}
use eigen_book.PriceLevel.{PriceLevel, Store}
use eigen_book.PriceLevel.Fifo.{Represents}
use eigen_book.PriceLevel.Frame.{Untouched, Untouched-Represents}
use eigen_book.OrderIdMap.{OrderIdMap}
use eigen_book.OrderIdMap.Erase.{erase}
use eigen_book.EventLog.{TradeEntry, Entry, record_all}
use eigen_book.BookSide.Dense.{DenseBookSide, price_in_range, index_for_price}
use eigen_book.BookSide.Dense.Orders.{with_level}
use eigen_book.BookSide.Dense.Queues.{IsAt}
use eigen_book.BookSide.Dense.Match.{orders_of, Aggressor, MatchState, trade_entry}

-- A request against a queue: the trades in their order, what remains of the request, the orders that
-- stay, and the ids of those that were filled.
pub record Sweep : Type 0 where
  pub trades : List TradeEntry
  pub left : ℕ
  pub stay : List ℕ
  pub gone : List ℕ

unfoldable pub sweep_queue : Aggressor → Store → ℤ → List ℕ → ℕ → Sweep
sweep_queue a store price [] requested = record {
  trades = [];
  left = requested;
  stay = [];
  gone = [];
}
sweep_queue a store price (p ∷ queue) requested =
    let order = store p in
    let own = trade_entry a order.id price (min requested order.quantity) in
    let rest = sweep_queue a store price queue (requested - order.quantity) in
    if requested == 0
    then record { trades = []; left = 0; stay = p ∷ queue; gone = [] }
    else if ltb requested order.quantity
    then record { trades = own ∷ []; left = 0; stay = p ∷ queue; gone = [] }
    else record rest { trades = own ∷ rest.trades; gone = order.id ∷ rest.gone }

unfoldable pub erase_all : OrderIdMap → List ℕ → OrderIdMap
erase_all m [] = m
erase_all m (id ∷ ids) = erase_all (erase m id).1 ids

-- Level `i` holds the queue, of orders with some quantity that belong there.
pub record Ready (store : Store) (s : DenseBookSide) (i : ℕ) (level : PriceLevel) (queue : List ℕ)
    : Type 0 where
  pub held : Represents store (s.base + i) level queue
  pub placed : All (λ p. IsAt s (store p) i) queue
  pub positive : All (λ p. 0 < (store p).quantity) queue

Untouched-refl : (store : Store) (queue : List ℕ) → Untouched store store queue
Untouched-refl store [] = tt
Untouched-refl store (x ∷ queue) = (refl, Untouched-refl store queue)

pub Untouched-trans :
    (first second third : Store) (queue : List ℕ)
    → Untouched first second queue
    → Untouched second third queue
    → Untouched first third queue
Untouched-trans first second third [] u v = tt
Untouched-trans first second third (x ∷ queue) u v =
    (v.0 ∙ u.0, Untouched-trans first second third queue u.1 v.1)

-- The queues of other levels are as they were.
abbrev pub OthersKeep : Store → Store → ℕ → Type 0
OthersKeep store store' self =
    (self' : ℕ) (level' : PriceLevel) (queue' : List ℕ)
    → Represents store self' level' queue'
    → self ≢ self'
    → Untouched store store' queue'

-- The state after trades on level `i`, which has become `level`: it holds the orders that stay, the trades are
-- recorded, the ids of the filled orders erased, and what was executed is what no longer remains.
pub record Fills (i : ℕ) (m m' : MatchState) (level : PriceLevel) (sweep : Sweep) : Type 0 where
  pub ready : Ready (orders_of m'.pool) m.side i level sweep.stay
  pub side : m'.side ≡ with_level m.side i level
  pub same_price : level.price ≡ (m.side.levels i).price
  pub others : OthersKeep (orders_of m.pool) (orders_of m'.pool) (m.side.base + i)
  pub recorded : m'.event_log ≡ record_all m.event_log (map Entry.trade sweep.trades)
  pub erased : m'.order_ids ≡ erase_all m.order_ids sweep.gone
  pub remaining : m'.result.remaining_quantity ≡ sweep.left
  pub conserved :
      m'.result.executed_quantity + m'.result.remaining_quantity
      ≡ m.result.executed_quantity + m.result.remaining_quantity

levels_written : DenseBookSide → (ℕ → PriceLevel) → DenseBookSide
levels_written s levels = record s { levels = levels }

update_twice :
    (f : ℕ → PriceLevel) (i : ℕ) (x y : PriceLevel) → update (update f i x) i y ≡ update f i y
update_twice f i x y =
    let same : (j : ℕ) → update (update f i x) i y j ≡ update f i y j =
      λ j. elim (Bool-cases (j == i)) [ inl e ↦ rw e refl | inr e ↦ rw e refl ] in
    λ t j. same j t

update_kept : (f : ℕ → PriceLevel) (i : ℕ) → f ≡ update f i (f i)
update_kept f i =
    let same : (j : ℕ) → f j ≡ update f i (f i) j = λ j. elim (Bool-cases (j == i)) [
      | inl e ↦ rw e (ap f ((==_iff j i).0 e))
      | inr e ↦ rw e refl
    ] in
    λ t j. same j t

-- Writing a level twice is writing it once.
pub with_level_twice :
    (s : DenseBookSide) (i : ℕ) (x y : PriceLevel)
    → with_level (with_level s i x) i y ≡ with_level s i y
unfolding levels_written
with_level_twice s i x y = ap (levels_written s) (update_twice s.levels i x y)

with_level_kept : (s : DenseBookSide) (i : ℕ) → s ≡ with_level s i (s.levels i)
unfolding levels_written
with_level_kept s i = ap (levels_written s) (update_kept s.levels i)

-- Nothing is traded, and the level stays as it is.
pub Fills-none :
    (i : ℕ) (m : MatchState) (left : ℕ) (stay : List ℕ)
    → m.result.remaining_quantity ≡ left
    → Ready (orders_of m.pool) m.side i (m.side.levels i) stay
    → Fills i m m (m.side.levels i) (record { trades = []; left = left; stay = stay; gone = [] })
unfolding erase_all record_all
Fills-none i m left stay remaining ready = record {
  ready = ready;
  side = with_level_kept m.side i;
  same_price = refl;
  others = λ self' level' queue' r' h. Untouched-refl (orders_of m.pool) queue';
  recorded = refl;
  erased = refl;
  remaining = remaining;
  conserved = refl;
}

-- One order filled, and then a sweep of those that stayed.
pub Fills-cons :
    (i : ℕ) (m m' m'' : MatchState) (level level' : PriceLevel) (own : TradeEntry) (id left : ℕ)
    (queue : List ℕ) (rest : Sweep)
    → Fills i m m' level (record { trades = own ∷ []; left = left; stay = queue; gone = id ∷ [] })
    → Fills i m' m'' level' rest
    → Fills i m m'' level' (record rest { trades = own ∷ rest.trades; gone = id ∷ rest.gone })
unfolding erase_all record_all price_in_range index_for_price
Fills-cons i m m' m'' level level' own id left queue rest f g =
    let base : m'.side.base ≡ m.side.base = ap (λ (s : DenseBookSide). s.base) f.side in
    let written : m'.side.levels i ≡ level =
      ap (λ (s : DenseBookSide). s.levels i) f.side ∙ update_self m.side.levels i level in
    let ready : Ready (orders_of m''.pool) (with_level m.side i level) i level' rest.stay =
      subst (λ s. Ready (orders_of m''.pool) s i level' rest.stay) f.side g.ready in
    record {
      ready = record { held = ready.held; placed = ready.placed; positive = ready.positive };
      side =
          g.side ∙ ap (λ s. with_level s i level') f.side ∙ with_level_twice m.side i level level';
      same_price = g.same_price ∙ ap (λ (l : PriceLevel). l.price) written ∙ f.same_price;
      others = λ self' level'' queue' r' h.
          let first = f.others self' level'' queue' r' h in
          Untouched-trans (orders_of m.pool) (orders_of m'.pool) (orders_of m''.pool) queue' first (
            g.others self' level'' queue'
              (Untouched-Represents (orders_of m.pool) (orders_of m'.pool) self' level'' queue'
                first r')
              (rw base h));
      recorded = g.recorded ∙ ap (λ log. record_all log (map Entry.trade rest.trades)) f.recorded;
      erased = g.erased ∙ ap (λ ids. erase_all ids rest.gone) f.erased;
      remaining = g.remaining;
      conserved = g.conserved ∙ f.conserved;
    }

-- The level after the trades is ready for the next.
pub Fills-Ready :
    (i : ℕ) (m m' : MatchState) (level : PriceLevel) (sweep : Sweep)
    → Fills i m m' level sweep
    → Ready (orders_of m'.pool) m'.side i (m'.side.levels i) sweep.stay
unfolding price_in_range index_for_price
Fills-Ready i m m' level sweep f =
    let own : update m.side.levels i level i ≡ level = update_self m.side.levels i level in
    let ready : Ready (orders_of m'.pool) (with_level m.side i level) i
        (update m.side.levels i level i) sweep.stay =
      rw own
        (record { held = f.ready.held; placed = f.ready.placed; positive = f.ready.positive }) in
    subst (λ (s : DenseBookSide). Ready (orders_of m'.pool) s i (s.levels i) sweep.stay)
      (sym f.side) ready

pub Fills-price :
    (i : ℕ) (m m' : MatchState) (level : PriceLevel) (sweep : Sweep)
    → Fills i m m' level sweep
    → (m'.side.levels i).price ≡ (m.side.levels i).price
Fills-price i m m' level sweep f =
    ap (λ (s : DenseBookSide). (s.levels i).price) f.side
    ∙ ap (λ (l : PriceLevel). l.price) (update_self m.side.levels i level)
    ∙ f.same_price

-- The orders keep what a sweep reads of them.
abbrev pub SameOrders : Store → Store → List ℕ → Type 0
SameOrders store store' queue =
    All (λ j. ((store' j).id ≡ (store j).id) × ((store' j).quantity ≡ (store j).quantity)) queue

pub sweep_queue_same :
    (a : Aggressor) (store store' : Store) (price : ℤ) (queue : List ℕ) (requested : ℕ)
    → SameOrders store store' queue
    → sweep_queue a store' price queue requested ≡ sweep_queue a store price queue requested
unfolding sweep_queue
sweep_queue_same a store store' price [] requested k = refl
sweep_queue_same a store store' price (p ∷ queue) requested k =
    let (id, quantity) = k.0 in
    let rest = sweep_queue_same a store store' price queue (requested - (store p).quantity) k.1 in
    rw (id, quantity, rest) refl
