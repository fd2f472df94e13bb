-- ===== src/BookSide/Dense/Match/Levels.antt =====
-- include/BookSide.hpp: the outer loop of DenseBookSide::match_without_venue, and the whole of it.
use eigen_book.Prelude.{
  ℕ, zero, suc, ◌+◌, ◌-◌, ◌≤◌, ◌<◌, ◌≡◌, ◌≢◌, inl, inr, refl, sym, ap, ◌∙◌, Bool, true, false, not,
  Option, List, [], ◌∷◌, ◌++◌, map, ◌==◌, ltb, All, update, update_self, update_ne, Bool-cases,
  u64_max, arith, subst, if◌then◌else◌,
}
use eigen_book.Prelude.Int.{ℤ}
use eigen_book.Types.Enums.{invalid_index}
use eigen_book.PriceLevel.{PriceLevel, Store, empty}
use eigen_book.PriceLevel.Frame.{Untouched}
use eigen_book.OrderIdMap.{OrderIdMap}
use eigen_book.OrderIdMap.Erase.{erase}
use eigen_book.EventLog.{EventLog, TradeEntry, Entry, record_all, record_entry}
use eigen_book.BookSide.Dense.{DenseBookSide, clear_occupied}
use eigen_book.BookSide.Dense.Orders.{with_level}
use eigen_book.BookSide.Dense.Liquidity.{beyond}
use eigen_book.BookSide.Dense.Queues.{is_empty, IsSide, SameRange, Changes-IsSide, All-zip}
use eigen_book.BookSide.Dense.Queues.Settle.{Settles, Settles-remove, Settles-Changes}
use eigen_book.BookSide.Dense.Match.{
  orders_of, Aggressor, MatchState, fill_level, leave_level, fill_levels,
}
use eigen_book.BookSide.Dense.Match.Fills.{
  Ready, Fills, Sweep, sweep_queue, sweep_queue_same, SameOrders, erase_all,
}
use eigen_book.BookSide.Dense.Match.Level.{fill_level-Filled}
use eigen_book.BookSide.Dense.Match.Trading.{
  IsBest, NoneLeft, Trading, finished, exhausted, refused, swept, beyond_same, best_index-IsBest,
  with_orders_count, with_orders_count-update, no_orders-NoneLeft,
}

-- Every order of a level has some quantity.
abbrev pub AllPositive : Store → DenseBookSide → (ℕ → List ℕ) → Type 0
AllPositive store s queues =
    (j : ℕ) → j < s.level_count → All (λ p. 0 < (store p).quantity) (queues j)

-- Where the outer loop stands: the side holds the queues, its prices are as they were at the start, and so
-- are the orders, as long as something is wanted.
pub record Stands (s : DenseBookSide) (store : Store) (queues : ℕ → List ℕ) (m : MatchState)
    : Type 0 where
  pub side : IsSide (orders_of m.pool) m.side queues
  pub range : SameRange s m.side
  pub prices : (j : ℕ) → (m.side.levels j).price ≡ (s.levels j).price
  pub positive : AllPositive (orders_of m.pool) s queues
  pub same :
      0 < m.result.remaining_quantity
      → (j : ℕ) → j < s.level_count
      → SameOrders store (orders_of m.pool) (queues j)

-- The loop has ended well: it has traded by price and then by age, recorded the trades, erased the ids of the
-- filled orders, and counted as executed what no longer remains.
pub record Trades (a : Aggressor) (s : DenseBookSide) (store : Store) (limit : Option ℤ)
    (queues : ℕ → List ℕ) (m : MatchState) (r : MatchState × Bool) : Type 0 where
  pub runs : r.1 ≡ true
  pub queues' : ℕ → List ℕ
  pub trades : List TradeEntry
  pub gone : List ℕ
  pub stands : Stands s store queues' r.0
  pub trading :
      Trading a store s limit queues m.result.remaining_quantity trades
        r.0.result.remaining_quantity queues' gone
  pub recorded : r.0.event_log ≡ record_all m.event_log (map Entry.trade trades)
  pub erased : r.0.order_ids ≡ erase_all m.order_ids gone
  pub conserved :
      r.0.result.executed_quantity + r.0.result.remaining_quantity
      ≡ m.result.executed_quantity + m.result.remaining_quantity

pub sweep_queue-stay :
    (a : Aggressor) (store : Store) (price : ℤ) (queue : List ℕ) (r : ℕ)
    → 0 < (sweep_queue a store price queue r).left
    → (sweep_queue a store price queue r).stay ≡ []
unfolding sweep_queue
sweep_queue-stay a store price [] r h = refl
sweep_queue-stay a store price (p ∷ queue) r h = elim (Bool-cases (r == 0)) [
  | inl e ↦ absurd (omega (arith, rw (sweep_queue, e) at h))
  | inr e ↦ elim (Bool-cases (ltb r (store p).quantity)) [
    | inl d ↦ absurd (omega (arith, rw (sweep_queue, e, d) at h))
    | inr d ↦
        rw (sweep_queue, e, d)
          (sweep_queue-stay a store price queue (r - (store p).quantity)
            (rw (sweep_queue, e, d) at h))
  ]
]

record_all-append :
    (log : EventLog) (xs ys : List Entry)
    → record_all log (xs ++ ys) ≡ record_all (record_all log xs) ys
unfolding record_all
record_all-append log [] ys = refl
record_all-append log (x ∷ xs) ys = record_all-append (record_entry log x) xs ys

erase_all-append :
    (m : OrderIdMap) (xs ys : List ℕ) → erase_all m (xs ++ ys) ≡ erase_all (erase_all m xs) ys
unfolding erase_all
erase_all-append m [] ys = refl
erase_all-append m (x ∷ xs) ys = erase_all-append (erase m x).1 xs ys

map-append :
    (xs ys : List TradeEntry)
    → map Entry.trade (xs ++ ys) ≡ map Entry.trade xs ++ map Entry.trade ys
map-append [] ys = refl
map-append (x ∷ xs) ys = ap (◌∷◌ (Entry.trade x)) (map-append xs ys)

-- The loop stops where it stands.
stops :
    (a : Aggressor) (s : DenseBookSide) (store : Store) (limit : Option ℤ) (queues : ℕ → List ℕ)
    (m : MatchState)
    → Stands s store queues m
    → Trading a store s limit queues m.result.remaining_quantity [] m.result.remaining_quantity
        queues []
    → Trades a s store limit queues m (m, true)
unfolding record_all erase_all
stops a s store limit queues m k t = record {
  runs = refl;
  queues' = queues;
  trades = [];
  gone = [];
  stands = k;
  trading = t;
  recorded = refl;
  erased = refl;
  conserved = refl;
}

SameRange-trans : (s s' s'' : DenseBookSide) → SameRange s s' → SameRange s' s'' → SameRange s s''
SameRange-trans s s' s'' f g = record {
  side = g.side ∙ f.side;
  min_price = g.min_price ∙ f.min_price;
  max_price = g.max_price ∙ f.max_price;
  tick_size = g.tick_size ∙ f.tick_size;
  level_count = g.level_count ∙ f.level_count;
  base = g.base ∙ f.base;
}

-- A sweep of level `i`, after which the level is left.
module _ (a : Aggressor) (s : DenseBookSide) (store : Store) (queues : ℕ → List ℕ)
    (m m' : MatchState) (i : ℕ) (level : PriceLevel) (sweep : Sweep) (k : Stands s store queues m)
    (inside : i < s.level_count) (some_order : is_empty (queues i) ≡ false)
    (f : Fills i m m' level sweep) where
  abbrev left_side : DenseBookSide
  left_side =
      if empty level
      then clear_occupied (with_level m.side i level) i
      else with_level m.side i level

  abbrev leave : DenseBookSide → DenseBookSide
  leave x = if empty (x.levels i) then clear_occupied x i else x

  leave_level-side : (leave_level i m').side ≡ left_side
  leave_level-side =
      let own : update m.side.levels i level i ≡ level = update_self m.side.levels i level in
      let written : leave (with_level m.side i level) ≡ left_side = rw own refl in
      ap leave f.side ∙ written

  inside_now : i < m.side.level_count
  inside_now = omega (arith, k.range.level_count, inside)

  settled : Settles m.side i level (not (is_empty sweep.stay)) (leave_level i m').side
  settled = subst (Settles m.side i level (not (is_empty sweep.stay))) (sym leave_level-side) (
      Settles-remove (orders_of m.pool) (orders_of m'.pool) m.side i level (queues i) sweep.stay
        k.side.indexed (k.side.holds i inside_now) some_order f.ready.held)

  others :
      (j : ℕ)
      → j ≢ i
      → j < m.side.level_count
      → Untouched (orders_of m.pool) (orders_of m'.pool) (queues j)
  others j d h =
      f.others (m.side.base + j) (m.side.levels j) (queues j) (k.side.holds j h).held
        (λ e. d (omega arith))

  leave_level-IsSide :
      IsSide (orders_of m'.pool) (leave_level i m').side (update queues i sweep.stay)
  leave_level-IsSide =
      Changes-IsSide (orders_of m.pool) m.side queues i (orders_of m'.pool) (leave_level i m').side
        sweep.stay k.side
        (Settles-Changes (orders_of m.pool) m.side queues i (orders_of m'.pool) level
          (leave_level i m').side sweep.stay settled f.ready.held f.ready.placed others)

  leave_level-prices : (j : ℕ) → ((leave_level i m').side.levels j).price ≡ (s.levels j).price
  leave_level-prices j = elim (Bool-cases (j == i)) [
    | inl e ↦
        let here : j ≡ i = ground arith in
        rw (settled.levels, here, update_self m.side.levels i level) (f.same_price ∙ k.prices i)
    | inr e ↦ rw (settled.levels, update_ne m.side.levels i level j (ground arith)) (k.prices j)
  ]

  -- What holds of the orders of every other level, and of those that stay, holds of all that are left.
  each_level :
      (P : List ℕ → Type 0)
      → P sweep.stay
      → ((j : ℕ) → j ≢ i → j < s.level_count → P (queues j))
      → (j : ℕ) → j < s.level_count
      → P (update queues i sweep.stay j)
  each_level P own other j h = elim (Bool-cases (j == i)) [
    | inl e ↦ let here : j ≡ i = ground arith in rw (here, update_self queues i sweep.stay) own
    | inr e ↦
        let apart : j ≢ i = ground arith in
        rw (update_ne queues i sweep.stay j apart) (other j apart h)
  ]

  -- The loop stands there with the orders that are left.
  pub leave_level-Stands :
      (0 < sweep.left → sweep.stay ≡ [])
      → 0 < m.result.remaining_quantity
      → Stands s store (update queues i sweep.stay) (leave_level i m')
  leave_level-Stands emptied low = record {
    side = leave_level-IsSide;
    range = SameRange-trans s m.side (leave_level i m').side k.range settled.range;
    prices = leave_level-prices;
    positive = each_level (All (λ p. 0 < (orders_of m'.pool p).quantity)) f.ready.positive (λ j d h.
        All-zip (queues j) (λ p e w. rw e w) (others j d (omega (arith, k.range.level_count, h)))
          (k.positive j h));
    same = λ wanted.
        let gone : sweep.stay ≡ [] = emptied (omega (arith, wanted, f.remaining)) in
        each_level (SameOrders store (orders_of m'.pool)) (rw gone tt) (λ j d h.
          All-zip (queues j) (λ p e w. rw e w) (others j d (omega (arith, k.range.level_count, h)))
            (k.same low j h));
  }

-- The best level of a side where the loop stands is the best of the side at the start.
Stands-IsBest :
    (s : DenseBookSide) (store : Store) (queues : ℕ → List ℕ) (m : MatchState) (i : ℕ)
    → Stands s store queues m
    → IsBest m.side queues i
    → IsBest s queues i
Stands-IsBest s store queues m i k b = record {
  inside = omega (arith, k.range.level_count, b.inside);
  some_order = b.some_order;
  best = λ j h y. rw k.range.side at (b.best j (omega (arith, k.range.level_count, h)) y);
}

module _ (a : Aggressor) (s : DenseBookSide) (store : Store) (limit : Option ℤ) where
  -- Nothing is wanted, or no level has orders.
  finishes :
      (queues : ℕ → List ℕ) (m : MatchState)
      → Stands s store queues m
      → m.result.remaining_quantity ≡ 0
      → Trades a s store limit queues m (m, true)
  finishes queues m k e = stops a s store limit queues m k (rw e finished)

  exhausts :
      (queues : ℕ → List ℕ) (m : MatchState)
      → Stands s store queues m
      → NoneLeft m.side queues
      → Trades a s store limit queues m (m, true)
  exhausts queues m k e =
      stops a s store limit queues m k
        (exhausted (λ j h. e j (omega (arith, k.range.level_count, h))))

  -- A sweep of the best level, and then the rest of the loop.
  sweeps :
      (queues : ℕ → List ℕ) (m m' : MatchState) (i : ℕ) (level : PriceLevel) (sweep : Sweep)
      (r : MatchState × Bool)
      → 0 < m.result.remaining_quantity
      → IsBest s queues i
      → beyond s limit (s.levels i).price ≡ false
      → sweep ≡ sweep_queue a store (s.levels i).price (queues i) m.result.remaining_quantity
      → Fills i m m' level sweep
      → Trades a s store limit (update queues i sweep.stay) (leave_level i m') r
      → Trades a s store limit queues m r
  sweeps queues m m' i level sweep r low best within e f t = record {
    runs = t.runs;
    queues' = t.queues';
    trades = sweep.trades ++ t.trades;
    gone = sweep.gone ++ t.gone;
    stands = t.stands;
    trading = swept i sweep low best within e (rw f.remaining at t.trading);
    recorded =
        t.recorded
        ∙ ap (λ log. record_all log (map Entry.trade t.trades)) f.recorded
        ∙ sym (
            record_all-append m.event_log (map Entry.trade sweep.trades) (map Entry.trade t.trades))
        ∙ ap (record_all m.event_log) (sym (map-append sweep.trades t.trades));
    erased =
        t.erased
        ∙ ap (λ ids. erase_all ids t.gone) f.erased
        ∙ sym (erase_all-append m.order_ids sweep.gone t.gone);
    conserved = t.conserved ∙ f.conserved;
  }

  refuses :
      (queues : ℕ → List ℕ) (m : MatchState) (i : ℕ)
      → Stands s store queues m
      → IsBest m.side queues i
      → beyond m.side limit (m.side.levels i).price ≡ true
      → Trades a s store limit queues m (m, true)
  refuses queues m i k best off =
      let agrees = beyond_same s m.side limit (s.levels i).price k.range in
      stops a s store limit queues m k
        (refused i (Stands-IsBest s store queues m i k best) (sym agrees ∙ rw (k.prices i) at off))

  -- A round of the outer loop, and then the rest of it.
  rounds :
      (queues : ℕ → List ℕ) (m : MatchState) (i : ℕ) (steps : ℕ)
      → Stands s store queues m
      → m.result.executed_quantity + m.result.remaining_quantity ≤ u64_max
      → 0 < m.result.remaining_quantity
      → IsBest m.side queues i
      → beyond m.side limit (m.side.levels i).price ≡ false
      → with_orders_count queues s.level_count ≤ suc steps
      → ((queues' : ℕ → List ℕ) (m' : MatchState)
          → Stands s store queues' m'
          → m'.result.executed_quantity + m'.result.remaining_quantity ≤ u64_max
          → (0 < m'.result.remaining_quantity → with_orders_count queues' s.level_count ≤ steps)
          → Trades a s store limit queues' m' (fill_levels a limit m' steps))
      → let (m', running) = fill_level a i m (m.side.levels i).order_count in
        (running ≡ true)
        × Trades a s store limit queues m (fill_levels a limit (leave_level i m') steps)
  rounds queues m i steps k b low best within h later =
      let best' = Stands-IsBest s store queues m i k best in
      let holds = k.side.holds i best.inside in
      let ready : Ready (orders_of m.pool) m.side i (m.side.levels i) (queues i) = record {
        held = holds.held;
        placed = holds.placed;
        positive = k.positive i best'.inside;
      } in
      let m' = (fill_level a i m (m.side.levels i).order_count).0 in
      let (runs, (level, fills)) =
        fill_level-Filled a i m (queues i) (m.side.levels i).order_count ready b
          (omega (arith, holds.held.order_count)) in
      let sweep =
        sweep_queue a (orders_of m.pool) (m.side.levels i).price (queues i)
          m.result.remaining_quantity in
      let agrees : sweep
          ≡ sweep_queue a store (s.levels i).price (queues i) m.result.remaining_quantity =
        rw (k.prices i) (
          sweep_queue_same a store (orders_of m.pool) (s.levels i).price (queues i)
            m.result.remaining_quantity (k.same low i best'.inside)) in
      let emptied =
        sweep_queue-stay a (orders_of m.pool) (m.side.levels i).price (queues i)
          m.result.remaining_quantity in
      let stands =
        leave_level-Stands a s store queues m m' i level sweep k best'.inside best'.some_order fills
          emptied low in
      let fewer : 0 < m'.result.remaining_quantity
          → with_orders_count (update queues i sweep.stay) s.level_count ≤ steps =
        λ wanted.
          let gone : sweep.stay ≡ [] = emptied (omega (arith, wanted, fills.remaining)) in
          rw gone (
            omega (
              arith,
              h,
              with_orders_count-update queues i s.level_count best'.inside best'.some_order,
            )) in
      let rest =
        later (update queues i sweep.stay) (leave_level i m') stands
          (omega (arith, fills.conserved, b)) fewer in
      let within' =
        sym (beyond_same s m.side limit (s.levels i).price k.range) ∙ rw (k.prices i) at within in
      (
        runs,
        sweeps queues m m' i level sweep (fill_levels a limit (leave_level i m') steps) low best'
            within' agrees fills rest,
      )

  -- As many rounds as there are levels with orders are enough, and none fails.
  pub fill_levels-Trades :
      (queues : ℕ → List ℕ) (m : MatchState) (steps : ℕ)
      → Stands s store queues m
      → m.result.executed_quantity + m.result.remaining_quantity ≤ u64_max
      → (0 < m.result.remaining_quantity → with_orders_count queues s.level_count ≤ steps)
      → Trades a s store limit queues m (fill_levels a limit m steps)
  unfolding fill_levels
  fill_levels-Trades queues m zero k b h = elim (Bool-cases (m.result.remaining_quantity == 0)) [
    | inl e ↦ finishes queues m k (ground arith)
    | inr e ↦
        let low : 0 < m.result.remaining_quantity = ground arith in
        stops a s store limit queues m k
          (exhausted (no_orders-NoneLeft s queues s.level_count (omega (arith, h low))))
  ]
  fill_levels-Trades queues m (suc steps) k b h =
      let i = m.side.best_index in
      let price = (m.side.levels i).price in
      elim (Bool-cases (m.result.remaining_quantity == 0)) [
        | inl e ↦ rw (fill_levels, e) (finishes queues m k (ground arith))
        | inr wanted ↦ elim (best_index-IsBest (orders_of m.pool) m.side queues k.side) [
          | inl (e, no_orders) ↦
              let invalid : (i == invalid_index) ≡ true = ground (arith, e) in
              rw (fill_levels, wanted, invalid) (exhausts queues m k no_orders)
          | inr (valid, best) ↦ elim (Bool-cases (beyond m.side limit price)) [
            | inl off ↦ rw (fill_levels, wanted, valid, off) (refuses queues m i k best off)
            | inr within ↦
                let low : 0 < m.result.remaining_quantity = ground arith in
                let (runs, rest) =
                  rounds queues m i steps k b low best within (h low)
                    (λ queues' m' k' b' h'. fill_levels-Trades queues' m' steps k' b' h') in
                rw (fill_levels, wanted, valid, within, runs) rest
          ]
        ]
      ]
