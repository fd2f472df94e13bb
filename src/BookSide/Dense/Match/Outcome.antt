-- ===== src/BookSide/Dense/Match/Outcome.antt =====
-- include/BookSide.hpp: what DenseBookSide::match_without_venue leaves, and how much it trades.
use eigen_book.Prelude.{
  ℕ, ◌+◌, ◌-◌, ◌≤◌, ◌≡◌, ◌⊎◌, inl, inr, refl, ◌∙◌, true, false, ltb, Option, List, [], ◌∷◌, ◌++◌,
  map, ◌==◌, All, Bool-cases, u64_max, arith, update,
}
use eigen_book.Prelude.Int.{ℤ}
use eigen_book.Types.Enums.{is_buy, invalid_index}
use eigen_book.PriceLevel.{Store}
use eigen_book.EventLog.{TradeEntry, Entry, record_all}
use eigen_book.BookSide.Dense.{DenseBookSide}
use eigen_book.BookSide.Dense.Liquidity.{beyond}
use eigen_book.BookSide.Dense.Queues.{IsSide}
use eigen_book.BookSide.Dense.Match.{orders_of, Aggressor, MatchState, match_without_venue}
use eigen_book.BookSide.Dense.Match.Fills.{sweep_queue}
use eigen_book.BookSide.Dense.Match.Trading.{
  Trading, finished, exhausted, refused, swept, IsBest, NoneLeft, beyond_same, best_index-IsBest,
}
use eigen_book.BookSide.Dense.Match.Levels.{AllPositive}
use eigen_book.BookSide.Dense.Match.Priority.{Matched, match_without_venue-Matched}

-- The quantity that trades exchange.
unfoldable pub traded_quantity : List TradeEntry → ℕ
traded_quantity [] = 0
traded_quantity (t ∷ ts) = t.quantity + traded_quantity ts

pub traded_quantity-append :
    (xs ys : List TradeEntry) → traded_quantity (xs ++ ys) ≡ traded_quantity xs + traded_quantity ys
unfolding traded_quantity
traded_quantity-append [] ys = omega arith
traded_quantity-append (x ∷ xs) ys = omega (arith, traded_quantity-append xs ys)

pub sweep_queue-conserved :
    (a : Aggressor) (store : Store) (price : ℤ) (queue : List ℕ) (r : ℕ)
    → let sweep = sweep_queue a store price queue r in traded_quantity sweep.trades + sweep.left ≡ r
unfolding sweep_queue traded_quantity
sweep_queue-conserved a store price [] r = omega arith
sweep_queue-conserved a store price (p ∷ queue) r =
    let q = (store p).quantity in
    let rest = sweep_queue-conserved a store price queue (r - q) in
    elim (Bool-cases (r == 0)) [
      | inl e ↦ rw (sweep_queue, e) (ground arith)
      | inr e ↦ elim (Bool-cases (ltb r q)) [
        | inl d ↦ rw (sweep_queue, e, d) (ground arith)
        | inr d ↦
            let enough : q ≤ r = ground arith in
            rw (sweep_queue, e, d) (omega (arith, rest, enough))
      ]
    ]

-- A trade is for the price and with the quantity of some order, at the level's price.
sweep_queue-price :
    (a : Aggressor) (store : Store) (price : ℤ) (queue : List ℕ) (r : ℕ)
    → All (λ t. t.price ≡ price) (sweep_queue a store price queue r).trades
unfolding sweep_queue
sweep_queue-price a store price [] r = tt
sweep_queue-price a store price (p ∷ queue) r = elim (Bool-cases (r == 0)) [
  | inl e ↦ rw (sweep_queue, e) tt
  | inr e ↦ elim (Bool-cases (ltb r (store p).quantity)) [
    | inl d ↦ rw (sweep_queue, e, d) (refl, tt)
    | inr d ↦
        rw (sweep_queue, e, d)
          (refl, sweep_queue-price a store price queue (r - (store p).quantity))
  ]
]

All-append :
    (P : TradeEntry → Type 0) (xs ys : List TradeEntry) → All P xs → All P ys → All P (xs ++ ys)
All-append P [] ys h k = k
All-append P (x ∷ xs) ys h k = (h.0, All-append P xs ys h.1 k)

All-price :
    (s : DenseBookSide) (limit : Option ℤ) (price : ℤ) (ts : List TradeEntry)
    → beyond s limit price ≡ false
    → All (λ t. t.price ≡ price) ts
    → All (λ t. beyond s limit t.price ≡ false) ts
All-price s limit price [] e h = tt
All-price s limit price (t ∷ ts) e h = (rw h.0 e, All-price s limit price ts e h.1)

module _ (a : Aggressor) (store : Store) (s : DenseBookSide) (limit : Option ℤ) where
  pub Trading-conserved :
      (queues : ℕ → List ℕ) (r : ℕ) (trades : List TradeEntry) (left : ℕ) (queues' : ℕ → List ℕ)
      (gone : List ℕ)
      → Trading a store s limit queues r trades left queues' gone
      → traded_quantity trades + left ≡ r
  unfolding traded_quantity
  Trading-conserved _ _ _ _ _ _ finished = refl
  Trading-conserved _ _ _ _ _ _ (exhausted n) = omega arith
  Trading-conserved _ _ _ _ _ _ (refused i b e) = omega arith
  Trading-conserved queues r _ left queues' _
        (swept {trades = ts} {gone} i sweep low best within e t) =
      let rest = Trading-conserved (update queues i sweep.stay) sweep.left ts left queues' gone t in
      let own : traded_quantity sweep.trades + sweep.left ≡ r =
        rw e (sweep_queue-conserved a store (s.levels i).price (queues i) r) in
      omega (arith, rest, own, traded_quantity-append sweep.trades ts)

  Trading-within :
      (queues : ℕ → List ℕ) (r : ℕ) (trades : List TradeEntry) (left : ℕ) (queues' : ℕ → List ℕ)
      (gone : List ℕ)
      → Trading a store s limit queues r trades left queues' gone
      → All (λ t. beyond s limit t.price ≡ false) trades
  Trading-within _ _ _ _ _ _ finished = tt
  Trading-within _ _ _ _ _ _ (exhausted n) = tt
  Trading-within _ _ _ _ _ _ (refused i b e) = tt
  Trading-within queues r _ left queues' _
        (swept {trades = ts} {gone} i sweep low best within e t) =
      let price = (s.levels i).price in
      All-append (λ t. beyond s limit t.price ≡ false) sweep.trades ts
        (All-price s limit price sweep.trades within
          (rw e (sweep_queue-price a store price (queues i) r)))
        (Trading-within (update queues i sweep.stay) sweep.left ts left queues' gone t)

  -- Nothing is wanted any more, no level has orders, or the best level is beyond the limit.
  Ended : ℕ → (ℕ → List ℕ) → Type 0
  Ended left queues =
      (left ≡ 0)
      ⊎ (NoneLeft s queues
          ⊎ ((i : ℕ) × IsBest s queues i × (beyond s limit (s.levels i).price ≡ true)))

  Trading-Ended :
      (queues : ℕ → List ℕ) (r : ℕ) (trades : List TradeEntry) (left : ℕ) (queues' : ℕ → List ℕ)
      (gone : List ℕ)
      → Trading a store s limit queues r trades left queues' gone
      → Ended left queues'
  unfolding Ended
  Trading-Ended _ _ _ _ _ _ finished = inl refl
  Trading-Ended _ _ _ _ _ _ (exhausted n) = inr (inl n)
  Trading-Ended _ _ _ _ _ _ (refused i b e) = inr (inr (i, b, e))
  Trading-Ended queues r _ left queues' _ (swept {trades = ts} {gone} i sweep low best within e t) =
      Trading-Ended (update queues i sweep.stay) sweep.left ts left queues' gone t

-- There is one best level.
pub IsBest-unique :
    (s : DenseBookSide) (queues : ℕ → List ℕ) (i j : ℕ)
    → IsBest s queues i
    → IsBest s queues j
    → i ≡ j
IsBest-unique s queues i j b c =
    let one = b.best j c.inside c.some_order in
    let other = c.best i b.inside b.some_order in
    elim (Bool-cases (is_buy s.side)) [
      | inl e ↦ ground (arith, rw e at one, rw e at other)
      | inr e ↦ ground (arith, rw e at one, rw e at other)
    ]

module _ (a : Aggressor) (limit : Option ℤ) (requested : ℕ) (queues : ℕ → List ℕ) (m : MatchState)
    (k : IsSide (orders_of m.pool) m.side queues)
    (positive : AllPositive (orders_of m.pool) m.side queues) (h : requested ≤ u64_max) where
  abbrev matched : Matched a limit requested queues m (match_without_venue a limit requested m)
  matched = match_without_venue-Matched a limit requested queues m k positive h

  -- The trades add up to what is executed, which with what remains is the request, and each is within the
  -- limit; the trades are those that the log records.
  pub match_without_venue-conserved :
      let m' = match_without_venue a limit requested m in
      (trades : List TradeEntry) × (m'.event_log ≡ record_all m.event_log (map Entry.trade trades))
      × (traded_quantity trades ≡ m'.result.executed_quantity)
      × (m'.result.executed_quantity + m'.result.remaining_quantity ≡ requested)
      × All (λ t. beyond m.side limit t.price ≡ false) trades
  match_without_venue-conserved =
      let left = (match_without_venue a limit requested m).result.remaining_quantity in
      let total =
        Trading-conserved a (orders_of m.pool) m.side limit queues requested matched.trades left
          matched.queues' matched.gone matched.trading in
      (
        matched.trades,
        matched.recorded,
        omega (arith, total, matched.conserved),
        matched.conserved,
        Trading-within a (orders_of m.pool) m.side limit queues requested matched.trades left
            matched.queues' matched.gone matched.trading,
      )

  best_beyond :
      (i : ℕ)
      → IsBest m.side matched.queues' i
      → beyond m.side limit (m.side.levels i).price ≡ true
      → let s' = (match_without_venue a limit requested m).side in
        IsBest s' matched.queues' s'.best_index
        → beyond s' limit (s'.levels s'.best_index).price ≡ true
  best_beyond i best off best' =
      let s' = (match_without_venue a limit requested m).side in
      let here : IsBest m.side matched.queues' s'.best_index = record {
        inside = omega (arith, best'.inside, matched.range.level_count);
        some_order = best'.some_order;
        best = λ j b y.
            rw matched.range.side at (best'.best j (omega (arith, b, matched.range.level_count)) y);
      } in
      let same = IsBest-unique m.side matched.queues' i s'.best_index best here in
      beyond_same m.side s' limit (s'.levels s'.best_index).price matched.range
      ∙ rw (matched.prices s'.best_index, ← same) off

  -- Afterwards nothing of the request remains, or the side is empty, or its best price is beyond the limit.
  pub match_without_venue-uncrossed :
      let m' = match_without_venue a limit requested m in
      (m'.result.remaining_quantity ≡ 0)
      ⊎ ((m'.side.best_index ≡ invalid_index)
          ⊎ (beyond m'.side limit (m'.side.levels m'.side.best_index).price ≡ true))
  unfolding Ended
  match_without_venue-uncrossed =
      let m' = match_without_venue a limit requested m in
      let ended =
        Trading-Ended a (orders_of m.pool) m.side limit queues requested matched.trades
          m'.result.remaining_quantity matched.queues' matched.gone matched.trading in
      let now = best_index-IsBest (orders_of m'.pool) m'.side matched.queues' matched.side in
      elim ended [
        | inl done ↦ inl done
        | inr (inl empty) ↦ elim now [
          | inl (e, n) ↦ inr (inl e)
          | inr (valid, best) ↦
              let none_here =
                empty m'.side.best_index (omega (arith, best.inside, matched.range.level_count)) in
              absurd (ground (arith, none_here, best.some_order))
        ]
        | inr (inr (i, best, off)) ↦ elim now [
          | inl (e, n) ↦ inr (inl e)
          | inr (valid, best') ↦ inr (inr (best_beyond i best off best'))
        ]
      ]
