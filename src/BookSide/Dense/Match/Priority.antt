-- ===== src/BookSide/Dense/Match/Priority.antt =====
-- include/BookSide.hpp: DenseBookSide::match_without_venue as a whole.
use eigen_book.Prelude.{ℕ, ◌+◌, ◌≤◌, ◌≡◌, refl, Option, List, [], ◌∷◌, map, All, u64_max, arith}
use eigen_book.Prelude.Int.{ℤ}
use eigen_book.PriceLevel.{Store}
use eigen_book.EventLog.{TradeEntry, Entry, record_all}
use eigen_book.BookSide.Dense.{DenseBookSide}
use eigen_book.BookSide.Dense.Queues.{IsSide, SameRange}
use eigen_book.BookSide.Dense.Match.{
  orders_of, Aggressor, MatchState, requesting, outcome, match_without_venue,
}
use eigen_book.BookSide.Dense.Match.Fills.{erase_all}
use eigen_book.BookSide.Dense.Match.Trading.{Trading, with_orders_count_le}
use eigen_book.BookSide.Dense.Match.Levels.{AllPositive, Stands, fill_levels-Trades}

-- What a match does to a side that holds queues of orders.
pub record Matched (a : Aggressor) (limit : Option ℤ) (requested : ℕ) (queues : ℕ → List ℕ)
    (m m' : MatchState) : Type 0 where
  pub queues' : ℕ → List ℕ
  pub trades : List TradeEntry
  pub gone : List ℕ
  pub side : IsSide (orders_of m'.pool) m'.side queues'
  pub positive : AllPositive (orders_of m'.pool) m'.side queues'
  pub range : SameRange m.side m'.side
  pub prices : (j : ℕ) → (m'.side.levels j).price ≡ (m.side.levels j).price
  pub trading :
      Trading a
        (orders_of m.pool)
        m.side
        limit
        queues
        requested
        trades
        m'.result.remaining_quantity
        queues'
        gone
  pub recorded : m'.event_log ≡ record_all m.event_log (map Entry.trade trades)
  pub erased : m'.order_ids ≡ erase_all m.order_ids gone
  pub conserved : m'.result.executed_quantity + m'.result.remaining_quantity ≡ requested
  pub status : m'.result.status ≡ outcome m'.result

pub SameRange-refl : (s : DenseBookSide) → SameRange s s
SameRange-refl s = record {
  side = refl;
  min_price = refl;
  max_price = refl;
  tick_size = refl;
  level_count = refl;
  base = refl;
}

SameOrders-refl :
    (store : Store) (queue : List ℕ)
    → All (λ j. ((store j).id ≡ (store j).id) × ((store j).quantity ≡ (store j).quantity)) queue
SameOrders-refl store [] = tt
SameOrders-refl store (x ∷ queue) = ((refl, refl), SameOrders-refl store queue)

-- On a side that holds queues of orders with some quantity, a match for at most 2^64 - 1 trades by price
-- and then by age, ends without an internal error, and leaves the side with the queues that are left.
pub match_without_venue-Matched :
    (a : Aggressor) (limit : Option ℤ) (requested : ℕ) (queues : ℕ → List ℕ) (m : MatchState)
    → IsSide (orders_of m.pool) m.side queues
    → AllPositive (orders_of m.pool) m.side queues
    → requested ≤ u64_max
    → Matched a limit requested queues m (match_without_venue a limit requested m)
unfolding match_without_venue
match_without_venue-Matched a limit requested queues m k positive h =
    let start = requesting m requested in
    let stands : Stands m.side (orders_of m.pool) queues start = record {
      side = k;
      range = SameRange-refl m.side;
      prices = λ j. refl;
      positive = positive;
      same = λ low j inside. SameOrders-refl (orders_of m.pool) (queues j);
    } in
    let t =
      fill_levels-Trades a m.side (orders_of m.pool) limit queues start m.side.level_count stands
        (omega (arith, h)) (λ low. with_orders_count_le queues m.side.level_count) in
    rw t.runs (record {
      queues' = t.queues';
      trades = t.trades;
      gone = t.gone;
      side = t.stands.side;
      positive =
          λ j inside. t.stands.positive j (omega (arith, inside, t.stands.range.level_count));
      range = t.stands.range;
      prices = t.stands.prices;
      trading = t.trading;
      recorded = t.recorded;
      erased = t.erased;
      conserved = omega (arith, t.conserved);
      status = refl;
    })
