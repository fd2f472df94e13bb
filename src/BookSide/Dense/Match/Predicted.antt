-- ===== src/BookSide/Dense/Match/Predicted.antt =====
-- include/BookSide.hpp: DenseBookSide::executable_quantity tells what match_without_venue executes.
use eigen_book.Prelude.{
  ℕ, zero, suc, ◌+◌, ◌-◌, ◌≤◌, ◌<◌, ◌≡◌, ◌≢◌, ◌⊎◌, inl, inr, refl, sym, ◌∙◌, Bool, true, false,
  ◌||◌, ltb, leb, Option, List, [], ◌∷◌, ◌++◌, ◌==◌, Bool-cases, u64_max, arith, update,
  update_self, update_ne, subst,
}
use eigen_book.Prelude.Int.{ℤ}
use eigen_book.Types.Enums.{is_buy, invalid_index}
use eigen_book.PriceLevel.{Store}
use eigen_book.PriceLevel.Segment.{total}
use eigen_book.EventLog.{TradeEntry}
use eigen_book.BookSide.Dense.{DenseBookSide, better, find_next_index_after}
use eigen_book.BookSide.Dense.Liquidity.{beyond, executable_from, executable_quantity}
use eigen_book.BookSide.Dense.Best.{IsIndexed, occupied_at, find_next_index_after-NextOf}
use eigen_book.BookSide.Dense.Queues.{is_empty, IsSide}
use eigen_book.BookSide.Dense.Match.{orders_of, Aggressor, MatchState, match_without_venue}
use eigen_book.BookSide.Dense.Match.Fills.{Sweep, sweep_queue}
use eigen_book.BookSide.Dense.Match.Trading.{
  Trading, finished, exhausted, refused, swept, IsBest, NoneLeft, best_index-IsBest,
  with_orders_count, with_orders_count-update, with_orders_count_le, marked_inside, marked_orders,
  unmarked_empty,
}
use eigen_book.BookSide.Dense.Match.Levels.{AllPositive, sweep_queue-stay}
use eigen_book.BookSide.Dense.Match.Priority.{match_without_venue-Matched}
use eigen_book.BookSide.Dense.Match.Outcome.{
  traded_quantity, traded_quantity-append, sweep_queue-conserved, Trading-conserved, IsBest-unique,
}

better_other : (s : DenseBookSide) (i j : ℕ) → better s j i ≡ false → j ≢ i → better s i j ≡ true
better_other s i j e d = elim (Bool-cases (is_buy s.side)) [
  | inl b ↦ rw b (ground (arith, rw b at e))
  | inr b ↦ rw b (ground (arith, rw b at e))
]

better_trans :
    (s : DenseBookSide) (i j k : ℕ)
    → better s i j ≡ true
    → better s j k ≡ true
    → better s i k ≡ true
better_trans s i j k e f = elim (Bool-cases (is_buy s.side)) [
  | inl b ↦ rw b (ground (arith, rw b at e, rw b at f))
  | inr b ↦ rw b (ground (arith, rw b at e, rw b at f))
]

better_ne : (s : DenseBookSide) (i j : ℕ) → better s i j ≡ true → i ≢ j
better_ne s i j e d = elim (Bool-cases (is_buy s.side)) [
  | inl b ↦ absurd (ground (arith, rw b at e, d))
  | inr b ↦ absurd (ground (arith, rw b at e, d))
]

-- The next level that the walk visits, in the words of `better`.
abbrev NextBetter : DenseBookSide → ℕ → ℕ → Type 0
NextBetter s i r =
    ((r ≡ invalid_index)
      × ((j : ℕ) → j < s.level_count → better s i j ≡ true → occupied_at s j ≡ false))
    ⊎ (((r == invalid_index) ≡ false)
        × (r < s.level_count)
        × (better s i r ≡ true)
        × (occupied_at s r ≡ true)
        × ((j : ℕ)
            → j < s.level_count
            → better s i j ≡ true
            → better s j r ≡ true
            → occupied_at s j ≡ false))

find_next_index_after-NextBetter :
    (s : DenseBookSide) (i : ℕ)
    → IsIndexed s
    → i < s.level_count
    → NextBetter s i (find_next_index_after s i)
find_next_index_after-NextBetter s i k h = elim (find_next_index_after-NextOf s i k h) [
  | inl (buy, inl (e, c)) ↦ inl (e, (λ j b y. c j (omega arith) (ground (arith, rw buy at y))))
  | inr (sell, inl (e, c)) ↦
      inl (e, (λ j b y. c j (ground (arith, rw sell at y)) (omega (arith, k.covered))))
  | inl (buy, inr (l, b, o, c)) ↦ inr (
    ground (arith, b, h, k.covered, k.bounded),
    omega (arith, b, h),
    rw buy (ground arith),
    o,
    (λ j w y z. c j (ground (arith, rw buy at z)) (ground (arith, rw buy at y))),
  )
  | inr (sell, inr (l, b, o, c)) ↦ inr (
    ground (arith, b, k.bounded),
    marked_inside s (find_next_index_after s i) k b o,
    rw sell (ground arith),
    o,
    (λ j w y z. c j (ground (arith, rw sell at y)) (ground (arith, rw sell at z))),
  )
]

module _ (store : Store) (s : DenseBookSide) (queues₀ : ℕ → List ℕ)
    (k : IsSide store s queues₀) where
  -- A walk at `index` has the levels that are no better still before it, and no others.
  record Walks (queues : ℕ → List ℕ) (index : ℕ) : Type 0 where
    ahead : (j : ℕ) → j < s.level_count → is_empty (queues j) ≡ false → queues j ≡ queues₀ j
    here :
        ((index ≡ invalid_index) × NoneLeft s queues)
        ⊎ (((index == invalid_index) ≡ false)
            × IsBest s queues index
            × ((j : ℕ)
                → j < s.level_count
                → is_empty (queues j) ≡ true
                → is_empty (queues₀ j) ≡ false
                → better s j index ≡ true))

  Walks-best : Walks queues₀ s.best_index
  Walks-best = record {
    ahead = λ j h e. refl;
    here = elim (best_index-IsBest store s queues₀ k) [
      | inl e ↦ inl e
      | inr (valid, best) ↦ inr (valid, best, (λ j h e y. absurd (ground (arith, e, y))))
    ];
  }

  module _ (queues : ℕ → List ℕ) (i : ℕ) (w : Walks queues i) (best : IsBest s queues i)
      (behind : (j : ℕ)
        → j < s.level_count
        → is_empty (queues j) ≡ true
        → is_empty (queues₀ j) ≡ false
        → better s j i ≡ true) where
    abbrev emptied : ℕ → List ℕ
    emptied = update queues i []

    -- A level that has orders once level `i` is empty had them before, and is another.
    left_over :
        (j : ℕ)
        → is_empty (emptied j) ≡ false
        → (j ≢ i) × (is_empty (queues j) ≡ false) × (emptied j ≡ queues j)
    left_over j e = elim (Bool-cases (j == i)) [
      | inl y ↦
          let same : j ≡ i = ground arith in
          absurd (ground (arith, rw (same, update_self queues i []) at e))
      | inr y ↦
          let apart : j ≢ i = ground arith in
          let kept = update_ne queues i [] j apart in (apart, rw kept at e, kept)
    ]

    -- A level with orders at the start, which is worse than `i`, still has them.
    still_has :
        (j : ℕ)
        → j < s.level_count
        → better s i j ≡ true
        → is_empty (queues₀ j) ≡ false
        → is_empty (emptied j) ≡ false
    still_has j h worse full =
        let apart : j ≢ i = λ e. better_ne s i j worse (sym e) in
        rw (update_ne queues i [] j apart) (elim (Bool-cases (is_empty (queues j))) [
          | inr y ↦ y
          | inl y ↦ absurd (better_ne s j j (better_trans s j i j (behind j h y full) worse) refl)
        ])

    -- Such a level is worse than `i`, and had orders at the start.
    left_worse :
        (j : ℕ)
        → j < s.level_count
        → is_empty (emptied j) ≡ false
        → (better s i j ≡ true) × (is_empty (queues₀ j) ≡ false)
    left_worse j h e =
        let (apart, full, kept) = left_over j e in
        (better_other s i j (best.best j h full) apart, rw (w.ahead j h full) at full)

    never_unmarked :
        (j : ℕ) → j < s.level_count → is_empty (emptied j) ≡ false → occupied_at s j ≢ false
    never_unmarked j h e off =
        let none_there = unmarked_empty store s queues₀ j k h off in
        absurd (ground (arith, none_there, (left_worse j h e).1))

    behind_next :
        (r : ℕ)
        → better s i r ≡ true
        → (j : ℕ) → j < s.level_count
        → is_empty (emptied j) ≡ true
        → is_empty (queues₀ j) ≡ false
        → better s j r ≡ true
    behind_next r worse j h e full = elim (Bool-cases (j == i)) [
      | inl y ↦ let same : j ≡ i = ground arith in rw same worse
      | inr y ↦
          let kept = update_ne queues i [] j (ground arith) in
          better_trans s j i r (behind j h (rw kept at e) full) worse
    ]

    Walks-next : Walks emptied (find_next_index_after s i)
    Walks-next = record {
      ahead = λ j h e. let (apart, full, kept) = left_over j e in kept ∙ w.ahead j h full;
      here = elim (find_next_index_after-NextBetter s i k.indexed best.inside) [
        | inl (e, c) ↦ inl (
          e,
          (λ j h. elim (Bool-cases (is_empty (emptied j))) [
            | inl y ↦ y
            | inr y ↦ absurd (never_unmarked j h y (c j h (left_worse j h y).0))
          ]),
        )
        | inr (valid, inside, worse, o, c) ↦ inr (
          valid,
          record {
            inside = inside;
            some_order =
                still_has (find_next_index_after s i) inside worse
                  (marked_orders store s queues₀ (find_next_index_after s i) k inside o);
            best = λ j h e. elim (Bool-cases (better s j (find_next_index_after s i))) [
              | inl y ↦ absurd (never_unmarked j h e (c j h (left_worse j h e).0 y))
              | inr y ↦ y
            ];
          },
          behind_next (find_next_index_after s i) worse,
        )
      ];
    }

  -- The total of a level with orders is the sum of what they have.
  level_total :
      (queues : ℕ → List ℕ) (i : ℕ)
      → Walks queues i
      → IsBest s queues i
      → (s.levels i).total_quantity ≡ total store (queues i)
  level_total queues i w best =
      rw (w.ahead i best.inside best.some_order) (k.holds i best.inside).held.total_quantity

sweep_queue-left :
    (a : Aggressor) (store : Store) (price : ℤ) (queue : List ℕ) (r : ℕ)
    → (sweep_queue a store price queue r).left ≡ r - total store queue
unfolding sweep_queue
sweep_queue-left a store price [] r = omega arith
sweep_queue-left a store price (p ∷ queue) r =
    let q = (store p).quantity in
    let rest = sweep_queue-left a store price queue (r - q) in
    elim (Bool-cases (r == 0)) [
      | inl e ↦ rw (sweep_queue, e) (ground arith)
      | inr e ↦ elim (Bool-cases (ltb r q)) [
        | inl d ↦ rw (sweep_queue, e, d) (ground arith)
        | inr d ↦ rw (sweep_queue, e, d) (omega (arith, rest))
      ]
    ]

abbrev stops : DenseBookSide → Option ℤ → ℕ → ℕ → ℕ → Bool
stops s limit requested executable index =
    leb requested executable || index == invalid_index || beyond s limit (s.levels index).price

executable_from-stops :
    (s : DenseBookSide) (limit : Option ℤ) (requested executable index steps : ℕ)
    → stops s limit requested executable index ≡ true
    → executable_from s limit requested executable index steps ≡ executable
unfolding executable_from
executable_from-stops s limit requested executable index zero e = refl
executable_from-stops s limit requested executable index (suc steps) e =
    rw (executable_from, e) refl

any_first : (x y z : Bool) → x ≡ true → (x || y || z) ≡ true
any_first x y z e = rw e refl

any_second : (x y z : Bool) → y ≡ true → (x || y || z) ≡ true
any_second true y z e = refl
any_second false y z e = rw e refl

any_third : (x y z : Bool) → z ≡ true → (x || y || z) ≡ true
any_third true y z e = refl
any_third false true z e = refl
any_third false false z e = e

module _ (a : Aggressor) (store : Store) (s : DenseBookSide) (limit : Option ℤ)
    (queues₀ : ℕ → List ℕ) (k : IsSide store s queues₀) where
  abbrev Agrees : (ℕ → List ℕ) → ℕ → List TradeEntry → ℕ → ℕ → ℕ → Type 0
  Agrees queues r trades executable index steps =
      executable_from s limit (executable + r) executable index steps
      ≡ executable + traded_quantity trades

  -- A walk that stands at level `i`, the best: where its quantity is all that is wanted, the walk ends.
  enough_here :
      (queues : ℕ → List ℕ) (r left : ℕ) (ts : List TradeEntry) (queues' : ℕ → List ℕ)
      (gone : List ℕ) (i : ℕ) (sweep : Sweep)
      → sweep ≡ sweep_queue a store (s.levels i).price (queues i) r
      → Trading a store s limit (update queues i sweep.stay) sweep.left ts left queues' gone
      → r ≤ total store (queues i)
      → traded_quantity (sweep.trades ++ ts) ≡ r
  enough_here queues r left ts queues' gone i sweep e t enough =
      let own : traded_quantity sweep.trades + sweep.left ≡ r =
        rw e (sweep_queue-conserved a store (s.levels i).price (queues i) r) in
      let none_left : sweep.left ≡ r - total store (queues i) =
        rw e (sweep_queue-left a store (s.levels i).price (queues i) r) in
      let rest =
        Trading-conserved a store s limit (update queues i sweep.stay) sweep.left ts left queues'
          gone t in
      omega (arith, own, none_left, rest, enough, traded_quantity-append sweep.trades ts)

  -- Where it is less, the walk goes on as the match does.
  more_wanted :
      (queues : ℕ → List ℕ) (r left : ℕ) (ts : List TradeEntry) (queues' : ℕ → List ℕ)
      (gone : List ℕ) (executable i steps : ℕ) (sweep : Sweep)
      → sweep ≡ sweep_queue a store (s.levels i).price (queues i) r
      → IsBest s queues i
      → total store (queues i) < r
      → with_orders_count queues s.level_count ≤ suc steps
      → Walks store s queues₀ k (update queues i []) (find_next_index_after s i)
      → (Walks store s queues₀ k (update queues i sweep.stay) (find_next_index_after s i)
          → with_orders_count (update queues i sweep.stay) s.level_count ≤ steps
          → Agrees
              (update queues i sweep.stay)
              sweep.left
              ts
              (executable + total store (queues i))
              (find_next_index_after s i)
              steps)
      → executable_from s limit
          (executable + r)
          (executable + total store (queues i))
          (find_next_index_after s i)
          steps
        ≡ executable + traded_quantity (sweep.trades ++ ts)
  more_wanted queues r left ts queues' gone executable i steps sweep e best less h next later =
      let own : traded_quantity sweep.trades + sweep.left ≡ r =
        rw e (sweep_queue-conserved a store (s.levels i).price (queues i) r) in
      let kept : sweep.left ≡ r - total store (queues i) =
        rw e (sweep_queue-left a store (s.levels i).price (queues i) r) in
      let stay : sweep.stay ≡ [] = rw e (
        sweep_queue-stay a store (s.levels i).price (queues i) r
          (omega (arith, sweep_queue-left a store (s.levels i).price (queues i) r, less))) in
      let fewer = with_orders_count-update queues i s.level_count best.inside best.some_order in
      let rest = later (rw stay next) (rw stay (omega (arith, fewer, h))) in
      let same : executable + total store (queues i) + sweep.left ≡ executable + r =
        omega (arith, kept, less) in
      rw same at rest ∙ omega (arith, own, kept, less, traded_quantity-append sweep.trades ts)

  Walks-on :
      (queues : ℕ → List ℕ) (r left : ℕ) (ts : List TradeEntry) (queues' : ℕ → List ℕ)
      (gone : List ℕ) (executable i steps : ℕ) (sweep : Sweep)
      → 0 < r
      → IsBest s queues i
      → beyond s limit (s.levels i).price ≡ false
      → sweep ≡ sweep_queue a store (s.levels i).price (queues i) r
      → Trading a store s limit (update queues i sweep.stay) sweep.left ts left queues' gone
      → (i == invalid_index) ≡ false
      → Walks store s queues₀ k queues i
      → ((j : ℕ)
          → j < s.level_count
          → is_empty (queues j) ≡ true
          → is_empty (queues₀ j) ≡ false
          → better s j i ≡ true)
      → with_orders_count queues s.level_count ≤ suc steps
      → (Walks store s queues₀ k (update queues i sweep.stay) (find_next_index_after s i)
          → with_orders_count (update queues i sweep.stay) s.level_count ≤ steps
          → Agrees
              (update queues i sweep.stay)
              sweep.left
              ts
              (executable + total store (queues i))
              (find_next_index_after s i)
              steps)
      → Agrees queues r (sweep.trades ++ ts) executable i (suc steps)
  unfolding executable_from
  Walks-on queues r left ts queues' gone executable i steps sweep low best within e t valid w behind
        h later =
      let wanted : leb (executable + r) executable ≡ false = ground arith in
      let amount : executable + r - executable ≡ r = omega arith in
      let here = level_total store s queues₀ k queues i w best in
      let next = Walks-next store s queues₀ k queues i w best behind in
      elim (Bool-cases (leb r (total store (queues i)))) [
        | inl enough ↦
            let traded = enough_here queues r left ts queues' gone i sweep e t (ground arith) in
            rw (executable_from, wanted, valid, within, amount, here, enough)
              (omega (arith, traded))
        | inr less ↦
            rw (executable_from, wanted, valid, within, amount, here, less)
              (rw here (
                more_wanted queues r left ts queues' gone executable i steps sweep e best
                  (ground arith) h next later))
      ]

  -- The walk of the dry run and the trades of a match, from the same levels on.
  executable_from-Trading :
      (queues : ℕ → List ℕ) (r : ℕ) (trades : List TradeEntry) (left : ℕ) (queues' : ℕ → List ℕ)
      (gone : List ℕ) (executable index steps : ℕ)
      → Trading a store s limit queues r trades left queues' gone
      → Walks store s queues₀ k queues index
      → with_orders_count queues s.level_count ≤ steps
      → Agrees queues r trades executable index steps
  unfolding traded_quantity
  executable_from-Trading _ _ _ _ _ _ executable index steps finished w h =
      executable_from-stops s limit (executable + 0) executable index steps
        (any_first (leb (executable + 0) executable) _ _ (ground arith))
      ∙ omega arith
  executable_from-Trading queues r _ _ _ _ executable index steps (exhausted n) w h = elim w.here [
    | inl (e, none_left) ↦
        executable_from-stops s limit (executable + r) executable index steps (
          any_second (leb (executable + r) executable) (index == invalid_index) _
            (ground (arith, e)))
        ∙ omega arith
    | inr (valid, best, behind) ↦ absurd (ground (arith, n index best.inside, best.some_order))
  ]
  executable_from-Trading queues r _ _ _ _ executable index steps (refused i b off) w h =
      elim w.here [
        | inl (e, none_left) ↦ absurd (ground (arith, none_left i b.inside, b.some_order))
        | inr (valid, best, behind) ↦
            let same = IsBest-unique s queues i index b best in
            executable_from-stops s limit (executable + r) executable index steps (
              any_third (leb (executable + r) executable) (index == invalid_index) _
                (rw same at off))
            ∙ omega arith
      ]
  executable_from-Trading queues r _ left queues' _ executable index zero
        (swept {trades = ts} {gone} i sweep low best within e t) w h =
      let fewer = with_orders_count-update queues i s.level_count best.inside best.some_order in
      absurd (omega (arith, fewer, h))
  executable_from-Trading queues r _ left queues' _ executable index (suc steps)
        (swept {trades = ts} {gone} i sweep low best within e t) w h =
      elim w.here [
        | inl (q, none_left) ↦ absurd (ground (arith, none_left i best.inside, best.some_order))
        | inr (valid, best', behind) ↦
            let same = IsBest-unique s queues i index best best' in
            subst (λ x. Agrees queues r (sweep.trades ++ ts) executable x (suc steps)) same
              (Walks-on queues r left ts queues' gone executable i steps sweep low best within e t
                (rw same valid) (subst (Walks store s queues₀ k queues) (sym same) w)
                (rw same behind) h
                (λ w' h'.
                  executable_from-Trading (update queues i sweep.stay) sweep.left ts left queues'
                    gone (executable + total store (queues i)) (find_next_index_after s i) steps t
                    w' h'))
      ]

-- On a side that holds queues of orders with some quantity, a match for at most 2^64 - 1 executes just the
-- quantity that executable_quantity has found before it.
pub match_without_venue-executable_quantity :
    (a : Aggressor) (limit : Option ℤ) (requested : ℕ) (queues : ℕ → List ℕ) (m : MatchState)
    → IsSide (orders_of m.pool) m.side queues
    → AllPositive (orders_of m.pool) m.side queues
    → requested ≤ u64_max
    → (match_without_venue a limit requested m).result.executed_quantity
      ≡ executable_quantity m.side requested limit
unfolding executable_quantity
match_without_venue-executable_quantity a limit requested queues m k positive h =
    let t = match_without_venue-Matched a limit requested queues m k positive h in
    let left = (match_without_venue a limit requested m).result.remaining_quantity in
    let store = orders_of m.pool in
    let total_traded =
      Trading-conserved a store m.side limit queues requested t.trades left t.queues' t.gone
        t.trading in
    let found =
      executable_from-Trading a store m.side limit queues k queues requested t.trades left t.queues'
        t.gone 0 m.side.best_index m.side.level_count t.trading (Walks-best store m.side queues k)
        (with_orders_count_le queues m.side.level_count) in
    let plain : 0 + requested ≡ requested = omega arith in
    omega (arith, total_traded, t.conserved, rw plain at found)
