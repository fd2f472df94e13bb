-- ===== src/BookSide/Dense/Match/Trading.antt =====
-- include/BookSide.hpp: matching by price and then by age, as a relation between queues of orders.
use eigen_book.Prelude.{
  ℕ, zero, suc, ◌*◌, ◌≤◌, ◌<◌, ◌≡◌, ◌⊎◌, inl, inr, refl, ap, true, false, Option, none, some, List,
  [], ◌∷◌, ◌++◌, ◌==◌, ltb, update, update_self, update_ne, Bool-cases, arith, if◌then◌else◌,
}
use eigen_book.Prelude.Int.{ℤ}
use eigen_book.Types.Enums.{invalid_index}
use eigen_book.PriceLevel.{Store}
use eigen_book.EventLog.{TradeEntry}
use eigen_book.BookSide.Word.Scan.{Clear}
use eigen_book.BookSide.Dense.{DenseBookSide, better, crosses}
use eigen_book.BookSide.Dense.Liquidity.{beyond}
use eigen_book.BookSide.Dense.Best.{IsIndexed, occupied_at}
use eigen_book.BookSide.Dense.Queues.{is_empty, IsSide, SameRange}
use eigen_book.BookSide.Dense.Match.{Aggressor}
use eigen_book.BookSide.Dense.Match.Fills.{Sweep, sweep_queue}

-- Level `i` has orders, and no level with orders is better.
pub record IsBest (s : DenseBookSide) (queues : ℕ → List ℕ) (i : ℕ) : Type 0 where
  pub inside : i < s.level_count
  pub some_order : is_empty (queues i) ≡ false
  pub best : (j : ℕ) → j < s.level_count → is_empty (queues j) ≡ false → better s j i ≡ false

abbrev pub NoneLeft : DenseBookSide → (ℕ → List ℕ) → Type 0
NoneLeft s queues = (j : ℕ) → j < s.level_count → is_empty (queues j) ≡ true

-- From the queues and a request to the trades in their order, what remains of the request, the queues
-- that are left and the ids of the filled orders: the best level is swept from its oldest order on, until
-- nothing is wanted, nothing is left, or the best price is beyond the limit.
pub data Trading (a : Aggressor) (store : Store) (s : DenseBookSide) (limit : Option ℤ)
    : (ℕ → List ℕ) → ℕ → List TradeEntry → ℕ → (ℕ → List ℕ) → List ℕ → Type 0 where
  finished : {queues : ℕ → List ℕ} → Trading a store s limit queues 0 [] 0 queues []
  exhausted :
      {queues : ℕ → List ℕ} {r : ℕ}
      → NoneLeft s queues
      → Trading a store s limit queues r [] r queues []
  refused :
      {queues : ℕ → List ℕ} {r : ℕ} (i : ℕ)
      → IsBest s queues i
      → beyond s limit (s.levels i).price ≡ true
      → Trading a store s limit queues r [] r queues []
  swept :
      {queues queues' : ℕ → List ℕ} {r left : ℕ} {trades : List TradeEntry} {gone : List ℕ} (i : ℕ)
      (sweep : Sweep)
      → 0 < r
      → IsBest s queues i
      → beyond s limit (s.levels i).price ≡ false
      → sweep ≡ sweep_queue a store (s.levels i).price (queues i) r
      → Trading a store s limit (update queues i sweep.stay) sweep.left trades left queues' gone
      → Trading a store s limit queues r (sweep.trades ++ trades) left queues' (sweep.gone ++ gone)

pub beyond_same :
    (s s' : DenseBookSide) (limit : Option ℤ) (price : ℤ)
    → SameRange s s'
    → beyond s' limit price ≡ beyond s limit price
unfolding beyond crosses
beyond_same s s' none price f = refl
beyond_same s s' (some l) price f = rw f.side refl

is_empty-true : (q : List ℕ) → is_empty q ≡ true → q ≡ []
is_empty-true [] e = refl
is_empty-true (x ∷ q) e = absurd (ground arith)

-- A bit that is not set stands for an empty queue, a bit that is set for one with orders.
pub unmarked_empty :
    (store : Store) (s : DenseBookSide) (queues : ℕ → List ℕ) (j : ℕ)
    → IsSide store s queues
    → j < s.level_count
    → occupied_at s j ≡ false
    → is_empty (queues j) ≡ true
unmarked_empty store s queues j k h e =
    let marked = (k.holds j h).marked in
    elim (Bool-cases (is_empty (queues j))) [
      | inl y ↦ y
      | inr y ↦ absurd (ground (arith, marked, e, y))
    ]

none_marked :
    (store : Store) (s : DenseBookSide) (queues : ℕ → List ℕ)
    → IsSide store s queues
    → Clear (occupied_at s) 0 (s.occupancy_word_count * 64)
    → NoneLeft s queues
none_marked store s queues k c j h =
    unmarked_empty store s queues j k h (c j (omega arith) (omega (arith, k.indexed.covered)))

pub marked_inside :
    (s : DenseBookSide) (r : ℕ)
    → IsIndexed s
    → r < s.occupancy_word_count * 64
    → occupied_at s r ≡ true
    → r < s.level_count
marked_inside s r k h e = elim (Bool-cases (ltb r s.level_count)) [
  | inl y ↦ ground arith
  | inr n ↦ let off = k.beyond r (ground arith) h in absurd (ground (arith, off, e))
]

pub marked_orders :
    (store : Store) (s : DenseBookSide) (queues : ℕ → List ℕ) (j : ℕ)
    → IsSide store s queues
    → j < s.level_count
    → occupied_at s j ≡ true
    → is_empty (queues j) ≡ false
marked_orders store s queues j k h e =
    let marked = (k.holds j h).marked in
    elim (Bool-cases (is_empty (queues j))) [
      | inl y ↦ absurd (ground (arith, marked, e, y))
      | inr y ↦ y
    ]

marked-IsBest :
    (store : Store) (s : DenseBookSide) (queues : ℕ → List ℕ) (r : ℕ)
    → IsSide store s queues
    → r < s.occupancy_word_count * 64
    → occupied_at s r ≡ true
    → ((j : ℕ) → j < s.level_count → better s j r ≡ true → occupied_at s j ≡ false)
    → ((r == invalid_index) ≡ false) × IsBest s queues r
marked-IsBest store s queues r k h o c =
    let inside = marked_inside s r k.indexed h o in
    (
      ground (arith, h, k.indexed.bounded),
      record {
        inside = inside;
        some_order = marked_orders store s queues r k inside o;
        best = λ j b y. elim (Bool-cases (better s j r)) [
          | inl e ↦
              let off = unmarked_empty store s queues j k b (c j b e) in
              absurd (ground (arith, off, y))
          | inr e ↦ e
        ];
      },
    )

-- The cached best index of a side that holds queues is the best level with orders, if any has some.
pub best_index-IsBest :
    (store : Store) (s : DenseBookSide) (queues : ℕ → List ℕ)
    → IsSide store s queues
    → ((s.best_index ≡ invalid_index) × NoneLeft s queues)
      ⊎ (((s.best_index == invalid_index) ≡ false) × IsBest s queues s.best_index)
best_index-IsBest store s queues k = elim k.indexed.best [
  | inl (buy, inl (e, c)) ↦ inl (e, none_marked store s queues k c)
  | inr (sell, inl (e, c)) ↦ inl (e, none_marked store s queues k c)
  | inl (buy, inr (l, h, o, c)) ↦ inr (
      marked-IsBest store s queues s.best_index k h o (λ j b y.
        let above : ltb s.best_index j ≡ true = rw buy at y in
        c j (ground arith) (omega (arith, k.indexed.covered))))
  | inr (sell, inr (l, h, o, c)) ↦ inr (
      marked-IsBest store s queues s.best_index k h o (λ j b y.
        let below : ltb j s.best_index ≡ true = rw sell at y in c j (omega arith) (ground arith)))
]

-- How many of the first `n` levels have orders.
pub with_orders_count : (ℕ → List ℕ) → ℕ → ℕ
with_orders_count queues zero = 0
with_orders_count queues (suc n) =
    let before = with_orders_count queues n in if is_empty (queues n) then before else suc before

pub with_orders_count_le : (queues : ℕ → List ℕ) (n : ℕ) → with_orders_count queues n ≤ n
unfolding with_orders_count
with_orders_count_le queues zero = omega arith
with_orders_count_le queues (suc n) =
    let before = with_orders_count_le queues n in
    elim (Bool-cases (is_empty (queues n))) [
      | inl e ↦ rw e (omega (arith, before))
      | inr e ↦ rw e (omega (arith, before))
    ]

with_orders_count_same :
    (queues : ℕ → List ℕ) (i : ℕ) (n : ℕ)
    → n ≤ i
    → with_orders_count (update queues i []) n ≡ with_orders_count queues n
unfolding with_orders_count
with_orders_count_same queues i zero h = refl
with_orders_count_same queues i (suc n) h =
    let before = with_orders_count_same queues i n (omega arith) in
    let other = update_ne queues i [] n (omega arith) in rw (other, before) refl

-- A level that is emptied is one less with orders.
pub with_orders_count-update :
    (queues : ℕ → List ℕ) (i : ℕ) (n : ℕ)
    → i < n
    → is_empty (queues i) ≡ false
    → suc (with_orders_count (update queues i []) n) ≡ with_orders_count queues n
unfolding with_orders_count
with_orders_count-update queues i zero h e = absurd (omega arith)
with_orders_count-update queues i (suc n) h e = elim (Bool-cases (n == i)) [
  | inl same ↦
      let here : n ≡ i = ground arith in
      let own = update_self queues i [] in
      let before = with_orders_count_same queues i n (omega arith) in
      rw (here, own, e) (rw here at (ap suc before))
  | inr apart ↦
      let other = update_ne queues i [] n (ground arith) in
      let before = with_orders_count-update queues i n (ground arith) e in
      rw other (elim (Bool-cases (is_empty (queues n))) [
        | inl y ↦ rw y before
        | inr y ↦ rw y (ap suc before)
      ])
]

pub no_orders-NoneLeft :
    (s : DenseBookSide) (queues : ℕ → List ℕ) (n : ℕ)
    → with_orders_count queues n ≡ 0
    → (j : ℕ) → j < n
    → is_empty (queues j) ≡ true
unfolding with_orders_count
no_orders-NoneLeft s queues zero e j h = absurd (omega arith)
no_orders-NoneLeft s queues (suc n) e j h = elim (Bool-cases (is_empty (queues n))) [
  | inl y ↦ elim (Bool-cases (j == n)) [
    | inl same ↦ let here : j ≡ n = ground arith in rw here y
    | inr apart ↦ no_orders-NoneLeft s queues n (rw y at e) j (ground arith)
  ]
  | inr y ↦ absurd (omega (arith, rw y at e))
]
