-- ===== src/BookSide/Dense/Queues/Change.antt =====
-- include/BookSide.hpp: adding an order to a dense side and removing one, on the side's queues.
use eigen_book.Prelude.{
  ℕ, ◌+◌, ◌-◌, ◌<◌, ◌≤◌, ◌≡◌, ◌≢◌, refl, ap, subst, true, false, not, none, List, [], ◌∷◌, ◌++◌,
  ◌==◌, ltb, u64_max, All, NotIn, update, arith, if◌then◌else◌,
}
use eigen_book.Types.Enums.{accepted}
use eigen_book.Order.{Order}
use eigen_book.PriceLevel.{PriceLevel, Store, empty, append, remove, points_to}
use eigen_book.PriceLevel.Fifo.{
  Represents, Keeps, unlinked-NotIn, NotIn-append, Distinct-append, Apart-first,
}
use eigen_book.PriceLevel.Append.{append-Represents}
use eigen_book.PriceLevel.Remove.{remove-Represents}
use eigen_book.PriceLevel.Segment.{Links-split}
use eigen_book.PriceLevel.Frame.{Untouched, append-Untouched, remove-Untouched}
use eigen_book.BookSide.Dense.{
  DenseBookSide, price_in_range, index_for_price, set_occupied, clear_occupied,
}
use eigen_book.BookSide.Dense.Orders.{same_side, with_level, add_order, remove_order}
use eigen_book.BookSide.Dense.Marks.{}
use eigen_book.BookSide.Dense.Queues.Settle.{Settles, Settles-add, Settles-remove, Settles-Changes}
use eigen_book.BookSide.Dense.Queues.{
  is_empty, IsAt, HoldsAt, IsSide, SameRange, IsAt_same, Changes-IsSide, All-zip,
}

All-snoc : (P : ℕ → Type 0) (xs : List ℕ) (x : ℕ) → All P xs → P x → All P (xs ++ x ∷ [])
All-snoc P [] x h k = (k, tt)
All-snoc P (y ∷ xs) x h k = (h.0, All-snoc P xs x h.1 k)

is_empty-append : (q : List ℕ) (p : ℕ) (r : List ℕ) → is_empty (q ++ p ∷ r) ≡ false
is_empty-append [] p r = refl
is_empty-append (x ∷ q) p r = refl

-- An order that keeps its contents still belongs where it did.
pub Keeps-placed :
    (store store' : Store) (s : DenseBookSide) (i p : ℕ) (queue : List ℕ)
    → Keeps store store' p
    → NotIn p queue
    → All (λ j. IsAt s (store j) i) queue
    → All (λ j. IsAt s (store' j) i) queue
Keeps-placed store store' s i p queue keeps apart a =
    let same : SameRange s s = record {
      side = refl;
      min_price = refl;
      max_price = refl;
      tick_size = refl;
      level_count = refl;
      base = refl;
    } in
    All-zip queue
      (λ j n w.
        IsAt_same s s (store j) (store' j) i same (ap (λ (o : Order). o.side) (keeps j n))
          (ap (λ (o : Order). o.price) (keeps j n)) w)
      apart a

pub All-without :
    (P : ℕ → Type 0) (before : List ℕ) (p : ℕ) (after : List ℕ)
    → All P (before ++ p ∷ after)
    → P p × All P (before ++ after)
All-without P [] p after h = h
All-without P (x ∷ before) p after h =
    let (own, rest) = All-without P before p after h.1 in (own, (h.0, rest))

module _ (store : Store) (self : ℕ) (level : PriceLevel) (before : List ℕ) (p : ℕ) (after : List ℕ)
    (r : Represents store self level (before ++ p ∷ after)) where
  Represents-NotIn : NotIn p (before ++ after)
  Represents-NotIn =
      let (db, dpa, apart) = Distinct-append before (p ∷ after) r.distinct in
      NotIn-append p before after (Apart-first p before after apart) dpa.0

  pub own_address : points_to (store p).level self ≡ true
  own_address =
      let own = (Links-split store self none before (p ∷ after) none r.links).1.2 in
      let same : (self == self) ≡ true = ground arith in rw (own, same) refl

module _ (store : Store) (s : DenseBookSide) (queues : ℕ → List ℕ) (p : ℕ)
    (k : IsSide store s queues) where
  -- On a side that holds a queue at every price, an unlinked order of that side with a quantity that its
  -- level has room for, at a price of the range whose index is a level's, is accepted and joins the end of
  -- the queue at its price; the marks and the best index are right afterwards, and no other queue changes.
  pub add_order-IsSide :
      index_for_price s (store p).price < s.level_count
      → same_side (store p).side s.side ≡ true
      → price_in_range s (store p).price ≡ true
      → (store p).level ≡ none
      → (store p).prev ≡ none
      → (store p).next ≡ none
      → 0 < (store p).quantity
      → (s.levels (index_for_price s (store p).price)).total_quantity + (store p).quantity ≤ u64_max
      → let i = index_for_price s (store p).price in
        let (store', s', status) = add_order store s p in
        (status ≡ accepted) × IsSide store' s' (update queues i (queues i ++ p ∷ []))
  unfolding add_order
  add_order-IsSide h side range hl hp hn hq ht =
      let i = index_for_price s (store p).price in
      let level = s.levels i in
      let own = k.holds i h in
      let appends =
        append-Represents store (s.base + i) level (queues i) p own.held hl hp hn hq ht in
      let store' = (append store (s.base + i) level p).0 in
      let level' = (append store (s.base + i) level p).1 in
      let apart = unlinked-NotIn store (s.base + i) none (queues i) none p hl own.held.links in
      let here : IsAt s (store' p) i =
        rw
          (
            ap (λ (o : Order). o.side) appends.appended,
            ap (λ (o : Order). o.price) appends.appended,
          )
          (side, range, refl) in
      let placed =
        All-snoc (λ j. IsAt s (store' j) i) (queues i) p
          (Keeps-placed store store' s i p (queues i) appends.keeps apart own.placed) here in
      let others : (j : ℕ) → j ≢ i → j < s.level_count → Untouched store store' (queues j) =
        λ j d b.
          append-Untouched store (s.base + i) level (queues i) p (s.base + j) (s.levels j)
            (queues j) own.held (k.holds j b).held (λ e. d (omega arith)) hl in
      let settled = Settles-add store s i level' (queues i) k.indexed h own in
      let full = is_empty-append (queues i) p [] in
      let some_quantity : ((store p).quantity == 0) ≡ false = ground arith in
      let room : ltb (u64_max - level.total_quantity) (store p).quantity ≡ false = ground arith in
      let s' =
        if empty level then set_occupied (with_level s i level') i else with_level s i level' in
      let marked : Settles s i level' (not (is_empty (queues i ++ p ∷ []))) s' = rw full settled in
      let changes =
        Settles-Changes store s queues i store' level' s' (queues i ++ p ∷ []) marked appends.queued
          placed others in
      rw (side, some_quantity, range, room, appends.succeeds)
        (refl, Changes-IsSide store s queues i store' s' (queues i ++ p ∷ []) k changes)

  -- On such a side an order of the queue at its price leaves it, which is accepted; the marks and the best
  -- index are right afterwards, and no other queue changes.
  pub remove_order-IsSide :
      (before after : List ℕ)
      → index_for_price s (store p).price < s.level_count
      → queues (index_for_price s (store p).price) ≡ before ++ p ∷ after
      → let i = index_for_price s (store p).price in
        let (store', s', status) = remove_order store s p in
        (status ≡ accepted) × IsSide store' s' (update queues i (before ++ after))
  unfolding remove_order
  remove_order-IsSide before after h e =
      let i = index_for_price s (store p).price in
      let level = s.levels i in
      let own : HoldsAt store s i (before ++ p ∷ after) =
        subst (HoldsAt store s i) e (k.holds i h) in
      let removes = remove-Represents store (s.base + i) level before p after own.held in
      let store' = (remove store (s.base + i) level p).0 in
      let level' = (remove store (s.base + i) level p).1 in
      let (here, rest) = All-without (λ j. IsAt s (store j) i) before p after own.placed in
      let apart = Represents-NotIn store (s.base + i) level before p after own.held in
      let placed = Keeps-placed store store' s i p (before ++ after) removes.keeps apart rest in
      let others : (j : ℕ) → j ≢ i → j < s.level_count → Untouched store store' (queues j) =
        λ j d b.
          remove-Untouched store (s.base + i) level before p after (s.base + j) (s.levels j)
            (queues j) own.held (k.holds j b).held (λ q. d (omega arith)) in
      let s' =
        if empty level' then clear_occupied (with_level s i level') i else with_level s i level' in
      let marked =
        Settles-remove store store' s i level' (before ++ p ∷ after) (before ++ after) k.indexed own
          (is_empty-append before p after) removes.queued in
      let changes =
        Settles-Changes store s queues i store' level' s' (before ++ after) marked removes.queued
          placed others in
      rw
        (
          here.0,
          here.1,
          own_address store (s.base + i) level before p after own.held,
          removes.succeeds,
        )
        (refl, Changes-IsSide store s queues i store' s' (before ++ after) k changes)
