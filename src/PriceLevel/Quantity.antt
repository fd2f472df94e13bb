-- ===== src/PriceLevel/Quantity.antt =====
-- include/PriceLevel.hpp: set_quantity_keep_priority and fill_front.
use eigen_book.Prelude.{
  ℕ, ◌+◌, ◌-◌, ◌≤◌, ◌<◌, ◌≡◌, refl, sym, ap, ◌∙◌, true, false, ◌||◌, not, Option, none, some, List,
  [], ◌∷◌, ◌++◌, arith, update, update_ne, update_self, NotIn, Distinct, ltb, ◌==◌, if◌then◌else◌,
  min, Bool-cases, Option-cases, inl, inr,
}
use native.Mathlib.Decide.{ℕ_discrete}
use eigen_book.Types.Enums.{OrderState, filled, partially_filled}
use eigen_book.Order.{Order}
use eigen_book.PriceLevel.{
  PriceLevel, Store, is_null, points_to, set_quantity_keep_priority, fill_head, fill_front,
}
use eigen_book.PriceLevel.Segment.{Links, total, total-append, Links-split}
use eigen_book.PriceLevel.Fifo.{Represents, Distinct-append, Apart-first}

-- A write that keeps an order's links keeps every run.
Links-write :
    (store : Store) (self : ℕ) (b : Option ℕ) (q : List ℕ) (a : Option ℕ) (r : ℕ) (o : Order)
    → o.prev ≡ (store r).prev
    → o.next ≡ (store r).next
    → o.level ≡ (store r).level
    → Links store self b q a
    → Links (update store r o) self b q a
Links-write store self b [] a r o hp hn hl l = tt
Links-write store self b (p ∷ q) a r o hp hn hl l = elim (ℕ_discrete p r) [
  | yes same ↦
      rw (same, update_self store r o)
        (
          hp ∙ ap (λ (k : ℕ). (store k).prev) (sym same) ∙ l.0,
          hn ∙ ap (λ (k : ℕ). (store k).next) (sym same) ∙ l.1,
          hl ∙ ap (λ (k : ℕ). (store k).level) (sym same) ∙ l.2,
          rw same at (Links-write store self (some p) q a r o hp hn hl l.3),
        )
  | no other ↦
      rw (update_ne store r o p other)
        (l.0, l.1, l.2, Links-write store self (some p) q a r o hp hn hl l.3)
]

total-update-NotIn :
    (store : Store) (q : List ℕ) (r : ℕ) (o : Order)
    → NotIn r q
    → total (update store r o) q ≡ total store q
total-update-NotIn store [] r o h = refl
total-update-NotIn store (p ∷ q) r o h =
    rw (update_ne store r o p h.0)
      (ap (◌+◌ (store p).quantity) (total-update-NotIn store q r o h.1))

-- A write to one order of a queue of distinct orders moves the total by that order's change.
total-update :
    (store : Store) (before : List ℕ) (p : ℕ) (after : List ℕ) (o : Order)
    → Distinct (before ++ p ∷ after)
    → total (update store p o) (before ++ p ∷ after) + (store p).quantity
      ≡ total store (before ++ p ∷ after) + o.quantity
total-update store before p after o d =
    let (db, dpa, apart) = Distinct-append before (p ∷ after) d in
    omega (
      arith,
      total-append store before (p ∷ after),
      total-append (update store p o) before (p ∷ after),
      total-update-NotIn store before p o (Apart-first p before after apart),
      total-update-NotIn store after p o dpa.0,
      ap (λ (x : Order). x.quantity) (update_self store p o),
    )

-- A write of another quantity (and state) to the order at `p`, with the level's total moved by the change.
write-Represents :
    (store : Store) (self : ℕ) (level : PriceLevel) (before : List ℕ) (p : ℕ) (after : List ℕ)
    (o : Order) (delta : ℕ)
    → Represents store self level (before ++ p ∷ after)
    → o.prev ≡ (store p).prev
    → o.next ≡ (store p).next
    → o.level ≡ (store p).level
    → o.quantity + delta ≡ (store p).quantity
    → Represents
        (update store p o)
        self
        (record level { total_quantity = level.total_quantity - delta })
        (before ++ p ∷ after)
write-Represents store self level before p after o delta r hp hn hl hq =
    let moved = total-update store before p after o r.distinct in
    let parts = total-append store before (p ∷ after) in
    record {
      links = Links-write store self none (before ++ p ∷ after) none p o hp hn hl r.links;
      head = r.head;
      tail = r.tail;
      total_quantity = omega (arith, moved, parts, r.total_quantity);
      order_count = r.order_count;
      distinct = r.distinct;
      bounded = omega (arith, r.bounded);
    }

-- Reducing an order to a positive quantity no larger than its own keeps the queue and its order: that
-- order alone changes, in its quantity alone, and the total stays the sum.
pub set_quantity-Represents :
    (store : Store) (self : ℕ) (level : PriceLevel) (before : List ℕ) (p : ℕ) (after : List ℕ)
    (new_quantity : ℕ)
    → Represents store self level (before ++ p ∷ after)
    → 0 < new_quantity
    → new_quantity ≤ (store p).quantity
    → ((set_quantity_keep_priority store self level p new_quantity).2 ≡ true)
      × Represents
          (set_quantity_keep_priority store self level p new_quantity).0
          self
          (set_quantity_keep_priority store self level p new_quantity).1
          (before ++ p ∷ after)
      × ((set_quantity_keep_priority store self level p new_quantity).0
          ≡ update store p (record (store p) { quantity = new_quantity }))
unfolding set_quantity_keep_priority
set_quantity-Represents store self level before p after n r low high =
    let own = (Links-split store self none before (p ∷ after) none r.links).1.2 in
    let parts = total-append store before (p ∷ after) in
    let delta = (store p).quantity - n in
    let first : (not (points_to (store p).level self) || n == 0 || ltb (store p).quantity n)
        ≡ false =
      rw own (ground arith) in
    let second : ltb level.total_quantity delta ≡ false = ground (arith, parts, r.total_quantity) in
    rw (first, second)
      (
        refl,
        write-Represents store self level before p after (record (store p) { quantity = n }) delta r
            refl refl refl (omega arith),
        refl,
      )

-- A request for some quantity from a level with orders executes the lesser of the request and the
-- oldest order's quantity, which that order and the total lose; the queue stays, no other order changes,
-- and the oldest is marked as filled just when nothing of it is left.
pub fill_front-Represents :
    (store : Store) (self : ℕ) (level : PriceLevel) (h : ℕ) (after : List ℕ) (requested : ℕ)
    → Represents store self level (h ∷ after)
    → 0 < requested
    → ((fill_front store level requested).2 ≡ min requested (store h).quantity)
      × Represents
          (fill_front store level requested).0
          self
          (fill_front store level requested).1
          (h ∷ after)
      × ((fill_front store level requested).0
          ≡ update store h (record (store h) {
            quantity = (store h).quantity - requested;
            state = if ltb requested (store h).quantity then partially_filled else filled;
          }))
unfolding fill_front fill_head
fill_front-Represents store self level h after n r low =
    let q = (store h).quantity in
    let test : (n == 0) ≡ false = ground arith in
    let left : q - min n q ≡ q - n = omega arith in
    let mark : (if q - n == 0 then OrderState.filled else OrderState.partially_filled)
        ≡ (if ltb n q then OrderState.partially_filled else OrderState.filled) =
      ground arith in
    let o : Order = record (store h) {
      quantity = q - n;
      state = if ltb n q then partially_filled else filled;
    } in
    rw (r.head, test, fill_head, left, mark)
      (
        refl,
        write-Represents store self level [] h after o (min n q) r refl refl refl (omega arith),
        refl,
      )

pub fill_front-price :
    (store : Store) (level : PriceLevel) (n : ℕ) → (fill_front store level n).1.price ≡ level.price
unfolding fill_front fill_head
fill_front-price store level n = elim (Bool-cases (is_null level.head || n == 0)) [
  | inl e ↦ rw e refl
  | inr e ↦ elim (Option-cases level.head) [ inl h ↦ rw (e, h) refl | inr (p, h) ↦ rw (e, h) refl ]
]
