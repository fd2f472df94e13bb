-- ===== src/PriceLevel/Frame.antt =====
-- include/PriceLevel.hpp: an operation on one level leaves the orders of the others alone.
use eigen_book.Prelude.{
  arith, ℕ, ◌-◌, ◌≡◌, ◌≢◌, refl, sym, ap, ◌∙◌, Bool, true, false, not, ◌||◌, Option, none, some,
  List, [], ◌∷◌, ◌++◌, ◌==◌, ltb, u64_max, All, All-map, update, update_ne, if◌then◌else◌,
}
use eigen_book.Types.Enums.{resting}
use eigen_book.Order.{Order}
use eigen_book.PriceLevel.{
  PriceLevel, Store, is_null, points_to, set_next, set_prev, append, append_linked, remove,
  remove_linked,
}
use eigen_book.PriceLevel.Segment.{first_or, last_or, Links, Links-split, total_same}
use eigen_book.PriceLevel.Fifo.{Represents}

-- Every order of a queue is as it was.
abbrev pub Untouched : Store → Store → List ℕ → Type 0
Untouched store store' queue = All (λ j. store' j ≡ store j) queue

pub Links-level :
    (store : Store) (self : ℕ) (b : Option ℕ) (q : List ℕ) (a : Option ℕ)
    → Links store self b q a
    → All (λ j. (store j).level ≡ some self) q
Links-level store self b [] a l = tt
Links-level store self b (p ∷ q) a l = (l.2, Links-level store self (some p) q a l.3)

Links-same :
    (store store' : Store) (self : ℕ) (b : Option ℕ) (q : List ℕ) (a : Option ℕ)
    → Untouched store store' q
    → Links store self b q a
    → Links store' self b q a
Links-same store store' self b [] a u l = tt
Links-same store store' self b (p ∷ q) a u l =
    rw u.0 (l.0, l.1, l.2, Links-same store store' self (some p) q a u.1 l.3)

pub Untouched-Represents :
    (store store' : Store) (self : ℕ) (level : PriceLevel) (queue : List ℕ)
    → Untouched store store' queue
    → Represents store self level queue
    → Represents store' self level queue
Untouched-Represents store store' self level queue u r = record {
  links = Links-same store store' self none queue none u r.links;
  total_quantity =
      r.total_quantity
      ∙ sym (
          total_same store store' queue
            (All-map queue (λ j e. ap (λ (o : Order). o.quantity) e) u));
  head = r.head;
  tail = r.tail;
  order_count = r.order_count;
  distinct = r.distinct;
  bounded = r.bounded;
}

pub some-injective : {m n : ℕ} → some m ≡ some n → m ≡ n
some-injective e = cc e

none-some : {n : ℕ} → none ≢ some n
none-some e = absurd (ground arith)

set_next_ne : (store : Store) (o v : Option ℕ) (j : ℕ) → o ≢ some j → set_next store o v j ≡ store j
set_next_ne store none v j h = refl
set_next_ne store (some p) v j h =
    update_ne store p (record (store p) { next = v }) j (λ e. h (ap some (sym e)))

set_prev_ne : (store : Store) (o v : Option ℕ) (j : ℕ) → o ≢ some j → set_prev store o v j ≡ store j
set_prev_ne store none v j h = refl
set_prev_ne store (some p) v j h =
    update_ne store p (record (store p) { prev = v }) j (λ e. h (ap some (sym e)))

-- A memory that is the old one at `j`, whichever way a test goes.
if_same :
    (store : Store) (j : ℕ) (b : Bool) (x y : Store × PriceLevel × Bool)
    → x.0 j ≡ store j
    → y.0 j ≡ store j
    → (if b then x else y).0 j ≡ store j
if_same store j true x y h k = h
if_same store j false x y h k = k

-- An append writes to the order and to the last of the queue.
append_linked_ne :
    (store : Store) (self : ℕ) (level : PriceLevel) (p j : ℕ)
    → j ≢ p
    → level.tail ≢ some j
    → (append_linked store self level p).0 j ≡ store j
unfolding append_linked
append_linked_ne store self level p j h t =
    let order = store p in
    let placed = record order {
      level = some self;
      prev = level.tail;
      next = none;
      state = resting;
    } in
    set_next_ne (update store p placed) level.tail (some p) j t ∙ update_ne store p placed j h

pub append_ne :
    (store : Store) (self : ℕ) (level : PriceLevel) (p j : ℕ)
    → j ≢ p
    → level.tail ≢ some j
    → (append store self level p).0 j ≡ store j
unfolding append
append_ne store self level p j h t =
    let order = store p in
    let linked = append_linked store self level p in
    let overflow = ltb (u64_max - level.total_quantity) order.quantity in
    if_same store j
      (order.quantity == 0
        || not (is_null order.level)
        || not (is_null order.prev)
        || not (is_null order.next))
      (store, level, false) (if overflow then (store, level, false) else linked) refl
      (if_same store j overflow (store, level, false) linked refl
        (append_linked_ne store self level p j h t))

-- A removal writes to the order and to its neighbours.
remove_linked_ne :
    (store : Store) (level : PriceLevel) (p j : ℕ)
    → j ≢ p
    → (store p).prev ≢ some j
    → (store p).next ≢ some j
    → (remove_linked store level p).0 j ≡ store j
unfolding remove_linked
remove_linked_ne store level p j h b a =
    let order = store p in
    let next_written = set_next store order.prev order.next in
    let bridged = set_prev next_written order.next order.prev in
    update_ne bridged p (record (bridged p) { prev = none; next = none; level = none }) j h
    ∙ set_prev_ne next_written order.next order.prev j a
    ∙ set_next_ne store order.prev order.next j b

pub remove_ne :
    (store : Store) (self : ℕ) (level : PriceLevel) (p j : ℕ)
    → j ≢ p
    → (store p).prev ≢ some j
    → (store p).next ≢ some j
    → (remove store self level p).0 j ≡ store j
unfolding remove
remove_ne store self level p j h b a =
    if_same store j
      (not (points_to (store p).level self)
        || level.order_count == 0
        || ltb level.total_quantity (store p).quantity)
      (store, level, false) (remove_linked store level p) refl
      (remove_linked_ne store level p j h b a)

last_or-level :
    (store : Store) (self j : ℕ) (b : Option ℕ) (q : List ℕ) (a : Option ℕ)
    → Links store self b q a
    → last_or none q ≡ some j
    → (store j).level ≡ some self
last_or-level store self j b [] a l e = absurd (ground arith)
last_or-level store self j b (p ∷ []) a l e = cc (l.2, e)
last_or-level store self j b (p ∷ x ∷ q) a l e = last_or-level store self j (some p) (x ∷ q) a l.3 e

first_or-level :
    (store : Store) (self j : ℕ) (b : Option ℕ) (q : List ℕ) (a : Option ℕ)
    → Links store self b q a
    → first_or none q ≡ some j
    → (store j).level ≡ some self
first_or-level store self j b [] a l e = absurd (ground arith)
first_or-level store self j b (p ∷ q) a l e = cc (l.2, e)

-- Another level's queue is untouched by an append.
pub append-Untouched :
    (store : Store) (self : ℕ) (level : PriceLevel) (queue : List ℕ) (p : ℕ) (self' : ℕ)
    (level' : PriceLevel) (queue' : List ℕ)
    → Represents store self level queue
    → Represents store self' level' queue'
    → self ≢ self'
    → (store p).level ≡ none
    → Untouched store (append store self level p).0 queue'
append-Untouched store self level queue p self' level' queue' r r' h n =
    All-map queue'
      (λ j own.
        append_ne store self level p j
          (λ e. none-some (sym n ∙ ap (λ k. (store k).level) (sym e) ∙ own))
          (λ e. h (
            some-injective
              (sym (last_or-level store self j none queue none r.links (sym r.tail ∙ e)) ∙ own))))
      (Links-level store self' none queue' none r'.links)

-- Another level's queue is untouched by a removal.
pub remove-Untouched :
    (store : Store) (self : ℕ) (level : PriceLevel) (before : List ℕ) (p : ℕ) (after : List ℕ)
    (self' : ℕ) (level' : PriceLevel) (queue' : List ℕ)
    → Represents store self level (before ++ p ∷ after)
    → Represents store self' level' queue'
    → self ≢ self'
    → Untouched store (remove store self level p).0 queue'
remove-Untouched store self level before p after self' level' queue' r r' h =
    let (left, right) = Links-split store self none before (p ∷ after) none r.links in
    All-map queue'
      (λ j own.
        remove_ne store self level p j
          (λ e. h (some-injective (sym right.2 ∙ ap (λ k. (store k).level) (sym e) ∙ own)))
          (λ e. h (
            some-injective
              (sym (last_or-level store self j none before (some p) left (sym right.0 ∙ e)) ∙ own)))
          (λ e. h (
            some-injective (
              sym (first_or-level store self j (some p) after none right.3 (sym right.1 ∙ e))
              ∙ own))))
      (Links-level store self' none queue' none r'.links)

-- Another level's queue is untouched by a write to an order of this one.
pub update-Untouched :
    (store : Store) (self p : ℕ) (o : Order) (self' : ℕ) (level' : PriceLevel) (queue' : List ℕ)
    → (store p).level ≡ some self
    → Represents store self' level' queue'
    → self ≢ self'
    → Untouched store (update store p o) queue'
update-Untouched store self p o self' level' queue' e r' h =
    All-map queue'
      (λ j own.
        update_ne store p o j
          (λ q. h (some-injective (sym e ∙ ap (λ k. (store k).level) (sym q) ∙ own))))
      (Links-level store self' none queue' none r'.links)
