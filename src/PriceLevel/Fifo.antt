-- ===== src/PriceLevel/Fifo.antt =====
-- include/PriceLevel.hpp: a level is a first-in first-out queue of orders.
use eigen_book.Prelude.{
  ℕ, ◌≤◌, ◌≡◌, ◌≢◌, refl, sym, ap, Option, none, some, List, [], ◌∷◌, ◌++◌, arith, length, All,
  NotIn, Distinct, u64_max,
}
use eigen_book.Order.{Order}
use eigen_book.PriceLevel.{PriceLevel, Store, set_next, set_prev}
use eigen_book.PriceLevel.Segment.{first_or, last_of, last_or, Links, total}

-- The level at address `self` holds the orders of `queue`, oldest first.
pub record Represents (store : Store) (self : ℕ) (level : PriceLevel) (queue : List ℕ)
    : Type 0 where
  pub links : Links store self none queue none
  pub head : level.head ≡ first_or none queue
  pub tail : level.tail ≡ last_or none queue
  pub total_quantity : level.total_quantity ≡ total store queue
  pub order_count : level.order_count ≡ length queue
  pub distinct : Distinct queue
  pub bounded : level.total_quantity ≤ u64_max

-- An order without its queue links.
abbrev pub contents : Order → Order
contents o = record o { prev = none; next = none }

-- Every order but `p` keeps its contents.
abbrev pub Keeps : Store → Store → ℕ → Type 0
Keeps store store' p = (j : ℕ) → j ≢ p → contents (store' j) ≡ contents (store j)

-- An order that belongs to no level is in no queue.
pub unlinked-NotIn :
    (store : Store) (self : ℕ) (b : Option ℕ) (q : List ℕ) (a : Option ℕ) (p : ℕ)
    → (store p).level ≡ none
    → Links store self b q a
    → NotIn p q
unlinked-NotIn store self b [] a p h l = tt
unlinked-NotIn store self b (x ∷ q) a p h l = (
  λ e. cc (ap (λ (k : ℕ). (store k).level) e, l.2, h),
  unlinked-NotIn store self (some x) q a p h l.3,
)

pub set_next-contents :
    (store : Store) (o : Option ℕ) (v : Option ℕ) (j : ℕ)
    → contents (set_next store o v j) ≡ contents (store j)
set_next-contents store none v j = refl
set_next-contents store (some p) v j = ground arith

pub set_prev-contents :
    (store : Store) (o : Option ℕ) (v : Option ℕ) (j : ℕ)
    → contents (set_prev store o v j) ≡ contents (store j)
set_prev-contents store none v j = refl
set_prev-contents store (some p) v j = ground arith

pub All-quantity :
    (store store' : Store) (p : ℕ) (q : List ℕ)
    → Keeps store store' p
    → NotIn p q
    → All (λ j. (store' j).quantity ≡ (store j).quantity) q
All-quantity store store' p [] k h = tt
All-quantity store store' p (x ∷ q) k h =
    (ap (λ (o : Order). o.quantity) (k x h.0), All-quantity store store' p q k h.1)

pub NotIn-append : (p : ℕ) (q r : List ℕ) → NotIn p q → NotIn p r → NotIn p (q ++ r)
NotIn-append p [] r h k = k
NotIn-append p (x ∷ q) r h k = (h.0, NotIn-append p q r h.1 k)

pub Distinct-snoc : (q : List ℕ) (p : ℕ) → Distinct q → NotIn p q → Distinct (q ++ p ∷ [])
Distinct-snoc [] p d h = (tt, tt)
Distinct-snoc (x ∷ q) p d h =
    (NotIn-append x q (p ∷ []) d.0 ((λ e. h.0 (sym e)), tt), Distinct-snoc q p d.1 h.1)

-- No entry of one list is in the other.
abbrev pub Apart : List ℕ → List ℕ → Type 0
Apart q r = All (λ x. NotIn x r) q

NotIn-split : (p : ℕ) (q r : List ℕ) → NotIn p (q ++ r) → NotIn p q × NotIn p r
NotIn-split p [] r h = (tt, h)
NotIn-split p (x ∷ q) r h = let (left, right) = NotIn-split p q r h.1 in ((h.0, left), right)

pub Distinct-append : (q r : List ℕ) → Distinct (q ++ r) → Distinct q × Distinct r × Apart q r
Distinct-append [] r d = (tt, d, tt)
Distinct-append (x ∷ q) r d =
    let (left, right) = NotIn-split x q r d.0 in
    let (dq, dr, apart) = Distinct-append q r d.1 in ((left, dq), dr, (right, apart))

pub Apart-first : (y : ℕ) (q r : List ℕ) → Apart q (y ∷ r) → NotIn y q
Apart-first y [] r h = tt
Apart-first y (x ∷ q) r h = ((λ e. h.0.0 (sym e)), Apart-first y q r h.1)

pub Apart-last : (x : ℕ) (q r : List ℕ) → Apart (x ∷ q) r → NotIn (last_of x q) r
Apart-last x [] r h = h.0
Apart-last x (y ∷ q) r h = Apart-last y q r h.1
