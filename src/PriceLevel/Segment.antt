-- ===== src/PriceLevel/Segment.antt =====
-- include/PriceLevel.hpp: doubly linked runs of orders in the memory, and what writes do to them.
use eigen_book.Prelude.{
  ℕ, ◌+◌, ◌≡◌, ◌≢◌, refl, sym, ap, ◌∙◌, Option, some, List, [], ◌∷◌, ◌++◌, arith, update, update_ne,
  update_self, All, NotIn, Distinct,
}
use mathlib.Core.List.{append-nil}
use eigen_book.Order.{Order}
use eigen_book.PriceLevel.{Store, set_next, set_prev}

-- The pointer to the first order of a run, or what follows it; to the last, or what precedes it.
abbrev pub first_or : Option ℕ → List ℕ → Option ℕ
first_or after [] = after
first_or after (p ∷ q) = some p

abbrev pub last_of : ℕ → List ℕ → ℕ
last_of p [] = p
last_of p (x ∷ q) = last_of x q

abbrev pub last_or : Option ℕ → List ℕ → Option ℕ
last_or before [] = before
last_or before (p ∷ q) = some (last_of p q)

-- The run is linked both ways between `before` and `after`, and each order names its level.
abbrev pub Links : Store → ℕ → Option ℕ → List ℕ → Option ℕ → Type 0
Links store self before [] after = Unit {0}
Links store self before (p ∷ q) after =
    ((store p).prev ≡ before)
    × ((store p).next ≡ first_or after q)
    × ((store p).level ≡ some self)
    × Links store self (some p) q after

abbrev pub total : Store → List ℕ → ℕ
total store [] = 0
total store (p ∷ q) = (store p).quantity + total store q

pub last_of-ne : (r p : ℕ) (q : List ℕ) → p ≢ r → NotIn r q → last_of p q ≢ r
last_of-ne r p [] h k = h
last_of-ne r p (x ∷ q) h k = last_of-ne r x q k.0 k.1

last_of-append : (p : ℕ) (q : List ℕ) (x : ℕ) (r : List ℕ) → last_of p (q ++ x ∷ r) ≡ last_of x r
last_of-append p [] x r = refl
last_of-append p (y ∷ q) x r = last_of-append y q x r

pub last_or-append : (b : Option ℕ) (q r : List ℕ) → last_or b (q ++ r) ≡ last_or (last_or b q) r
last_or-append b [] r = refl
last_or-append b (p ∷ q) [] = ap (λ l. last_or b (p ∷ l)) (append-nil q)
last_or-append b (p ∷ q) (x ∷ r) = ap some (last_of-append p q x r)

pub first_or-append :
    (a : Option ℕ) (q r : List ℕ) → first_or a (q ++ r) ≡ first_or (first_or a r) q
first_or-append a [] r = refl
first_or-append a (p ∷ q) r = refl

pub total-append :
    (store : Store) (q r : List ℕ) → total store (q ++ r) ≡ total store q + total store r
total-append store [] r = omega arith
total-append store (p ∷ q) r = omega (arith, total-append store q r)

pub total_same :
    (store store' : Store) (q : List ℕ)
    → All (λ j. (store' j).quantity ≡ (store j).quantity) q
    → total store' q ≡ total store q
total_same store store' [] h = refl
total_same store store' (p ∷ q) h = omega (arith, total_same store store' q h.1, h.0)

last_or-some : (p : ℕ) (q : List ℕ) → last_or (some p) q ≡ some (last_of p q)
last_or-some p [] = refl
last_or-some p (x ∷ q) = refl

-- A run splits at any point, and two runs that meet join.
pub Links-split :
    (store : Store) (self : ℕ) (b : Option ℕ) (q r : List ℕ) (a : Option ℕ)
    → Links store self b (q ++ r) a
    → Links store self b q (first_or a r) × Links store self (last_or b q) r a
Links-split store self b [] r a l = (tt, l)
Links-split store self b (p ∷ q) r a l =
    let (left, right) = Links-split store self (some p) q r a l.3 in
    ((l.0, l.1 ∙ first_or-append a q r, l.2, left), rw (last_or-some p q) at right)

pub Links-join :
    (store : Store) (self : ℕ) (b : Option ℕ) (q r : List ℕ) (a : Option ℕ)
    → Links store self b q (first_or a r)
    → Links store self (last_or b q) r a
    → Links store self b (q ++ r) a
Links-join store self b [] r a left right = right
Links-join store self b (p ∷ q) r a left right = (
  left.0,
  left.1 ∙ sym (first_or-append a q r),
  left.2,
  Links-join store self (some p) q r a left.3 (rw (← last_or-some p q) at right),
)

-- A write outside the run leaves it.
pub Links-update :
    (store : Store) (self : ℕ) (b : Option ℕ) (q : List ℕ) (a : Option ℕ) (r : ℕ) (o : Order)
    → NotIn r q
    → Links store self b q a
    → Links (update store r o) self b q a
Links-update store self b [] a r o h l = tt
Links-update store self b (p ∷ q) a r o h l =
    rw (update_ne store r o p h.0) (l.0, l.1, l.2, Links-update store self (some p) q a r o h.1 l.3)

-- A write to the last order's `next` makes the run end at another pointer.
pub Links-set_next :
    (store : Store) (self : ℕ) (b : Option ℕ) (p : ℕ) (q : List ℕ) (a v : Option ℕ)
    → Distinct (p ∷ q)
    → Links store self b (p ∷ q) a
    → Links (set_next store (some (last_of p q)) v) self b (p ∷ q) v
Links-set_next store self b p [] a v d l =
    rw (update_self store p (record (store p) { next = v })) (l.0, refl, l.2, tt)
Links-set_next store self b p (x ∷ q) a v d l =
    rw
      (update_ne store (last_of x q) (record (store (last_of x q)) { next = v }) p
        (λ e. last_of-ne p x q d.0.0 d.0.1 (sym e)))
      (l.0, l.1, l.2, Links-set_next store self (some p) x q a v d.1 l.3)

-- A write to the first order's `prev` makes the run begin at another pointer.
pub Links-set_prev :
    (store : Store) (self : ℕ) (b : Option ℕ) (p : ℕ) (q : List ℕ) (a v : Option ℕ)
    → NotIn p q
    → Links store self b (p ∷ q) a
    → Links (set_prev store (some p) v) self v (p ∷ q) a
Links-set_prev store self b p q a v d l =
    let o : Order = record (store p) { prev = v } in
    rw (update_self store p o) (refl, l.1, l.2, Links-update store self (some p) q a p o d l.3)
