-- ===== src/PriceLevel/Append.antt =====
-- include/PriceLevel.hpp: append.
use eigen_book.Prelude.{
  ℕ, ◌+◌, ◌≤◌, ◌<◌, ◌≡◌, refl, sym, ap, ◌∙◌, Bool, true, Option, none, some, List, [], ◌∷◌, ◌++◌,
  arith, length-append, update, update_ne, update_self, NotIn, Distinct, if◌then◌else◌, u64_max,
}
use eigen_book.Types.Enums.{resting}
use eigen_book.Order.{Order}
use eigen_book.PriceLevel.{PriceLevel, Store, is_null, set_next, append, append_linked}
use eigen_book.PriceLevel.Segment.{
  first_or, last_of, last_or, Links, last_of-ne, last_or-append, total-append, total_same,
  Links-join, Links-update, Links-set_next,
}
use eigen_book.PriceLevel.Fifo.{
  Represents, contents, Keeps, unlinked-NotIn, set_next-contents, All-quantity, Distinct-snoc,
}

abbrev placed : Store → ℕ → Option ℕ → ℕ → Order
placed store self tail p = record (store p) {
  level = some self;
  prev = tail;
  next = none;
  state = resting;
}

abbrev appended : Store → ℕ → Option ℕ → ℕ → Store
appended store self tail p = set_next (update store p (placed store self tail p)) tail (some p)

append-Links :
    (store : Store) (self : ℕ) (queue : List ℕ) (p : ℕ)
    → Links store self none queue none
    → Distinct queue
    → NotIn p queue
    → Links (appended store self (last_or none queue) p) self none (queue ++ p ∷ []) none
append-Links store self [] p l d h =
    rw (update_self store p (placed store self none p)) (refl, refl, refl, tt)
append-Links store self (x ∷ q) p l d h =
    let last = last_of x q in
    let o = placed store self (some last) p in
    let written = update store p o in
    let old = Links-update store self none (x ∷ q) none p o h l in
    Links-join (appended store self (some last) p) self none (x ∷ q) (p ∷ []) none
      (Links-set_next written self none x q none (some p) d old)
      (rw
        (
          update_ne written last (record (written last) { next = some p }) p
              (λ e. last_of-ne p x q h.0 h.1 (sym e)),
          update_self store p o,
        )
        (refl, refl, refl, tt))

appended-Keeps :
    (store : Store) (self : ℕ) (tail : Option ℕ) (p : ℕ)
    → Keeps store (appended store self tail p) p
appended-Keeps store self tail p j h =
    set_next-contents (update store p (placed store self tail p)) tail (some p) j
    ∙ ap contents (update_ne store p (placed store self tail p) j h)

appended_self :
    (store : Store) (self : ℕ) (tail : Option ℕ) (p : ℕ)
    → contents (appended store self tail p p)
      ≡ record (store p) { level = some self; prev = none; next = none; state = resting }
appended_self store self tail p =
    set_next-contents (update store p (placed store self tail p)) tail (some p) p
    ∙ ap contents (update_self store p (placed store self tail p))

append_accepts :
    (store : Store) (self : ℕ) (level : PriceLevel) (p : ℕ)
    → (store p).level ≡ none
    → (store p).prev ≡ none
    → (store p).next ≡ none
    → 0 < (store p).quantity
    → level.total_quantity + (store p).quantity ≤ u64_max
    → append store self level p ≡ append_linked store self level p
unfolding append
append_accepts store self level p hl hp hn hq ht = rw (hl, hp, hn) (ground arith)

-- What a successful append does.
pub record Appends (store : Store) (self : ℕ) (level : PriceLevel) (queue : List ℕ) (p : ℕ)
    (r : Store × PriceLevel × Bool) : Type 0 where
  pub succeeds : r.2 ≡ true
  pub queued : Represents r.0 self r.1 (queue ++ p ∷ [])
  pub keeps : Keeps store r.0 p
  pub appended :
      contents (r.0 p)
      ≡ record (store p) { level = some self; prev = none; next = none; state = resting }
  pub same_price : r.1.price ≡ level.price

head-append :
    (queue : List ℕ) (head tail : Option ℕ) (p : ℕ)
    → head ≡ first_or none queue
    → tail ≡ last_or none queue
    → (if is_null tail then some p else head) ≡ first_or none (queue ++ p ∷ [])
head-append [] head tail p h t = rw t refl
head-append (x ∷ q) head tail p h t = rw (t, h) refl

append_linked-Appends :
    (store : Store) (self : ℕ) (level : PriceLevel) (queue : List ℕ) (p : ℕ)
    → Represents store self level queue
    → NotIn p queue
    → level.total_quantity + (store p).quantity ≤ u64_max
    → Appends store self level queue p (append_linked store self level p)
unfolding append_linked
append_linked-Appends store self level queue p r apart ht =
    let store' = appended store self level.tail p in
    let keeps = appended-Keeps store self level.tail p in
    let own = appended_self store self level.tail p in
    let old = total_same store store' queue (All-quantity store store' p queue keeps apart) in
    record {
      succeeds = refl;
      queued = record {
        links = rw r.tail (append-Links store self queue p r.links r.distinct apart);
        head = head-append queue level.head level.tail p r.head r.tail;
        tail = sym (last_or-append none queue (p ∷ []));
        total_quantity = omega (
          arith,
          total-append store' queue (p ∷ []),
          old,
          ap (λ (o : Order). o.quantity) own,
          r.total_quantity,
        );
        order_count = omega (arith, length-append queue (p ∷ []), r.order_count);
        distinct = Distinct-snoc queue p r.distinct apart;
        bounded = ht;
      };
      keeps = keeps;
      appended = own;
      same_price = refl;
    }

-- An unlinked order with a quantity for which the level's total has room joins the end of the queue: the
-- links stay consistent both ways, the total and the count grow with it, the order names its level and
-- rests, and no other order changes but in its links.
pub append-Represents :
    (store : Store) (self : ℕ) (level : PriceLevel) (queue : List ℕ) (p : ℕ)
    → Represents store self level queue
    → (store p).level ≡ none
    → (store p).prev ≡ none
    → (store p).next ≡ none
    → 0 < (store p).quantity
    → level.total_quantity + (store p).quantity ≤ u64_max
    → Appends store self level queue p (append store self level p)
append-Represents store self level queue p r hl hp hn hq ht =
    let apart = unlinked-NotIn store self none queue none p hl r.links in
    rw (append_accepts store self level p hl hp hn hq ht)
      (append_linked-Appends store self level queue p r apart ht)
