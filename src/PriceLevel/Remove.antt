-- ===== src/PriceLevel/Remove.antt =====
-- include/PriceLevel.hpp: remove.
use mathlib.Core.List.{append-nil}
use eigen_book.Prelude.{
  ℕ, ◌≡◌, refl, sym, ap, ◌∙◌, Bool, true, Option, none, some, List, [], ◌∷◌, ◌++◌, arith,
  length-append, update, update_ne, update_self, Distinct, if◌then◌else◌,
}
use eigen_book.Order.{Order}
use eigen_book.PriceLevel.{PriceLevel, Store, is_null, set_next, set_prev, remove, remove_linked}
use eigen_book.PriceLevel.Segment.{
  first_or, last_of, last_or, Links, last_or-append, total-append, total_same, Links-split,
  Links-join, Links-update, Links-set_next, Links-set_prev,
}
use eigen_book.PriceLevel.Fifo.{
  Represents, contents, Keeps, set_next-contents, set_prev-contents, All-quantity, NotIn-append,
  Apart, Distinct-append, Apart-first, Apart-last,
}

module _ (store : Store) (self : ℕ) where
  unlink_before :
      (before : List ℕ) (p : ℕ) (v : Option ℕ)
      → Links store self none before (some p)
      → Distinct before
      → Links (set_next store (last_or none before) v) self none before v
  unlink_before [] p v l d = tt
  unlink_before (x ∷ q) p v l d = Links-set_next store self none x q (some p) v d l

  keep_after :
      (before after : List ℕ) (p : ℕ) (v : Option ℕ)
      → Links store self (some p) after none
      → Apart before after
      → Links (set_next store (last_or none before) v) self (some p) after none
  keep_after [] after p v l d = l
  keep_after (x ∷ q) after p v l d =
      Links-update store self (some p) after none (last_of x q) _ (Apart-last x q after d) l

  unlink_after :
      (after : List ℕ) (p : ℕ) (v : Option ℕ)
      → Links store self (some p) after none
      → Distinct after
      → Links (set_prev store (first_or none after) v) self v after none
  unlink_after [] p v l d = tt
  unlink_after (y ∷ r) p v l d = Links-set_prev store self (some p) y r none v d.0 l

  keep_before :
      (before after : List ℕ) (v : Option ℕ)
      → Links store self none before (first_or none after)
      → Apart before after
      → Links (set_prev store (first_or none after) v) self none before (first_or none after)
  keep_before before [] v l d = l
  keep_before before (y ∷ r) v l d =
      Links-update store self none before (some y) y _ (Apart-first y before r d) l

-- The neighbours of an order linked past it.
abbrev bridged : Store → Option ℕ → Option ℕ → Store
bridged store before after = set_prev (set_next store before after) after before

bridged-Links :
    (store : Store) (self : ℕ) (before : List ℕ) (p : ℕ) (after : List ℕ)
    → Links store self none before (some p)
    → Links store self (some p) after none
    → Distinct before
    → Distinct after
    → Apart before after
    → Links
        (bridged store (last_or none before) (first_or none after))
        self
        none
        (before ++ after)
        none
bridged-Links store self before p after left right db da apart =
    let b = last_or none before in
    let a = first_or none after in
    let store' = set_next store b a in
    Links-join (bridged store b a) self none before after none
      (keep_before store' self before after b (unlink_before store self before p a left db) apart)
      (unlink_after store' self after p b (keep_after store self before after p a right apart) da)

bridged-contents :
    (store : Store) (b a : Option ℕ) (j : ℕ) → contents (bridged store b a j) ≡ contents (store j)
bridged-contents store b a j =
    set_prev-contents (set_next store b a) a b j ∙ set_next-contents store b a j

-- The order at `p` after its removal, and the memory.
abbrev released : Order → Order
released o = record o { prev = none; next = none; level = none }

abbrev removed : Store → Option ℕ → Option ℕ → ℕ → Store
removed store b a p = update (bridged store b a) p (released (bridged store b a p))

removed-Keeps : (store : Store) (b a : Option ℕ) (p : ℕ) → Keeps store (removed store b a p) p
removed-Keeps store b a p j h =
    ap contents (update_ne (bridged store b a) p (released (bridged store b a p)) j h)
    ∙ bridged-contents store b a j

removed_self : (store : Store) (b a : Option ℕ) (p : ℕ) → removed store b a p p ≡ released (store p)
removed_self store b a p =
    update_self (bridged store b a) p (released (bridged store b a p))
    ∙ ap (λ (o : Order). record o { level = none }) (bridged-contents store b a p)

head-remove :
    (before : List ℕ) (p : ℕ) (after : List ℕ) (head : Option ℕ)
    → head ≡ first_or none (before ++ p ∷ after)
    → (if is_null (last_or none before) then first_or none after else head)
      ≡ first_or none (before ++ after)
head-remove [] p after head h = refl
head-remove (x ∷ before) p after head h = h

tail-remove :
    (before : List ℕ) (p : ℕ) (after : List ℕ) (tail : Option ℕ)
    → tail ≡ last_or none (before ++ p ∷ after)
    → (if is_null (first_or none after) then last_or none before else tail)
      ≡ last_or none (before ++ after)
tail-remove before p [] tail h = ap (last_or none) (sym (append-nil before))
tail-remove before p (y ∷ after) tail h =
    h ∙ last_or-append none before (p ∷ y ∷ after) ∙ sym (last_or-append none before (y ∷ after))

Apart-Distinct : (q r : List ℕ) → Distinct q → Distinct r → Apart q r → Distinct (q ++ r)
Apart-Distinct [] r dq dr h = dr
Apart-Distinct (x ∷ q) r dq dr h = (NotIn-append x q r dq.0 h.0, Apart-Distinct q r dq.1 dr h.1)

Apart-tail : (q : List ℕ) (p : ℕ) (r : List ℕ) → Apart q (p ∷ r) → Apart q r
Apart-tail [] p r h = tt
Apart-tail (x ∷ q) p r h = (h.0.1, Apart-tail q p r h.1)

-- What a successful remove does.
pub record Removes (store : Store) (self : ℕ) (level : PriceLevel) (queue : List ℕ) (p : ℕ)
    (r : Store × PriceLevel × Bool) : Type 0 where
  pub succeeds : r.2 ≡ true
  pub queued : Represents r.0 self r.1 queue
  pub keeps : Keeps store r.0 p
  pub unlinked : r.0 p ≡ record (store p) { prev = none; next = none; level = none }
  pub same_price : r.1.price ≡ level.price

module _ (store : Store) (self : ℕ) (level : PriceLevel) (before : List ℕ) (p : ℕ) (after : List ℕ)
    (r : Represents store self level (before ++ p ∷ after)) where
  own-Links :
      Links store self none before (some p)
      × Links store self (last_or none before) (p ∷ after) none
  own-Links = Links-split store self none before (p ∷ after) none r.links

  remove_accepts : remove store self level p ≡ remove_linked store level p
  unfolding remove
  remove_accepts = rw own-Links.1.2 (
      ground (
        arith,
        length-append before (p ∷ after),
        total-append store before (p ∷ after),
        r.order_count,
        r.total_quantity,
      ))

  -- Removing an order of the queue takes it out and keeps the rest in order: the links close over
  -- the gap both ways, the total and the count fall by it, the order is unlinked, and no other order
  -- changes but in its links.
  pub remove-Represents : Removes store self level (before ++ after) p (remove store self level p)
  unfolding remove_linked
  remove-Represents =
      let (left, right) = own-Links in
      let (db, dpa, apart) = Distinct-append before (p ∷ after) r.distinct in
      let b = last_or none before in
      let a = first_or none after in
      let store' = removed store b a p in
      let apart' = Apart-tail before p after apart in
      let p-before = Apart-first p before after apart in
      let keeps = removed-Keeps store b a p in
      rw (remove_accepts, remove_linked, right.0, right.1)
        (record {
          succeeds = refl;
          queued = record {
            links =
                Links-update (bridged store b a) self none (before ++ after) none p _
                  (NotIn-append p before after p-before dpa.0)
                  (bridged-Links store self before p after left right.3 db dpa.1 apart');
            head = head-remove before p after level.head r.head;
            tail = tail-remove before p after level.tail r.tail;
            total_quantity = omega (
              arith,
              total-append store before (p ∷ after),
              total-append store' before after,
              total_same store store' before (All-quantity store store' p before keeps p-before),
              total_same store store' after (All-quantity store store' p after keeps dpa.0),
              r.total_quantity,
            );
            order_count = omega (
              arith,
              length-append before (p ∷ after),
              length-append before after,
              r.order_count,
            );
            distinct = Apart-Distinct before after db dpa.1 apart';
            bounded = omega (arith, r.bounded);
          };
          keeps = keeps;
          unlinked = removed_self store b a p;
          same_price = refl;
        })
