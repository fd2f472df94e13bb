-- ===== src/MemoryPool/FreeList.antt =====
-- include/MemoryPool.hpp: the free list holds just the slots that are not in use, each once.
use native.Mathlib.Decide.{ℕ_discrete}
use eigen_book.Prelude.{
  update_ne, update_self, ℕ, zero, suc, ◌+◌, ◌≤◌, ◌<◌, ◌≡◌, ◌≢◌, ◌⊎◌, refl, ap, true, false, ◌||◌,
  not, Option, none, some, List, [], ◌∷◌, arith, length, update, ◌==◌, u32_max, All, NotIn,
  Distinct, if◌then◌else◌, inl, inr,
}
use eigen_book.MemoryPool.{Slot, MemoryPool, no_slot, allocate, slot_index, release}

module _ {ℓ} {T : Type ℓ} where
  -- Following `next` from `head` passes through the listed slots and ends at kNoSlot.
  abbrev pub Chain : (ℕ → Slot T) → ℕ → List ℕ → Type 0
  Chain slots head [] = head ≡ no_slot
  Chain slots head (i ∷ is) = (head ≡ i) × Chain slots (slots i).next is

  abbrev pub IsFree : MemoryPool T → ℕ → Type 0
  IsFree pool i = (i < pool.capacity) × ((pool.slots i).in_use ≡ false)

  -- How many of the first `n` slots are in use.
  unfoldable pub used : (ℕ → Slot T) → ℕ → ℕ
  used slots zero = 0
  used slots (suc n) = used slots n + (if (slots n).in_use then 1 else 0)

  pub record IsPool (pool : MemoryPool T) (free : List ℕ) : Type 0 where
    pub narrow : pool.capacity ≤ u32_max
    pub chain : Chain pool.slots pool.free_head free
    pub all_free : All (IsFree pool) free
    pub distinct : Distinct free
    pub counted : pool.size ≡ used pool.slots pool.capacity
    pub total : pool.size + length free ≡ pool.capacity

  Chain-update :
      (slots : ℕ → Slot T) (j : ℕ) (v : Slot T) (head : ℕ) (free : List ℕ)
      → NotIn j free
      → Chain slots head free
      → Chain (update slots j v) head free
  Chain-update slots j v head [] apart c = c
  Chain-update slots j v head (i ∷ is) apart c = (
    c.0,
    rw (update_ne slots j v i apart.0) (Chain-update slots j v (slots i).next is apart.1 c.1),
  )

  used-update_above :
      (slots : ℕ → Slot T) (j : ℕ) (v : Slot T) (n : ℕ)
      → n ≤ j
      → used (update slots j v) n ≡ used slots n
  unfolding used
  used-update_above slots j v zero h = refl
  used-update_above slots j v (suc n) h =
      rw (update_ne slots j v n (omega arith), used-update_above slots j v n (omega arith)) refl

  used-update :
      (slots : ℕ → Slot T) (j : ℕ) (v : Slot T) (n : ℕ)
      → j < n
      → used (update slots j v) n + (if (slots j).in_use then 1 else 0)
        ≡ used slots n + (if v.in_use then 1 else 0)
  unfolding used
  used-update slots j v zero h = absurd (omega arith)
  used-update slots j v (suc n) h = elim (ℕ_discrete n j) [
    | yes same ↦
        rw (same, update_self slots j v, used-update_above slots j v j (omega arith)) (omega arith)
    | no other ↦
        rw (update_ne slots j v n other) (omega (arith, used-update slots j v n (omega arith)))
  ]

  used-le : (slots : ℕ → Slot T) (n : ℕ) → used slots n ≤ n
  unfolding used
  used-le slots zero = omega arith
  used-le slots (suc n) = ground (arith, used-le slots n)

  All-free-update :
      (pool : MemoryPool T) (i : ℕ) (v : Slot T) (free : List ℕ)
      → NotIn i free
      → All (IsFree pool) free
      → All (λ j. (j < pool.capacity) × ((update pool.slots i v j).in_use ≡ false)) free
  All-free-update pool i v [] apart h = tt
  All-free-update pool i v (j ∷ free) apart h = (
    (h.0.0, rw (update_ne pool.slots i v j apart.0) h.0.1),
    All-free-update pool i v free apart.1 h.1,
  )

  -- A list of slots that are not in use leaves out every slot that is.
  in_use-NotIn :
      (pool : MemoryPool T) (i : ℕ) (free : List ℕ)
      → (pool.slots i).in_use ≡ true
      → All (IsFree pool) free
      → NotIn i free
  in_use-NotIn pool i [] busy h = tt
  in_use-NotIn pool i (j ∷ free) busy h = (
    λ e. cc (ap (λ (k : ℕ). (pool.slots k).in_use) e, h.0.1, busy),
    in_use-NotIn pool i free busy h.1,
  )

  allocate-some :
      (pool : MemoryPool T) (object : T) (i : ℕ) (free : List ℕ)
      → IsPool pool (i ∷ free)
      → ((allocate pool object).1 ≡ some i) × IsPool (allocate pool object).0 free
  unfolding allocate
  allocate-some pool object i free p =
      let head : pool.free_head ≡ i = p.chain.0 in
      let test : (pool.free_head == no_slot) ≡ false = ground arith in
      let slot : Slot T = record (pool.slots i) { storage = object; in_use = true } in
      let uses =
        rw p.all_free.0.1 at (used-update pool.slots i slot pool.capacity p.all_free.0.0) in
      rw (test, head)
        (
          refl,
          record {
            narrow = p.narrow;
            chain = Chain-update pool.slots i slot _ free p.distinct.0 p.chain.1;
            all_free = All-free-update pool i slot free p.distinct.0 p.all_free.1;
            distinct = p.distinct.1;
            counted = omega (arith, uses, p.counted);
            total = omega (arith, p.total);
          },
        )

  slot_index-owned :
      (pool : MemoryPool T) (i : ℕ) → i < pool.capacity → slot_index pool (some i) ≡ i
  unfolding slot_index
  slot_index-owned pool i h = ground arith

  -- A released slot becomes the head of the free list.
  -- What a call of allocate does, by the free list.
  pub record Allocates (pool : MemoryPool T) (object : T) (i : ℕ) (rest : List ℕ)
      (r : MemoryPool T × Option ℕ) : Type ℓ where
    pub result : r.1 ≡ some i
    pub was_free : IsFree pool i
    pub constructed : r.0.slots i ≡ record (pool.slots i) { storage = object; in_use = true }
    pub others : (j : ℕ) → j ≢ i → r.0.slots j ≡ pool.slots j
    pub valid : IsPool r.0 rest

  -- On a well-formed pool allocate fails, and changes nothing, just when every slot is taken; otherwise
  -- it takes the head of the free list, which was not in use, constructs the object there, and leaves
  -- the other slots alone and the pool well-formed.
  pub allocate-IsPool :
      (pool : MemoryPool T) (object : T) (free : List ℕ)
      → IsPool pool free
      → ((pool.size ≡ pool.capacity) × (allocate pool object ≡ (pool, none)))
        ⊎ ((i : ℕ) × (rest : List ℕ) × (free ≡ i ∷ rest)
            × Allocates pool object i rest (allocate pool object))
  unfolding allocate
  allocate-IsPool pool object [] p = inl (omega (arith, p.total), ground (arith, p.chain))
  allocate-IsPool pool object (i ∷ rest) p =
      let head : pool.free_head ≡ i = p.chain.0 in
      let test : (pool.free_head == no_slot) ≡ false = ground arith in
      let t = allocate-some pool object i rest p in
      inr (
        i,
        rest,
        refl,
        record {
          result = t.0;
          was_free = p.all_free.0;
          constructed = rw (test, head) (update_self pool.slots i _);
          others = λ j h. rw (test, head) (update_ne pool.slots i _ j h);
          valid = t.1;
        },
      )

  release-in_use :
      (pool : MemoryPool T) (i : ℕ) (free : List ℕ)
      → IsPool pool free
      → i < pool.capacity
      → (pool.slots i).in_use ≡ true
      → IsPool (release pool (some i)) (i ∷ free)
  unfolding release
  release-in_use pool i free p h busy =
      let test : (i == no_slot || not (pool.slots i).in_use) ≡ false = rw busy (ground arith) in
      let slot : Slot T = record (pool.slots i) { in_use = false; next = pool.free_head } in
      let apart = in_use-NotIn pool i free busy p.all_free in
      let uses = rw busy at (used-update pool.slots i slot pool.capacity h) in
      rw (slot_index-owned pool i h, test)
        (record {
          narrow = p.narrow;
          chain = (
            refl,
            rw (update_self pool.slots i slot)
                (Chain-update pool.slots i slot pool.free_head free apart p.chain),
          );
          all_free = (
            (h, rw (update_self pool.slots i slot)),
            All-free-update pool i slot free apart p.all_free,
          );
          distinct = (apart, p.distinct);
          counted = omega (arith, uses, p.counted);
          total = omega (arith, uses, p.counted, p.total);
        })

  -- On a well-formed pool the release of a slot in use puts that slot at the head of the free list and
  -- keeps the pool well-formed, so the next allocation hands out the same slot and the free list is as
  -- it was.
  pub release-IsPool :
      (pool : MemoryPool T) (i : ℕ) (object : T) (free : List ℕ)
      → IsPool pool free
      → i < pool.capacity
      → (pool.slots i).in_use ≡ true
      → IsPool (release pool (some i)) (i ∷ free)
        × ((allocate (release pool (some i)) object).1 ≡ some i)
        × IsPool (allocate (release pool (some i)) object).0 free
  release-IsPool pool i object free p h busy =
      let released = release-in_use pool i free p h busy in
      let again = allocate-some (release pool (some i)) object i free released in
      (released, again.0, again.1)
