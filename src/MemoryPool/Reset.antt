-- ===== src/MemoryPool/Reset.antt =====
-- include/MemoryPool.hpp: reset_free_list, the constructor and clear give every slot back.
use native.Mathlib.Decide.{ℕ_discrete}
use eigen_book.Prelude.{
  ℕ, zero, suc, ◌+◌, ◌≤◌, ◌<◌, ◌≡◌, refl, sym, ◌∙◌, true, false, arith, update_ne, update_self, All,
  ascending, length-ascending, ascending-Distinct, ltb, ◌==◌, u32_max, if◌then◌else◌,
}
use eigen_book.MemoryPool.{
  Slot, MemoryPool, no_slot, link_slots, reset_free_list, destroy_live_objects, fresh, new, clear,
}
use eigen_book.MemoryPool.FreeList.{Chain, used, IsPool}

module _ {ℓ} {T : Type ℓ} where
  abbrev linked : ℕ → ℕ → Slot T → Slot T
  linked capacity i slot = record slot {
    next = if ltb (suc i) capacity then suc i else no_slot;
    in_use = false;
  }

  link_slots_above :
      (capacity n : ℕ) (slots : ℕ → Slot T) (i : ℕ)
      → n ≤ i
      → link_slots capacity n slots i ≡ slots i
  unfolding link_slots
  link_slots_above capacity zero slots i h = refl
  link_slots_above capacity (suc n) slots i h =
      update_ne (link_slots capacity n slots) n _ i (omega arith)
      ∙ link_slots_above capacity n slots i (omega arith)

  link_slots_below :
      (capacity n : ℕ) (slots : ℕ → Slot T) (i : ℕ)
      → i < n
      → link_slots capacity n slots i ≡ linked capacity i (slots i)
  unfolding link_slots
  link_slots_below capacity zero slots i h = absurd (omega arith)
  link_slots_below capacity (suc n) slots i h = elim (ℕ_discrete i n) [
    | yes last ↦
        rw
          (
            last,
            update_self (link_slots capacity n slots) n,
            link_slots_above capacity n slots n (omega arith),
          )
          refl
    | no other ↦
        update_ne (link_slots capacity n slots) n _ i other
        ∙ link_slots_below capacity n slots i (omega arith)
  ]

  module _ (pool : MemoryPool T) (narrow : pool.capacity ≤ u32_max) where
    all_linked : ℕ → Slot T
    all_linked = link_slots pool.capacity pool.capacity pool.slots

    linked-Chain :
        (i n : ℕ)
        → i + n ≡ pool.capacity
        → Chain all_linked (if ltb i pool.capacity then i else no_slot) (ascending i n)
    unfolding all_linked
    linked-Chain i zero e = ground arith
    linked-Chain i (suc n) e = (
      ground arith,
      rw (link_slots_below pool.capacity pool.capacity pool.slots i (omega arith))
          (linked-Chain (suc i) n (omega arith)),
    )

    linked_free :
        (i n : ℕ)
        → i + n ≡ pool.capacity
        → All (λ j. (j < pool.capacity) × ((all_linked j).in_use ≡ false)) (ascending i n)
    unfolding all_linked
    linked_free i zero e = tt
    linked_free i (suc n) e = (
      (
        omega arith,
        rw (link_slots_below pool.capacity pool.capacity pool.slots i (omega arith)) refl,
      ),
      linked_free (suc i) n (omega arith),
    )

    linked_used : (n : ℕ) → n ≤ pool.capacity → used all_linked n ≡ 0
    unfolding all_linked used
    linked_used zero h = refl
    linked_used (suc n) h =
        rw
          (
            linked_used n (omega arith),
            link_slots_below pool.capacity pool.capacity pool.slots n (omega arith),
          )
          refl

    reset-IsPool : (n : ℕ) → pool.capacity ≡ n → IsPool (reset_free_list pool) (ascending 0 n)
    unfolding reset_free_list all_linked used
    reset-IsPool zero e =
        let test : (pool.capacity == 0) ≡ true = ground arith in
        rw test (record {
          narrow = narrow;
          chain = refl;
          all_free = tt;
          distinct = tt;
          counted = rw e;
          total = omega arith;
        })
    reset-IsPool (suc n) e =
        let test : (pool.capacity == 0) ≡ false = ground arith in
        let chain = linked-Chain 0 (suc n) (omega arith) in
        rw test (record {
          narrow = narrow;
          chain = (refl, chain.1);
          all_free = linked_free 0 (suc n) (omega arith);
          distinct = ascending-Distinct 0 (suc n);
          counted = sym (linked_used pool.capacity (omega arith));
          total = omega (arith, length-ascending 0 (suc n));
        })

  -- clear ends every object's use: it leaves a well-formed pool of the same capacity whose free list is
  -- every slot in order, so nothing is in use. (A pool as wide as the marker kNoSlot is the widest there is.)
  pub clear-IsPool :
      (pool : MemoryPool T)
      → pool.capacity ≤ u32_max
      → IsPool (clear pool) (ascending 0 pool.capacity)
        × ((clear pool).size ≡ 0)
        × ((clear pool).capacity ≡ pool.capacity)
  unfolding clear
  clear-IsPool pool h = (
    reset-IsPool (destroy_live_objects pool) h pool.capacity refl,
    unfold reset_free_list in ground arith,
    unfold reset_free_list in ground arith,
  )

  pub new-IsPool :
      (capacity : ℕ) (memory : T)
      → capacity ≤ u32_max
      → IsPool (new capacity memory) (ascending 0 capacity)
  unfolding new
  new-IsPool capacity memory h = reset-IsPool (fresh capacity memory) h capacity refl
