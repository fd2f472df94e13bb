-- ===== src/MemoryPool.antt =====
-- include/MemoryPool.hpp: the fixed-capacity pool with an intrusive free list.
-- A pointer into the pool is the index of its slot; an index from `capacity` on is a foreign pointer,
-- for which slot_index answers kNoSlot. The slots are a function of the index, which no operation
-- reads or writes from `capacity` on.
pub mod FreeList
pub mod Reset
use eigen_book.Prelude.{
  ℕ, zero, suc, ◌-◌, Bool, true, false, ◌||◌, not, Option, none, some, ◌==◌, ltb, u32_max, update,
  if◌then◌else◌,
}

pub record Slot {ℓ} (T : Type ℓ) : Type ℓ where
  pub storage : T
  pub next : ℕ
  pub in_use : Bool

pub record MemoryPool {ℓ} (T : Type ℓ) : Type ℓ where
  pub slots : ℕ → Slot T
  pub capacity : ℕ
  pub free_head : ℕ
  pub size : ℕ

-- kNoSlot
abbrev pub no_slot : ℕ
no_slot = u32_max

module _ {ℓ} {T : Type ℓ} where
  -- The loop of reset_free_list over the indices below `n`.
  pub link_slots : ℕ → ℕ → (ℕ → Slot T) → ℕ → Slot T
  link_slots capacity zero slots = slots
  link_slots capacity (suc i) slots =
      let linked = link_slots capacity i slots in
      update linked i (record (linked i) {
        next = if ltb (suc i) capacity then suc i else no_slot;
        in_use = false;
      })

  unfoldable pub reset_free_list : MemoryPool T → MemoryPool T
  unfolding link_slots
  reset_free_list pool =
      if pool.capacity == 0 then record pool { size = 0; free_head = no_slot } else record pool {
        size = 0;
        slots = link_slots pool.capacity pool.capacity pool.slots;
        free_head = 0;
      }

  -- The loop of destroy_live_objects.
  pub destroy_slots : ℕ → (ℕ → Slot T) → ℕ → Slot T
  destroy_slots zero slots = slots
  destroy_slots (suc i) slots =
      let destroyed = destroy_slots i slots in
      if (destroyed i).in_use
      then update destroyed i (record (destroyed i) { in_use = false })
      else destroyed

  unfoldable pub destroy_live_objects : MemoryPool T → MemoryPool T
  unfolding destroy_slots
  destroy_live_objects pool = record pool { slots = destroy_slots pool.capacity pool.slots }

  -- A pool before its constructor's body; `memory` is what the fresh storage holds.
  abbrev pub fresh : ℕ → T → MemoryPool T
  fresh capacity memory = record {
    slots = λ i. record { storage = memory; next = no_slot; in_use = false };
    capacity = capacity;
    free_head = no_slot;
    size = 0;
  }

  -- the constructor
  unfoldable pub new : ℕ → T → MemoryPool T
  unfolding reset_free_list
  new capacity memory = reset_free_list (fresh capacity memory)

  unfoldable pub clear : MemoryPool T → MemoryPool T
  unfolding destroy_live_objects reset_free_list
  clear pool = reset_free_list (destroy_live_objects pool)

  -- The pointer returned is none for a null pointer; `object` is what construct_at builds.
  unfoldable pub allocate : MemoryPool T → T → MemoryPool T × Option ℕ
  allocate pool object =
      let index = pool.free_head in
      if index == no_slot then (pool, none) else (
        record pool {
          slots =
              update pool.slots index
                (record (pool.slots index) { storage = object; in_use = true });
          free_head = (pool.slots index).next;
          size = suc pool.size;
        },
        some index,
      )

  unfoldable pub slot_index : MemoryPool T → Option ℕ → ℕ
  slot_index pool none = no_slot
  slot_index pool (some p) = if ltb p pool.capacity then p else no_slot

  unfoldable pub release : MemoryPool T → Option ℕ → MemoryPool T
  unfolding slot_index
  release pool object =
      let index = slot_index pool object in
      if index == no_slot || not (pool.slots index).in_use then pool else record pool {
        slots =
            update pool.slots index
              (record (pool.slots index) { in_use = false; next = pool.free_head });
        free_head = index;
        size = pool.size - 1;
      }

  unfoldable pub owns : MemoryPool T → Option ℕ → Bool
  unfolding slot_index
  owns pool object = not (slot_index pool object == no_slot)

  unfoldable pub available : MemoryPool T → ℕ
  available pool = pool.capacity - pool.size
