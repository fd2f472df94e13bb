-- ===== src/Runs/MemoryPool.antt =====
-- include/MemoryPool.hpp on a pool of three numbers.
use eigen_book.Prelude.{
  ◌==◌, if◌then◌else◌, false, ℕ, ◌≡◌, ◌⊎◌, refl, true, none, some, List, [], ◌∷◌, arith, ascending,
}
use eigen_book.MemoryPool.{MemoryPool, no_slot, new, clear, allocate, release}
use eigen_book.MemoryPool.FreeList.{IsPool, Allocates, used, allocate-IsPool, release-IsPool}
use eigen_book.MemoryPool.Reset.{clear-IsPool}

-- One object, in slot 0.
abbrev taken : MemoryPool ℕ
taken = record {
  slots = λ i.
      if i == 0
      then record { storage = 50; next = 1; in_use = true }
      else record { storage = 0; next = if i == 1 then 2 else no_slot; in_use = false };
  capacity = 3;
  free_head = 1;
  size = 1;
}

taken-IsPool : IsPool taken (1 ∷ 2 ∷ [])
unfolding used
taken-IsPool = record {
  narrow = omega arith;
  chain = (refl, (refl, refl));
  all_free = ((omega arith, refl), ((omega arith, refl), tt));
  distinct = omega arith;
  counted = refl;
  total = refl;
}

same_pool : (allocate {T = ℕ} (new 3 0) 50).0.free_head ≡ 1
unfolding allocate new
same_pool = refl

allocate-IsPool_example :
    ((taken.size ≡ taken.capacity) × (allocate taken 60 ≡ (taken, none)))
    ⊎ ((i : ℕ) × (rest : List ℕ) × (1 ∷ 2 ∷ [] ≡ i ∷ rest)
        × Allocates taken 60 i rest (allocate taken 60))
allocate-IsPool_example = allocate-IsPool taken 60 (1 ∷ 2 ∷ []) taken-IsPool

release-IsPool_example :
    IsPool (release taken (some 0)) (0 ∷ 1 ∷ 2 ∷ [])
    × ((allocate (release taken (some 0)) 70).1 ≡ some 0)
    × IsPool (allocate (release taken (some 0)) 70).0 (1 ∷ 2 ∷ [])
release-IsPool_example = release-IsPool taken 0 70 (1 ∷ 2 ∷ []) taken-IsPool (omega arith) refl

clear-IsPool_example :
    IsPool (clear taken) (ascending 0 taken.capacity)
    × ((clear taken).size ≡ 0)
    × ((clear taken).capacity ≡ taken.capacity)
clear-IsPool_example = clear-IsPool taken (omega arith)
