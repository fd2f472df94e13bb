-- ===== src/Ring.antt =====
-- The contiguous window at the end of a fixed-capacity ring, which EventLog and MarketDataLog share.
use eigen_book.Prelude.{
  ℕ, suc, ◌+◌, ◌≤◌, ◌≡◌, ◌⊎◌, List, ◌∷◌, [], ◌++◌, arith, length, set, take, drop, length-set,
  take-drop-set, ◌==◌, if◌then◌else◌,
}

-- The window of `count` entries from `begin` has room for `room` more before the ring's end.
pub record IsWindow {ℓ} {A : Type ℓ} (events : List A) (capacity write begin count room : ℕ)
    : Type ℓ where
  pub stored : length events ≡ capacity
  pub fits : begin + count + room ≤ capacity
  pub next : (write ≡ begin + count) ⊎ ((write ≡ 0) × (begin + count ≡ capacity))

-- The index after a write.
abbrev pub advance : ℕ → ℕ → ℕ
advance capacity write = if suc write == capacity then 0 else suc write

module _ {ℓ} {A : Type ℓ} {events : List A} {capacity write begin count room : ℕ} where
  pub write-lands : IsWindow events capacity write begin count (suc room) → write ≡ begin + count
  write-lands w = omega arith

  pub write-IsWindow :
      (v : A)
      → IsWindow events capacity write begin count (suc room)
      → IsWindow (set events write v) capacity (advance capacity write) begin (suc count) room
  write-IsWindow v w = record {
    stored = rw length-set (w.stored);
    fits = omega arith;
    next = ground arith;
  }

  -- One write adds its entry at the end of the window.
  pub write-window :
      (v : A)
      → IsWindow events capacity write begin count (suc room)
      → take (suc count) (drop begin (set events write v))
        ≡ take count (drop begin events) ++ v ∷ []
  write-window v w = take-drop-set events begin count write v (write-lands w) (omega arith)
