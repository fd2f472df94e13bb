-- ===== src/OrderIdMap/Lookup.antt =====
-- include/OrderIdMap.hpp: a lookup finds an entry exactly where it is.
use native.Mathlib.Nat.{
  add-zero, suc-mod, mod-lt, mod-eq_of_lt, mod-eq-sub-mod, one-le-pow, pow-le-pow_right,
}
use eigen_book.Prelude.{
  ℕ, zero, suc, ◌+◌, ◌-◌, ◌%◌, ◌^◌, ◌≤◌, ◌<◌, ◌≡◌, ◌≢◌, ◌⊎◌, inl, inr, refl, sym, ap, subst, ◌∙◌,
  true, false, ◌||◌, ◌==◌, ltb, arith, none, u32_mod, Bool-cases, ==_iff,
}
use eigen_book.Prelude.Bits.{bit_and-mask}
use eigen_book.Types.Enums.{null_order_id, invalid_index}
use eigen_book.OrderIdMap.{
  OrderIdMap, SlotState, vacant, occupied, hash, next_slot, find_loop, find_index, find,
}
use eigen_book.OrderIdMap.Hash.{splitmix64}

-- The slot `j` steps behind an id's own.
abbrev pub slot_at : OrderIdMap → ℕ → ℕ → ℕ
slot_at m id j = (hash m id + j) % m.capacity

-- A Robin Hood table: every entry stands as far behind its own slot as it says, and no entry is more
-- than one step farther from its own slot than the one before it; no id occurs twice.
pub record IsTable (m : OrderIdMap) : Type 0 where
  pub exponent : ℕ
  pub small : exponent ≤ 31
  pub power : m.capacity ≡ 2 ^ exponent
  pub masked : m.mask ≡ m.capacity - 1
  pub near : (s : ℕ) → s < m.capacity → (m.entries s).probe_distance < m.capacity
  pub placed :
      (s : ℕ)
      → s < m.capacity
      → (m.entries s).state ≡ occupied
      → slot_at m (m.entries s).id (m.entries s).probe_distance ≡ s
  pub named :
      (s : ℕ) → s < m.capacity → (m.entries s).state ≡ occupied → (m.entries s).id ≢ null_order_id
  pub ordered :
      (s : ℕ)
      → s < m.capacity
      → (m.entries (suc s % m.capacity)).state ≡ occupied
      → 0 < (m.entries (suc s % m.capacity)).probe_distance
      → ((m.entries s).state ≡ occupied)
        × ((m.entries (suc s % m.capacity)).probe_distance ≤ suc (m.entries s).probe_distance)
  pub distinct :
      (s t : ℕ)
      → s < m.capacity
      → t < m.capacity
      → (m.entries s).state ≡ occupied
      → (m.entries t).state ≡ occupied
      → (m.entries s).id ≡ (m.entries t).id
      → s ≡ t

-- An index that a search answers: kInvalidIndex, or a taken slot that has the id.
abbrev pub Found : OrderIdMap → ℕ → ℕ → Type 0
Found m id i =
    (i ≡ invalid_index)
    ⊎ ((i < m.capacity) × ((m.entries i).state ≡ occupied) × ((m.entries i).id ≡ id))

zero_plus : (n : ℕ) → n ≡ 0 + n
zero_plus n = omega arith

SlotState-cases : (s : SlotState) → (s ≡ vacant) ⊎ (s ≡ occupied)
SlotState-cases vacant = inl refl
SlotState-cases occupied = inr refl

-- The remainder of a sum of two numbers below the divisor.
mod-once : (c a : ℕ) → a < c + c → (a % c ≡ a) ⊎ ((c ≤ a) × (a % c ≡ a - c))
mod-once c a h = elim (Bool-cases (ltb a c)) [
  | inl e ↦ inl (mod-eq_of_lt (ground arith))
  | inr e ↦
      let large : c ≤ a = ground arith in
      inr (large, mod-eq-sub-mod large ∙ mod-eq_of_lt (omega arith))
]

shift-injective : (c h j d : ℕ) → h < c → j < d → d < c → (h + j) % c ≢ (h + d) % c
shift-injective c h j d hc jd dc e =
    let a = mod-once c (h + j) (omega arith) in
    let b = mod-once c (h + d) (omega arith) in ground arith

module _ (m : OrderIdMap) (t : IsTable m) where
  pub capacity-positive : 0 < m.capacity
  capacity-positive = rw t.power (one-le-pow t.exponent 2 (omega arith))

  capacity-bound : m.capacity ≤ 2 ^ 31
  capacity-bound = rw t.power (pow-le-pow_right (omega arith) t.small)

  pub hash-lt : (id : ℕ) → hash m id < m.capacity
  unfolding hash
  hash-lt id =
      let word = splitmix64 id % u32_mod in
      rw (t.masked, t.power, bit_and-mask 32 t.exponent word (omega (arith, t.small)))
        (mod-lt word (one-le-pow t.exponent 2 (omega arith)))

  pub next_slot-mod : (s : ℕ) → s < m.capacity → next_slot m s ≡ suc s % m.capacity
  unfolding next_slot
  next_slot-mod s h =
      let bound = capacity-bound in
      let word : suc s % u32_mod ≡ suc s = mod-eq_of_lt (omega arith) in
      rw (word, t.masked, t.power) (bit_and-mask 32 t.exponent (suc s) (omega (arith, t.small)))

  slot_at-lt : (id j : ℕ) → slot_at m id j < m.capacity
  slot_at-lt id j = mod-lt (hash m id + j) capacity-positive

  slot_at-suc : (id j : ℕ) → suc (slot_at m id j) % m.capacity ≡ slot_at m id (suc j)
  slot_at-suc id j =
      let sum : suc (hash m id + j) ≡ hash m id + suc j = omega arith in
      sym (suc-mod (hash m id + j) m.capacity) ∙ ap (λ x. x % m.capacity) sum

  next_slot-slot_at : (id j : ℕ) → next_slot m (slot_at m id j) ≡ slot_at m id (suc j)
  next_slot-slot_at id j = next_slot-mod (slot_at m id j) (slot_at-lt id j) ∙ slot_at-suc id j

  -- Between an id's own slot and its entry every slot is taken, by an entry that is at least as far out.
  path :
      (id j n k : ℕ)
      → k ≡ j + n
      → (m.entries (slot_at m id k)).state ≡ occupied
      → k ≤ (m.entries (slot_at m id k)).probe_distance
      → ((m.entries (slot_at m id j)).state ≡ occupied)
        × (j ≤ (m.entries (slot_at m id j)).probe_distance)
  path id j zero k e o h = let same : k ≡ j = omega arith in (rw (← same) o, rw (← same) h)
  path id j (suc n) k e o h =
      let (taken, far) = path id (suc j) n k (omega arith) o h in
      let here = slot_at m id j in
      let step = slot_at-suc id j in
      let (before, near) =
        t.ordered here (slot_at-lt id j) (rw step taken) (rw step (omega arith)) in
      let near' = rw step at near in (before, omega arith)

  find_loop-here :
      (s x j probes steps : ℕ)
      → x ≡ s
      → (m.entries s).state ≡ occupied
      → j ≡ (m.entries s).probe_distance
      → find_loop m (m.entries s).id x j probes (suc steps) ≡ (s, suc probes)
  unfolding find_loop
  find_loop-here s x j probes steps e o d =
      let near : ltb (m.entries s).probe_distance j ≡ false = ground arith in
      let own : ((m.entries s).id == (m.entries s).id) ≡ true = ground arith in
      subst (λ y. find_loop m (m.entries s).id y j probes (suc steps) ≡ (s, suc probes)) (sym e)
        (rw (find_loop, o, near, own) refl)

  find_loop-step :
      (id x j probes steps : ℕ)
      → (m.entries x).state ≡ occupied
      → j ≤ (m.entries x).probe_distance
      → (m.entries x).id ≢ id
      → find_loop m id x j probes (suc steps)
        ≡ find_loop m id (next_slot m x) (suc j) (suc probes) steps
  unfolding find_loop
  find_loop-step id x j probes steps o d h =
      let near : ltb (m.entries x).probe_distance j ≡ false = ground arith in
      let other : ((m.entries x).id == id) ≡ false = ground arith in
      rw (find_loop, o, near, other) refl

  -- The search walks on to the entry.
  find_loop-taken :
      (s j n k probes steps : ℕ)
      → s < m.capacity
      → (m.entries s).state ≡ occupied
      → k ≡ (m.entries s).probe_distance
      → k ≡ j + n
      → n < steps
      → find_loop m (m.entries s).id (slot_at m (m.entries s).id j) j probes steps
        ≡ (s, suc (probes + n))
  unfolding find_loop
  find_loop-taken s j n k probes zero b o d e h = absurd (omega arith)
  find_loop-taken s j zero k probes (suc steps) b o d e h =
      let here = ap (slot_at m (m.entries s).id) (omega arith) ∙ t.placed s b o in
      find_loop-here s (slot_at m (m.entries s).id j) j probes steps here o (omega arith)
      ∙ ap (λ x. (s, suc x)) (omega arith)
  find_loop-taken s j (suc n) k probes (suc steps) b o d e h =
      let id = (m.entries s).id in
      let here = slot_at m id j in
      let there : slot_at m id k ≡ s = ap (slot_at m id) d ∙ t.placed s b o in
      let goal : (m.entries (slot_at m id k)).state ≡ occupied = rw there o in
      let reach : k ≤ (m.entries (slot_at m id k)).probe_distance = rw (there, d) (omega arith) in
      let (taken, far) = path id j (suc n) k e goal reach in
      let distance = t.near s b in
      let apart =
        shift-injective m.capacity (hash m id) j k (hash-lt id) (omega arith) (omega arith) in
      let other : (m.entries here).id ≢ id =
        λ same. apart (t.distinct here s (slot_at-lt id j) b taken o same ∙ sym there) in
      find_loop-step id here j probes steps taken far other
      ∙ ap (λ x. find_loop m id x (suc j) (suc probes) steps) (next_slot-slot_at id j)
      ∙ find_loop-taken s (suc j) n k (suc probes) steps b o d (omega arith) (omega arith)
      ∙ ap (λ x. (s, suc x)) (omega arith)

  -- An index that the search answers is a taken slot with that id.
  find_loop-Found :
      (id slot distance probes steps : ℕ)
      → slot < m.capacity
      → Found m id (find_loop m id slot distance probes steps).0
  unfolding find_loop
  find_loop-Found id slot distance probes zero h = inl refl
  find_loop-Found id slot distance probes (suc steps) h =
      let onward = mod-lt (suc slot) capacity-positive in
      let beyond = rw (← next_slot-mod slot h) at onward in
      let rest = find_loop-Found id (next_slot m slot) (suc distance) (suc probes) steps beyond in
      elim (SlotState-cases (m.entries slot).state) [
        | inl e ↦ rw (find_loop, e) (inl refl)
        | inr e ↦ elim (Bool-cases (ltb (m.entries slot).probe_distance distance)) [
          | inl far ↦ rw (find_loop, e, far) (inl refl)
          | inr near ↦ elim (Bool-cases ((m.entries slot).id == id)) [
            | inl same ↦
                rw (find_loop, e, near, same) (inr (h, e, (==_iff (m.entries slot).id id).0 same))
            | inr other ↦ rw (find_loop, e, near, other) rest
          ]
        ]
      ]

  pub find_index-Found : (id : ℕ) → Found m id (find_index m id).0
  unfolding find_index
  find_index-Found id = elim (Bool-cases (m.capacity == 0 || id == null_order_id)) [
    | inl e ↦ rw (find_index, e) (inl refl)
    | inr e ↦ rw (find_index, e) (find_loop-Found id (hash m id) 0 0 m.capacity (hash-lt id))
  ]

  -- The search for an entry's id ends at the entry, after one probe more than its distance.
  pub find_index-taken :
      (s : ℕ)
      → s < m.capacity
      → (m.entries s).state ≡ occupied
      → find_index m (m.entries s).id ≡ (s, suc (m.entries s).probe_distance)
  unfolding find_index
  find_index-taken s b o =
      let id = (m.entries s).id in
      let positive = capacity-positive in
      let name = t.named s b o in
      let searched : (m.capacity == 0 || id == null_order_id) ≡ false = ground arith in
      let own : slot_at m id 0 ≡ hash m id =
        rw (add-zero (hash m id)) (mod-eq_of_lt (hash-lt id)) in
      let walk =
        find_loop-taken s 0 (m.entries s).probe_distance (m.entries s).probe_distance 0 m.capacity b
          o refl (zero_plus (m.entries s).probe_distance) (t.near s b) in
      let start = rw own at walk in
      rw searched (start ∙ ap (λ x. (s, suc x)) (sym (zero_plus (m.entries s).probe_distance)))

  pub capacity-invalid_index : (s : ℕ) → s < m.capacity → (s == invalid_index) ≡ false
  capacity-invalid_index s h = let bound = capacity-bound in ground arith

  -- On a Robin Hood table a lookup answers the order of the entry that has the id, and null where no
  -- entry has it.
  pub find-entry :
      (id : ℕ)
      → ((s : ℕ)
          → s < m.capacity
          → (m.entries s).state ≡ occupied
          → (m.entries s).id ≡ id
          → (find m id).0 ≡ (m.entries s).order)
        × (((s : ℕ) → s < m.capacity → (m.entries s).state ≡ occupied → (m.entries s).id ≢ id)
            → (find m id).0 ≡ none)
  unfolding find
  find-entry id = (
    λ s b o e.
        let name = t.named s b o in
        let real : (id == null_order_id) ≡ false = ground arith in
        let search = rw e at (find_index-taken s b o) in
        let valid = capacity-invalid_index s b in rw (real, search, valid) refl,
    λ absent. elim (find_index-Found id) [
      | inl e ↦ elim (Bool-cases (id == null_order_id)) [
        | inl n ↦ rw (find, e, n) refl
        | inr n ↦ rw (find, e, n) refl
      ]
      | inr (b, o, e) ↦ absurd (absent (find_index m id).0 b o e)
    ],
  )
