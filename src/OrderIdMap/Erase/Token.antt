-- ===== src/OrderIdMap/Erase/Token.antt =====
-- include/OrderIdMap.hpp: an erase by the token of a lookup against an erase by id.
use eigen_book.Prelude.{
  ℕ, zero, suc, ◌-◌, ◌<◌, ◌≡◌, ◌≢◌, inl, inr, refl, sym, ap, ◌∙◌, Bool, true, false, not, ◌||◌,
  ◌&&◌, ◌==◌, ◌!=◌, ltb, arith, Option, none, some, IsU64, update, Bool-cases, ==_iff,
}
use eigen_book.Types.Enums.{null_order_id}
use eigen_book.OrderIdMap.{
  OrderIdMap, Entry, occupied, blank_entry, next_slot, record_probe_count, next_revision,
}
use eigen_book.OrderIdMap.Lookup.{IsTable, find_index-taken, capacity-invalid_index}
use eigen_book.OrderIdMap.Erase.{
  EraseToken, is_occupied, same_pointer, find_for_erase, shift_back, erase_index, erase,
  erase_token,
}

shift_back-record_probe_count :
    (m : OrderIdMap) (n : ℕ) (entries : ℕ → Entry) (hole moves steps : ℕ)
    → shift_back (record_probe_count m n) entries hole moves steps
      ≡ shift_back m entries hole moves steps
unfolding shift_back next_slot
shift_back-record_probe_count m n entries hole moves zero = refl
shift_back-record_probe_count m n entries hole moves (suc steps) =
    let next = next_slot m hole in
    let entry = entries next in
    let moved = record entry { probe_distance = entry.probe_distance - 1 } in
    elim (Bool-cases (is_occupied entry.state && ltb 0 entry.probe_distance)) [
      | inl e ↦
          rw (shift_back, e)
            (shift_back-record_probe_count m n (update entries hole moved) next (suc moves) steps)
      | inr e ↦ rw (shift_back, e) refl
    ]

equal_self : (n : ℕ) → (n == n) ≡ true
equal_self n = ground arith

differs_self : (n : ℕ) → (n != n) ≡ false
differs_self n = ground arith

same_pointer_self : (p : Option ℕ) → same_pointer p p ≡ true
same_pointer_self none = refl
same_pointer_self (some p) = ground arith

-- The part of a map that is no statistic.
abbrev pub SameTable : OrderIdMap → OrderIdMap → Type 0
SameTable m n =
    (m.capacity ≡ n.capacity)
    × (m.mask ≡ n.mask)
    × (m.entries ≡ n.entries)
    × (m.size ≡ n.size)
    × (m.mutation_revision ≡ n.mutation_revision)

erase_index-SameTable :
    (m : OrderIdMap) (n index probes probes' : ℕ) (r : Bool)
    → SameTable
        (erase_index (record_probe_count m n) index probes r)
        (erase_index m index probes' false)
unfolding erase_index
erase_index-SameTable m n index probes probes' true =
    let same = shift_back-record_probe_count m n m.entries index 0 m.capacity in
    (refl, refl, ap (λ r. update r.0 r.1 blank_entry) same, refl, refl)
erase_index-SameTable m n index probes probes' false =
    let same = shift_back-record_probe_count m n m.entries index 0 m.capacity in
    (refl, refl, ap (λ r. update r.0 r.1 blank_entry) same, refl, refl)

-- On a Robin Hood table, erasing by the token of a lookup that found an entry with an order succeeds and
-- leaves the table that erasing by the id leaves, up to the statistics.
pub erase_token-find_for_erase :
    (self : ℕ) (m : OrderIdMap) (s p : ℕ)
    → IsTable m
    → s < m.capacity
    → (m.entries s).state ≡ occupied
    → (m.entries s).order ≡ some p
    → let (token, looked) = find_for_erase self m (m.entries s).id in
      let (erased, after) = erase_token self looked token in
      (erased ≡ true)
      × ((erase m (m.entries s).id).0 ≡ true)
      × SameTable after (erase m (m.entries s).id).1
unfolding find_for_erase erase_token erase
erase_token-find_for_erase self m s p t b o e =
    let id = (m.entries s).id in
    let name = t.named s b o in
    let real : (id == null_order_id) ≡ false = ground arith in
    let search = find_index-taken m t s b o in
    let valid = capacity-invalid_index m t s b in
    let inside : ltb s m.capacity ≡ true = ground arith in
    rw
      (
        real,
        search,
        valid,
        e,
        o,
        inside,
        equal_self self,
        differs_self m.mutation_revision,
        differs_self id,
        equal_self p,
      )
      (
        refl,
        refl,
        erase_index-SameTable m (suc (m.entries s).probe_distance) s
            (suc (m.entries s).probe_distance) (suc (m.entries s).probe_distance) _,
      )

or_third : (a b c : Bool) → (a || b || true || c) ≡ true
or_third true b c = refl
or_third false true c = refl
or_third false false c = refl

-- A token of an earlier state of the table is refused.
erase_token_stale :
    (self : ℕ) (m : OrderIdMap) (token : EraseToken)
    → token.mutation_revision ≢ m.mutation_revision
    → erase_token self m token ≡ (false, m)
unfolding erase_token
erase_token_stale self m token h =
    let stale : (token.mutation_revision != m.mutation_revision) ≡ true = ground arith in
    let refused =
      or_third (not (same_pointer token.owner (some self))) (same_pointer token.order none)
        (not (ltb token.index m.capacity)) in
    rw (stale, refused) refl

erase_index-mutation_revision :
    (m : OrderIdMap) (index probes : ℕ) (r : Bool)
    → (erase_index m index probes r).mutation_revision ≡ next_revision m.mutation_revision
unfolding erase_index
erase_index-mutation_revision m index probes true = refl
erase_index-mutation_revision m index probes false = refl

erase_token-mutation_revision :
    (self : ℕ) (m : OrderIdMap) (token : EraseToken)
    → (erase_token self m token).0 ≡ true
    → (erase_token self m token).1.mutation_revision ≡ next_revision m.mutation_revision
unfolding erase_token
erase_token-mutation_revision self m token e =
    let entry = m.entries token.index in
    elim (Bool-cases (
      not (same_pointer token.owner (some self))
      || same_pointer token.order none
      || token.mutation_revision != m.mutation_revision
      || not (ltb token.index m.capacity))) [
        | inl refused ↦ let wrong = rw (erase_token, refused) at e in absurd (ground arith)
        | inr fresh ↦
            elim (Bool-cases (
              not (is_occupied entry.state)
              || entry.id != token.id
              || not (same_pointer entry.order token.order))) [
                | inl moved ↦
                    let wrong = rw (erase_token, fresh, moved) at e in absurd (ground arith)
                | inr same ↦
                    rw (erase_token, fresh, same)
                      (erase_index-mutation_revision m token.index token.lookup_probe_count
                        (token.stats_revision == m.stats_revision))
              ]
      ]

next_revision_ne : (n : ℕ) → IsU64 n → n ≢ next_revision n
next_revision_ne n w = λ q. omega arith

-- A token serves once: after an erase that it brought about, on a map whose revision is a uint64_t, it
-- is refused and changes nothing.
pub erase_token_again :
    (self : ℕ) (m : OrderIdMap) (token : EraseToken)
    → IsU64 m.mutation_revision
    → (erase_token self m token).0 ≡ true
    → let after = (erase_token self m token).1 in erase_token self after token ≡ (false, after)
erase_token_again self m token w e =
    elim (Bool-cases (token.mutation_revision == m.mutation_revision)) [
      | inl current ↦
          let moved = erase_token-mutation_revision self m token e in
          let same = (==_iff token.mutation_revision m.mutation_revision).0 current in
          erase_token_stale self (erase_token self m token).1 token
            (λ q. next_revision_ne m.mutation_revision w (sym same ∙ q ∙ moved))
      | inr stale ↦
          let apart : token.mutation_revision ≢ m.mutation_revision = ground arith in
          let refused = ap (λ r. r.0) (erase_token_stale self m token apart) in
          absurd (ground arith)
    ]
