-- ===== src/OrderIdMap/Erase.antt =====
-- include/OrderIdMap.hpp: erasing an entry by its id or by the token of an earlier lookup.
pub mod Token
use eigen_book.Prelude.{
  ℕ, zero, suc, ◌+◌, ◌-◌, ◌%◌, Bool, true, false, ◌||◌, ◌&&◌, not, Option, none, some, ◌==◌, ◌!=◌,
  ltb, update, u32_max, u32_mod, if◌then◌else◌,
}
use eigen_book.Types.Enums.{null_order_id, invalid_index}
use eigen_book.OrderIdMap.{
  OrderIdMap, Entry, SlotState, vacant, occupied, blank_entry, next_revision, saturated_add,
  record_probe_count, replace_last_probe_count, next_slot, find_index,
}

pub record EraseToken : Type 0 where
  pub owner : Option ℕ
  pub order : Option ℕ
  pub id : ℕ
  pub index : ℕ
  pub lookup_probe_count : ℕ
  pub mutation_revision : ℕ
  pub stats_revision : ℕ

abbrev pub blank_token : EraseToken
blank_token = record {
  owner = none;
  order = none;
  id = null_order_id;
  index = invalid_index;
  lookup_probe_count = 0;
  mutation_revision = 0;
  stats_revision = 0;
}

abbrev is_occupied : SlotState → Bool
is_occupied vacant = false
is_occupied occupied = true

-- `pointer == other`
abbrev pub same_pointer : Option ℕ → Option ℕ → Bool
same_pointer none none = true
same_pointer (some p) (some q) = p == q
same_pointer none (some q) = false
same_pointer (some p) none = false

unfoldable pub find_for_erase : ℕ → OrderIdMap → ℕ → EraseToken × OrderIdMap
find_for_erase self m id =
    let (index, probes) = find_index m id in
    let looked = record_probe_count m probes in
    if id == null_order_id
    then (blank_token, record_probe_count m 0)
    else if index == invalid_index
    then (blank_token, looked)
    else (
      record {
        owner = some self;
        order = (m.entries index).order;
        id = id;
        index = index;
        lookup_probe_count = probes;
        mutation_revision = looked.mutation_revision;
        stats_revision = looked.stats_revision;
      },
      looked,
    )

-- The loop of erase_index, at most `steps` moves: the entries, the hole and the number of moves.
pub shift_back : OrderIdMap → (ℕ → Entry) → ℕ → ℕ → ℕ → (ℕ → Entry) × ℕ × ℕ
unfolding next_slot
shift_back m entries hole moves zero = (entries, hole, moves)
shift_back m entries hole moves (suc steps) =
    let next = next_slot m hole in
    let entry = entries next in
    elim (is_occupied entry.state && ltb 0 entry.probe_distance) [
      | true ↦
          shift_back m
            (update entries hole (record entry { probe_distance = entry.probe_distance - 1 })) next
            (suc moves) steps
      | false ↦ (entries, hole, moves)
    ]

pub erase_index : OrderIdMap → ℕ → ℕ → Bool → OrderIdMap
unfolding shift_back
erase_index m index lookup_probes replace_lookup_sample =
    let (entries, hole, compaction_moves) = shift_back m m.entries index 0 m.capacity in
    let erased : OrderIdMap = record m {
      entries = update entries hole blank_entry;
      size = (m.size + u32_max) % u32_mod;
      mutation_revision = next_revision m.mutation_revision;
    } in
    let work = saturated_add lookup_probes compaction_moves in
    if replace_lookup_sample
    then replace_last_probe_count erased lookup_probes work
    else record_probe_count erased work

-- erase by id
unfoldable pub erase : OrderIdMap → ℕ → Bool × OrderIdMap
erase m id =
    let (index, probes) = find_index m id in
    if id == null_order_id
    then (false, record_probe_count m 0)
    else if index == invalid_index
    then (false, record_probe_count m probes)
    else (true, erase_index m index probes false)

-- erase by a token
unfoldable pub erase_token : ℕ → OrderIdMap → EraseToken → Bool × OrderIdMap
erase_token self m token =
    let entry = m.entries token.index in
    if not (same_pointer token.owner (some self))
      || same_pointer token.order none
      || token.mutation_revision != m.mutation_revision
      || not (ltb token.index m.capacity)
    then (false, m)
    else if not (is_occupied entry.state)
        || entry.id != token.id
        || not (same_pointer entry.order token.order)
    then (false, m)
    else (
      true,
      erase_index m token.index token.lookup_probe_count (token.stats_revision == m.stats_revision),
    )
