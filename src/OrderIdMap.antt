-- ===== src/OrderIdMap.antt =====
-- include/OrderIdMap.hpp: the Robin Hood hash table from order ids to the orders' slots.
-- The table is a function of the slot, which no operation reads or writes from `capacity` on; `self` is
-- the map's own address. A method that is const in C++ still answers a map, as it records statistics.
pub mod Hash
pub mod Lookup
pub mod Erase
use eigen_book.Prelude.{
  ℕ, zero, suc, ◌+◌, ◌-◌, ◌%◌, Bool, true, false, ◌||◌, not, Option, none, some, List, ◌==◌, ◌!=◌,
  ltb, get_or, set, min, replicate, update, u32_max, u32_mod, u64_mod, if◌then◌else◌,
}
use eigen_book.Prelude.Bits.{bit_and}
use eigen_book.Types.Enums.{
  Status, accepted, invalid_order_id, duplicate_order_id, order_id_map_full, null_order_id,
  invalid_index,
}
use eigen_book.OrderIdMap.Hash.{splitmix64, capacity_for}

pub data SlotState : Type 0 where
  vacant occupied : SlotState

pub record Entry : Type 0 where
  pub id : ℕ
  pub order : Option ℕ
  pub probe_distance : ℕ
  pub state : SlotState

abbrev pub blank_entry : Entry
blank_entry = record { id = null_order_id; order = none; probe_distance = 0; state = vacant }

pub record OrderIdMap : Type 0 where
  pub capacity : ℕ
  pub mask : ℕ
  pub entries : ℕ → Entry
  pub size : ℕ
  pub last_probe_count : ℕ
  pub probe_histogram : List ℕ
  pub mutation_revision : ℕ
  pub stats_revision : ℕ

-- kProbeHistogramBucketCount
abbrev pub probe_histogram_bucket_count : ℕ
probe_histogram_bucket_count = 16

-- `++revision` on a uint64_t
abbrev pub next_revision : ℕ → ℕ
next_revision n = suc n % u64_mod

-- the constructor
unfoldable pub new : ℕ → OrderIdMap
unfolding capacity_for
new requested_capacity = record {
  capacity = capacity_for requested_capacity;
  mask = capacity_for requested_capacity - 1;
  entries = λ i. blank_entry;
  size = 0;
  last_probe_count = 0;
  probe_histogram = replicate probe_histogram_bucket_count 0;
  mutation_revision = 0;
  stats_revision = 0;
}

unfoldable pub clear : OrderIdMap → OrderIdMap
clear m = record m {
  entries = λ i. if ltb i m.capacity then blank_entry else m.entries i;
  size = 0;
  last_probe_count = 0;
  probe_histogram = replicate probe_histogram_bucket_count 0;
  mutation_revision = next_revision m.mutation_revision;
  stats_revision = next_revision m.stats_revision;
}

abbrev pub saturated_add : ℕ → ℕ → ℕ
saturated_add lhs rhs = if ltb (u32_max - lhs) rhs then u32_max else lhs + rhs

abbrev pub histogram_bucket : ℕ → ℕ
histogram_bucket probes = min probes (probe_histogram_bucket_count - 1)

-- `++probe_histogram_[bucket]`
abbrev pub count_bucket : List ℕ → ℕ → List ℕ
count_bucket histogram bucket = set histogram bucket (suc (get_or histogram bucket 0) % u64_mod)

abbrev pub record_probe_count : OrderIdMap → ℕ → OrderIdMap
record_probe_count m probes = record m {
  last_probe_count = probes;
  probe_histogram = count_bucket m.probe_histogram (histogram_bucket probes);
  stats_revision = next_revision m.stats_revision;
}

-- `if (probe_histogram_[bucket] != 0U) --probe_histogram_[bucket]`
abbrev pub uncount_bucket : List ℕ → ℕ → List ℕ
uncount_bucket histogram bucket =
    if get_or histogram bucket 0 != 0
    then set histogram bucket (get_or histogram bucket 0 - 1)
    else histogram

abbrev pub replace_last_probe_count : OrderIdMap → ℕ → ℕ → OrderIdMap
replace_last_probe_count m previous work = record m {
  last_probe_count = work;
  probe_histogram =
      count_bucket (uncount_bucket m.probe_histogram (histogram_bucket previous))
        (histogram_bucket work);
  stats_revision = next_revision m.stats_revision;
}

unfoldable pub hash : OrderIdMap → ℕ → ℕ
hash m id = bit_and 32 (splitmix64 id % u32_mod) m.mask

-- `(slot + 1U) & mask_`
unfoldable pub next_slot : OrderIdMap → ℕ → ℕ
next_slot m slot = bit_and 32 (suc slot % u32_mod) m.mask

-- The loop of find_index, with the steps left: the slot and the number of probes. The probes are at
-- most the capacity, so their counter does not wrap.
pub find_loop : OrderIdMap → ℕ → ℕ → ℕ → ℕ → ℕ → ℕ × ℕ
unfolding next_slot
find_loop m id slot search_distance probes zero = (invalid_index, probes)
find_loop m id slot search_distance probes (suc steps) =
    let entry = m.entries slot in
    elim entry.state [
      | vacant ↦ (invalid_index, suc probes)
      | occupied ↦
          if ltb entry.probe_distance search_distance
          then (invalid_index, suc probes)
          else elim (entry.id == id) [
            | true ↦ (slot, suc probes)
            | false ↦ find_loop m id (next_slot m slot) (suc search_distance) (suc probes) steps
          ]
    ]

unfoldable pub find_index : OrderIdMap → ℕ → ℕ × ℕ
unfolding find_loop
find_index m id =
    if m.capacity == 0 || id == null_order_id
    then (invalid_index, 0)
    else find_loop m id (hash m id) 0 0 m.capacity

unfoldable pub can_insert : OrderIdMap → ℕ → Status
can_insert m id =
    if id == null_order_id
    then invalid_order_id
    else if (find_index m id).0 != invalid_index
    then duplicate_order_id
    else if ltb m.size m.capacity
    then accepted
    else order_id_map_full

-- `if (distance != max) ++distance`
abbrev pub farther : Entry → Entry
farther e = record e {
  probe_distance = if e.probe_distance != u32_max then suc e.probe_distance else e.probe_distance;
}

-- The loop of insert, with the steps left; `incoming` is the entry that looks for a place.
pub insert_loop : OrderIdMap → Entry → ℕ → ℕ → ℕ → Status × OrderIdMap
unfolding next_slot
insert_loop m incoming slot probes zero = (order_id_map_full, record_probe_count m probes)
insert_loop m incoming slot probes (suc steps) =
    let entry = m.entries slot in
    let closer = ltb entry.probe_distance incoming.probe_distance in
    elim entry.state [
      | vacant ↦ (
        accepted,
        record_probe_count
            (record m {
              entries = update m.entries slot incoming;
              size = suc m.size % u32_mod;
              mutation_revision = next_revision m.mutation_revision;
            })
            (suc probes),
      )
      | occupied ↦
          insert_loop (if closer then record m { entries = update m.entries slot incoming } else m)
            (farther (if closer then entry else incoming)) (next_slot m slot) (suc probes) steps
    ]

-- `none` is a null order.
unfoldable pub insert : OrderIdMap → ℕ → Option ℕ → Status × OrderIdMap
unfolding insert_loop
insert m id none = (invalid_order_id, record_probe_count m 0)
insert m id (some order) =
    let (index, duplicate_probes) = find_index m id in
    let incoming : Entry = record {
      id = id;
      order = some order;
      probe_distance = 0;
      state = occupied;
    } in
    if id == null_order_id
    then (invalid_order_id, record_probe_count m 0)
    else if index != invalid_index
    then (duplicate_order_id, record_probe_count m duplicate_probes)
    else if m.size == m.capacity
    then (order_id_map_full, record_probe_count m duplicate_probes)
    else insert_loop m incoming (hash m id) 0 m.capacity

unfoldable pub find : OrderIdMap → ℕ → Option ℕ × OrderIdMap
find m id =
    let (index, probes) = find_index m id in
    if id == null_order_id then (none, record_probe_count m 0) else (
      if index == invalid_index then none else (m.entries index).order,
      record_probe_count m probes,
    )
