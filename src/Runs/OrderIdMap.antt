-- ===== src/Runs/OrderIdMap.antt =====
-- include/OrderIdMap.hpp: a small table, its lookups and erases.
use eigen_book.Prelude.{
  ℕ, suc, ◌≢◌, ◌%◌, ◌≡◌, refl, sym, subst, ◌∙◌, true, false, some, ◌∷◌, arith, replicate, update,
  ◌==◌, Bool-cases, inl, inr,
}
use eigen_book.Types.Enums.{accepted, duplicate_order_id, null_order_id}
use eigen_book.OrderIdMap.{
  OrderIdMap, Entry, occupied, blank_entry, new, insert, find, hash, find_index,
}
use eigen_book.OrderIdMap.Hash.{splitmix64}
use eigen_book.OrderIdMap.Lookup.{IsTable, slot_at, find-entry}
use eigen_book.OrderIdMap.Erase.{EraseToken, find_for_erase, erase, erase_token}
use eigen_book.OrderIdMap.Erase.Token.{SameTable, erase_token-find_for_erase, erase_token_again}

abbrev one_entry : Entry
one_entry = record { id = 1; order = some 9; probe_distance = 0; state = occupied }

-- Order id 1 of a table of four slots, whose own slot is 1.
abbrev one_order : OrderIdMap
one_order = record {
  capacity = 4;
  mask = 3;
  entries = update (λ i. blank_entry) 1 one_entry;
  size = 1;
  last_probe_count = 1;
  probe_histogram = 0 ∷ 1 ∷ replicate 14 0;
  mutation_revision = 1;
  stats_revision = 1;
}

inserted : insert (new 4) 1 (some 9) ≡ (accepted, one_order)
unfolding insert find_index hash new splitmix64
inserted = refl

inserted_twice : (insert one_order 1 (some 5)).0 ≡ duplicate_order_id
unfolding insert find_index hash splitmix64
inserted_twice = refl

own_slot : slot_at one_order 1 0 ≡ 1
unfolding hash splitmix64
own_slot = refl

taken-one : (s : ℕ) → (one_order.entries s).state ≡ occupied → s ≡ 1
taken-one s o = elim (Bool-cases (s == 1)) [
  | inl e ↦ ground arith
  | inr e ↦ let wrong = rw e at o in absurd (ground arith)
]

no_distance : (s : ℕ) → (one_order.entries s).probe_distance ≡ 0
no_distance s = ground arith

one_order-IsTable : IsTable one_order
one_order-IsTable = record {
  exponent = 2;
  small = omega arith;
  power = refl;
  masked = refl;
  near = λ s b. ground arith;
  placed = λ s b o.
      subst
        (λ x. slot_at one_order (one_order.entries x).id (one_order.entries x).probe_distance ≡ x)
        (sym (taken-one s o)) own_slot;
  named = λ s b o.
      subst (λ x. (one_order.entries x).id ≢ null_order_id) (sym (taken-one s o)) (omega arith);
  ordered = λ s b o d. let none_far = no_distance (suc s % 4) in absurd (omega arith);
  distinct = λ s t b c o p e. taken-one s o ∙ sym (taken-one t p);
}

find-entry_example : (find one_order 1).0 ≡ some 9
find-entry_example = (find-entry one_order one_order-IsTable 1).0 1 (omega arith) refl refl

erase_token-find_for_erase_example :
    let (token, looked) = find_for_erase 77 one_order 1 in
    let (erased, after) = erase_token 77 looked token in
    (erased ≡ true) × ((erase one_order 1).0 ≡ true) × SameTable after (erase one_order 1).1
erase_token-find_for_erase_example =
    erase_token-find_for_erase 77 one_order 1 9 one_order-IsTable (omega arith) refl refl

abbrev first_token : EraseToken
first_token = record {
  owner = some 77;
  order = some 9;
  id = 1;
  index = 1;
  lookup_probe_count = 1;
  mutation_revision = 1;
  stats_revision = 2;
}

first_token_found : (find_for_erase 77 one_order 1).0 ≡ first_token
unfolding find_for_erase find_index hash splitmix64
first_token_found = refl

erase_token_again_example :
    let after = (erase_token 77 one_order first_token).1 in
    erase_token 77 after first_token ≡ (false, after)
unfolding erase_token
erase_token_again_example = erase_token_again 77 one_order first_token (omega arith) refl
