-- ===== src/MatchingEngine/Lookup.antt =====
-- include/MatchingEngine.hpp: the probes of the lookup table, before and after an entry is put.
use eigen_book.Prelude.{
  ℕ, zero, suc, ◌<◌, ◌≡◌, ◌≢◌, inl, inr, refl, ap, sym, ◌∙◌, true, false, Bool-cases, arith, ◌==◌,
  update, update_ne, ◌||◌,
}
use eigen_book.Types.Enums.{invalid_index, null_instrument_id}
use eigen_book.MatchingEngine.{LookupSlot, lookup_loop, lookup_in, home, next_lookup}
use eigen_book.MatchingEngine.Setup.{insert_slot_loop}

module _ (lookup : ℕ → LookupSlot) (capacity : ℕ) where
  pub insert_slot_loop-vacant :
      (id slot steps t : ℕ)
      → insert_slot_loop lookup capacity id slot steps ≡ (t, false)
      → t ≢ invalid_index
      → (lookup t).occupied ≡ false
  unfolding insert_slot_loop
  insert_slot_loop-vacant id slot zero t e ne = absurd (ne (sym (ap (λ x. x.0) e)))
  insert_slot_loop-vacant id slot (suc steps) t e ne = elim (Bool-cases (lookup slot).occupied) [
    | inr v ↦ rw (sym (ap (λ x. x.0) (rw (insert_slot_loop, v) at e))) v
    | inl o ↦ elim (Bool-cases ((lookup slot).instrument_id == id)) [
      | inl same ↦ absurd (ground (arith, ap (λ x. x.1) (rw (insert_slot_loop, o, same) at e)))
      | inr other ↦
          insert_slot_loop-vacant id (next_lookup capacity slot) steps t
            (rw (insert_slot_loop, o, other) at e) ne
    ]
  ]

loop_vacant :
    (lookup : ℕ → LookupSlot) (capacity id slot steps : ℕ)
    → (lookup slot).occupied ≡ false
    → lookup_loop lookup capacity id slot (suc steps) ≡ invalid_index
unfolding lookup_loop
loop_vacant lookup capacity id slot steps v = rw (lookup_loop, v) refl

loop_here :
    (lookup : ℕ → LookupSlot) (capacity id slot steps : ℕ)
    → (lookup slot).occupied ≡ true
    → ((lookup slot).instrument_id == id) ≡ true
    → lookup_loop lookup capacity id slot (suc steps) ≡ (lookup slot).instrument_index
unfolding lookup_loop
loop_here lookup capacity id slot steps o same = rw (lookup_loop, o, same) refl

loop_next :
    (lookup : ℕ → LookupSlot) (capacity id slot steps : ℕ)
    → (lookup slot).occupied ≡ true
    → ((lookup slot).instrument_id == id) ≡ false
    → lookup_loop lookup capacity id slot (suc steps)
      ≡ lookup_loop lookup capacity id (next_lookup capacity slot) steps
unfolding lookup_loop
loop_next lookup capacity id slot steps o other = rw (lookup_loop, o, other) refl

module _ (lookup : ℕ → LookupSlot) (capacity : ℕ) where
  taken_ne : (s t : ℕ) → (lookup s).occupied ≡ true → (lookup t).occupied ≡ false → s ≢ t
  taken_ne s t o v p = absurd (ground (arith, sym o ∙ ap (λ x. (lookup x).occupied) p ∙ v))

  -- The id that is put where the search for a slot ended is found there.
  pub lookup_loop-put :
      (id slot steps t : ℕ) (entry : LookupSlot)
      → insert_slot_loop lookup capacity id slot steps ≡ (t, false)
      → t ≢ invalid_index
      → entry.occupied ≡ true
      → (entry.instrument_id == id) ≡ true
      → lookup_loop (update lookup t entry) capacity id slot steps ≡ entry.instrument_index
  unfolding insert_slot_loop
  lookup_loop-put id slot zero t entry e ne taken named = absurd (ne (sym (ap (λ x. x.0) e)))
  lookup_loop-put id slot (suc steps) t entry e ne taken named =
      let u = update lookup t entry in
      elim (Bool-cases (slot == t)) [
        | inl here ↦
            let at_slot : u slot ≡ entry = rw here refl in
            loop_here u capacity id slot steps (ap (λ x. x.occupied) at_slot ∙ taken)
              (ap (λ x. x.instrument_id == id) at_slot ∙ named)
            ∙ ap (λ x. x.instrument_index) at_slot
        | inr away ↦
            let at_slot : u slot ≡ lookup slot = rw away refl in
            elim (Bool-cases (lookup slot).occupied) [
              | inr v ↦ absurd (ground (arith, ap (λ x. x.0) (rw (insert_slot_loop, v) at e)))
              | inl o ↦ elim (Bool-cases ((lookup slot).instrument_id == id)) [
                | inl same ↦
                    absurd (ground (arith, ap (λ x. x.1) (rw (insert_slot_loop, o, same) at e)))
                | inr other ↦
                    loop_next u capacity id slot steps (ap (λ x. x.occupied) at_slot ∙ o)
                      (ap (λ x. x.instrument_id == id) at_slot ∙ other)
                    ∙ lookup_loop-put id (next_lookup capacity slot) steps t entry
                        (rw (insert_slot_loop, o, other) at e) ne taken named
              ]
            ]
      ]

  -- Nothing that was found is lost.
  pub lookup_loop-kept :
      (id slot steps t : ℕ) (entry : LookupSlot)
      → (lookup t).occupied ≡ false
      → lookup_loop lookup capacity id slot steps ≢ invalid_index
      → lookup_loop (update lookup t entry) capacity id slot steps
        ≡ lookup_loop lookup capacity id slot steps
  unfolding lookup_loop
  lookup_loop-kept id slot zero t entry v ne = refl
  lookup_loop-kept id slot (suc steps) t entry v ne =
      let u = update lookup t entry in
      elim (Bool-cases (lookup slot).occupied) [
        | inr w ↦ absurd (ne (loop_vacant lookup capacity id slot steps w))
        | inl o ↦
            let at_slot : u slot ≡ lookup slot =
              update_ne lookup t entry slot (taken_ne slot t o v) in
            elim (Bool-cases ((lookup slot).instrument_id == id)) [
              | inl same ↦
                  loop_here u capacity id slot steps (ap (λ x. x.occupied) at_slot ∙ o)
                    (ap (λ x. x.instrument_id == id) at_slot ∙ same)
                  ∙ ap (λ x. x.instrument_index) at_slot
                  ∙ sym (loop_here lookup capacity id slot steps o same)
              | inr other ↦
                  loop_next u capacity id slot steps (ap (λ x. x.occupied) at_slot ∙ o)
                    (ap (λ x. x.instrument_id == id) at_slot ∙ other)
                  ∙ lookup_loop-kept id (next_lookup capacity slot) steps t entry v
                      (λ p. ne (loop_next lookup capacity id slot steps o other ∙ p))
                  ∙ sym (loop_next lookup capacity id slot steps o other)
            ]
      ]

pub lookup_loop-Within :
    (lookup : ℕ → LookupSlot) (capacity count id slot steps : ℕ)
    → ((s : ℕ) → (lookup s).occupied ≡ true → (lookup s).instrument_index < count)
    → lookup_loop lookup capacity id slot steps ≢ invalid_index
    → lookup_loop lookup capacity id slot steps < count
unfolding lookup_loop
lookup_loop-Within lookup capacity count id slot zero within ne = absurd (ne refl)
lookup_loop-Within lookup capacity count id slot (suc steps) within ne =
    elim (Bool-cases (lookup slot).occupied) [
      | inr v ↦ absurd (ne (loop_vacant lookup capacity id slot steps v))
      | inl o ↦ elim (Bool-cases ((lookup slot).instrument_id == id)) [
        | inl same ↦ rw (loop_here lookup capacity id slot steps o same) (within slot o)
        | inr other ↦
            let on = loop_next lookup capacity id slot steps o other in
            rw on (
              lookup_loop-Within lookup capacity count id (next_lookup capacity slot) steps within
                (λ p. ne (on ∙ p)))
      ]
    ]

-- Where a lookup answers something it has run the loop.
pub lookup_in-loop :
    (lookup : ℕ → LookupSlot) (capacity id : ℕ)
    → (capacity == 0 || id == null_instrument_id) ≡ false
    → lookup_in lookup capacity id ≡ lookup_loop lookup capacity id (home capacity id) capacity
unfolding lookup_in
lookup_in-loop lookup capacity id passes = rw (lookup_in, passes) refl

pub lookup_in-passes :
    (lookup : ℕ → LookupSlot) (capacity id : ℕ)
    → lookup_in lookup capacity id ≢ invalid_index
    → (capacity == 0 || id == null_instrument_id) ≡ false
unfolding lookup_in
lookup_in-passes lookup capacity id ne =
    elim (Bool-cases (capacity == 0 || id == null_instrument_id)) [
      | inl shut ↦ absurd (ne (rw (lookup_in, shut) refl))
      | inr passes ↦ passes
    ]
