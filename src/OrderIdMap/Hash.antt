-- ===== src/OrderIdMap/Hash.antt =====
-- include/OrderIdMap.hpp: the hash of an id and the capacity of a table.
use eigen_book.Prelude.{ℕ, ◌+◌, ◌*◌, ◌/◌, ◌%◌, ◌^◌, ltb, u32_max, u32_mod, u64_mod, if◌then◌else◌}
use eigen_book.Prelude.Bits.{bit_or, bit_xor}

-- `value >> n` is the quotient by `2 ^ n`.
unfoldable pub splitmix64 : ℕ → ℕ
splitmix64 value =
    let v₁ = (value + 11400714819323198485) % u64_mod in
    let v₂ = bit_xor 64 v₁ (v₁ / 2 ^ 30) * 13787848793156543929 % u64_mod in
    let v₃ = bit_xor 64 v₂ (v₂ / 2 ^ 27) * 10723151780598845931 % u64_mod in
    bit_xor 64 v₃ (v₃ / 2 ^ 31)

-- kMaxCapacity
abbrev pub max_capacity : ℕ
max_capacity = u32_max / 2 + 1

next_power_of_two : ℕ → ℕ
next_power_of_two value =
    let v₀ = (value + u32_max) % u32_mod in
    let v₁ = bit_or 32 v₀ (v₀ / 2 ^ 1) in
    let v₂ = bit_or 32 v₁ (v₁ / 2 ^ 2) in
    let v₃ = bit_or 32 v₂ (v₂ / 2 ^ 4) in
    let v₄ = bit_or 32 v₃ (v₃ / 2 ^ 8) in let v₅ = bit_or 32 v₄ (v₄ / 2 ^ 16) in (v₅ + 1) % u32_mod

unfoldable pub capacity_for : ℕ → ℕ
unfolding next_power_of_two
capacity_for requested_capacity =
    let value = if ltb requested_capacity 2 then 2 else requested_capacity in
    if ltb max_capacity value then max_capacity else next_power_of_two value
