-- ===== src/Prelude/Bits.antt =====
-- The bitwise operations of unsigned words, bit by bit from the lowest.
use Prim.Native.Nat.{ℕ, zero, suc, ◌+◌, ◌-◌, ◌*◌, ◌/◌, ◌%◌, ◌^◌, ◌≤◌, ◌<◌, max}
use mathlib.Core.Path.{◌≡◌, sym, ap, ◌∙◌}
use native.Mathlib.Nat.{
  pow-suc, one-le-pow, mod-lt, div-add-mod, mod-eq_of_lt, add-mul-mod_self_left,
}
use native.Mathlib.Omega.{arith}

-- A function of two bits over the lowest `w` bits.
abbrev pub bitwise : (ℕ → ℕ → ℕ) → ℕ → ℕ → ℕ → ℕ
bitwise f zero a b = 0
bitwise f (suc w) a b = f (a % 2) (b % 2) + 2 * bitwise f w (a / 2) (b / 2)

-- `a & b`, `a | b` and `a ^ b` on words of `w` bits
abbrev pub bit_and : ℕ → ℕ → ℕ → ℕ
bit_and = bitwise (λ a b. a * b)

abbrev pub bit_or : ℕ → ℕ → ℕ → ℕ
bit_or = bitwise max

abbrev pub bit_xor : ℕ → ℕ → ℕ → ℕ
bit_xor = bitwise (λ a b. (a + b) % 2)

-- The remainder by `2 * q`, the lowest bit first.
mod-double : (x q : ℕ) → 0 < q → x % 2 + 2 * (x / 2 % q) ≡ x % (q * 2)
mod-double x q h =
    let r = x / 2 % q in
    let t = x / 2 / q in
    let low : r < q = mod-lt (x / 2) h in
    let whole : q * t + r ≡ x / 2 = div-add-mod (x / 2) q in
    let split : x ≡ x % 2 + 2 * r + q * 2 * t = grind arith in
    let small : x % 2 + 2 * r < q * 2 = omega arith in
    sym (mod-eq_of_lt small)
    ∙ sym (add-mul-mod_self_left (x % 2 + 2 * r) (q * 2) t)
    ∙ ap (λ y. y % (q * 2)) (sym split)

-- A mask of `k` low bits is the remainder by `2 ^ k`.
pub bit_and-mask : (w k x : ℕ) → k ≤ w → bit_and w x (2 ^ k - 1) ≡ x % 2 ^ k
bit_and-mask zero zero x h = omega arith
bit_and-mask zero (suc k) x h = absurd (omega arith)
bit_and-mask (suc w) zero x h = omega (arith, bit_and-mask w zero (x / 2) (omega arith))
bit_and-mask (suc w) (suc k) x h =
    let q = 2 ^ k in
    let some_bit : 0 < q = one-le-pow k 2 (omega arith) in
    let odd : (q * 2 - 1) % 2 ≡ 1 = omega arith in
    let half : (q * 2 - 1) / 2 ≡ q - 1 = omega arith in
    rw (pow-suc 2 k, odd, half, bit_and-mask w k (x / 2) (omega arith))
      (omega (arith, mod-double x q some_bit))
