-- ===== src/Wire/Fields.antt =====
-- include/Command.hpp: what the writer has written so far, and that the reader finds it again.
use eigen_book.Prelude.{
  ℕ, zero, suc, ◌+◌, ◌-◌, ◌*◌, ◌/◌, ◌%◌, ◌^◌, ◌≤◌, ◌<◌, ◌≡◌, refl, sym, ap, ◌∙◌, true, false, ◌||◌,
  not, ltb, leb, some, List, [], ◌∷◌, ◌++◌, arith, length, length-append, get_or, set, drop,
}
use native.Mathlib.Nat.{pow-suc}
use mathlib.Core.List.{append_assoc}
use eigen_book.Prelude.Int.{ℤ, u64_of_i64, i64_of_u64}
use eigen_book.Wire.{
  Writer, Reader, store_le, load_le, write, read, write_u8, write_u32, write_u64, write_price,
  read_u8, read_u32, read_u64, read_price,
}

-- The `n` lowest bytes of a number, lowest first, and the number that bytes stand for.
pub le : ℕ → ℕ → List ℕ
le zero v = []
le (suc n) v = v % 256 ∷ le n (v / 256)

pub from_le : List ℕ → ℕ
from_le [] = 0
from_le (b ∷ bs) = b + 256 * from_le bs

pub length-le : (n v : ℕ) → length (le n v) ≡ n
unfolding le
length-le zero v = refl
length-le (suc n) v = ap suc (length-le n (v / 256))

pub from_le-le : (n v : ℕ) → v < 256 ^ n → from_le (le n v) ≡ v
unfolding le from_le
from_le-le zero v h = omega arith
from_le-le (suc n) v h =
    let bound = rw pow-suc at h in omega (arith, from_le-le n (v / 256) (omega arith))

set-append :
    (front : List ℕ) (x : ℕ) (rest : List ℕ) (v : ℕ)
    → set (front ++ x ∷ rest) (length front) v ≡ front ++ v ∷ rest
set-append [] x rest v = refl
set-append (y ∷ front) x rest v = ap (◌∷◌ y) (set-append front x rest v)

-- A loop that starts behind `front` writes its bytes there and keeps the rest.
store_le-append :
    (front rest : List ℕ) (v n at : ℕ)
    → at ≡ length front
    → n ≤ length rest
    → store_le (front ++ rest) at v n ≡ front ++ (le n v ++ drop n rest)
unfolding store_le le
store_le-append front rest v zero at e h = refl
store_le-append front [] v (suc n) at e h = absurd (omega arith)
store_le-append front (x ∷ rest) v (suc n) at e h =
    rw (e, set-append front x rest (v % 256))
      (ap (λ l. store_le l (suc (length front)) (v / 256) n)
          (sym (append_assoc front (v % 256 ∷ []) rest))
        ∙ store_le-append (front ++ v % 256 ∷ []) rest (v / 256) n (suc (length front))
            (omega (arith, length-append front (v % 256 ∷ []))) (omega arith)
        ∙ append_assoc front (v % 256 ∷ []) (le n (v / 256) ++ drop n rest))

get_or-append :
    (front : List ℕ) (x : ℕ) (rest : List ℕ) (d : ℕ)
    → get_or (front ++ x ∷ rest) (length front) d ≡ x
get_or-append [] x rest d = refl
get_or-append (y ∷ front) x rest d = get_or-append front x rest d

load_le-append :
    (front bytes rest : List ℕ) (at : ℕ)
    → at ≡ length front
    → load_le (front ++ (bytes ++ rest)) at (length bytes) ≡ from_le bytes
unfolding load_le from_le
load_le-append front [] rest at e = refl
load_le-append front (b ∷ bytes) rest at e =
    let here : get_or (front ++ b ∷ (bytes ++ rest)) at 0 ≡ b =
      rw e (get_or-append front b (bytes ++ rest) 0) in
    let there =
      ap (λ l. load_le l (suc at) (length bytes))
        (sym (append_assoc front (b ∷ []) (bytes ++ rest)))
      ∙ load_le-append (front ++ b ∷ []) bytes rest (suc at)
          (omega (arith, e, length-append front (b ∷ []))) in
    omega (arith, here, there)

-- The writer has written `front` and the bytes of `rest` are still as they were.
pub record Wrote (w : Writer) (front rest : List ℕ) : Type 0 where
  pub contents : w.buffer ≡ front ++ rest
  pub position : w.offset ≡ length front
  pub fine : w.is_ok ≡ true

write-Wrote :
    (w : Writer) (front rest : List ℕ) (n v : ℕ)
    → Wrote w front rest
    → n ≤ length rest
    → Wrote (write w n v) (front ++ le n v) (drop n rest)
unfolding write
write-Wrote w front rest n v o h =
    let size = length-append front rest in
    let room : (not w.is_ok || ltb (length w.buffer - w.offset) n) ≡ false =
      rw (o.fine, o.contents, o.position, size) (ground arith) in
    rw room (record {
      contents = rw o.contents (
          store_le-append front rest v n w.offset o.position h
          ∙ sym (append_assoc front (le n v) (drop n rest)));
      position = omega (arith, o.position, length-append front (le n v), length-le n v);
      fine = o.fine;
    })

-- The reader has read `front` and `rest` is still to be read.
pub record At (r : Reader) (front rest : List ℕ) : Type 0 where
  pub contents : r.buffer ≡ front ++ rest
  pub position : r.offset ≡ length front

abbrev pub advanced : Reader → ℕ → Reader
advanced r n = record r { offset = r.offset + n }

read-At :
    (r : Reader) (front bytes rest : List ℕ) (n : ℕ)
    → At r front (bytes ++ rest)
    → length bytes ≡ n
    → (read n r ≡ some (from_le bytes, advanced r n)) × At (advanced r n) (front ++ bytes) rest
unfolding read
read-At r front bytes rest n o e =
    let size = length-append front (bytes ++ rest) in
    let room : leb n (length r.buffer - r.offset) ≡ true =
      rw (o.contents, o.position, size, length-append bytes rest) (ground arith) in
    let value : load_le r.buffer r.offset n ≡ from_le bytes =
      rw (o.contents, ← e) (load_le-append front bytes rest r.offset o.position) in
    (
      rw (room, value) refl,
      record {
        contents = o.contents ∙ sym (append_assoc front bytes rest);
        position = omega (arith, o.position, length-append front bytes, e);
      },
    )

module _ (w : Writer) (front rest : List ℕ) (o : Wrote w front rest) where
  pub write_u8-Wrote :
      (v : ℕ) → 1 ≤ length rest → Wrote (write_u8 w v) (front ++ le 1 v) (drop 1 rest)
  unfolding write_u8
  write_u8-Wrote v h = write-Wrote w front rest 1 v o h

  pub write_u32-Wrote :
      (v : ℕ) → 4 ≤ length rest → Wrote (write_u32 w v) (front ++ le 4 v) (drop 4 rest)
  unfolding write_u32
  write_u32-Wrote v h = write-Wrote w front rest 4 v o h

  pub write_u64-Wrote :
      (v : ℕ) → 8 ≤ length rest → Wrote (write_u64 w v) (front ++ le 8 v) (drop 8 rest)
  unfolding write_u64
  write_u64-Wrote v h = write-Wrote w front rest 8 v o h

  pub write_price-Wrote :
      (z : ℤ)
      → 8 ≤ length rest
      → Wrote (write_price w z) (front ++ le 8 (u64_of_i64 z)) (drop 8 rest)
  unfolding write_price
  write_price-Wrote z h = write_u64-Wrote (u64_of_i64 z) h

module _ (r : Reader) (front bytes rest : List ℕ) (o : At r front (bytes ++ rest)) where
  pub read_u8-At :
      length bytes ≡ 1
      → (read_u8 r ≡ some (from_le bytes, advanced r 1)) × At (advanced r 1) (front ++ bytes) rest
  unfolding read_u8
  read_u8-At e = read-At r front bytes rest 1 o e

  pub read_u32-At :
      length bytes ≡ 4
      → (read_u32 r ≡ some (from_le bytes, advanced r 4)) × At (advanced r 4) (front ++ bytes) rest
  unfolding read_u32
  read_u32-At e = read-At r front bytes rest 4 o e

  pub read_u64-At :
      length bytes ≡ 8
      → (read_u64 r ≡ some (from_le bytes, advanced r 8)) × At (advanced r 8) (front ++ bytes) rest
  unfolding read_u64
  read_u64-At e = read-At r front bytes rest 8 o e

  pub read_price-At :
      length bytes ≡ 8
      → (read_price r ≡ some (i64_of_u64 (from_le bytes), advanced r 8))
        × At (advanced r 8) (front ++ bytes) rest
  unfolding read_price
  read_price-At e = let t = read_u64-At e in (rw (t.0, read_price) refl, t.1)
