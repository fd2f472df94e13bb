-- ===== src/Command/Codec.antt =====
-- include/Command.hpp: encode and decode against the layout of the record.
use mathlib.Core.List.{append_assoc, append-nil}
use eigen_book.Prelude.{
  ℕ, ◌^◌, ◌≤◌, ◌<◌, ◌≡◌, refl, sym, ap, true, false, some, List, [], ◌∷◌, ◌++◌, arith, length,
  length-append, length-drop, length-take, take, drop, ltb, IsU32, IsU64,
}
use eigen_book.Prelude.Int.{IsI64, u64_of_i64, u64_of_i64-lt, i64_of_u64-u64_of_i64}
use eigen_book.Types.Enums.{Side, TimeInForce, accepted, buffer_too_small, invalid_command}
use eigen_book.Wire.{Reader, new_writer, new_reader}
use eigen_book.Wire.Fields.{
  le, length-le, from_le-le, Wrote, At, write_u8-Wrote, write_u32-Wrote, write_u64-Wrote,
  write_price-Wrote, read_u8-At, read_u32-At, read_u64-At, read_price-At,
}
use eigen_book.Command.{
  Command, CommandOp, op_byte, op_of_byte, side_byte, side_of_byte, time_in_force_byte,
  time_in_force_of_byte, valid_command, valid_command_op, valid_command_side,
  valid_command_time_in_force, write_command, encode, read_command, decode,
}

-- The 39 bytes of a command.
pub fields : Command → List ℕ
fields c =
    le 4 c.instrument_id
    ++ (le 1 (op_byte c.op)
        ++ (le 8 c.order_id
            ++ (le 1 (side_byte c.side)
                ++ (le 8 (u64_of_i64 c.price)
                    ++ (le 8 c.quantity
                        ++ (le 1 (time_in_force_byte c.time_in_force) ++ le 8 c.timestamp))))))

-- The C++ fields hold values of their types.
pub record IsCommand (c : Command) : Type 0 where
  pub instrument_id : IsU32 c.instrument_id
  pub order_id : IsU64 c.order_id
  pub price : IsI64 c.price
  pub quantity : IsU64 c.quantity
  pub timestamp : IsU64 c.timestamp

pub length-fields : (c : Command) → length (fields c) ≡ 39
unfolding fields
length-fields c = simp (length-append, length-le) (refl)

length-zero : (xs : List ℕ) → length xs ≡ 0 → xs ≡ []
length-zero [] h = refl
length-zero (x ∷ xs) h = absurd (omega arith)

write_command-fields :
    (c : Command) (buffer : List ℕ)
    → length buffer ≡ 39
    → Wrote (write_command (new_writer buffer) c) (fields c) []
unfolding write_command fields new_writer
write_command-fields c b h =
    let start : Wrote (new_writer b) [] b = record {
      contents = refl;
      position = refl;
      fine = refl;
    } in
    let o₁ = write_u32-Wrote (new_writer b) [] b start c.instrument_id (omega arith) in
    let b₁ = drop 4 b in
    let h₁ = length-drop 4 b in
    let o₂ = write_u8-Wrote _ _ b₁ o₁ (op_byte c.op) (omega arith) in
    let b₂ = drop 1 b₁ in
    let h₂ = length-drop 1 b₁ in
    let o₃ = write_u64-Wrote _ _ b₂ o₂ c.order_id (omega arith) in
    let b₃ = drop 8 b₂ in
    let h₃ = length-drop 8 b₂ in
    let o₄ = write_u8-Wrote _ _ b₃ o₃ (side_byte c.side) (omega arith) in
    let b₄ = drop 1 b₃ in
    let h₄ = length-drop 1 b₃ in
    let o₅ = write_price-Wrote _ _ b₄ o₄ c.price (omega arith) in
    let b₅ = drop 8 b₄ in
    let h₅ = length-drop 8 b₄ in
    let o₆ = write_u64-Wrote _ _ b₅ o₅ c.quantity (omega arith) in
    let b₆ = drop 8 b₅ in
    let h₆ = length-drop 8 b₅ in
    let o₇ = write_u8-Wrote _ _ b₆ o₆ (time_in_force_byte c.time_in_force) (omega arith) in
    let b₇ = drop 1 b₆ in
    let h₇ = length-drop 1 b₆ in
    let o₈ = write_u64-Wrote _ _ b₇ o₇ c.timestamp (omega arith) in
    let done = length-zero (drop 8 b₇) (omega (arith, length-drop 8 b₇)) in
    let finished = rw done at o₈ in let flat = simp append_assoc at finished in flat

-- encode writes the 39 bytes of the layout over the first bytes of a buffer that has room for them.
encode-fields :
    (c : Command) (buffer : List ℕ)
    → 39 ≤ length buffer
    → valid_command c ≡ true
    → encode c buffer ≡ (accepted, fields c ++ drop 39 buffer)
unfolding encode
encode-fields c buffer h v =
    let o = write_command-fields c (take 39 buffer) (omega (arith, length-take 39 buffer)) in
    let room : ltb (length buffer) 39 ≡ false = ground arith in
    rw (room, v, o.fine, o.contents, append-nil (fields c)) refl

take-append_self : (xs ys : List ℕ) → take (length xs) (xs ++ ys) ≡ xs
take-append_self [] ys = refl
take-append_self (x ∷ xs) ys = ap (◌∷◌ x) (take-append_self xs ys)

drop-append_self : (xs ys : List ℕ) → drop (length xs) (xs ++ ys) ≡ ys
drop-append_self [] ys = refl
drop-append_self (x ∷ xs) ys = drop-append_self xs ys

take-append : (n : ℕ) (xs ys : List ℕ) → n ≡ length xs → take n (xs ++ ys) ≡ xs
take-append n xs ys e = rw e (take-append_self xs ys)

drop-append : (n : ℕ) (xs ys : List ℕ) → n ≡ length xs → drop n (xs ++ ys) ≡ ys
drop-append n xs ys e = rw e (drop-append_self xs ys)

op_of_byte-op_byte : (op : CommandOp) → valid_command_op op ≡ true → op_of_byte (op_byte op) ≡ op
op_of_byte-op_byte CommandOp.add v = refl
op_of_byte-op_byte CommandOp.cancel v = refl
op_of_byte-op_byte CommandOp.modify v = refl
op_of_byte-op_byte CommandOp.replace v = refl
op_of_byte-op_byte CommandOp.market v = refl
op_of_byte-op_byte (CommandOp.raw n) v = absurd (ground arith)

side_of_byte-side_byte :
    (side : Side) → valid_command_side side ≡ true → side_of_byte (side_byte side) ≡ side
side_of_byte-side_byte Side.buy v = refl
side_of_byte-side_byte Side.sell v = refl
side_of_byte-side_byte (Side.raw n) v = absurd (ground arith)

time_in_force_of_byte-time_in_force_byte :
    (t : TimeInForce)
    → valid_command_time_in_force t ≡ true
    → time_in_force_of_byte (time_in_force_byte t) ≡ t
time_in_force_of_byte-time_in_force_byte TimeInForce.gtc v = refl
time_in_force_of_byte-time_in_force_byte TimeInForce.ioc v = refl
time_in_force_of_byte-time_in_force_byte TimeInForce.fok v = refl
time_in_force_of_byte-time_in_force_byte (TimeInForce.raw n) v = absurd (ground arith)

op_byte-lt : (op : CommandOp) → valid_command_op op ≡ true → op_byte op < 256 ^ 1
op_byte-lt CommandOp.add v = omega arith
op_byte-lt CommandOp.cancel v = omega arith
op_byte-lt CommandOp.modify v = omega arith
op_byte-lt CommandOp.replace v = omega arith
op_byte-lt CommandOp.market v = omega arith
op_byte-lt (CommandOp.raw n) v = absurd (ground arith)

side_byte-lt : (side : Side) → valid_command_side side ≡ true → side_byte side < 256 ^ 1
side_byte-lt Side.buy v = omega arith
side_byte-lt Side.sell v = omega arith
side_byte-lt (Side.raw n) v = absurd (ground arith)

time_in_force_byte-lt :
    (t : TimeInForce) → valid_command_time_in_force t ≡ true → time_in_force_byte t < 256 ^ 1
time_in_force_byte-lt TimeInForce.gtc v = omega arith
time_in_force_byte-lt TimeInForce.ioc v = omega arith
time_in_force_byte-lt TimeInForce.fok v = omega arith
time_in_force_byte-lt (TimeInForce.raw n) v = absurd (ground arith)

valid_command-parts :
    (c : Command)
    → valid_command c ≡ true
    → (valid_command_op c.op ≡ true)
      × ((valid_command_side c.side ≡ true) × (valid_command_time_in_force c.time_in_force ≡ true))
unfolding valid_command
valid_command-parts c v = (ground arith, (ground arith, ground arith))

At-nil : (r : Reader) (front rest : List ℕ) → At r front rest → At r front (rest ++ [])
At-nil r front rest o = rw (append-nil rest) o

-- Reading the 39 bytes of a command gives its fields.
read_command-fields :
    (c : Command)
    → IsCommand c
    → valid_command c ≡ true
    → read_command (new_reader (fields c)) ≡ some c
unfolding read_command fields new_reader
read_command-fields c k v =
    let r₀ = new_reader (fields c) in
    let start : At r₀ [] (fields c) = record { contents = refl; position = refl } in
    let t₁ = read_u32-At r₀ [] (le 4 c.instrument_id) _ start (length-le 4 c.instrument_id) in
    let t₂ = read_u8-At _ _ (le 1 (op_byte c.op)) _ t₁.1 (length-le 1 (op_byte c.op)) in
    let t₃ = read_u64-At _ _ (le 8 c.order_id) _ t₂.1 (length-le 8 c.order_id) in
    let t₄ = read_u8-At _ _ (le 1 (side_byte c.side)) _ t₃.1 (length-le 1 (side_byte c.side)) in
    let t₅ =
      read_price-At _ _ (le 8 (u64_of_i64 c.price)) _ t₄.1 (length-le 8 (u64_of_i64 c.price)) in
    let t₆ = read_u64-At _ _ (le 8 c.quantity) _ t₅.1 (length-le 8 c.quantity) in
    let t₇ =
      read_u8-At _ _ (le 1 (time_in_force_byte c.time_in_force)) _ t₆.1
        (length-le 1 (time_in_force_byte c.time_in_force)) in
    let t₈ = read_u64-At _ _ (le 8 c.timestamp) [] (At-nil _ _ _ t₇.1) (length-le 8 c.timestamp) in
    let valid = valid_command-parts c v in
    rw
      (
        t₁.0,
        t₂.0,
        t₃.0,
        t₄.0,
        t₅.0,
        t₆.0,
        t₇.0,
        t₈.0,
        from_le-le 4 c.instrument_id k.instrument_id,
        from_le-le 1 (op_byte c.op) (op_byte-lt c.op valid.0),
        from_le-le 8 c.order_id k.order_id,
        from_le-le 1 (side_byte c.side) (side_byte-lt c.side valid.1.0),
        from_le-le 8 (u64_of_i64 c.price) (u64_of_i64-lt c.price k.price),
        i64_of_u64-u64_of_i64 c.price k.price,
        from_le-le 8 c.quantity k.quantity,
        from_le-le 1 (time_in_force_byte c.time_in_force)
            (time_in_force_byte-lt c.time_in_force valid.1.1),
        from_le-le 8 c.timestamp k.timestamp,
        op_of_byte-op_byte c.op valid.0,
        side_of_byte-side_byte c.side valid.1.0,
        time_in_force_of_byte-time_in_force_byte c.time_in_force valid.1.1,
      )
      refl

-- Decoding what encode wrote for a valid command, into a buffer of at least 39 bytes, is accepted and
-- gives the command back, whatever the buffer and the target held before.
pub decode-encode :
    (c old : Command) (buffer : List ℕ)
    → IsCommand c
    → valid_command c ≡ true
    → 39 ≤ length buffer
    → decode (encode c buffer).1 old ≡ (accepted, c)
unfolding decode
decode-encode c old buffer k v h =
    let e = encode-fields c buffer h v in
    let rest = drop 39 buffer in
    let size = length-fields c in
    let first : take 39 (fields c ++ rest) ≡ fields c = take-append 39 (fields c) rest (sym size) in
    let room : ltb (length (fields c ++ rest)) 39 ≡ false =
      rw (length-append (fields c) rest) (ground arith) in
    rw (e, room, first, read_command-fields c k v, v) refl

-- A buffer that is too short, and after that a command that is not valid, is refused with its own status
-- and no byte is written; an accepted encode keeps the length of the buffer and the bytes behind the first 39.
pub encode-outcome :
    (c : Command) (buffer : List ℕ)
    → (length buffer < 39 → encode c buffer ≡ (buffer_too_small, buffer))
      × ((39 ≤ length buffer
            → valid_command c ≡ false
            → encode c buffer ≡ (invalid_command, buffer))
          × (39 ≤ length buffer
              → valid_command c ≡ true
              → ((encode c buffer).0 ≡ accepted)
                × ((length (encode c buffer).1 ≡ length buffer)
                    × (drop 39 (encode c buffer).1 ≡ drop 39 buffer))))
unfolding encode
encode-outcome c buffer = (
  λ h. let short : ltb (length buffer) 39 ≡ true = ground arith in rw short refl,
  (
    λ h v. let room : ltb (length buffer) 39 ≡ false = ground arith in rw (room, v) refl,
    λ h v.
        let e = encode-fields c buffer h v in
        let rest = drop 39 buffer in
        let size = length-fields c in
        let behind : drop 39 (fields c ++ rest) ≡ rest =
          drop-append 39 (fields c) rest (sym size) in
        (
          ap (λ t. t.0) e,
          (rw e (omega (arith, length-append (fields c) rest, length-drop 39 buffer)), rw e behind),
        ),
  ),
)
