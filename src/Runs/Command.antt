-- ===== src/Runs/Command.antt =====
-- include/Command.hpp: a command that goes through its wire format.
use native.Mathlib.Omega.{arith}
use eigen_book.Prelude.{ℕ, ◌≡◌, refl, List, replicate}
use eigen_book.Prelude.Int.{negsuc}
use eigen_book.Types.Enums.{Side, TimeInForce, accepted, buffer_too_small}
use eigen_book.Command.{Command, CommandOp, valid_command, encode, decode}
use eigen_book.Command.Codec.{IsCommand, decode-encode, encode-outcome}

abbrev sell_order : Command
sell_order = record {
  instrument_id = 7;
  op = CommandOp.replace;
  order_id = 70000;
  side = Side.sell;
  price = negsuc 4;
  quantity = 300;
  time_in_force = TimeInForce.ioc;
  timestamp = 18446744073709551615;
}

abbrev wide_buffer : List ℕ
wide_buffer = replicate 41 255

abbrev short_buffer : List ℕ
short_buffer = replicate 38 255

sell_order-IsCommand : IsCommand sell_order
sell_order-IsCommand = record {
  instrument_id = omega arith;
  order_id = omega arith;
  price = omega arith;
  quantity = omega arith;
  timestamp = omega arith;
}

decode-encode_example : decode (encode sell_order wide_buffer).1 sell_order ≡ (accepted, sell_order)
unfolding valid_command
decode-encode_example =
    decode-encode sell_order sell_order wide_buffer sell_order-IsCommand refl (omega arith)

encode-outcome_example : encode sell_order short_buffer ≡ (buffer_too_small, short_buffer)
encode-outcome_example = (encode-outcome sell_order short_buffer).0 (omega arith)
