-- ===== src/Tests/Codecs.antt =====
-- The run-length codecs.
use crdt_probe.Prelude.{◌≡◌, refl, List, [], ◌∷◌, ℕ, length, arith}
use crdt_probe.Encoding.Result.{ok}
use crdt_probe.Encoding.VarInt.{write_var, write_var_i64, write_signed}
use crdt_probe.Updates.UIntOptRle.{new_encoder, write_u64, to_vec, new_decoder}
use crdt_probe.Updates.UIntOptRle.Written.{write_each}
use crdt_probe.Updates.UIntOptRle.RoundTrip.{read_each, read_each-write_each}

abbrev numbers : List ℕ
numbers = 1 ∷ 2 ∷ 3 ∷ 3 ∷ 3 ∷ []

-- Once 1, once 2, three times 3.
encode_run : to_vec (write_each numbers new_encoder) ≡ 1 ∷ 2 ∷ 0x43 ∷ 1 ∷ []
unfolding to_vec write_each write_u64 write_var write_signed write_var_i64
encode_run = refl

read_each-write_each_example :
    read_each
      (length numbers)
      (new_decoder (record { buf = to_vec (write_each numbers new_encoder); next = 0 }))
    ≡ ok numbers
read_each-write_each_example =
    read_each-write_each numbers
      (omega arith, (omega arith, (omega arith, (omega arith, (omega arith, tt))))) (omega arith)
