-- ===== src/Tests/Bytes.antt =====
-- Integers and state vectors in buffers.
use crdt_probe.Prelude.{ℕ, ◌^◌, ◌<◌, ◌≡◌, ◌≢◌, refl, true, List, [], ◌∷◌, arith}
use crdt_probe.Prelude.Maps.{find}
use crdt_probe.Encoding.Result.{Fault, ok, fault}
use crdt_probe.Encoding.Io.{vec_write, cursor_read, Cursor, before, behind}
use crdt_probe.Encoding.VarInt.{write_signed, read_var_u32, read_signed}
use crdt_probe.Encoding.VarInt.Reading.{read_var_u32_total}
use crdt_probe.Encoding.VarInt.Buffers.{signed_of, read_signed-write_signed}
use crdt_probe.StateVector.{StateVector}
use crdt_probe.StateVector.Codec.{encode, decode}
use crdt_probe.StateVector.Codec.RoundTrip.{decode-encode}

abbrev front : List ℕ
front = 7 ∷ []

abbrev rest : List ℕ
rest = 1 ∷ 2 ∷ []

read_signed-write_signed_example :
    read_signed (before front (write_signed (signed_of 0 true) front) rest)
    ≡ ok (signed_of 0 true, behind (write_signed (signed_of 0 true) front) rest)
read_signed-write_signed_example = read_signed-write_signed 0 true front rest (omega arith)

abbrev truncated : Cursor
truncated = record { buf = 0x80 ∷ []; next = 0 }

read_var_u32_total_example :
    ((x : Fault) → read_var_u32 truncated ≢ fault x)
    × ((v : ℕ) (c' : Cursor) → read_var_u32 truncated ≡ ok (v, c') → v < 2 ^ 32)
read_var_u32_total_example = read_var_u32_total truncated

abbrev vector : StateVector
vector = (1, 300) ∷ (5, 0) ∷ []

decode-encode_example :
    decode (before front (encode vector front) rest)
    ≡ ok (vector, behind (encode vector front) rest)
decode-encode_example =
    decode-encode vector front rest (omega arith)
      ((omega arith, omega arith), ((omega arith, omega arith), tt))
      (unfold find in (refl, (refl, tt)))
