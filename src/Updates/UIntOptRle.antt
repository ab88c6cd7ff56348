-- ===== src/Updates/UIntOptRle.antt =====
-- `UIntOptRleEncoder` and `UIntOptRleDecoder`: equal numbers in a row are written once, with a minus
-- sign and their count.
pub mod Written
pub mod RoundTrip
use crdt_probe.Prelude.{
  ℕ, zero, suc, ◌+◌, ◌-◌, ◌%◌, ◌^◌, Bool, true, List, [], ◌∷◌, ltb, ◌==◌, if◌then◌else◌,
}
use crdt_probe.Prelude.Int.{signed, bits_of}
use crdt_probe.Encoding.Result.{Result, ok, ◌>>=◌}
use crdt_probe.Encoding.Io.{vec_write, cursor_read, Cursor}
use crdt_probe.Encoding.VarInt.{
  Signed, neg_i64, write_var, write_var_i64, write_signed, read_var_u32, read_signed,
}

pub record Encoder : Type 0 where
  pub buf : List ℕ
  pub last : ℕ
  pub count : ℕ

abbrev pub new_encoder : Encoder
new_encoder = record { buf = []; last = 0; count = 0 }

-- The buffer behind `flush`, which changes nothing else.
unfoldable pub flush : Encoder → List ℕ
flush e =
    if ltb 0 e.count
    then if e.count == 1
      then write_var_i64 (signed 64 e.last) e.buf
      else write_var (e.count - 2)
          (write_signed (record { value = neg_i64 (signed 64 e.last); is_negative = true }) e.buf)
    else e.buf

-- Counts wrap at 32 bits.
unfoldable pub write_u64 : ℕ → Encoder → Encoder
unfolding flush
write_u64 value e =
    if e.last == value
    then record e { count = (e.count + 1) % 2 ^ 32 }
    else record { buf = flush e; last = value; count = 1 }

unfoldable pub to_vec : Encoder → List ℕ
unfolding flush
to_vec e = flush e

pub record Decoder : Type 0 where
  pub cursor : Cursor
  pub last : ℕ
  pub count : ℕ

abbrev pub new_decoder : Cursor → Decoder
new_decoder c = record { cursor = c; last = 0; count = 0 }

-- `self.count -= 1`, which wraps, and the number.
unfoldable pub take_one : Decoder → ℕ × Decoder
take_one d = (d.last, record d { count = (d.count + 2 ^ 32 - 1) % 2 ^ 32 })

-- A negative number is followed by its count, less 2.
unfoldable pub read_run : Decoder → Result Decoder
read_run d = do
  (s, cursor) ← read_signed d.cursor
  let many = do
    (n, cursor') ← read_var_u32 cursor
    ok (record { cursor = cursor'; last = bits_of 64 (neg_i64 s.value); count = (n + 2) % 2 ^ 32 })
  if s.is_negative
      then many
      else ok (record { cursor = cursor; last = bits_of 64 s.value; count = 1 })

unfoldable pub read_u64 : Decoder → Result (ℕ × Decoder)
unfolding read_run take_one
read_u64 d = do d' ← if d.count == 0 then read_run d else ok d; ok (take_one d')
