-- ===== src/Encoding/VarInt/Buffers.antt =====
-- Integers that are appended to a `Vec<u8>` and read by a `Cursor` over it.
use crdt_probe.Prelude.{ℕ, ◌^◌, ◌<◌, ◌≡◌, Bool, List}
use crdt_probe.Encoding.Result.{ok}
use crdt_probe.Encoding.Io.{vec_write, cursor_read, Cursor, Yields, before, behind, written-Yields}
use crdt_probe.Prelude.Int.{ℤ}
use crdt_probe.Encoding.VarInt.{
  Signed, write_var, write_var_i64, write_signed, read_var_u32, read_var_u64, read_var_u128,
  read_var_i64, read_signed,
}
use crdt_probe.Encoding.VarInt.SignedTrip.{
  sleb128, IsSymmetric, magnitude, is_below, from_magnitude, write_var_i64-sleb128,
  write_signed-sleb128, read_var_i64-sleb128, read_signed-sleb128,
}
use crdt_probe.Encoding.VarInt.RoundTrip.{
  leb128, write_var-leb128, read_var_u32-leb128, read_var_u64-leb128, read_var_u128-leb128,
}

module _ (v : ℕ) (front rest : List ℕ) where
  written :
      Yields {R = Cursor}
        (before front (write_var v front) rest)
        (leb128 v v)
        (behind (write_var v front) rest)
  written = written-Yields front (leb128 v v) rest (write_var v front) (write_var-leb128 v front)

  -- Reading a u32 from a cursor that stands in front of what `write_var` appended gives the number
  -- back, and leaves the cursor behind it.
  read_var_u32-write_var :
      v < 2 ^ 32
      → read_var_u32 (before front (write_var v front) rest)
        ≡ ok (v, behind (write_var v front) rest)
  read_var_u32-write_var h = read_var_u32-leb128 v _ _ h written

  -- Reading a u64 (or a `usize`) where `write_var` appended it gives it back, and leaves the cursor
  -- behind it.
  pub read_var_u64-write_var :
      v < 2 ^ 64
      → read_var_u64 (before front (write_var v front) rest)
        ≡ ok (v, behind (write_var v front) rest)
  read_var_u64-write_var h = read_var_u64-leb128 v _ _ h written

  -- Reading a u128 where `write_var` appended it gives it back, and leaves the cursor behind it.
  pub read_var_u128-write_var :
      v < 2 ^ 128
      → read_var_u128 (before front (write_var v front) rest)
        ≡ ok (v, behind (write_var v front) rest)
  read_var_u128-write_var h = read_var_u128-leb128 v _ _ h written

-- An i64 other than the least one is read back by a cursor in front of what `write_var` appended.
pub read_var_i64-write_var_i64 :
    (v : ℤ) (front rest : List ℕ)
    → IsSymmetric v
    → read_var_i64 (before front (write_var_i64 v front) rest)
      ≡ ok (v, behind (write_var_i64 v front) rest)
read_var_i64-write_var_i64 v front rest h = read_var_i64-sleb128 v _ _ h (
    written-Yields front (sleb128 (magnitude v) (is_below v)) rest (write_var_i64 v front)
      (write_var_i64-sleb128 v front h))

abbrev pub signed_of : ℕ → Bool → Signed
signed_of m sign = record { value = from_magnitude sign m; is_negative = sign }

-- A `Signed<i64>` of a magnitude below 2 ^ 63 is read back with its sign, so 0 and -0 are told apart.
pub read_signed-write_signed :
    (m : ℕ) (sign : Bool) (front rest : List ℕ)
    → m < 2 ^ 63
    → read_signed (before front (write_signed (signed_of m sign) front) rest)
      ≡ ok (signed_of m sign, behind (write_signed (signed_of m sign) front) rest)
read_signed-write_signed m sign front rest h = read_signed-sleb128 m sign _ _ h (
    written-Yields front (sleb128 m sign) rest (write_signed (signed_of m sign) front)
      (write_signed-sleb128 m sign front h))
