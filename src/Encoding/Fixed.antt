-- ===== src/Encoding/Fixed.antt =====
-- The provided methods of `Write` and `Read`: integers of a fixed width, buffers and strings
-- behind their length. A `str` is the list of its UTF-8 bytes, which the readers do not check.
pub mod RoundTrip
use Prim.Native.Nat.{bit_or}
use crdt_probe.Prelude.{
  ℕ, zero, suc, ◌+◌, ◌*◌, ◌/◌, ◌%◌, ◌^◌, none, some, Option, List, [], ◌∷◌, length, get_elem?,
}
use crdt_probe.Prelude.Int.{ℤ, signed, bits_of}
use crdt_probe.Encoding.Result.{Result, ok, fault, panic, ◌>>=◌}
use crdt_probe.Encoding.Io.{Write, Read, write_all, read_exact}
use crdt_probe.Encoding.VarInt.{write_var, read_var_u32}

-- `to_be_bytes` and `from_be_bytes` of the integers, for a number of bytes.
abbrev pub be_bytes : ℕ → ℕ → List ℕ
be_bytes zero num = []
be_bytes (suc n) num = num / 256 ^ n % 256 ∷ be_bytes n num

abbrev pub be_value : List ℕ → ℕ
be_value [] = 0
be_value (b ∷ bs) = b * 256 ^ length bs + be_value bs

module _ {W : Type 0} ⦃w : Write W⦄ where
  unfoldable pub write_u16 : ℕ → W → W
  write_u16 num = write_all (num % 256 ∷ num / 2 ^ 8 % 256 ∷ [])

  unfoldable pub write_u32 : ℕ → W → W
  write_u32 num =
      write_all (num % 256 ∷ num / 2 ^ 8 % 256 ∷ num / 2 ^ 16 % 256 ∷ num / 2 ^ 24 % 256 ∷ [])

  unfoldable pub write_u32_be : ℕ → W → W
  write_u32_be num =
      write_all (num / 2 ^ 24 % 256 ∷ num / 2 ^ 16 % 256 ∷ num / 2 ^ 8 % 256 ∷ num % 256 ∷ [])

  unfoldable pub write_u64 : ℕ → W → W
  write_u64 num = write_all (be_bytes 8 num)

  unfoldable pub write_i64 : ℤ → W → W
  write_i64 num = write_all (be_bytes 8 (bits_of 64 num))

  unfoldable pub write_buf : List ℕ → W → W
  write_buf buf out = write_all buf (write_var (length buf) out)

  unfoldable pub write_string : List ℕ → W → W
  unfolding write_buf
  write_string str out = write_buf str out

-- `buf[i]` panics out of range, which does not happen behind `read_exact`.
abbrev index : List ℕ → ℕ → Result ℕ
index buf i = elim (get_elem? buf i) [ some b ↦ ok b | none ↦ fault panic ]

module _ {R : Type 0} ⦃r : Read R⦄ where
  unfoldable pub read_u16 : R → Result (ℕ × R)
  read_u16 reader = do
    (buf, reader') ← read_exact 2 reader
    b₀ ← index buf 0
    b₁ ← index buf 1
    ok (bit_or b₀ (b₁ * 2 ^ 8), reader')

  unfoldable pub read_u32 : R → Result (ℕ × R)
  read_u32 reader = do
    (buf, reader') ← read_exact 4 reader
    b₀ ← index buf 0
    b₁ ← index buf 1
    b₂ ← index buf 2
    b₃ ← index buf 3
    ok (bit_or (bit_or (bit_or b₀ (b₁ * 2 ^ 8)) (b₂ * 2 ^ 16)) (b₃ * 2 ^ 24), reader')

  unfoldable pub read_u32_be : R → Result (ℕ × R)
  read_u32_be reader = do
    (buf, reader') ← read_exact 4 reader
    b₀ ← index buf 0
    b₁ ← index buf 1
    b₂ ← index buf 2
    b₃ ← index buf 3
    ok (bit_or (bit_or (bit_or (b₀ * 2 ^ 24) (b₁ * 2 ^ 16)) (b₂ * 2 ^ 8)) b₃, reader')

  unfoldable pub read_u64 : R → Result (ℕ × R)
  read_u64 reader = do (buf, reader') ← read_exact 8 reader; ok (be_value buf, reader')

  unfoldable pub read_i64 : R → Result (ℤ × R)
  read_i64 reader = do (buf, reader') ← read_exact 8 reader; ok (signed 64 (be_value buf), reader')

  unfoldable pub read_buf : R → Result (List ℕ × R)
  read_buf reader = do (len, reader') ← read_var_u32 reader; read_exact len reader'

  unfoldable pub read_string : R → Result (List ℕ × R)
  unfolding read_buf
  read_string reader = read_buf reader
