-- ===== src/Encoding/VarInt.antt =====
-- Variable-length integers (encoding/varint.rs): seven bits a byte, lowest group first, the top bit
-- set on every byte but the last; signed integers keep six bits and the sign in the first byte.
-- Arithmetic is that of a release build: it wraps, and a shift counts modulo the width.
pub mod RoundTrip
pub mod SignedTrip
pub mod Reading
pub mod Buffers
use Prim.Native.Nat.{bit_and, bit_or}
use crdt_probe.Prelude.{
  ℕ, zero, suc, ◌+◌, ◌-◌, ◌*◌, ◌/◌, ◌%◌, ◌^◌, ◌<◌, ◌≤◌, Bool, true, false, not, List, [], ◌∷◌, ltb,
  leb, ◌==◌, ◌&&◌, if◌then◌else◌,
}
use crdt_probe.Prelude.Int.{ℤ, pos, negsuc, signed, bits_of, neg, ltb_ℤ}
use crdt_probe.Encoding.Result.{Result, ok, err, fault, out_of_fuel, invalid_var_int, ◌>>=◌}
use crdt_probe.Encoding.Io.{Write, Read, write_u8, read_u8}

-- `while value >= 0b10000000 { … value >> 7 }` and the last byte. The value falls in each round,
-- so as many rounds as the value are enough.
module _ {W : Type 0} ⦃w : Write W⦄ where
  pub write_loop : ℕ → ℕ → W → W
  write_loop zero value out = write_u8 (bit_and value 0x7f) out
  write_loop (suc rounds) value out =
      let more =
        write_loop rounds (value / 128) (write_u8 (bit_or (bit_and value 0x7f) 0x80) out) in
      if ltb value 0x80 then write_u8 (bit_and value 0x7f) out else more

  -- The same text for `u32`, `u64`, `u128`; `usize` goes through `u64`.
  unfoldable pub write_var : ℕ → W → W
  unfolding write_loop
  write_var value out = write_loop value value out

  -- `while value > 0 { … value >>= 7 }` of the signed writers.
  pub write_tail : ℕ → ℕ → W → W
  write_tail zero value out = out
  write_tail (suc rounds) value out =
      let byte = bit_or (if ltb 0x7f value then 0x80 else 0) (bit_and 0x7f value) in
      let more = write_tail rounds (value / 128) (write_u8 byte out) in
      if value == 0 then out else more

-- `len` counts the bits read. `bits` is the width of the integer and `limit` the bound on `len`
-- past which the number is refused. Each round adds 7 to `len`, so `limit` rounds are enough.
module _ {R : Type 0} ⦃r : Read R⦄ (bits limit : ℕ) where
  pub read_loop : ℕ → ℕ → ℕ → R → Result (ℕ × R)
  read_loop zero num len reader = fault out_of_fuel
  read_loop (suc rounds) num len reader = do
    (b, reader') ← read_u8 reader
    let num' = bit_or num (bit_and b 0x7f * 2 ^ (len % bits) % 2 ^ bits)
    let more = read_loop rounds num' (len + 7) reader'
    if ltb b 0x80
        then ok (num', reader')
        else if ltb limit (len + 7)
        then err invalid_var_int
        else more

module _ {R : Type 0} ⦃r : Read R⦄ where
  unfoldable pub read_var_u32 : R → Result (ℕ × R)
  read_var_u32 reader = read_loop 32 70 70 0 0 reader

  unfoldable pub read_var_u64 : R → Result (ℕ × R)
  read_var_u64 reader = read_loop 64 70 70 0 0 reader

  unfoldable pub read_var_u128 : R → Result (ℕ × R)
  read_var_u128 reader = read_loop 128 180 180 0 0 reader

  -- `u16` and `u8` are read as `u32` and then converted (`try_into`).
  unfoldable pub read_var_narrow : ℕ → R → Result (ℕ × R)
  read_var_narrow bits reader = do
    (value, reader') ← read_var_u32 reader
    if ltb value (2 ^ bits) then ok (value, reader') else err invalid_var_int

-- `Signed<i64>`, with a sign of its own: `-0` is told from `0`.
pub record Signed : Type 0 where
  pub value : ℤ
  pub is_negative : Bool

-- `-value` on i64: the least value is its own negative.
abbrev pub neg_i64 : ℤ → ℤ
neg_i64 z = signed 64 (bits_of 64 (neg z))

-- `if is_negative { -value } else { value }`.
abbrev pub with_sign : Bool → ℤ → ℤ
with_sign is_negative value = if is_negative then neg_i64 value else value

-- The body that `write_var_i64` and `write_signed` share, on the value made positive. A value that
-- is still negative, the least one, has all lower bits 0 and skips the loop.
module _ {W : Type 0} ⦃w : Write W⦄ where
  unfoldable pub write_magnitude : ℤ → Bool → W → W
  unfolding write_tail
  write_magnitude value is_negative out =
      let head =
        bit_or
          (bit_or (if ltb_ℤ (pos 0x3f) value then 0x80 else 0) (if is_negative then 0x40 else 0))
          (bit_and 0x3f (bits_of 64 value)) in
      let rest = bits_of 64 value / 64 in
      if ltb_ℤ (pos 0) value then write_tail rest rest (write_u8 head out) else write_u8 head out

  unfoldable pub write_var_i64 : ℤ → W → W
  unfolding write_magnitude
  write_var_i64 value out =
      let is_negative = ltb_ℤ value (pos 0) in
      write_magnitude (with_sign is_negative value) is_negative out

  unfoldable pub write_signed : Signed → W → W
  unfolding write_magnitude
  write_signed s out = write_magnitude (with_sign s.is_negative s.value) s.is_negative out

-- The body that `read_var_i64` and `read_signed` share: the sign, and the bit pattern of the `i64`
-- that `num` holds. The loop is that of the unsigned readers.
module _ {R : Type 0} ⦃r : Read R⦄ where
  pub read_magnitude : R → Result (Bool × ℕ × R)
  read_magnitude reader = do
    (b, reader') ← read_u8 reader
    let num = bit_and b 0x3f
    let is_negative = ltb 0 (bit_and b 0x40)
    let more = do (n, last) ← read_loop 64 70 70 num 6 reader'; ok (is_negative, n, last)
    if bit_and b 0x80 == 0 then ok (is_negative, num, reader') else more

  unfoldable pub read_signed : R → Result (Signed × R)
  read_signed reader = do
    (is_negative, num, reader') ← read_magnitude reader
    ok (
      record { value = with_sign is_negative (signed 64 num); is_negative = is_negative },
      reader',
    )

  unfoldable pub read_var_i64 : R → Result (ℤ × R)
  read_var_i64 reader = do
    (is_negative, num, reader') ← read_magnitude reader
    ok (with_sign is_negative (signed 64 num), reader')

  -- `isize`, `i32`, `i16` and `i8` are read as `i64` and then converted (`try_into`).
  unfoldable pub read_var_int_narrow : ℕ → R → Result (ℤ × R)
  read_var_int_narrow bits reader = do
    (value, reader') ← read_var_i64 reader
    if ltb_ℤ value (pos (2 ^ (bits - 1))) && not (ltb_ℤ value (negsuc (2 ^ (bits - 1) - 1)))
        then ok (value, reader')
        else err invalid_var_int
