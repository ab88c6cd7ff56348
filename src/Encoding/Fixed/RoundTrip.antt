-- ===== src/Encoding/Fixed/RoundTrip.antt =====
-- Buffers, strings and integers of a fixed width: their bytes, from the writers and to the readers.
use Prim.Native.Nat.{bit_or}
use crdt_probe.Prelude.{
  ℕ, ◌+◌, ◌*◌, ◌/◌, ◌%◌, ◌^◌, ◌<◌, ◌≡◌, refl, sym, ap, ◌∙◌, List, [], ◌∷◌, ◌++◌, length, arith,
}
use crdt_probe.Encoding.Result.{ok}
use crdt_probe.Encoding.Bits.{bit_or_above}
use crdt_probe.Encoding.Io.{Write, Read, read_exact, put_all, put_all-append, Yields, Yields-append}
use crdt_probe.Encoding.Laws.{LawfulWrite, LawfulRead, Yields-IsReader}
use crdt_probe.Encoding.VarInt.RoundTrip.{leb128, write_var-leb128, read_var_u32-leb128}
use crdt_probe.Encoding.Fixed.{write_buf, read_buf, write_string, read_string, read_u16, read_u32}

-- A buffer behind its length.
pub counted : List ℕ → List ℕ
counted buf = leb128 (length buf) (length buf) ++ buf

module _ {W : Type 0} ⦃w : Write W⦄ (l : LawfulWrite W w) where
  pub write_buf-counted : (buf : List ℕ) (out : W) → write_buf buf out ≡ put_all (counted buf) out
  unfolding write_buf counted
  write_buf-counted buf out =
      l.all_law buf _
      ∙ ap (put_all buf) (write_var-leb128 (length buf) out)
      ∙ sym (put_all-append (leb128 (length buf) (length buf)) buf out)

  pub write_string-counted :
      (str : List ℕ) (out : W) → write_string str out ≡ put_all (counted str) out
  unfolding write_string
  write_string-counted = write_buf-counted

module _ {R : Type 0} ⦃i : Read R⦄ (l : LawfulRead R i) where
  pub read_buf-counted :
      (buf : List ℕ) (r r' : R)
      → length buf < 2 ^ 32
      → l.IsReader r
      → Yields r (counted buf) r'
      → read_buf r ≡ ok (buf, r')
  unfolding read_buf counted
  read_buf-counted buf r r' h v y =
      let (m, y₁, y₂) = Yields-append (leb128 (length buf) (length buf)) buf r r' y in
      rw (read_var_u32-leb128 (length buf) r m h y₁)
        (l.exact_law buf m r' (Yields-IsReader l _ r m v y₁) y₂)

  pub read_string-counted :
      (str : List ℕ) (r r' : R)
      → length str < 2 ^ 32
      → l.IsReader r
      → Yields r (counted str) r'
      → read_string r ≡ ok (str, r')
  unfolding read_string
  read_string-counted = read_buf-counted

-- Little-endian and big-endian bytes, put together by shifts.
two_bytes : (v : ℕ) → v < 2 ^ 16 → bit_or (v % 256) (v / 2 ^ 8 % 256 * 2 ^ 8) ≡ v
two_bytes v h = bit_or_above 8 (v % 256) (v / 2 ^ 8 % 256) (omega arith) ∙ omega arith

abbrev byte : ℕ → ℕ → ℕ
byte i v = v / 2 ^ (8 * i) % 256

four_bytes :
    (a b c d : ℕ)
    → a < 256
    → b < 256
    → c < 256
    → bit_or (bit_or (bit_or a (b * 2 ^ 8)) (c * 2 ^ 16)) (d * 2 ^ 24)
      ≡ a + b * 2 ^ 8 + c * 2 ^ 16 + d * 2 ^ 24
four_bytes a b c d ha hb hc = rw (
  bit_or_above 8 a b (omega arith),
  bit_or_above 16 (a + b * 2 ^ 8) c (omega arith),
  bit_or_above 24 (a + b * 2 ^ 8 + c * 2 ^ 16) d (omega arith),
)

module _ {R : Type 0} ⦃i : Read R⦄ (l : LawfulRead R i) where
  pub read_u16-bytes :
      (v : ℕ) (r r' : R)
      → v < 2 ^ 16
      → l.IsReader r
      → Yields r (v % 256 ∷ v / 2 ^ 8 % 256 ∷ []) r'
      → read_u16 r ≡ ok (v, r')
  unfolding read_u16
  read_u16-bytes v r r' h k y =
      let taken : read_exact 2 r ≡ ok (v % 256 ∷ v / 2 ^ 8 % 256 ∷ [], r') =
        l.exact_law _ r r' k y in
      rw (taken, two_bytes v h) refl

  pub read_u32-bytes :
      (v : ℕ) (r r' : R)
      → v < 2 ^ 32
      → l.IsReader r
      → Yields r (v % 256 ∷ v / 2 ^ 8 % 256 ∷ v / 2 ^ 16 % 256 ∷ v / 2 ^ 24 % 256 ∷ []) r'
      → read_u32 r ≡ ok (v, r')
  unfolding read_u32
  read_u32-bytes v r r' h k y =
      let taken : read_exact 4 r
          ≡ ok (v % 256 ∷ v / 2 ^ 8 % 256 ∷ v / 2 ^ 16 % 256 ∷ v / 2 ^ 24 % 256 ∷ [], r') =
        l.exact_law _ r r' k y in
      rw
        (
          taken,
          four_bytes (v % 256) (v / 2 ^ 8 % 256) (v / 2 ^ 16 % 256) (v / 2 ^ 24 % 256) (omega arith)
              (omega arith) (omega arith),
        )
        (ap (λ (n : ℕ). ok (n, r')) (omega arith))
