-- ===== src/IdSet/Codec/RoundTrip.antt =====
-- The bytes of id sets (id_set.rs) in version 1, from the writers and to the readers.
use crdt_probe.Prelude.{
  ℕ, ◌+◌, ◌-◌, ◌<◌, ◌≤◌, ◌%◌, ◌^◌, ◌≡◌, refl, sym, ap, ◌∙◌, List, [], ◌∷◌, ◌++◌, length, All, arith,
  append_assoc, append-nil,
}
use crdt_probe.Prelude.Maps.{insert-new, IsMap, IsMap-find}
use crdt_probe.Encoding.Result.{ok}
use crdt_probe.Encoding.Io.{
  Write, Read, vec_write, cursor_read, put_all, put_all-append, Yields, Yields-append, before,
  behind, written-Yields,
}
use crdt_probe.Encoding.VarInt.RoundTrip.{
  leb128, write_var-leb128, read_var_u32-leb128, read_var_u64-leb128,
}
use crdt_probe.Ids.Ranges.{Entry}
use crdt_probe.IdSet.{IdRange, IdSet}
use crdt_probe.IdSet.Codec.{
  len_u32, ds_encoder_v1, ds_decoder_v1, encode_range, encode_each_range, encode_ranges,
  encode_each_client, encode_id_set, decode_range, decode_each_range, decode_ranges,
  decode_each_client, decode_id_set,
}

-- A range of clocks of 32 bits, and a client of 53 bits with not too many of them.
abbrev pub IsClocks : Entry (Unit {0}) → Type 0
IsClocks x = (x.start ≤ x.end) × (x.end < 2 ^ 32)

abbrev pub IsOfClient : ℕ × IdRange → Type 0
IsOfClient x = (x.0 < 2 ^ 53) × (length x.1 < 2 ^ 32) × All IsClocks x.1

number : ℕ → List ℕ
number v = leb128 v v

range_bytes : IdRange → List ℕ
range_bytes [] = []
range_bytes (x ∷ xs) =
    number x.start ++ (number ((x.end + 2 ^ 32 - x.start) % 2 ^ 32) ++ range_bytes xs)

client_bytes : IdSet → List ℕ
client_bytes [] = []
client_bytes (x ∷ set) =
    number x.0 ++ (number (len_u32 x.1) ++ (range_bytes x.1 ++ client_bytes set))

pub set_bytes : IdSet → List ℕ
set_bytes set = number (len_u32 set) ++ client_bytes set

module _ {W : Type 0} ⦃w : Write W⦄ where
  write_number :
      (v : ℕ) (more : List ℕ) (out : W)
      → put_all more (put_all (leb128 v v) out) ≡ put_all (number v ++ more) out
  unfolding number
  write_number v more out = sym (put_all-append (leb128 v v) more out)

  encode_each_range-bytes :
      (xs : IdRange) (out : W)
      → encode_each_range (ds_encoder_v1 W) xs out ≡ put_all (range_bytes xs) out
  unfolding encode_each_range encode_range range_bytes number
  encode_each_range-bytes [] out = refl
  encode_each_range-bytes (x ∷ xs) out =
      let len = (x.end + 2 ^ 32 - x.start) % 2 ^ 32 in
      encode_each_range-bytes xs _
      ∙ ap (put_all (range_bytes xs))
          (write_var-leb128 len _ ∙ ap (put_all (leb128 len len)) (write_var-leb128 x.start out))
      ∙ sym (
          put_all-append (leb128 x.start x.start) _ out
          ∙ put_all-append (leb128 len len) (range_bytes xs) _)

  encode_each_client-bytes :
      (set : IdSet) (out : W)
      → encode_each_client (ds_encoder_v1 W) set out ≡ put_all (client_bytes set) out
  unfolding encode_each_client encode_ranges client_bytes number
  encode_each_client-bytes [] out = refl
  encode_each_client-bytes (x ∷ set) out =
      encode_each_client-bytes set _
      ∙ ap (put_all (client_bytes set)) (
          encode_each_range-bytes x.1 _
          ∙ ap (put_all (range_bytes x.1)) (
              write_var-leb128 (len_u32 x.1) _
              ∙ ap (put_all (leb128 (len_u32 x.1) (len_u32 x.1))) (write_var-leb128 x.0 out)))
      ∙ sym (
          put_all-append (leb128 x.0 x.0) _ out
          ∙ put_all-append (leb128 (len_u32 x.1) (len_u32 x.1)) _ _
          ∙ put_all-append (range_bytes x.1) (client_bytes set) _)

  pub encode_id_set-bytes :
      (set : IdSet) (out : W)
      → encode_id_set (ds_encoder_v1 W) set out ≡ put_all (set_bytes set) out
  unfolding encode_id_set set_bytes number
  encode_id_set-bytes set out =
      encode_each_client-bytes set _
      ∙ ap (put_all (client_bytes set)) (write_var-leb128 (len_u32 set) out)
      ∙ sym (put_all-append (leb128 (len_u32 set) (len_u32 set)) (client_bytes set) out)

module _ {R : Type 0} ⦃i : Read R⦄ where
  decode_each_range-bytes :
      (xs acc : IdRange) (r r' : R)
      → All IsClocks xs
      → Yields r (range_bytes xs) r'
      → decode_each_range (ds_decoder_v1 R) (length xs) acc r ≡ ok (acc ++ xs, r')
  unfolding decode_each_range decode_range range_bytes number
  decode_each_range-bytes [] acc r r' h y = rw (append-nil acc, y) refl
  decode_each_range-bytes (x ∷ xs) acc r r' h y =
      let len = (x.end + 2 ^ 32 - x.start) % 2 ^ 32 in
      let (m, y₁, z₁) = Yields-append (leb128 x.start x.start) _ r r' y in
      let (n, y₂, z₂) = Yields-append (leb128 len len) (range_bytes xs) m r' z₁ in
      let first = read_var_u32-leb128 x.start r m (omega (arith, h.0)) y₁ in
      let second = read_var_u32-leb128 len m n (omega arith) y₂ in
      let end_is : (x.start + len) % 2 ^ 32 ≡ x.end = omega (arith, h.0) in
      rw (first, second, end_is)
        (decode_each_range-bytes xs (acc ++ x ∷ []) n r' h.1 z₂ ∙ rw (append_assoc acc (x ∷ []) xs))

  decode_each_client-bytes :
      (set acc : IdSet) (r r' : R)
      → All IsOfClient set
      → IsMap (acc ++ set)
      → Yields r (client_bytes set) r'
      → decode_each_client (ds_decoder_v1 R) (length set) acc r ≡ ok (acc ++ set, r')
  unfolding decode_each_client decode_ranges client_bytes number
  decode_each_client-bytes [] acc r r' h k y = rw (append-nil acc, y) refl
  decode_each_client-bytes (x ∷ set) acc r r' h k y =
      let (m, y₁, z₁) = Yields-append (leb128 x.0 x.0) _ r r' y in
      let (n, y₂, z₂) = Yields-append (leb128 (len_u32 x.1) (len_u32 x.1)) _ m r' z₁ in
      let (o, y₃, z₃) = Yields-append (range_bytes x.1) (client_bytes set) n r' z₂ in
      let first = read_var_u64-leb128 x.0 r m (omega (arith, h.0)) y₁ in
      let second = read_var_u32-leb128 (len_u32 x.1) m n (omega arith) y₂ in
      let exact : len_u32 x.1 ≡ length x.1 = omega (arith, h.0) in
      let third = decode_each_range-bytes x.1 [] n o h.0.2 y₃ in
      let small : x.0 % 2 ^ 53 ≡ x.0 = omega (arith, h.0) in
      let k' : IsMap ((acc ++ x ∷ []) ++ set) = rw (append_assoc acc (x ∷ []) set) k in
      rw (first, second, exact, third, small, insert-new acc x.0 x.1 (IsMap-find acc set x k))
        (decode_each_client-bytes set (acc ++ x ∷ []) o r' h.1 k' z₃
          ∙ rw (append_assoc acc (x ∷ []) set))

  pub decode_id_set-bytes :
      (set : IdSet) (r r' : R)
      → length set < 2 ^ 32
      → All IsOfClient set
      → IsMap set
      → Yields r (set_bytes set) r'
      → decode_id_set (ds_decoder_v1 R) r ≡ ok (set, r')
  unfolding decode_id_set set_bytes number
  decode_id_set-bytes set r r' l h k y =
      let exact : len_u32 set ≡ length set = omega (arith, l) in
      let (m, y₁, y₂) =
        Yields-append (leb128 (len_u32 set) (len_u32 set)) (client_bytes set) r r' y in
      rw (read_var_u32-leb128 (len_u32 set) r m (omega arith) y₁, exact)
        (decode_each_client-bytes set [] m r' h k y₂)

-- An id set that is encoded in version 1 into a buffer is decoded from there, with the cursor left
-- behind it, where no client stands twice and all numbers fit their widths; its ranges need not be
-- in order.
pub decode_id_set-encode_id_set :
    (set : IdSet) (front rest : List ℕ)
    → length set < 2 ^ 32
    → All IsOfClient set
    → IsMap set
    → let out = encode_id_set (ds_encoder_v1 (List ℕ)) set front in
      decode_id_set (ds_decoder_v1 _) (before front out rest) ≡ ok (set, behind out rest)
decode_id_set-encode_id_set set front rest l h k =
    decode_id_set-bytes set _ _ l h k
      (written-Yields front (set_bytes set) rest _ (encode_id_set-bytes set front))
