-- ===== src/StateVector/Codec/RoundTrip.antt =====
-- `Encode` and `Decode` of state vectors (state_vector.rs), entry by entry.
use crdt_probe.Prelude.{
  ℕ, ◌<◌, ◌%◌, ◌^◌, ◌≡◌, refl, sym, ap, ◌∙◌, List, [], ◌∷◌, ◌++◌, length, All, arith, append_assoc,
  append-nil,
}
use crdt_probe.Prelude.Maps.{insert-new, IsMap, IsMap-find}
use crdt_probe.Encoding.Result.{ok}
use crdt_probe.Encoding.Io.{
  Write, Read, vec_write, cursor_read, put_all, put_all-append, Yields, Yields-append, before,
  behind, written-Yields,
}
use crdt_probe.Encoding.VarInt.RoundTrip.{
  leb128, write_var-leb128, read_var_u32-leb128, read_var_u64-leb128,
}
use crdt_probe.StateVector.{StateVector}
use crdt_probe.StateVector.Codec.{encode_entries, encode, decode_entries, decode}

-- A client of 53 bits and a clock of 32.
abbrev pub IsEntry : ℕ × ℕ → Type 0
IsEntry x = (x.0 < 2 ^ 53) × (x.1 < 2 ^ 32)

bytes : StateVector → List ℕ
bytes [] = []
bytes (x ∷ sv) = leb128 x.0 x.0 ++ (leb128 x.1 x.1 ++ bytes sv)

pub whole : StateVector → List ℕ
whole sv = leb128 (length sv) (length sv) ++ bytes sv

module _ {W : Type 0} ⦃w : Write W⦄ where
  encode_entries-bytes :
      (sv : StateVector) (out : W) → encode_entries sv out ≡ put_all (bytes sv) out
  unfolding encode_entries bytes
  encode_entries-bytes [] out = refl
  encode_entries-bytes (x ∷ sv) out =
      encode_entries-bytes sv _
      ∙ ap (put_all (bytes sv))
          (write_var-leb128 x.1 _ ∙ ap (put_all (leb128 x.1 x.1)) (write_var-leb128 x.0 out))
      ∙ sym (
          put_all-append (leb128 x.0 x.0) (leb128 x.1 x.1 ++ bytes sv) out
          ∙ put_all-append (leb128 x.1 x.1) (bytes sv) (put_all (leb128 x.0 x.0) out))

  pub encode-whole : (sv : StateVector) (out : W) → encode sv out ≡ put_all (whole sv) out
  unfolding encode whole
  encode-whole sv out =
      encode_entries-bytes sv _
      ∙ ap (put_all (bytes sv)) (write_var-leb128 (length sv) out)
      ∙ sym (put_all-append (leb128 (length sv) (length sv)) (bytes sv) out)

module _ {R : Type 0} ⦃i : Read R⦄ where
  decode_entries-bytes :
      (sv acc : StateVector) (r r' : R)
      → All IsEntry sv
      → IsMap (acc ++ sv)
      → Yields r (bytes sv) r'
      → decode_entries (length sv) acc r ≡ ok (acc ++ sv, r')
  unfolding decode_entries bytes
  decode_entries-bytes [] acc r r' h k y = rw (append-nil acc, y) refl
  decode_entries-bytes (x ∷ sv) acc r r' h k y =
      let (m, y₁, y₂) = Yields-append (leb128 x.0 x.0) _ r r' y in
      let (n, y₃, y₄) = Yields-append (leb128 x.1 x.1) (bytes sv) m r' y₂ in
      let first = read_var_u64-leb128 x.0 r m (omega (arith, h.0)) y₁ in
      let second = read_var_u32-leb128 x.1 m n h.0.1 y₃ in
      let small : x.0 % 2 ^ 53 ≡ x.0 = omega (arith, h.0) in
      let k' : IsMap ((acc ++ x ∷ []) ++ sv) = rw (append_assoc acc (x ∷ []) sv) k in
      let rest = decode_entries-bytes sv (acc ++ x ∷ []) n r' h.1 k' y₄ in
      rw (first, second, small, insert-new acc x.0 x.1 (IsMap-find acc sv x k))
        (rest ∙ rw (append_assoc acc (x ∷ []) sv))

  pub decode-whole :
      (sv : StateVector) (r r' : R)
      → length sv < 2 ^ 32
      → All IsEntry sv
      → IsMap sv
      → Yields r (whole sv) r'
      → decode r ≡ ok (sv, r')
  unfolding decode whole
  decode-whole sv r r' l h k y =
      let (m, y₁, y₂) = Yields-append (leb128 (length sv) (length sv)) (bytes sv) r r' y in
      rw (read_var_u32-leb128 (length sv) r m l y₁) (decode_entries-bytes sv [] m r' h k y₂)

-- A state vector that `encode` appends to a buffer is read back from there by `decode`, with the
-- cursor behind it, where no client stands twice and all numbers fit their widths.
pub decode-encode :
    (sv : StateVector) (front rest : List ℕ)
    → length sv < 2 ^ 32
    → All IsEntry sv
    → IsMap sv
    → decode (before front (encode sv front) rest) ≡ ok (sv, behind (encode sv front) rest)
decode-encode sv front rest l h k =
    decode-whole sv _ _ l h k
      (written-Yields front (whole sv) rest (encode sv front) (encode-whole sv front))
