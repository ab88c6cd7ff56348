-- ===== src/Sync/Awareness/Receive/RoundTrip.antt =====
-- `Encode` and `Decode` of the updates of sync/awareness.rs.
use crdt_probe.Prelude.{
  ℕ, ◌<◌, ◌%◌, ◌^◌, ◌≡◌, true, refl, sym, ap, ◌∙◌, List, [], ◌∷◌, ◌++◌, length, All, arith,
  append_assoc, append-nil,
}
use crdt_probe.Prelude.Maps.{insert-new, IsMap, IsMap-find}
use crdt_probe.Encoding.Result.{ok}
use crdt_probe.Encoding.Io.{Write, Read, put_all, put_all-append, Yields, Yields-append}
use crdt_probe.Encoding.Laws.{LawfulWrite, LawfulRead, Yields-IsReader}
use crdt_probe.Encoding.Fixed.RoundTrip.{counted, write_string-counted, read_string-counted}
use crdt_probe.Encoding.VarInt.RoundTrip.{
  leb128, write_var-leb128, read_var_u32-leb128, read_var_u64-leb128,
}
use crdt_probe.Sync.Awareness.{AwarenessUpdate, AwarenessUpdateEntry}
use crdt_probe.Sync.Awareness.Receive.{
  encode_clients, encode_update, decode_clients, decode_update, Tables, has_room,
}

-- A client of 53 bits, a clock of 32, and a text whose length fits 32 bits.
abbrev pub IsSendable : ℕ × AwarenessUpdateEntry → Type 0
IsSendable x = (x.0 < 2 ^ 53) × (x.1.clock < 2 ^ 32) × (length x.1.json < 2 ^ 32)

bytes : AwarenessUpdate → List ℕ
bytes [] = []
bytes (x ∷ u) = leb128 x.0 x.0 ++ (leb128 x.1.clock x.1.clock ++ (counted x.1.json ++ bytes u))

pub whole : AwarenessUpdate → List ℕ
whole u = leb128 (length u) (length u) ++ bytes u

module _ {W : Type 0} ⦃w : Write W⦄ (l : LawfulWrite W w) where
  encode_clients-bytes :
      (u : AwarenessUpdate) (out : W) → encode_clients u out ≡ put_all (bytes u) out
  unfolding encode_clients bytes
  encode_clients-bytes [] out = refl
  encode_clients-bytes (x ∷ u) out =
      encode_clients-bytes u _
      ∙ ap (put_all (bytes u)) (
          write_string-counted l x.1.json _
          ∙ ap (put_all (counted x.1.json)) (
              write_var-leb128 x.1.clock _
              ∙ ap (put_all (leb128 x.1.clock x.1.clock)) (write_var-leb128 x.0 out)))
      ∙ sym (
          put_all-append (leb128 x.0 x.0) _ out
          ∙ put_all-append (leb128 x.1.clock x.1.clock) _ _
          ∙ put_all-append (counted x.1.json) (bytes u) _)

  pub encode_update-whole :
      (u : AwarenessUpdate) (out : W) → encode_update u out ≡ put_all (whole u) out
  unfolding encode_update whole
  encode_update-whole u out =
      encode_clients-bytes u _
      ∙ ap (put_all (bytes u)) (write_var-leb128 (length u) out)
      ∙ sym (put_all-append (leb128 (length u) (length u)) (bytes u) out)

module _ {R : Type 0} ⦃i : Read R⦄ (l : LawfulRead R i) where
  decode_clients-bytes :
      (u acc : AwarenessUpdate) (r r' : R)
      → All IsSendable u
      → IsMap (acc ++ u)
      → l.IsReader r
      → Yields r (bytes u) r'
      → decode_clients (length u) acc r ≡ ok (acc ++ u, r')
  unfolding decode_clients bytes
  decode_clients-bytes [] acc r r' h k v y = rw (append-nil acc, y) refl
  decode_clients-bytes (x ∷ u) acc r r' h k v y =
      let (m, y₁, z₁) = Yields-append (leb128 x.0 x.0) _ r r' y in
      let (n, y₂, z₂) = Yields-append (leb128 x.1.clock x.1.clock) _ m r' z₁ in
      let (o, y₃, z₃) = Yields-append (counted x.1.json) (bytes u) n r' z₂ in
      let v₁ = Yields-IsReader l _ r m v y₁ in
      let v₂ = Yields-IsReader l _ m n v₁ y₂ in
      let v₃ = Yields-IsReader l _ n o v₂ y₃ in
      let first = read_var_u64-leb128 x.0 r m (omega (arith, h.0)) y₁ in
      let second = read_var_u32-leb128 x.1.clock m n h.0.1 y₂ in
      let third = read_string-counted l x.1.json n o h.0.2 v₂ y₃ in
      let small : x.0 % 2 ^ 53 ≡ x.0 = omega (arith, h.0) in
      let k' : IsMap ((acc ++ x ∷ []) ++ u) = rw (append_assoc acc (x ∷ []) u) k in
      let rest = decode_clients-bytes u (acc ++ x ∷ []) o r' h.1 k' v₃ z₃ in
      rw (first, second, third, small, insert-new acc x.0 x.1 (IsMap-find acc u x k))
        (rest ∙ rw (append_assoc acc (x ∷ []) u))

  -- The bytes of an update are read back by every reader that keeps the laws.
  pub decode_update-whole :
      (u : AwarenessUpdate) (r r' : R)
      → length u < 2 ^ 32
      → All IsSendable u
      → IsMap u
      → l.IsReader r
      → Yields r (whole u) r'
      → ⦃t : Tables⦄ → has_room (length u) ≡ true
      → decode_update r ≡ ok (u, r')
  unfolding decode_update whole
  decode_update-whole u r r' n h k v y room =
      let (m, y₁, y₂) = Yields-append (leb128 (length u) (length u)) (bytes u) r r' y in
      rw (read_var_u64-leb128 (length u) r m (omega (arith, n)) y₁, room)
        (decode_clients-bytes u [] m r' h k (Yields-IsReader l _ r m v y₁) y₂)
