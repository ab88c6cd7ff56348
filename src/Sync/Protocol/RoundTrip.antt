-- ===== src/Sync/Protocol/RoundTrip.antt =====
-- The bytes of the messages of sync/protocol.rs, from the writers and to the readers.
use crdt_probe.Prelude.{
  ℕ, ◌^◌, ◌≤◌, ◌<◌, ◌≡◌, true, refl, ap, ◌∙◌, false, none, some, List, [], ◌∷◌, ◌==◌, length, All,
  arith, append-nil, lt→ltb,
}
use crdt_probe.Prelude.Maps.{IsMap}
use crdt_probe.Encoding.Result.{ok}
use crdt_probe.Encoding.Io.{
  Write, Read, write_u8, read_u8, vec_write, cursor_read, put_all, Yields, before, behind,
  written-Yields,
}
use crdt_probe.Encoding.Laws.{LawfulWrite, LawfulRead, vec_laws, cursor_laws, written-IsInside}
use crdt_probe.Encoding.VarInt.{write_var, read_var_narrow}
use crdt_probe.Encoding.VarInt.RoundTrip.{leb128_small, write_var-leb128, read_var_u32-leb128}
use crdt_probe.Encoding.Fixed.RoundTrip.{
  counted, write_buf-counted, read_buf-counted, write_string-counted, read_string-counted,
}
use crdt_probe.StateVector.Codec.{encode, decode}
use crdt_probe.StateVector.Codec.RoundTrip.{IsEntry, decode-encode}
use crdt_probe.Sync.Awareness.{AwarenessUpdate}
use crdt_probe.Sync.Awareness.Receive.{encode_update, decode_update, Tables, has_room}
use crdt_probe.Sync.Awareness.Receive.RoundTrip.{
  IsSendable, whole, encode_update-whole, decode_update-whole,
}
use crdt_probe.Sync.Protocol.{
  SyncMessage, sync_step1, sync_step2, sync_update, Message, sync, auth, awareness_query, awareness,
  custom, decode_v1, encode_sync, encode_message, decode_sync, decode_auth, decode_message,
}

-- The buffers that are sent inside messages.
abbrev pub sv_v1 : List (ℕ × ℕ) → List ℕ
sv_v1 sv = encode sv []

abbrev pub update_v1 : AwarenessUpdate → List ℕ
update_v1 u = encode_update u []

sync_bytes : SyncMessage → List ℕ
sync_bytes (sync_step1 sv) = 0 ∷ counted (sv_v1 sv)
sync_bytes (sync_step2 u) = 1 ∷ counted u
sync_bytes (sync_update u) = 2 ∷ counted u

pub message_bytes : Message → List ℕ
message_bytes (sync msg) = 0 ∷ sync_bytes msg
message_bytes (auth (some reason)) = 2 ∷ 0 ∷ counted reason
message_bytes (auth none) = 2 ∷ 1 ∷ []
message_bytes awareness_query = 3 ∷ []
message_bytes (awareness u) = 1 ∷ counted (update_v1 u)
message_bytes (custom tag bytes) = tag ∷ counted bytes

pub one_byte : (m : Message) → 1 ≤ length (message_bytes m)
unfolding message_bytes
one_byte (sync msg) = omega arith
one_byte (auth (some reason)) = omega arith
one_byte (auth none) = omega arith
one_byte awareness_query = omega arith
one_byte (awareness u) = omega arith
one_byte (custom tag bytes) = omega arith

-- All lengths and numbers fit their widths, no client stands twice, a map of the size of an update
-- can be made, and a custom tag takes one byte and is none of the four that have a meaning.
abbrev pub IsSyncMessage : SyncMessage → Type 0
IsSyncMessage (sync_step1 sv) =
    (length sv < 2 ^ 32) × All IsEntry sv × IsMap sv × (length (sv_v1 sv) < 2 ^ 32)
IsSyncMessage (sync_step2 u) = length u < 2 ^ 32
IsSyncMessage (sync_update u) = length u < 2 ^ 32

abbrev pub IsMessage : ⦃t : Tables⦄ → Message → Type 0
IsMessage (sync msg) = IsSyncMessage msg
IsMessage (auth (some reason)) = length reason < 2 ^ 32
IsMessage (auth none) = Unit
IsMessage awareness_query = Unit
IsMessage (awareness u) =
    (length u < 2 ^ 32)
    × All IsSendable u
    × IsMap u
    × (length (update_v1 u) < 2 ^ 32)
    × (has_room (length u) ≡ true)
IsMessage (custom tag bytes) = (4 ≤ tag) × (tag < 128) × (length bytes < 2 ^ 32)

module _ {W : Type 0} ⦃w : Write W⦄ (l : LawfulWrite W w) where
  tag_written : (t : ℕ) (out : W) → t < 128 → write_var t out ≡ write_u8 t out
  tag_written t out h = write_var-leb128 t out ∙ rw (leb128_small t h) refl

  encode_sync-bytes :
      (msg : SyncMessage) (out : W) → encode_sync msg out ≡ put_all (sync_bytes msg) out
  unfolding encode_sync sync_bytes
  encode_sync-bytes (sync_step1 sv) out =
      write_buf-counted l (sv_v1 sv) _
      ∙ ap (put_all (counted (sv_v1 sv))) (tag_written 0 out (omega arith))
  encode_sync-bytes (sync_step2 u) out =
      write_buf-counted l u _ ∙ ap (put_all (counted u)) (tag_written 1 out (omega arith))
  encode_sync-bytes (sync_update u) out =
      write_buf-counted l u _ ∙ ap (put_all (counted u)) (tag_written 2 out (omega arith))

  pub encode_message-bytes :
      (msg : Message) (out : W) → encode_message msg out ≡ put_all (message_bytes msg) out
  unfolding encode_message message_bytes
  encode_message-bytes (sync msg) out =
      encode_sync-bytes msg _ ∙ ap (put_all (sync_bytes msg)) (tag_written 0 out (omega arith))
  encode_message-bytes (auth (some reason)) out =
      write_string-counted l reason _
      ∙ ap (put_all (counted reason))
          (tag_written 0 _ (omega arith) ∙ ap (write_u8 0) (tag_written 2 out (omega arith)))
  encode_message-bytes (auth none) out =
      tag_written 1 _ (omega arith) ∙ ap (write_u8 1) (tag_written 2 out (omega arith))
  encode_message-bytes awareness_query out = tag_written 3 out (omega arith)
  encode_message-bytes (awareness u) out =
      write_buf-counted l (update_v1 u) _
      ∙ ap (put_all (counted (update_v1 u))) (tag_written 1 out (omega arith))
  encode_message-bytes (custom tag bytes) out = write_buf-counted l bytes _

-- What `encode_v1` made is decoded by `decode_v1`.
sv_decoded :
    (sv : List (ℕ × ℕ)) → IsSyncMessage (sync_step1 sv) → decode_v1 decode (sv_v1 sv) ≡ ok sv
sv_decoded sv h =
    let read = decode-encode sv [] [] h.0 h.1 h.2 in rw (rw (append-nil (sv_v1 sv)) at read) refl

update_decoded :
    ⦃t : Tables⦄ (u : AwarenessUpdate)
    → IsMessage (awareness u)
    → decode_v1 decode_update (update_v1 u) ≡ ok u
update_decoded u h =
    let read =
      decode_update-whole cursor_laws u _ _ h.0 h.1 h.2 (omega arith)
        (written-Yields [] (whole u) [] (update_v1 u) (encode_update-whole vec_laws u [])) h.4 in
    rw (rw (append-nil (update_v1 u)) at read) refl

not_known : (t n : ℕ) → 4 ≤ t → n < 4 → (t == n) ≡ false
not_known t n h k = ground arith

module _ {R : Type 0} ⦃i : Read R⦄ (l : LawfulRead R i) where
  tag_read : (t : ℕ) (r m : R) → t < 128 → read_u8 r ≡ ok (t, m) → read_var_narrow 8 r ≡ ok (t, m)
  unfolding read_var_narrow
  tag_read t r m h e =
      rw
        (
          read_var_u32-leb128 t r m (omega (arith, h)) (rw (leb128_small t h) (m, e, refl)),
          lt→ltb t 256 (omega (arith, h)),
        )
        refl

  decode_sync-bytes :
      (msg : SyncMessage) (r r' : R)
      → IsSyncMessage msg
      → l.IsReader r
      → Yields r (sync_bytes msg) r'
      → decode_sync r ≡ ok (msg, r')
  unfolding decode_sync sync_bytes
  decode_sync-bytes (sync_step1 sv) r r' h v (m, e, y) =
      rw
        (
          tag_read 0 r m (omega arith) e,
          read_buf-counted l (sv_v1 sv) m r' h.3 (l.next_law r m 0 v e) y,
          sv_decoded sv h,
        )
        refl
  decode_sync-bytes (sync_step2 u) r r' h v (m, e, y) =
      rw (tag_read 1 r m (omega arith) e, read_buf-counted l u m r' h (l.next_law r m 1 v e) y) refl
  decode_sync-bytes (sync_update u) r r' h v (m, e, y) =
      rw (tag_read 2 r m (omega arith) e, read_buf-counted l u m r' h (l.next_law r m 2 v e) y) refl

  -- Every reader that keeps the laws decodes the bytes of a message as that message.
  pub decode_message-bytes :
      ⦃t : Tables⦄ (msg : Message) (r r' : R)
      → IsMessage msg
      → l.IsReader r
      → Yields r (message_bytes msg) r'
      → decode_message r ≡ ok (msg, r')
  unfolding decode_message decode_auth message_bytes
  decode_message-bytes (sync msg) r r' h v (m, e, y) =
      rw (tag_read 0 r m (omega arith) e, decode_sync-bytes msg m r' h (l.next_law r m 0 v e) y)
        refl
  decode_message-bytes (auth (some reason)) r r' h v (m, e, (n, f, y)) =
      rw
        (
          tag_read 2 r m (omega arith) e,
          tag_read 0 m n (omega arith) f,
          read_string-counted l reason n r' h (l.next_law m n 0 (l.next_law r m 2 v e) f) y,
        )
        refl
  decode_message-bytes (auth none) r r' h v (m, e, (n, f, y)) =
      rw (tag_read 2 r m (omega arith) e, tag_read 1 m n (omega arith) f, y) refl
  decode_message-bytes awareness_query r r' h v (m, e, y) =
      rw (tag_read 3 r m (omega arith) e, y) refl
  decode_message-bytes (awareness u) r r' h v (m, e, y) =
      rw
        (
          tag_read 1 r m (omega arith) e,
          read_buf-counted l (update_v1 u) m r' h.3 (l.next_law r m 1 v e) y,
          update_decoded u h,
        )
        refl
  decode_message-bytes (custom tag bytes) r r' h v (m, e, y) =
      rw
        (
          tag_read tag r m h.1 e,
          not_known tag 0 h.0 (omega arith),
          not_known tag 1 h.0 (omega arith),
          not_known tag 2 h.0 (omega arith),
          not_known tag 3 h.0 (omega arith),
          read_buf-counted l bytes m r' h.2 (l.next_law r m tag v e) y,
        )
        refl

-- A message that is encoded into a buffer is decoded from there, with the cursor left behind it,
-- where its numbers and lengths fit, no client stands twice in an update or a state vector, a map
-- of the size of an update can be made, and a custom tag is from 4 to 127.
pub decode_message-encode_message :
    ⦃t : Tables⦄ (msg : Message) (front rest : List ℕ)
    → IsMessage msg
    → decode_message (before front (encode_message msg front) rest)
      ≡ ok (msg, behind (encode_message msg front) rest)
decode_message-encode_message msg front rest h =
    let written = encode_message-bytes vec_laws msg front in
    decode_message-bytes cursor_laws msg _ _ h
      (written-IsInside front (message_bytes msg) rest (encode_message msg front) written)
      (written-Yields front (message_bytes msg) rest (encode_message msg front) written)
