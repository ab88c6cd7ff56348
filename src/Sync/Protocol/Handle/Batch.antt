-- ===== src/Sync/Protocol/Handle/Batch.antt =====
-- Several messages of sync/protocol.rs in one payload, and the greeting of a peer.
use crdt_probe.Prelude.{
  ℕ, zero, suc, ◌≤◌, ◌<◌, ◌≡◌, refl, sym, ap, ◌∙◌, inl, Option, none, some, append_assoc, List, [],
  ◌∷◌, ◌++◌, length, All, arith, append-nil, length-append, get_elem?,
}
use crdt_probe.Encoding.Result.{err, end_of_buffer, Error, Fault}
use crdt_probe.Encoding.Io.{
  vec_write, cursor_read, Cursor, put_all, put_all-append, put_all-vec, Yields, Yields-append,
  written-Yields, cursor_read_u8,
}
use crdt_probe.Encoding.VarInt.Reading.{read_var_narrow-err}
use crdt_probe.Encoding.Laws.{vec_laws, cursor_laws, IsInside, Yields-IsReader}
use crdt_probe.Sync.Awareness.{AwarenessUpdate}
use crdt_probe.Sync.Awareness.Receive.{found, update, apply_update, Tables}
use crdt_probe.Sync.Protocol.{
  sync_step1, sync_step2, Message, sync, awareness, new_cursor, encode_message, decode_message,
}
use crdt_probe.Sync.Protocol.RoundTrip.{
  message_bytes, one_byte, IsMessage, encode_message-bytes, decode_message-bytes,
}
use crdt_probe.Sync.Protocol.Handle.{
  DocOps, next, item, ended, refused, broken, failed, crashed, decoding_error, Peer, Handled,
  responses, Answer, reply, refuse, crash, proceed, handle_message, handle_loop, handle, start,
}

-- One message after another, in one buffer.
pub encode_all : List Message → List ℕ → List ℕ
encode_all [] out = out
encode_all (m ∷ ms) out = encode_all ms (encode_message m out)

all_bytes : List Message → List ℕ
all_bytes [] = []
all_bytes (m ∷ ms) = message_bytes m ++ all_bytes ms

encode_all-bytes :
    (ms : List Message) (out : List ℕ) → encode_all ms out ≡ put_all (all_bytes ms) out
unfolding encode_all all_bytes
encode_all-bytes [] out = refl
encode_all-bytes (m ∷ ms) out =
    encode_all-bytes ms _
    ∙ ap (put_all (all_bytes ms)) (encode_message-bytes vec_laws m out)
    ∙ sym (put_all-append (message_bytes m) (all_bytes ms) out)

as_many_bytes : (ms : List Message) → length ms ≤ length (all_bytes ms)
unfolding all_bytes
as_many_bytes [] = omega arith
as_many_bytes (m ∷ ms) =
    omega (arith, length-append (message_bytes m) (all_bytes ms), one_byte m, as_many_bytes ms)

next-item :
    ⦃t : Tables⦄ (m : Message) (c c' : Cursor)
    → IsMessage m
    → IsInside c
    → Yields c (message_bytes m) c'
    → next c ≡ item m c'
unfolding next
next-item m c c' h v y = rw (decode_message-bytes cursor_laws m c c' h v y) refl

get_elem?-end : (xs : List ℕ) → get_elem? xs (length xs) ≡ none
get_elem?-end [] = refl
get_elem?-end (x ∷ xs) = get_elem?-end xs

at_end :
    (bs : List ℕ) → cursor_read_u8 (record { buf = bs; next = length bs }) ≡ err (end_of_buffer 1)
unfolding cursor_read_u8
at_end bs = rw (get_elem?-end bs, cursor_read_u8) refl

-- A reader at the end of its buffer has no message.
next-end :
    ⦃t : Tables⦄ (bs : List ℕ) → next {R = Cursor} (record { buf = bs; next = length bs }) ≡ ended
unfolding next decode_message cursor_read_u8
next-end bs =
    rw
      (read_var_narrow-err {R = Cursor} 8 (record { buf = bs; next = length bs }) (end_of_buffer 1)
        (at_end bs))
      refl

abbrev pub with_reply : {D : Type 0} → Option Message → Peer D × Handled → Peer D × Handled
with_reply none x = x
with_reply (some r) (p, responses rs) = (p, responses (r ∷ rs))
with_reply (some r) (p, failed e) = (p, failed e)
with_reply (some r) (p, crashed f) = (p, crashed f)

-- The responses behind those that are gathered.
abbrev behind_replies : {D : Type 0} → List Message → Peer D × Handled → Peer D × Handled
behind_replies replies (p, responses rs) = (p, responses (replies ++ rs))
behind_replies replies (p, failed e) = (p, failed e)
behind_replies replies (p, crashed f) = (p, crashed f)

behind-with_reply :
    {D : Type 0} (replies : List Message) (r : Message) (x : Peer D × Handled)
    → behind_replies (replies ++ r ∷ []) x ≡ behind_replies replies (with_reply (some r) x)
behind-with_reply replies r (p, responses rs) =
    ap (λ l. (p, responses l)) (append_assoc replies (r ∷ []) rs)
behind-with_reply replies r (p, failed e) = refl
behind-with_reply replies r (p, crashed f) = refl

behind_nothing : {D : Type 0} (x : Peer D × Handled) → behind_replies [] x ≡ x
behind_nothing (p, responses rs) = refl
behind_nothing (p, failed e) = refl
behind_nothing (p, crashed f) = refl

module _ ⦃t : Tables⦄ {D U : Type 0} (ops : DocOps D U) (now : ℕ) where
  -- The messages are handled in turn, up to the first error; what each of them answers comes in
  -- front of what the others do.
  pub run : List Message → Peer D → Peer D × Handled
  run [] p = (p, responses [])
  run (m ∷ ms) p =
      let (q, answer) = handle_message ops now m p in
      elim answer [
        | reply r ↦ with_reply r (run ms q)
        | refuse e ↦ (q, failed e)
        | crash f ↦ (q, crashed f)
      ]

  pub loop_ended :
      (rounds : ℕ) (c : Cursor) (p : Peer D) (replies : List Message)
      → next c ≡ ended
      → handle_loop ops now (suc rounds) c p replies ≡ (p, responses replies)
  unfolding handle_loop
  loop_ended rounds c p replies e = rw (e, handle_loop) refl

  pub loop_item :
      (rounds : ℕ) (c c' : Cursor) (m : Message) (p : Peer D) (replies : List Message)
      → next c ≡ item m c'
      → handle_loop ops now (suc rounds) c p replies
        ≡ proceed (handle_message ops now m p) replies (handle_loop ops now rounds c')
  unfolding handle_loop
  loop_item rounds c c' m p replies e = rw (e, handle_loop) refl

  pub loop_refused :
      (rounds : ℕ) (c : Cursor) (e : Error) (p : Peer D) (replies : List Message)
      → next c ≡ refused e
      → handle_loop ops now (suc rounds) c p replies ≡ (p, failed (decoding_error e))
  unfolding handle_loop
  loop_refused rounds c e p replies h = rw (h, handle_loop) refl

  pub loop_broken :
      (rounds : ℕ) (c : Cursor) (f : Fault) (p : Peer D) (replies : List Message)
      → next c ≡ broken f
      → handle_loop ops now (suc rounds) c p replies ≡ (p, crashed f)
  unfolding handle_loop
  loop_broken rounds c f p replies h = rw (h, handle_loop) refl

  -- An answer that is dealt with before the rest, which gathers behind the replies.
  proceed-run :
      (ms : List Message) (x : Peer D × Answer) (replies : List Message)
      (rest : Peer D → List Message → Peer D × Handled)
      → ((q : Peer D) (l : List Message) → rest q l ≡ behind_replies l (run ms q))
      → proceed x replies rest
        ≡ behind_replies replies (elim x.1 [
          | reply r ↦ with_reply r (run ms x.0)
          | refuse e ↦ (x.0, failed e)
          | crash f ↦ (x.0, crashed f)
        ])
  proceed-run ms (q, reply none) replies rest h = h q replies
  proceed-run ms (q, reply (some r)) replies rest h =
      h q (replies ++ r ∷ []) ∙ behind-with_reply replies r (run ms q)
  proceed-run ms (q, refuse e) replies rest h = refl
  proceed-run ms (q, crash f) replies rest h = refl

  loop-run :
      (ms : List Message) (rounds : ℕ) (c c' : Cursor)
      → length ms < rounds
      → All IsMessage ms
      → IsInside c
      → Yields c (all_bytes ms) c'
      → next c' ≡ ended
      → (p : Peer D) (replies : List Message)
      → handle_loop ops now rounds c p replies ≡ behind_replies replies (run ms p)
  unfolding handle_loop run all_bytes
  loop-run ms zero c c' few h v y e p replies = absurd (omega arith)
  loop-run [] (suc rounds) c c' few h v y e p replies =
      loop_ended rounds c p replies (rw y e) ∙ ap (λ l. (p, responses l)) (sym (append-nil replies))
  loop-run (m ∷ ms) (suc rounds) c c' few h v y e p replies =
      let (mid, y₁, y₂) = Yields-append (message_bytes m) (all_bytes ms) c c' y in
      let v' = Yields-IsReader cursor_laws _ c mid v y₁ in
      loop_item rounds c mid m p replies (next-item m c mid h.0 v y₁)
      ∙ proceed-run ms (handle_message ops now m p) replies _
          (λ q l. loop-run ms rounds mid c' (omega (arith, few)) h.1 v' y₂ e q l)

  -- A payload of several messages is handled as the messages in turn, up to the first error, and
  -- the loop ends by itself; the replies come in the order of the messages. This is for messages
  -- that are read back as they are: their numbers and lengths fit their widths, a map of the size
  -- of an update can be made, no client stands twice in an update or a state vector, and a custom
  -- tag is from 4 to 127.
  pub handle-run :
      (ms : List Message) (p : Peer D)
      → All IsMessage ms
      → handle ops now (encode_all ms []) p ≡ run ms p
  unfolding handle
  handle-run ms p h =
      let bytes = encode_all-bytes ms [] in
      let whole = bytes ∙ put_all-vec (all_bytes ms) [] in
      let out = encode_all ms [] in
      let y = written-Yields [] (all_bytes ms) [] out bytes in
      let y' = rw (append-nil out) at y in
      loop-run ms (suc (length out)) (new_cursor out) (record { buf = out; next = length out })
        (omega (arith, as_many_bytes ms, ap (λ (l : List ℕ). length l) whole)) h (omega arith) y'
        (next-end out) p []
      ∙ behind_nothing (run ms p)

  -- A peer greets another with what it has, where its state vector and its awareness can be sent
  -- and the other can make a map of the size of the awareness: the other answers with one
  -- message, the update that the greeting's state vector lacks, and takes over the awareness of
  -- the first.
  pub handle-start :
      (p q : Peer D) (u : AwarenessUpdate)
      → update p.aware ≡ found u
      → IsMessage (sync (sync_step1 (ops.state_vector p.doc)))
      → IsMessage (awareness u)
      → (out : List ℕ) × (start ops now p [] ≡ inl out)
        × (handle ops now out q ≡ (
          record q { aware = (apply_update now u q.aware).0 },
          responses (
              sync (sync_step2 (ops.encode_state_as_update_v1 (ops.state_vector p.doc) q.doc))
              ∷ []),
        ))
  unfolding start encode_all run handle_message
  handle-start p q u e h k =
      let sv = ops.state_vector p.doc in
      (
        encode_all (sync (sync_step1 sv) ∷ awareness u ∷ []) [],
        rw e refl,
        handle-run (sync (sync_step1 sv) ∷ awareness u ∷ []) q (h, (k, tt)),
      )
