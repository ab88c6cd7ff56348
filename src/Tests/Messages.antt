-- ===== src/Tests/Messages.antt =====
-- The messages of the protocol and a peer that handles them.
use crdt_probe.Prelude.{
  ℕ, ◌<◌, ◌^◌, length, ◌≡◌, refl, not, ltb, true, false, none, some, List, [], ◌∷◌, inl, arith,
}
use crdt_probe.Prelude.Maps.{find, insert}
use crdt_probe.Encoding.Result.{ok}
use crdt_probe.Encoding.Io.{vec_write, cursor_read, before, behind}
use crdt_probe.Encoding.VarInt.{write_var}
use crdt_probe.Encoding.Fixed.{write_string, write_buf}
use crdt_probe.StateVector.Codec.{encode, encode_entries}
use crdt_probe.Sync.Awareness.{Awareness, AwarenessUpdate}
use crdt_probe.Sync.Awareness.Receive.{
  update, found, apply_update, encode_update, encode_clients, Tables,
}
use crdt_probe.Sync.Awareness.Receive.Local.{IsPresent}
use crdt_probe.Sync.Protocol.{
  Message, sync, sync_step2, auth, custom, encode_message, decode_message,
}
use crdt_probe.Sync.Protocol.RoundTrip.{sv_v1, update_v1, decode_message-encode_message}
use crdt_probe.Sync.Protocol.Handle.{DocOps, Peer, responses, handle, start}
use crdt_probe.Sync.Protocol.Handle.Batch.{encode_all, run, handle-run, handle-start}
use crdt_probe.Sync.Protocol.Handle.Safety.{handle-IsPresent}

-- Maps of 2 ^ 32 entries and less.
instance abbrev large_tables : Tables
large_tables = record { has_room = λ n. not (ltb (2 ^ 32) n) }

-- A document that is a list of bytes: an update is put behind it.
abbrev text_ops : DocOps (List ℕ) (List ℕ)
text_ops = record {
  state_vector = λ doc. (1, 2) ∷ [];
  encode_state_as_update_v1 = λ sv doc. doc;
  decode_update_v1 = λ bytes. ok bytes;
  apply = λ u doc. (u, true);
}

abbrev here_online : Awareness
here_online = record {
  client_id = 1;
  states = (1, record { clock = 3; last_updated = 0; json = some (49 ∷ []) }) ∷ [];
  on_update = true;
  on_change = false;
}

abbrev left_peer : Peer (List ℕ)
left_peer = record { doc = 7 ∷ []; aware = here_online }

abbrev right_peer : Peer (List ℕ)
right_peer = record { doc = 8 ∷ []; aware = record here_online { client_id = 2; states = [] } }

abbrev greeting_update : AwarenessUpdate
greeting_update = (1, record { clock = 3; json = 49 ∷ [] }) ∷ []

decode_message-encode_message_example :
    decode_message (before [] (encode_message (custom 5 (1 ∷ 2 ∷ [])) []) [])
    ≡ ok (custom 5 (1 ∷ 2 ∷ []), behind (encode_message (custom 5 (1 ∷ 2 ∷ [])) []) [])
decode_message-encode_message_example =
    decode_message-encode_message (custom 5 (1 ∷ 2 ∷ [])) [] []
      (omega arith, omega arith, omega arith)

abbrev batch : List Message
batch = auth none ∷ auth (some (110 ∷ 111 ∷ [])) ∷ auth none ∷ []

handle-run_example :
    handle text_ops 7 (encode_all batch []) right_peer ≡ run text_ops 7 batch right_peer
handle-run_example = handle-run text_ops 7 batch right_peer (tt, (omega arith, (tt, tt)))

sv_short : length (sv_v1 ((1, 2) ∷ [])) < 2 ^ 32
unfolding encode encode_entries write_var
sv_short = omega arith

update_short : length (update_v1 greeting_update) < 2 ^ 32
unfolding encode_update encode_clients write_var write_string write_buf
update_short = omega arith

update_left : update left_peer.aware ≡ found greeting_update
unfolding update find insert
update_left = refl

handle-start_example :
    (out : List ℕ) × (start text_ops 7 left_peer [] ≡ inl out)
    × (handle text_ops 7 out right_peer ≡ (
      record right_peer { aware = (apply_update 7 greeting_update right_peer.aware).0 },
      responses (sync (sync_step2 (8 ∷ [])) ∷ []),
    ))
unfolding find
handle-start_example =
    handle-start text_ops 7 left_peer right_peer greeting_update update_left
      (omega arith, ((omega arith, omega arith), tt), (refl, tt), sv_short)
      (omega arith, ((omega arith, omega arith, omega arith), tt), (refl, tt), update_short, refl)

here_online-IsPresent : IsPresent here_online
unfolding find
here_online-IsPresent =
    ((refl, tt), (record { clock = 3; last_updated = 0; json = some (49 ∷ []) }, refl, refl))

handle-IsPresent_example :
    IsPresent (handle text_ops 7 (1 ∷ 7 ∷ 1 ∷ 1 ∷ 9 ∷ 4 ∷ 110 ∷ 117 ∷ []) left_peer).0.aware
handle-IsPresent_example =
    handle-IsPresent text_ops 7 (1 ∷ 7 ∷ 1 ∷ 1 ∷ 9 ∷ 4 ∷ 110 ∷ 117 ∷ []) left_peer
      here_online-IsPresent
