-- ===== src/Sync/Protocol.antt =====
-- The messages of sync/protocol.rs and their codec.
pub mod RoundTrip
pub mod Handle
use crdt_probe.Prelude.{ℕ, ◌≡◌, Bool, Option, none, some, List, [], ◌∷◌, ◌==◌, if◌then◌else◌}
use crdt_probe.Encoding.Result.{Result, ok, err, unexpected_value, ◌>>=◌}
use crdt_probe.Encoding.Io.{Write, Read, write_u8, vec_write, cursor_read, Cursor}
use crdt_probe.Encoding.VarInt.{write_var, read_var_narrow}
use crdt_probe.Encoding.Fixed.{write_buf, write_string, read_buf, read_string}
use crdt_probe.StateVector.{StateVector}
use crdt_probe.StateVector.Codec.{encode, decode}
use crdt_probe.Sync.Awareness.{Str, AwarenessUpdate}
use crdt_probe.Sync.Awareness.Receive.{encode_update, decode_update, Tables}

abbrev pub msg_sync : ℕ
msg_sync = 0

abbrev pub msg_awareness : ℕ
msg_awareness = 1

abbrev pub msg_auth : ℕ
msg_auth = 2

abbrev pub msg_query_awareness : ℕ
msg_query_awareness = 3

abbrev pub permission_denied : ℕ
permission_denied = 0

abbrev pub permission_granted : ℕ
permission_granted = 1

abbrev pub msg_sync_step_1 : ℕ
msg_sync_step_1 = 0

abbrev pub msg_sync_step_2 : ℕ
msg_sync_step_2 = 1

abbrev pub msg_sync_update : ℕ
msg_sync_update = 2

pub data SyncMessage : Type 0 where
  sync_step1 : StateVector → SyncMessage
  sync_step2 sync_update : List ℕ → SyncMessage

pub data Message : Type 0 where
  sync : SyncMessage → Message
  auth : Option Str → Message
  awareness_query : Message
  awareness : AwarenessUpdate → Message
  custom : ℕ → List ℕ → Message

-- A reader at the start of a slice.
abbrev pub new_cursor : List ℕ → Cursor
new_cursor buf = record { buf = buf; next = 0 }

-- `encode_v1` and `decode_v1`: into a buffer of its own, and out of a slice, whose rest is dropped.
abbrev pub encode_v1 : {A : Type 0} → (A → List ℕ → List ℕ) → A → List ℕ
encode_v1 enc a = enc a []

abbrev pub decode_v1 : {A : Type 0} → (Cursor → Result (A × Cursor)) → List ℕ → Result A
decode_v1 dec buf = do (a, rest) ← dec (new_cursor buf); ok a

module _ {W : Type 0} ⦃w : Write W⦄ where
  unfoldable pub encode_sync : SyncMessage → W → W
  encode_sync (sync_step1 sv) out = write_buf (encode_v1 encode sv) (write_var msg_sync_step_1 out)
  encode_sync (sync_step2 u) out = write_buf u (write_var msg_sync_step_2 out)
  encode_sync (sync_update u) out = write_buf u (write_var msg_sync_update out)

  unfoldable pub encode_message : Message → W → W
  unfolding encode_sync
  encode_message (sync msg) out = encode_sync msg (write_var msg_sync out)
  encode_message (auth (some reason)) out =
      write_string reason (write_var permission_denied (write_var msg_auth out))
  encode_message (auth none) out = write_var permission_granted (write_var msg_auth out)
  encode_message awareness_query out = write_var msg_query_awareness out
  encode_message (awareness update) out =
      write_buf (encode_v1 encode_update update) (write_var msg_awareness out)
  encode_message (custom tag bytes) out = write_buf bytes (write_u8 tag out)

module _ {R : Type 0} ⦃r : Read R⦄ where
  unfoldable pub decode_sync : R → Result (SyncMessage × R)
  decode_sync reader = do
    (tag, reader₁) ← read_var_narrow 8 reader
    let step1 = do
      (buf, reader₂) ← read_buf reader₁
      sv ← decode_v1 decode buf
      ok (sync_step1 sv, reader₂)
    let step2 = do (buf, reader₂) ← read_buf reader₁; ok (sync_step2 buf, reader₂)
    let update = do (buf, reader₂) ← read_buf reader₁; ok (sync_update buf, reader₂)
    if tag == msg_sync_step_1
        then step1
        else if tag == msg_sync_step_2
        then step2
        else if tag == msg_sync_update
        then update
        else err unexpected_value

  unfoldable pub decode_auth : R → Result (Option Str × R)
  decode_auth reader = do
    (allowed, reader₁) ← read_var_narrow 8 reader
    let denied = do (reason, reader₂) ← read_string reader₁; ok (some reason, reader₂)
    if allowed == permission_denied then denied else ok (none, reader₁)

  unfoldable pub decode_message : ⦃t : Tables⦄ → R → Result (Message × R)
  unfolding decode_sync decode_auth
  decode_message reader = do
    (tag, reader₁) ← read_var_narrow 8 reader
    let as_sync = do (msg, reader₂) ← decode_sync reader₁; ok (sync msg, reader₂)
    let as_awareness = do
      (buf, reader₂) ← read_buf reader₁
      update ← decode_v1 decode_update buf
      ok (awareness update, reader₂)
    let as_auth = do (reason, reader₂) ← decode_auth reader₁; ok (auth reason, reader₂)
    let as_custom = do (buf, reader₂) ← read_buf reader₁; ok (custom tag buf, reader₂)
    if tag == msg_sync
        then as_sync
        else if tag == msg_awareness
        then as_awareness
        else if tag == msg_auth
        then as_auth
        else if tag == msg_query_awareness
        then ok (awareness_query, reader₁)
        else as_custom
