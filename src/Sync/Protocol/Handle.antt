-- ===== src/Sync/Protocol/Handle.antt =====
-- `MessageReader` and the trait `Protocol` of sync/protocol.rs, with its default handlers; those of
-- `AsyncProtocol` are the same code, but for the waiting for a transaction.
pub mod Batch
pub mod Safety
use crdt_probe.Prelude.{
  ℕ, zero, suc, ◌+◌, ◌⊎◌, inl, inr, Bool, Option, none, some, List, [], ◌∷◌, ◌++◌, length,
  if◌then◌else◌,
}
use crdt_probe.Encoding.Result.{Result, ok, err, fault, Error, end_of_buffer, Fault, out_of_fuel}
use crdt_probe.Encoding.Io.{Write, Read, vec_write, cursor_read, Cursor}
use crdt_probe.StateVector.{StateVector}
use crdt_probe.Sync.Awareness.{Str, Awareness, AwarenessUpdate}
use crdt_probe.Sync.Awareness.Receive.{
  Outcome, found, client_not_found, update, apply_update, Tables,
}
use crdt_probe.Sync.Protocol.{
  SyncMessage, sync_step1, sync_step2, sync_update, Message, sync, auth, awareness_query, awareness,
  custom, new_cursor, encode_message, decode_message,
}

-- `Error` of the protocol.
pub data ProtocolError : Type 0 where
  decoding_error : Error → ProtocolError
  awareness_encoding : ℕ → ProtocolError
  permission_denied_error : Str → ProtocolError
  unsupported : ℕ → ProtocolError
  update_error : ProtocolError

-- The operations of the document that the handlers call. `apply_update` answers false with an
-- error.
pub record DocOps (D U : Type 0) : Type 0 where
  pub state_vector : D → StateVector
  pub encode_state_as_update_v1 : StateVector → D → List ℕ
  pub decode_update_v1 : List ℕ → Result U
  pub apply : U → D → D × Bool

-- An item of the iterator, with the reader behind it, or its end.
pub data Next (R : Type 0) : Type 0 where
  item : Message → R → Next R
  ended : Next R
  refused : Error → Next R
  broken : Fault → Next R

unfoldable pub classify : {R : Type 0} → Result (Message × R) → Next R
classify (ok (msg, r)) = item msg r
classify (err (end_of_buffer n)) = ended
classify (err e) = refused e
classify (fault f) = broken f

unfoldable pub next : {R : Type 0} ⦃r : Read R⦄ ⦃t : Tables⦄ → R → Next R
unfolding classify
next reader = classify (decode_message reader)

-- What a handler returns.
pub data Answer : Type 0 where
  reply : Option Message → Answer
  refuse : ProtocolError → Answer
  crash : Fault → Answer

-- What `handle` returns.
pub data Handled : Type 0 where
  responses : List Message → Handled
  failed : ProtocolError → Handled
  crashed : Fault → Handled

-- The document and the awareness that owns it.
pub record Peer (D : Type 0) : Type 0 where
  pub doc : D
  pub aware : Awareness

abbrev pub updated_or_error : Bool → Answer
updated_or_error applied = if applied then reply none else refuse update_error

abbrev pub awareness_or_error : Outcome → Answer
awareness_or_error (found u) = reply (some (awareness u))
awareness_or_error (client_not_found client) = refuse (awareness_encoding client)

-- What the loop of `handle` does with an answer, and the rest of the loop.
abbrev pub proceed :
    {D : Type 0}
    → Peer D × Answer
    → List Message
    → (Peer D → List Message → Peer D × Handled)
    → Peer D × Handled
proceed (p, reply none) replies rest = rest p replies
proceed (p, reply (some m)) replies rest = rest p (replies ++ m ∷ [])
proceed (p, refuse e) replies rest = (p, failed e)
proceed (p, crash f) replies rest = (p, crashed f)

module _ {D U : Type 0} (ops : DocOps D U) (now : ℕ) where
  unfoldable pub handle_sync_step1 : StateVector → Peer D → Peer D × Answer
  handle_sync_step1 sv p =
      (p, reply (some (sync (sync_step2 (ops.encode_state_as_update_v1 sv p.doc)))))

  unfoldable pub handle_sync_step2 : U → Peer D → Peer D × Answer
  handle_sync_step2 u p =
      let (doc, applied) = ops.apply u p.doc in (record p { doc = doc }, updated_or_error applied)

  unfoldable pub handle_update : U → Peer D → Peer D × Answer
  unfolding handle_sync_step2
  handle_update u p = handle_sync_step2 u p

  unfoldable pub handle_auth : Option Str → Peer D → Peer D × Answer
  handle_auth none p = (p, reply none)
  handle_auth (some reason) p = (p, refuse (permission_denied_error reason))

  unfoldable pub handle_awareness_query : Peer D → Peer D × Answer
  handle_awareness_query p = (p, awareness_or_error (update p.aware))

  unfoldable pub handle_awareness_update : AwarenessUpdate → Peer D → Peer D × Answer
  handle_awareness_update u p = (record p { aware = (apply_update now u p.aware).0 }, reply none)

  unfoldable pub missing_handle : ℕ → List ℕ → Peer D → Peer D × Answer
  missing_handle tag bytes p = (p, refuse (unsupported tag))

  -- `Update::decode_v1(&update)?` and the handler behind it.
  abbrev pub with_update : Result U → (U → Peer D → Peer D × Answer) → Peer D → Peer D × Answer
  with_update (ok u) handler p = handler u p
  with_update (err e) handler p = (p, refuse (decoding_error e))
  with_update (fault f) handler p = (p, crash f)

  unfoldable pub handle_message : Message → Peer D → Peer D × Answer
  unfolding handle_sync_step1 handle_sync_step2 handle_update handle_auth handle_awareness_query
      handle_awareness_update missing_handle
  handle_message (sync (sync_step1 sv)) p = handle_sync_step1 sv p
  handle_message (sync (sync_step2 bytes)) p =
      with_update (ops.decode_update_v1 bytes) handle_sync_step2 p
  handle_message (sync (sync_update bytes)) p =
      with_update (ops.decode_update_v1 bytes) handle_update p
  handle_message (auth reason) p = handle_auth reason p
  handle_message awareness_query p = handle_awareness_query p
  handle_message (awareness u) p = handle_awareness_update u p
  handle_message (custom tag bytes) p = missing_handle tag bytes p

  -- `while let Some(result) = reader.next()`. Every message takes a byte at least, so one round
  -- more than there are bytes is enough.
  pub handle_loop : ⦃t : Tables⦄ → ℕ → Cursor → Peer D → List Message → Peer D × Handled
  handle_loop zero reader p replies = (p, crashed out_of_fuel)
  handle_loop (suc rounds) reader p replies = elim (next reader) [
    | ended ↦ (p, responses replies)
    | refused e ↦ (p, failed (decoding_error e))
    | broken f ↦ (p, crashed f)
    | item msg rest ↦ proceed (handle_message msg p) replies (handle_loop rounds rest)
  ]

  unfoldable pub handle : ⦃t : Tables⦄ → List ℕ → Peer D → Peer D × Handled
  unfolding handle_loop
  handle bytes p = handle_loop (suc (length bytes)) (new_cursor bytes) p []

  -- The messages that a peer greets with, or the error of its awareness.
  abbrev pub greeting : {W : Type 0} ⦃w : Write W⦄ → Outcome → StateVector → W → W ⊎ ProtocolError
  greeting (found u) sv out =
      inl (encode_message (awareness u) (encode_message (sync (sync_step1 sv)) out))
  greeting (client_not_found client) sv out = inr (awareness_encoding client)

  unfoldable pub start : {W : Type 0} ⦃w : Write W⦄ → Peer D → W → W ⊎ ProtocolError
  start p out = greeting (update p.aware) (ops.state_vector p.doc) out
