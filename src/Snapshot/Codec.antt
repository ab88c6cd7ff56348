-- ===== src/Snapshot/Codec.antt =====
-- `Encode` and `Decode` of snapshots (state_vector.rs) in version 1.
use crdt_probe.Prelude.{ℕ, ◌<◌, ◌^◌, ◌≡◌, refl, sym, ap, ◌∙◌, List, ◌++◌, length, All}
use crdt_probe.Prelude.Maps.{IsMap}
use crdt_probe.Encoding.Result.{ok}
use crdt_probe.Encoding.Io.{
  vec_write, cursor_read, Cursor, put_all, put_all-append, Yields-append, before, behind,
  written-Yields,
}
use crdt_probe.StateVector.Codec.RoundTrip.{IsEntry, whole, encode-whole, decode-whole}
use crdt_probe.IdSet.Codec.{ds_encoder_v1, ds_decoder_v1}
use crdt_probe.IdSet.Codec.RoundTrip.{
  IsOfClient, set_bytes, encode_id_set-bytes, decode_id_set-bytes,
}
use crdt_probe.Snapshot.{Snapshot, encode_snapshot, decode_snapshot}

-- All numbers of a snapshot fit their widths, and no client stands twice in one of its parts.
abbrev pub IsSnapshot : Snapshot → Type 0
IsSnapshot s =
    (length s.delete_set < 2 ^ 32)
    × All IsOfClient s.delete_set
    × IsMap s.delete_set
    × (length s.state_map < 2 ^ 32)
    × All IsEntry s.state_map
    × IsMap s.state_map

abbrev snapshot_out : Snapshot → List ℕ → List ℕ
snapshot_out s front = encode_snapshot (ds_encoder_v1 (List ℕ)) s front

snapshot-bytes :
    (s : Snapshot) (front : List ℕ)
    → snapshot_out s front ≡ put_all (set_bytes s.delete_set ++ whole s.state_map) front
unfolding encode_snapshot
snapshot-bytes s front =
    encode-whole s.state_map _
    ∙ ap (put_all (whole s.state_map)) (encode_id_set-bytes s.delete_set front)
    ∙ sym (put_all-append (set_bytes s.delete_set) (whole s.state_map) front)

-- A snapshot that is encoded in version 1 into a buffer is decoded from there, with the cursor left
-- behind it, where all its numbers fit their widths and no client stands twice in one part of it.
pub decode_snapshot-encode_snapshot :
    (s : Snapshot) (front rest : List ℕ)
    → IsSnapshot s
    → let out = encode_snapshot (ds_encoder_v1 (List ℕ)) s front in
      decode_snapshot (ds_decoder_v1 Cursor) (before front out rest) ≡ ok (s, behind out rest)
unfolding decode_snapshot
decode_snapshot-encode_snapshot s front rest h =
    let out = snapshot_out s front in
    let y =
      written-Yields front (set_bytes s.delete_set ++ whole s.state_map) rest out
        (snapshot-bytes s front) in
    let (m, y₁, y₂) =
      Yields-append (set_bytes s.delete_set) (whole s.state_map) (before front out rest)
        (behind out rest) y in
    rw
      (
        decode_id_set-bytes s.delete_set (before front out rest) m h.0 h.1 h.2 y₁,
        decode-whole s.state_map m (behind out rest) h.3 h.4 h.5 y₂,
      )
      refl
