-- ===== src/Snapshot.antt =====
-- `Snapshot` of native/yrs-src/yrs/src/state_vector.rs: what had been inserted and what deleted at
-- a point in time.
pub mod Codec
use crdt_probe.Prelude.{ℕ, Bool, not, ◌&&◌, ltb, List}
use crdt_probe.Encoding.Result.{Result, ok, ◌>>=◌}
use crdt_probe.Encoding.Io.{Write, Read}
use crdt_probe.StateVector.{StateVector, get}
use crdt_probe.StateVector.Codec.{encode, decode}
use crdt_probe.IdMap.{contains}
use crdt_probe.IdSet.{IdSet}
use crdt_probe.IdSet.Codec.{DsEncoder, DsDecoder, encode_id_set, decode_id_set}

pub record Snapshot : Type 0 where
  pub delete_set : IdSet
  pub state_map : StateVector

-- Of the id of a client and a clock.
unfoldable pub is_visible : ℕ → ℕ → Snapshot → Bool
is_visible client clock s =
    ltb clock (get client s.state_map) && not (contains client clock s.delete_set)

unfoldable pub encode_snapshot : {W : Type 0} ⦃w : Write W⦄ → DsEncoder W → Snapshot → W → W
encode_snapshot ds s out = encode s.state_map (encode_id_set ds s.delete_set out)

unfoldable pub decode_snapshot : {R : Type 0} ⦃r : Read R⦄ → DsDecoder R → R → Result (Snapshot × R)
decode_snapshot ds reader = do
  (set, reader₁) ← decode_id_set ds reader
  (sv, reader₂) ← decode reader₁
  ok (record { delete_set = set; state_map = sv }, reader₂)
