-- ===== src/StateVector/Codec.antt =====
-- `Encode` and `Decode` of state vectors: the number of entries, then each client and its clock.
pub mod RoundTrip
use crdt_probe.Prelude.{ℕ, zero, suc, ◌%◌, ◌^◌, List, [], ◌∷◌, length}
use crdt_probe.Prelude.Maps.{insert}
use crdt_probe.Encoding.Result.{Result, ok, ◌>>=◌}
use crdt_probe.Encoding.Io.{Write, Read}
use crdt_probe.Encoding.VarInt.{write_var, read_var_u32, read_var_u64}
use crdt_probe.StateVector.{StateVector}

-- `ClientID::new`, as `ClientID::get` sees it: the mask sets the bits from 53 on, and `get` clears
-- them.
abbrev pub client_id : ℕ → ℕ
client_id value = value % 2 ^ 53

module _ {W : Type 0} ⦃w : Write W⦄ where
  unfoldable pub encode_entries : StateVector → W → W
  encode_entries [] out = out
  encode_entries (x ∷ sv) out = encode_entries sv (write_var x.1 (write_var x.0 out))

  unfoldable pub encode : StateVector → W → W
  unfolding encode_entries
  encode sv out = encode_entries sv (write_var (length sv) out)

module _ {R : Type 0} ⦃r : Read R⦄ where
  -- `while i < len`
  unfoldable pub decode_entries : ℕ → StateVector → R → Result (StateVector × R)
  decode_entries zero sv reader = ok (sv, reader)
  decode_entries (suc left) sv reader = do
    (client, reader₁) ← read_var_u64 reader
    (clock, reader₂) ← read_var_u32 reader₁
    decode_entries left (insert (client_id client) clock sv) reader₂

  unfoldable pub decode : R → Result (StateVector × R)
  unfolding decode_entries
  decode reader = do (len, reader') ← read_var_u32 reader; decode_entries len [] reader'
