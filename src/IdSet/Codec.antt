-- ===== src/IdSet/Codec.antt =====
-- `Encode` and `Decode` of ranges, `IdRanges<()>` and `IdSet` (id_set.rs), over the methods of the
-- encoder and decoder traits for sets of deleted ids (updates/encoder.rs, updates/decoder.rs).
pub mod RoundTrip
pub mod VersionTwo
use crdt_probe.Prelude.{ℕ, zero, suc, ◌+◌, ◌-◌, ◌%◌, ◌^◌, List, [], ◌∷◌, ◌++◌, length}
use crdt_probe.Prelude.Maps.{insert}
use crdt_probe.Encoding.Result.{Result, ok, ◌>>=◌}
use crdt_probe.Encoding.Io.{Write, Read}
use crdt_probe.Encoding.VarInt.{write_var, read_var_u32, read_var_u64}
use crdt_probe.Ids.Ranges.{Entry, entry}
use crdt_probe.StateVector.Codec.{client_id}
use crdt_probe.IdSet.{IdRange, IdSet}

pub record DsEncoder (W : Type 0) : Type 0 where
  pub reset_ds_cur_val : W → W
  pub write_ds_clock : ℕ → W → W
  pub write_ds_len : ℕ → W → W

pub record DsDecoder (R : Type 0) : Type 0 where
  pub reset_ds_read_val : R → R
  pub read_ds_clock : R → Result (ℕ × R)
  pub read_ds_len : R → Result (ℕ × R)

-- Version 1 writes clocks and lengths as they are.
abbrev pub ds_encoder_v1 : (W : Type 0) ⦃w : Write W⦄ → DsEncoder W
ds_encoder_v1 W = record {
  reset_ds_cur_val = λ out. out;
  write_ds_clock = λ clock out. write_var clock out;
  write_ds_len = λ len out. write_var len out;
}

abbrev pub ds_decoder_v1 : (R : Type 0) ⦃r : Read R⦄ → DsDecoder R
ds_decoder_v1 R = record {
  reset_ds_read_val = λ reader. reader;
  read_ds_clock = λ reader. read_var_u32 reader;
  read_ds_len = λ reader. read_var_u32 reader;
}

-- `len() as u32`.
abbrev pub len_u32 : {A : Type 0} → List A → ℕ
len_u32 l = length l % 2 ^ 32

module _ {W : Type 0} ⦃w : Write W⦄ (ds : DsEncoder W) where
  -- `self.end - self.start` on u32.
  unfoldable pub encode_range : ℕ → ℕ → W → W
  encode_range start end out =
      ds.write_ds_len ((end + 2 ^ 32 - start) % 2 ^ 32) (ds.write_ds_clock start out)

  unfoldable pub encode_each_range : IdRange → W → W
  unfolding encode_range
  encode_each_range [] out = out
  encode_each_range (x ∷ xs) out = encode_each_range xs (encode_range x.start x.end out)

  unfoldable pub encode_ranges : IdRange → W → W
  unfolding encode_each_range
  encode_ranges xs out = encode_each_range xs (write_var (len_u32 xs) out)

  unfoldable pub encode_each_client : IdSet → W → W
  unfolding encode_ranges
  encode_each_client [] out = out
  encode_each_client (x ∷ set) out =
      encode_each_client set (encode_ranges x.1 (write_var x.0 (ds.reset_ds_cur_val out)))

  unfoldable pub encode_id_set : IdSet → W → W
  unfolding encode_each_client
  encode_id_set set out = encode_each_client set (write_var (len_u32 set) out)

module _ {R : Type 0} ⦃r : Read R⦄ (ds : DsDecoder R) where
  unfoldable pub decode_range : R → Result ((ℕ × ℕ) × R)
  decode_range reader = do
    (clock, reader₁) ← ds.read_ds_clock reader
    (len, reader₂) ← ds.read_ds_len reader₁
    ok ((clock, (clock + len) % 2 ^ 32), reader₂)

  -- `for _ in 0..len`; the ranges are taken as they come.
  unfoldable pub decode_each_range : ℕ → IdRange → R → Result (IdRange × R)
  unfolding decode_range
  decode_each_range zero xs reader = ok (xs, reader)
  decode_each_range (suc left) xs reader = do
    (range, reader₁) ← decode_range reader
    decode_each_range left (xs ++ entry range.0 range.1 tt ∷ []) reader₁

  unfoldable pub decode_ranges : R → Result (IdRange × R)
  unfolding decode_each_range
  decode_ranges reader = do (len, reader₁) ← read_var_u32 reader; decode_each_range len [] reader₁

  -- `while i < client_len`
  unfoldable pub decode_each_client : ℕ → IdSet → R → Result (IdSet × R)
  unfolding decode_ranges
  decode_each_client zero set reader = ok (set, reader)
  decode_each_client (suc left) set reader = do
    (client, reader₁) ← read_var_u64 (ds.reset_ds_read_val reader)
    (range, reader₂) ← decode_ranges reader₁
    decode_each_client left (insert (client_id client) range set) reader₂

  unfoldable pub decode_id_set : R → Result (IdSet × R)
  unfolding decode_each_client
  decode_id_set reader = do (len, reader₁) ← read_var_u32 reader; decode_each_client len [] reader₁
