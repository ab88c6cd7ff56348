-- ===== src/IdSet/Codec/VersionTwo.antt =====
-- Version 2 of the ds methods (`EncoderV2` and `DecoderV2` of updates/encoder.rs and
-- updates/decoder.rs): clocks are written as the distance from the end of the range before.
pub mod RoundTrip
use crdt_probe.Prelude.{
  ℕ, zero, suc, ◌+◌, ◌-◌, ◌<◌, ◌≤◌, ◌%◌, ◌^◌, ◌≡◌, refl, sym, ap, ◌∙◌, subst, List, [], ◌∷◌, ◌++◌,
  length, All, arith, append_assoc, append-nil,
}
use crdt_probe.Prelude.Maps.{insert-new, IsMap, IsMap-find}
use crdt_probe.Encoding.Result.{Result, ok, ◌>>=◌}
use crdt_probe.Encoding.Io.{
  Write, Read, vec_write, cursor_read, cursor_read_u8, cursor_read_exact, Cursor, put_all,
  put_all-vec, Yields, Yields-append, before, behind, written-Yields,
}
use crdt_probe.Encoding.Fixed.{write_buf}
use crdt_probe.Encoding.VarInt.{write_var, read_var_u32}
use crdt_probe.Encoding.VarInt.RoundTrip.{
  leb128, write_var-leb128, read_var_u32-leb128, read_var_u64-leb128,
}
use crdt_probe.Ids.Ranges.{Entry}
use crdt_probe.IdSet.{IdRange, IdSet}
use crdt_probe.IdSet.Codec.{
  DsEncoder, DsDecoder, encode_range, encode_each_range, encode_ranges, encode_each_client,
  encode_id_set, decode_range, decode_each_range, decode_ranges, decode_each_client, decode_id_set,
}

-- The fields that the ds methods use: `buf` and `ds_curr_val`, the cursor and `ds_curr_val`.
pub record EncoderV2 : Type 0 where
  pub buf : List ℕ
  pub ds_curr_val : ℕ

pub record DecoderV2 : Type 0 where
  pub cursor : Cursor
  pub ds_curr_val : ℕ

-- `write_all` writes the length of the bytes in front of them.
instance abbrev pub encoder_v2_write : Write EncoderV2
encoder_v2_write = record {
  write_u8 = λ value e. record e { buf = e.buf ++ value ∷ [] };
  write_all = λ bytes e. record e { buf = write_buf bytes e.buf };
}

abbrev pub through : {A : Type 0} → ℕ → Result (A × Cursor) → Result (A × DecoderV2)
through cur m = do (a, c) ← m; ok (a, record { cursor = c; ds_curr_val = cur })

instance abbrev pub decoder_v2_read : Read DecoderV2
decoder_v2_read = record {
  read_u8 = λ d. through d.ds_curr_val (cursor_read_u8 d.cursor);
  read_exact = λ len d. through d.ds_curr_val (cursor_read_exact len d.cursor);
}

-- Sums and differences of u32 wrap.
abbrev pub ds_encoder_v2 : DsEncoder EncoderV2
ds_encoder_v2 = record {
  reset_ds_cur_val = λ e. record e { ds_curr_val = 0 };
  write_ds_clock = λ clock e. record {
    buf = write_var ((clock + 2 ^ 32 - e.ds_curr_val) % 2 ^ 32) e.buf;
    ds_curr_val = clock;
  };
  write_ds_len = λ len e. record {
    buf = write_var ((len + 2 ^ 32 - 1) % 2 ^ 32) e.buf;
    ds_curr_val = (e.ds_curr_val + len) % 2 ^ 32;
  };
}

abbrev pub ds_decoder_v2 : DsDecoder DecoderV2
ds_decoder_v2 = record {
  reset_ds_read_val = λ d. record d { ds_curr_val = 0 };
  read_ds_clock = λ d. do
    (diff, c) ← read_var_u32 d.cursor
    let clock = (d.ds_curr_val + diff) % 2 ^ 32
    ok (clock, record { cursor = c; ds_curr_val = clock });
  read_ds_len = λ d. do
    (less, c) ← read_var_u32 d.cursor
    let diff = (less + 1) % 2 ^ 32
    ok (diff, record { cursor = c; ds_curr_val = (d.ds_curr_val + diff) % 2 ^ 32 });
}
