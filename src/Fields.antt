-- ===== src/Fields.antt =====
-- The traits `Encoder` and `Decoder` of updates/encoder.rs and updates/decoder.rs, as far as blocks
-- use them, and the fields that blocks are written as. The two versions of the format implement
-- them.
use crdt_probe.Prelude.{ℕ, ◌≡◌, Bool, List, [], ◌∷◌, ◌++◌, refl}
use crdt_probe.Encoding.Result.{Result, ok}
use crdt_probe.Blocks.{BlockId}
use crdt_probe.Values.{Any}

pub record Encoder (W : Type 0) : Type 0 where
  pub write_info : ℕ → W → W
  pub write_left_id : BlockId → W → W
  pub write_right_id : BlockId → W → W
  pub write_parent_info : Bool → W → W
  pub write_type_ref : ℕ → W → W
  pub write_len : ℕ → W → W
  pub write_number : ℕ → W → W
  pub write_client : ℕ → W → W
  pub write_byte : ℕ → W → W
  pub write_bytes : List ℕ → W → W
  pub write_text : List ℕ → W → W
  pub write_key : List ℕ → W → W
  pub write_json : Any → W → W
  pub write_any : Any → W → W

-- `read_number` is `read_var` for a `u32`, `read_client` for a `u64`, and `read_byte` is `read_u8`.
pub record Decoder (R : Type 0) : Type 0 where
  pub read_info : R → Result (ℕ × R)
  pub read_left_id : R → Result (BlockId × R)
  pub read_right_id : R → Result (BlockId × R)
  pub read_parent_info : R → Result (Bool × R)
  pub read_type_ref : R → Result (ℕ × R)
  pub read_len : R → Result (ℕ × R)
  pub read_number : R → Result (ℕ × R)
  pub read_client : R → Result (ℕ × R)
  pub read_byte : R → Result (ℕ × R)
  pub read_bytes : R → Result (List ℕ × R)
  pub read_text : R → Result (List ℕ × R)
  pub read_key : R → Result (List ℕ × R)
  pub read_json : R → Result (Any × R)
  pub read_any : R → Result (Any × R)

-- What one call writes.
pub data Field : Type 0 where
  info type_ref len number client byte : ℕ → Field
  left_id right_id : BlockId → Field
  parent_info : Bool → Field
  raw text key : List ℕ → Field
  json_value any_value : Any → Field

module _ {W : Type 0} (e : Encoder W) where
  abbrev pub put : Field → W → W
  put (info n) out = e.write_info n out
  put (type_ref n) out = e.write_type_ref n out
  put (len n) out = e.write_len n out
  put (number n) out = e.write_number n out
  put (client n) out = e.write_client n out
  put (byte n) out = e.write_byte n out
  put (left_id id) out = e.write_left_id id out
  put (right_id id) out = e.write_right_id id out
  put (parent_info b) out = e.write_parent_info b out
  put (raw bs) out = e.write_bytes bs out
  put (text s) out = e.write_text s out
  put (key s) out = e.write_key s out
  put (json_value v) out = e.write_json v out
  put (any_value v) out = e.write_any v out

  abbrev pub put_fields : List Field → W → W
  put_fields [] out = out
  put_fields (f ∷ fs) out = put_fields fs (put f out)

  pub put_fields-append :
      (fs gs : List Field) (out : W) → put_fields (fs ++ gs) out ≡ put_fields gs (put_fields fs out)
  put_fields-append [] gs out = refl
  put_fields-append (f ∷ fs) gs out = put_fields-append fs gs (put f out)

module _ {R : Type 0} (d : Decoder R) where
  -- The reader `r` hands out the field, and is `m` after it.
  abbrev pub Hands : R → Field → R → Type 0
  Hands r (info n) m = d.read_info r ≡ ok (n, m)
  Hands r (type_ref n) m = d.read_type_ref r ≡ ok (n, m)
  Hands r (len n) m = d.read_len r ≡ ok (n, m)
  Hands r (number n) m = d.read_number r ≡ ok (n, m)
  Hands r (client n) m = d.read_client r ≡ ok (n, m)
  Hands r (byte n) m = d.read_byte r ≡ ok (n, m)
  Hands r (left_id id) m = d.read_left_id r ≡ ok (id, m)
  Hands r (right_id id) m = d.read_right_id r ≡ ok (id, m)
  Hands r (parent_info b) m = d.read_parent_info r ≡ ok (b, m)
  Hands r (raw bs) m = d.read_bytes r ≡ ok (bs, m)
  Hands r (text s) m = d.read_text r ≡ ok (s, m)
  Hands r (key s) m = d.read_key r ≡ ok (s, m)
  Hands r (json_value v) m = d.read_json r ≡ ok (v, m)
  Hands r (any_value v) m = d.read_any r ≡ ok (v, m)

  abbrev pub Gives : R → List Field → R → Type 0
  Gives r [] r' = r ≡ r'
  Gives r (f ∷ fs) r' = (m : R) × Hands r f m × Gives m fs r'

  pub Gives-append :
      (fs gs : List Field) (r r' : R)
      → Gives r (fs ++ gs) r'
      → (m : R) × Gives r fs m × Gives m gs r'
  Gives-append [] gs r r' h = (r, refl, h)
  Gives-append (f ∷ fs) gs r r' h =
      let (m, a, b) = Gives-append fs gs h.0 r' h.2 in (m, (h.0, h.1, a), b)
