-- ===== src/IdSet/Codec/VersionTwo/RoundTrip.antt =====
-- The bytes of id sets (id_set.rs) in version 2, from the writers and to the readers.
use crdt_probe.Prelude.{
  ℕ, ◌+◌, ◌-◌, ◌<◌, ◌≤◌, ◌%◌, ◌^◌, ◌≡◌, refl, sym, ap, ◌∙◌, subst, List, [], ◌∷◌, ◌++◌, length, All,
  arith, append_assoc, append-nil,
}
use crdt_probe.Prelude.Maps.{insert-new, IsMap, IsMap-find}
use crdt_probe.Encoding.Result.{ok}
use crdt_probe.Encoding.Io.{
  vec_write, cursor_read, Cursor, put_all, put_all-vec, Yields, Yields-append, before, behind,
  written-Yields,
}
use crdt_probe.Encoding.VarInt.{write_var}
use crdt_probe.Encoding.VarInt.RoundTrip.{
  leb128, write_var-leb128, read_var_u32-leb128, read_var_u64-leb128,
}
use crdt_probe.IdSet.{IdRange, IdSet}
use crdt_probe.IdSet.Codec.{
  len_u32, encode_range, encode_each_range, encode_ranges, encode_each_client, encode_id_set,
  decode_range, decode_each_range, decode_ranges, decode_each_client, decode_id_set,
}
use crdt_probe.IdSet.Codec.VersionTwo.{
  EncoderV2, DecoderV2, encoder_v2_write, decoder_v2_read, ds_encoder_v2, ds_decoder_v2,
}

-- The ranges are in order from a clock on, none is empty, and the clocks fit 32 bits.
abbrev pub IsSortedFrom : ℕ → IdRange → Type 0
IsSortedFrom cur [] = Unit
IsSortedFrom cur (x ∷ xs) =
    (cur ≤ x.start) × (x.start < x.end) × (x.end < 2 ^ 32) × IsSortedFrom x.end xs

abbrev pub IsSortedClient : ℕ × IdRange → Type 0
IsSortedClient x = (x.0 < 2 ^ 53) × (length x.1 < 2 ^ 32) × IsSortedFrom 0 x.1

number : ℕ → List ℕ
number v = leb128 v v

range_bytes : ℕ → IdRange → List ℕ
range_bytes cur [] = []
range_bytes cur (x ∷ xs) =
    number (x.start - cur) ++ (number (x.end - x.start - 1) ++ range_bytes x.end xs)

last_end : ℕ → IdRange → ℕ
last_end cur [] = cur
last_end cur (x ∷ xs) = last_end x.end xs

abbrev enc : List ℕ → ℕ → EncoderV2
enc buf cur = record { buf = buf; ds_curr_val = cur }

abbrev dec : Cursor → ℕ → DecoderV2
dec c cur = record { cursor = c; ds_curr_val = cur }

write_var-number : (v : ℕ) (buf : List ℕ) → write_var v buf ≡ buf ++ number v
unfolding number
write_var-number v buf = write_var-leb128 v buf ∙ put_all-vec (leb128 v v) buf

encode_range-bytes :
    (start end cur : ℕ) (buf : List ℕ)
    → cur ≤ start
    → start < end
    → end < 2 ^ 32
    → encode_range ds_encoder_v2 start end (enc buf cur)
      ≡ enc (buf ++ (number (start - cur) ++ number (end - start - 1))) end
unfolding encode_range
encode_range-bytes start end cur buf h k l =
    let clock : (start + 2 ^ 32 - cur) % 2 ^ 32 ≡ start - cur = omega arith in
    let len : (end + 2 ^ 32 - start) % 2 ^ 32 ≡ end - start = omega arith in
    let less : (end - start + 2 ^ 32 - 1) % 2 ^ 32 ≡ end - start - 1 = omega arith in
    let stop : (start + (end - start)) % 2 ^ 32 ≡ end = omega arith in
    rw (clock, len, less, stop)
      (ap (λ (b : List ℕ). enc b end)
        (write_var-number (end - start - 1) _
          ∙ ap (λ t. t ++ number (end - start - 1)) (write_var-number (start - cur) buf)
          ∙ append_assoc buf (number (start - cur)) (number (end - start - 1))))

encode_each_range-bytes :
    (xs : IdRange) (cur : ℕ) (buf : List ℕ)
    → IsSortedFrom cur xs
    → encode_each_range ds_encoder_v2 xs (enc buf cur)
      ≡ enc (buf ++ range_bytes cur xs) (last_end cur xs)
unfolding encode_each_range range_bytes last_end
encode_each_range-bytes [] cur buf h = ap (λ (b : List ℕ). enc b cur) (sym (append-nil buf))
encode_each_range-bytes (x ∷ xs) cur buf (h, k, l, more) =
    let first = number (x.start - cur) in
    let second = number (x.end - x.start - 1) in
    ap (encode_each_range ds_encoder_v2 xs) (encode_range-bytes x.start x.end cur buf h k l)
    ∙ encode_each_range-bytes xs x.end (buf ++ (first ++ second)) more
    ∙ ap (λ (b : List ℕ). enc b (last_end x.end xs))
        (append_assoc buf (first ++ second) (range_bytes x.end xs)
          ∙ ap (λ t. buf ++ t) (append_assoc first second (range_bytes x.end xs)))

-- What a cursor yields, the decoder over it yields.
dec-Yields :
    (bs : List ℕ) (cur : ℕ) (c c' : Cursor)
    → Yields {R = Cursor} c bs c'
    → Yields {R = DecoderV2} (dec c cur) bs (dec c' cur)
dec-Yields [] cur c c' y = ap (λ (t : Cursor). dec t cur) y
dec-Yields (b ∷ bs) cur c c' (m, e, y) = (dec m cur, rw e refl, dec-Yields bs cur m c' y)

decode_range-bytes :
    (start end cur : ℕ) (c c' : Cursor)
    → cur ≤ start
    → start < end
    → end < 2 ^ 32
    → Yields {R = Cursor} c (number (start - cur) ++ number (end - start - 1)) c'
    → decode_range ds_decoder_v2 (dec c cur) ≡ ok ((start, end), dec c' end)
unfolding decode_range number
decode_range-bytes start end cur c c' h k l y =
    let (m, y₁, y₂) = Yields-append (leb128 (start - cur) (start - cur)) _ c c' y in
    let clock : (cur + (start - cur)) % 2 ^ 32 ≡ start = omega arith in
    let len : (end - start - 1 + 1) % 2 ^ 32 ≡ end - start = omega arith in
    let stop : (start + (end - start)) % 2 ^ 32 ≡ end = omega arith in
    rw
      (
        read_var_u32-leb128 (start - cur) c m (omega arith) y₁,
        clock,
        read_var_u32-leb128 (end - start - 1) m c' (omega arith) y₂,
        len,
        stop,
      )
      refl

decode_each_range-bytes :
    (xs acc : IdRange) (cur : ℕ) (c c' : Cursor)
    → IsSortedFrom cur xs
    → Yields {R = Cursor} c (range_bytes cur xs) c'
    → decode_each_range ds_decoder_v2 (length xs) acc (dec c cur)
      ≡ ok (acc ++ xs, dec c' (last_end cur xs))
unfolding decode_each_range range_bytes last_end
decode_each_range-bytes [] acc cur c c' h y = rw (append-nil acc, y) refl
decode_each_range-bytes (x ∷ xs) acc cur c c' (h, k, l, more) y =
    let first = number (x.start - cur) in
    let second = number (x.end - x.start - 1) in
    let y' =
      subst (λ t. Yields {R = Cursor} c t c')
        (sym (append_assoc first second (range_bytes x.end xs))) y in
    let (m, y₁, y₂) = Yields-append (first ++ second) (range_bytes x.end xs) c c' y' in
    rw (decode_range-bytes x.start x.end cur c m h k l y₁) (
      decode_each_range-bytes xs (acc ++ x ∷ []) x.end m c' more y₂
      ∙ rw (append_assoc acc (x ∷ []) xs))

client_bytes : IdSet → List ℕ
client_bytes [] = []
client_bytes (x ∷ set) =
    number x.0 ++ (number (len_u32 x.1) ++ (range_bytes 0 x.1 ++ client_bytes set))

set_end : ℕ → IdSet → ℕ
set_end cur [] = cur
set_end cur (x ∷ set) = set_end (last_end 0 x.1) set

put_all-enc :
    (bs : List ℕ) (buf : List ℕ) (cur : ℕ) → put_all bs (enc buf cur) ≡ enc (buf ++ bs) cur
put_all-enc [] buf cur = ap (λ (b : List ℕ). enc b cur) (sym (append-nil buf))
put_all-enc (b ∷ bs) buf cur =
    put_all-enc bs (buf ++ b ∷ []) cur
    ∙ ap (λ (t : List ℕ). enc t cur) (append_assoc buf (b ∷ []) bs)

write_var-enc :
    (v : ℕ) (buf : List ℕ) (cur : ℕ) → write_var v (enc buf cur) ≡ enc (buf ++ number v) cur
unfolding number
write_var-enc v buf cur = write_var-leb128 v (enc buf cur) ∙ put_all-enc (leb128 v v) buf cur

encode_each_client-bytes :
    (set : IdSet) (cur : ℕ) (buf : List ℕ)
    → All IsSortedClient set
    → encode_each_client ds_encoder_v2 set (enc buf cur)
      ≡ enc (buf ++ client_bytes set) (set_end cur set)
unfolding encode_each_client encode_ranges client_bytes set_end
encode_each_client-bytes [] cur buf h = ap (λ (b : List ℕ). enc b cur) (sym (append-nil buf))
encode_each_client-bytes (x ∷ set) cur buf ((c, n, s), h) =
    let name = number x.0 in
    let count = number (len_u32 x.1) in
    let ranges = range_bytes 0 x.1 in
    ap
      (λ e.
        encode_each_client ds_encoder_v2 set
          (encode_each_range ds_encoder_v2 x.1 (write_var (len_u32 x.1) e)))
      (write_var-enc x.0 buf 0)
    ∙ ap (λ e. encode_each_client ds_encoder_v2 set (encode_each_range ds_encoder_v2 x.1 e))
        (write_var-enc (len_u32 x.1) (buf ++ name) 0)
    ∙ ap (encode_each_client ds_encoder_v2 set)
        (encode_each_range-bytes x.1 0 ((buf ++ name) ++ count) s)
    ∙ encode_each_client-bytes set (last_end 0 x.1) (((buf ++ name) ++ count) ++ ranges) h
    ∙ ap (λ (b : List ℕ). enc b (set_end (last_end 0 x.1) set))
        (append_assoc ((buf ++ name) ++ count) ranges (client_bytes set)
          ∙ append_assoc (buf ++ name) count (ranges ++ client_bytes set)
          ∙ append_assoc buf name (count ++ (ranges ++ client_bytes set)))

decode_each_client-bytes :
    (set acc : IdSet) (cur : ℕ) (c c' : Cursor)
    → All IsSortedClient set
    → IsMap (acc ++ set)
    → Yields {R = Cursor} c (client_bytes set) c'
    → decode_each_client ds_decoder_v2 (length set) acc (dec c cur)
      ≡ ok (acc ++ set, dec c' (set_end cur set))
unfolding decode_each_client decode_ranges client_bytes set_end number
decode_each_client-bytes [] acc cur c c' h k y = rw (append-nil acc, y) refl
decode_each_client-bytes (x ∷ set) acc cur c c' ((wide, n, s), h) k y =
    let (m, y₁, z₁) = Yields-append (leb128 x.0 x.0) _ c c' y in
    let (o, y₂, z₂) = Yields-append (leb128 (len_u32 x.1) (len_u32 x.1)) _ m c' z₁ in
    let (p, y₃, z₃) = Yields-append (range_bytes 0 x.1) (client_bytes set) o c' z₂ in
    let first = read_var_u64-leb128 x.0 (dec c 0) (dec m 0) (omega arith) (dec-Yields _ 0 c m y₁) in
    let second =
      read_var_u32-leb128 (len_u32 x.1) (dec m 0) (dec o 0) (omega arith) (dec-Yields _ 0 m o y₂) in
    let exact : len_u32 x.1 ≡ length x.1 = omega (arith, n) in
    let third = decode_each_range-bytes x.1 [] 0 o p s y₃ in
    let small : x.0 % 2 ^ 53 ≡ x.0 = omega arith in
    let k' : IsMap ((acc ++ x ∷ []) ++ set) = rw (append_assoc acc (x ∷ []) set) k in
    rw (first, second, exact, third, small, insert-new acc x.0 x.1 (IsMap-find acc set x k))
      (decode_each_client-bytes set (acc ++ x ∷ []) (last_end 0 x.1) p c' h k' z₃
        ∙ rw (append_assoc acc (x ∷ []) set))

decoded :
    (set : IdSet) (cur : ℕ) (c c' : Cursor)
    → length set < 2 ^ 32
    → All IsSortedClient set
    → IsMap set
    → Yields {R = Cursor} c (number (len_u32 set) ++ client_bytes set) c'
    → decode_id_set ds_decoder_v2 (dec c cur) ≡ ok (set, dec c' (set_end cur set))
unfolding decode_id_set number
decoded set cur c c' l h i y =
    let exact : len_u32 set ≡ length set = omega (arith, l) in
    let (m, y₁, y₂) =
      Yields-append (leb128 (len_u32 set) (len_u32 set)) (client_bytes set) c c' y in
    rw
      (
        read_var_u32-leb128 (len_u32 set) (dec c cur) (dec m cur) (omega arith)
            (dec-Yields _ cur c m y₁),
        exact,
      )
      (decode_each_client-bytes set [] cur m c' h i y₂)

-- An id set that is encoded in version 2 into a buffer is decoded from there, with the cursor left
-- behind it, whatever the state of the encoder and the decoder before, where no client stands
-- twice, all numbers fit their widths, and the ranges of every client are in order and not empty.
pub decode_id_set-encode_id_set_v2 :
    (set : IdSet) (front rest : List ℕ) (before_enc before_dec : ℕ)
    → length set < 2 ^ 32
    → All IsSortedClient set
    → IsMap set
    → let out =
        (encode_id_set ds_encoder_v2 set (record { buf = front; ds_curr_val = before_enc })).buf in
      (last : ℕ) × (decode_id_set ds_decoder_v2
          (record { cursor = before front out rest; ds_curr_val = before_dec })
        ≡ ok (set, record { cursor = behind out rest; ds_curr_val = last }))
unfolding encode_id_set decode_id_set
decode_id_set-encode_id_set_v2 set front rest j k l h i =
    let out = (encode_id_set ds_encoder_v2 set (enc front j)).buf in
    let count = number (len_u32 set) in
    let written : out ≡ front ++ (count ++ client_bytes set) =
      ap (λ (e : EncoderV2). (encode_each_client ds_encoder_v2 set e).buf)
        (write_var-enc (len_u32 set) front j)
      ∙ ap (λ (e : EncoderV2). e.buf) (encode_each_client-bytes set j (front ++ count) h)
      ∙ append_assoc front count (client_bytes set) in
    let y =
      written-Yields front (count ++ client_bytes set) rest out
        (written ∙ sym (put_all-vec (count ++ client_bytes set) front)) in
    (set_end k set, decoded set k _ _ l h i y)
