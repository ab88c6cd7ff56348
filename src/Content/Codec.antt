-- ===== src/Content/Codec.antt =====
-- `encode`, `encode_slice` and `decode` of `ItemContent` (block.rs), `TypeRef` (types/mod.rs) and
-- `Options` (doc.rs), over the traits for encoders and decoders. Memory is enough for what is read.
pub mod RoundTrip
pub mod Suffix
use crdt_probe.Prelude.{
  ℕ, zero, suc, ◌+◌, ◌-◌, ◌%◌, ◌^◌, Bool, true, false, ◌||◌, Option, none, some, List, [], ◌∷◌, ltb,
  ◌==◌, if◌then◌else◌, length, take, drop, get_elem?,
}
use crdt_probe.Encoding.Result.{
  Result, ok, err, fault, panic, unexpected_value, not_enough_memory, ◌>>=◌,
}
use crdt_probe.Values.{Any}
use crdt_probe.Texts.{split_str, utf16}
use crdt_probe.Docs.{
  TypeRef, array, map, text, xml_element, xml_fragment, xml_hook, xml_text, sub_doc, weak_link,
  undefined, Options, as_any, options_of,
}
use crdt_probe.Fields.{Encoder, Decoder}
use crdt_probe.Links.Codec.{encode_weak_link, decode_weak_link}
use crdt_probe.Content.{ItemContent, any, binary, deleted, doc, json, embed, format, string, type}

module _ {W : Type 0} (e : Encoder W) where
  unfoldable pub encode_type_ref : TypeRef → W → W
  unfolding encode_weak_link
  encode_type_ref array out = e.write_type_ref 0 out
  encode_type_ref map out = e.write_type_ref 1 out
  encode_type_ref text out = e.write_type_ref 2 out
  encode_type_ref (xml_element name) out = e.write_key name (e.write_type_ref 3 out)
  encode_type_ref xml_fragment out = e.write_type_ref 4 out
  encode_type_ref xml_hook out = e.write_type_ref 5 out
  encode_type_ref xml_text out = e.write_type_ref 6 out
  encode_type_ref sub_doc out = e.write_type_ref 9 out
  encode_type_ref (weak_link l) out = encode_weak_link e l out
  encode_type_ref undefined out = e.write_type_ref 15 out

  unfoldable pub encode_options : Options → W → W
  unfolding as_any
  encode_options o out = e.write_any (as_any o) (e.write_text o.guid out)

  unfoldable pub encode_strings : List (List ℕ) → W → W
  encode_strings [] out = out
  encode_strings (s ∷ strings) out = encode_strings strings (e.write_text s out)

  unfoldable pub encode_values : List Any → W → W
  encode_values [] out = out
  encode_values (v ∷ values) out = encode_values values (e.write_any v out)

  unfoldable pub encode_content : ItemContent → W → W
  unfolding encode_strings encode_values encode_type_ref encode_options
  encode_content (deleted n) out = e.write_len n out
  encode_content (binary buf) out = e.write_bytes buf out
  encode_content (string s) out = e.write_text s out
  encode_content (embed v) out = e.write_json v out
  encode_content (json strings) out =
      encode_strings strings (e.write_len (length strings % 2 ^ 32) out)
  encode_content (format k v) out = e.write_json v (e.write_key k out)
  encode_content (type t) out = encode_type_ref t out
  encode_content (any values) out = encode_values values (e.write_len (length values % 2 ^ 32) out)
  encode_content (doc parent options) out = encode_options options out

  -- `slice_of xs start end`: the elements from `start` to `end`, `end` included; an index out of
  -- bounds panics.
  abbrev pub slice_of : {A : Type 0} → List A → ℕ → ℕ → Result (List A)
  slice_of xs start end =
      if ltb end (length xs) then ok (take (end + 1 - start) (drop start xs)) else fault panic

  -- The part of a string that is written: cut at both ends, but not at an end that is 0.
  unfoldable pub slice_string : List ℕ → ℕ → ℕ → Result (List ℕ)
  unfolding split_str
  slice_string s start end = do
    right ← if start == 0 then ok s else (do parts ← split_str s start utf16; ok parts.1)
    if end == 0 then ok right else (do parts ← split_str right (end - start + 1) utf16; ok parts.0)

  -- `end` is the last index, and not less than `start`.
  unfoldable pub encode_slice : ItemContent → ℕ → ℕ → W → Result W
  unfolding encode_strings encode_values encode_type_ref encode_options slice_string
  encode_slice (deleted n) start end out = ok (e.write_len (end - start + 1) out)
  encode_slice (binary buf) start end out = ok (e.write_bytes buf out)
  encode_slice (string s) start end out = do
    part ← slice_string s start end
    ok (e.write_text part out)
  encode_slice (embed v) start end out = ok (e.write_json v out)
  encode_slice (json strings) start end out = do
    part ← slice_of strings start end
    ok (encode_strings part (e.write_len (end - start + 1) out))
  encode_slice (format k v) start end out = ok (e.write_json v (e.write_key k out))
  encode_slice (type t) start end out = ok (encode_type_ref t out)
  encode_slice (any values) start end out = do
    part ← slice_of values start end
    ok (encode_values part (e.write_len (end - start + 1) out))
  encode_slice (doc parent options) start end out = ok (encode_options options out)

-- The type of a number that is read.
abbrev pub plain_type_ref : ℕ → Result TypeRef
plain_type_ref n =
    if n == 0
    then ok array
    else if n == 1
    then ok map
    else if n == 2
    then ok text
    else if n == 4
    then ok xml_fragment
    else if n == 5
    then ok xml_hook
    else if n == 6
    then ok xml_text
    else if n == 9
    then ok sub_doc
    else if n == 15
    then ok undefined
    else err unexpected_value

abbrev pub loaded : Options → Options
loaded o = record o { should_load = o.should_load || o.auto_load }

module _ {R : Type 0} (d : Decoder R) where
  unfoldable pub decode_type_ref : R → Result (TypeRef × R)
  unfolding decode_weak_link
  decode_type_ref reader = do
    (n, reader₁) ← d.read_type_ref reader
    let element = (do (name, reader₂) ← d.read_key reader₁; ok (xml_element name, reader₂))
    let link = (do (l, reader₂) ← decode_weak_link d reader₁; ok (weak_link l, reader₂))
    let plain = (do t ← plain_type_ref n; ok (t, reader₁))
    if n == 3 then element else if n == 7 then link else plain

  -- `fresh` are the default options, with a random id.
  unfoldable pub decode_options : Options → R → Result (Options × R)
  unfolding options_of
  decode_options fresh reader = do
    (guid, reader₁) ← d.read_text reader
    (v, reader₂) ← d.read_any reader₁
    ok (options_of guid v fresh, reader₂)

  unfoldable pub read_strings : ℕ → R → Result (List (List ℕ) × R)
  read_strings zero reader = ok ([], reader)
  read_strings (suc n) reader = do
    (s, reader₁) ← d.read_text reader
    (rest, reader₂) ← read_strings n reader₁
    ok (s ∷ rest, reader₂)

  unfoldable pub read_values : ℕ → R → Result (List Any × R)
  read_values zero reader = ok ([], reader)
  read_values (suc n) reader = do
    (v, reader₁) ← d.read_any reader
    (rest, reader₂) ← read_values n reader₁
    ok (v ∷ rest, reader₂)

  -- `while remaining >= 0` with `remaining` from the length down, which is a round more than there
  -- are strings. A length that is negative as an `i32` is more than can be reserved.
  unfoldable pub decode_json_strings : R → Result (List (List ℕ) × R)
  decode_json_strings reader = do
    (n, reader₁) ← d.read_len reader
    if ltb n (2 ^ 31) then read_strings (suc n) reader₁ else err not_enough_memory

  unfoldable pub decode_values : R → Result (List Any × R)
  decode_values reader = do (n, reader₁) ← d.read_len reader; read_values n reader₁

  abbrev with_content : {A : Type 0} → (A → ItemContent) → Result (A × R) → Result (ItemContent × R)
  with_content con x = do (a, reader) ← x; ok (con a, reader)

  -- `ref_num & 0b1111`
  unfoldable pub decode_content : Options → ℕ → R → Result (ItemContent × R)
  decode_content fresh ref_num reader =
      let kind = ref_num % 16 in
      let formatted = (do
        (k, reader₁) ← d.read_key reader
        (v, reader₂) ← d.read_json reader₁
        ok (format k v, reader₂)) in
      if kind == 1
      then with_content deleted (d.read_len reader)
      else if kind == 2
      then with_content json (decode_json_strings reader)
      else if kind == 3
      then with_content binary (d.read_bytes reader)
      else if kind == 4
      then with_content string (d.read_text reader)
      else if kind == 5
      then with_content embed (d.read_json reader)
      else if kind == 6
      then formatted
      else if kind == 7
      then with_content type (decode_type_ref reader)
      else if kind == 8
      then with_content any (decode_values reader)
      else if kind == 9
      then with_content (λ o. doc none (loaded o)) (decode_options fresh reader)
      else err unexpected_value
