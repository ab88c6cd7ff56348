-- ===== src/Content/Codec/RoundTrip.antt =====
-- The fields that contents of items (block.rs) are written as, and what is read from them.
use crdt_probe.Prelude.{
  ℕ, suc, ◌%◌, ◌^◌, ◌<◌, ◌≡◌, refl, ap, none, List, [], ◌∷◌, ◌++◌, length, arith, length-append,
  lt→ltb,
}
use crdt_probe.Encoding.Result.{ok}
use crdt_probe.Values.{Any}
use crdt_probe.Docs.{
  TypeRef, array, map, xml_element, xml_fragment, xml_hook, xml_text, sub_doc, weak_link, undefined,
  Options, as_any, options_of, received, options_of-as_any,
}
use crdt_probe.Docs
use crdt_probe.Fields.{
  Encoder, Decoder, Field, type_ref, len, raw, text, key, json_value, any_value, put_fields, Gives,
}
use crdt_probe.Links.Codec.RoundTrip.{
  link_fields, IsLink, encode_weak_link-put, decode_weak_link-read,
}
use crdt_probe.Content.{
  ItemContent, any, binary, deleted, doc, json, embed, format, string, type, get_ref_number,
}
use crdt_probe.Content.Codec.{
  encode_type_ref, encode_options, encode_strings, encode_values, encode_content, decode_type_ref,
  decode_options, read_strings, read_values, decode_json_strings, decode_values, loaded,
  decode_content,
}

abbrev pub type_fields : TypeRef → List Field
type_fields array = type_ref 0 ∷ []
type_fields map = type_ref 1 ∷ []
type_fields Docs.text = type_ref 2 ∷ []
type_fields (xml_element name) = type_ref 3 ∷ key name ∷ []
type_fields xml_fragment = type_ref 4 ∷ []
type_fields xml_hook = type_ref 5 ∷ []
type_fields xml_text = type_ref 6 ∷ []
type_fields sub_doc = type_ref 9 ∷ []
type_fields (weak_link l) = link_fields l
type_fields undefined = type_ref 15 ∷ []

abbrev pub texts : List (List ℕ) → List Field
texts [] = []
texts (s ∷ strings) = text s ∷ texts strings

abbrev pub values : List Any → List Field
values [] = []
values (v ∷ vs) = any_value v ∷ values vs

abbrev pub content_fields : ItemContent → List Field
content_fields (deleted n) = len n ∷ []
content_fields (binary buf) = raw buf ∷ []
content_fields (string s) = text s ∷ []
content_fields (embed v) = json_value v ∷ []
content_fields (json strings) = len (length strings % 2 ^ 32) ∷ texts strings
content_fields (format k v) = key k ∷ json_value v ∷ []
content_fields (type t) = type_fields t
content_fields (any vs) = len (length vs % 2 ^ 32) ∷ values vs
content_fields (doc parent o) = text o.guid ∷ any_value (as_any o) ∷ []

module _ {W : Type 0} (e : Encoder W) where
  texts-put :
      (strings : List (List ℕ)) (out : W)
      → encode_strings e strings out ≡ put_fields e (texts strings) out
  unfolding encode_strings
  texts-put [] out = refl
  texts-put (s ∷ strings) out = texts-put strings (e.write_text s out)

  values-put : (vs : List Any) (out : W) → encode_values e vs out ≡ put_fields e (values vs) out
  unfolding encode_values
  values-put [] out = refl
  values-put (v ∷ vs) out = values-put vs (e.write_any v out)

  type-put : (t : TypeRef) (out : W) → encode_type_ref e t out ≡ put_fields e (type_fields t) out
  unfolding encode_type_ref
  type-put array out = refl
  type-put map out = refl
  type-put Docs.text out = refl
  type-put (xml_element name) out = refl
  type-put xml_fragment out = refl
  type-put xml_hook out = refl
  type-put xml_text out = refl
  type-put sub_doc out = refl
  type-put (weak_link l) out = encode_weak_link-put e l out
  type-put undefined out = refl

  -- A content is written as its fields.
  pub encode_content-put :
      (c : ItemContent) (out : W) → encode_content e c out ≡ put_fields e (content_fields c) out
  unfolding encode_content encode_options
  encode_content-put (deleted n) out = refl
  encode_content-put (binary buf) out = refl
  encode_content-put (string s) out = refl
  encode_content-put (embed v) out = refl
  encode_content-put (json strings) out = texts-put strings _
  encode_content-put (format k v) out = refl
  encode_content-put (type t) out = type-put t out
  encode_content-put (any vs) out = values-put vs _
  encode_content-put (doc parent o) out = refl

-- The content that arrives: a document is made anew from its options.
abbrev pub arrived : Options → ItemContent → ItemContent
arrived fresh (doc parent o) = doc none (loaded (received o fresh))
arrived fresh c = c

abbrev pub IsSentType : TypeRef → Type 0
IsSentType (weak_link l) = IsLink l
IsSentType _ = Unit

-- Contents other than strings of JSON, of fewer than 2 ^ 32 elements.
abbrev pub IsSent : ItemContent → Type 0
IsSent (json strings) = ⊥
IsSent (any vs) = length vs < 2 ^ 32
IsSent (type t) = IsSentType t
IsSent _ = Unit

module _ {R : Type 0} (d : Decoder R) where
  texts-read :
      (strings : List (List ℕ)) (r r' : R)
      → Gives d r (texts strings) r'
      → read_strings d (length strings) r ≡ ok (strings, r')
  unfolding read_strings
  texts-read [] r r' g = ap (λ (x : R). ok ([], x)) g
  texts-read (s ∷ strings) r r' (m, e, g) = rw (e, texts-read strings m r' g) refl

  texts-Gives :
      (strings : List (List ℕ)) (s : List ℕ) (r r' : R)
      → Gives d r (texts strings ++ text s ∷ []) r'
      → Gives d r (texts (strings ++ s ∷ [])) r'
  texts-Gives [] s r r' g = g
  texts-Gives (x ∷ strings) s r r' (m, e, g) = (m, e, texts-Gives strings s m r' g)

  values-read :
      (vs : List Any) (r r' : R)
      → Gives d r (values vs) r'
      → read_values d (length vs) r ≡ ok (vs, r')
  unfolding read_values
  values-read [] r r' g = ap (λ (x : R). ok ([], x)) g
  values-read (v ∷ vs) r r' (m, e, g) = rw (e, values-read vs m r' g) refl

  type-read :
      (t : TypeRef) (r r' : R)
      → IsSentType t
      → Gives d r (type_fields t) r'
      → decode_type_ref d r ≡ ok (t, r')
  unfolding decode_type_ref
  type-read array r r' h (m, e, g) = rw (e, g) refl
  type-read map r r' h (m, e, g) = rw (e, g) refl
  type-read Docs.text r r' h (m, e, g) = rw (e, g) refl
  type-read (xml_element name) r r' h (m, e, (m', f, g)) = rw (e, f, g) refl
  type-read xml_fragment r r' h (m, e, g) = rw (e, g) refl
  type-read xml_hook r r' h (m, e, g) = rw (e, g) refl
  type-read xml_text r r' h (m, e, g) = rw (e, g) refl
  type-read sub_doc r r' h (m, e, g) = rw (e, g) refl
  type-read (weak_link l) r r' h (m, e, g) = rw (e, decode_weak_link-read d l m r' h g) refl
  type-read undefined r r' h (m, e, g) = rw (e, g) refl

  -- From its fields a content is read as it was, with its kind in the low bits of `ref_num`.
  pub decode_content-read :
      (fresh : Options) (c : ItemContent) (ref_num : ℕ) (r r' : R)
      → IsSent c
      → ref_num % 16 ≡ get_ref_number c
      → Gives d r (content_fields c) r'
      → decode_content d fresh ref_num r ≡ ok (arrived fresh c, r')
  unfolding decode_content get_ref_number decode_values decode_options
  decode_content-read fresh (deleted n) ref_num r r' h k (m, e, g) = rw (k, e, g) refl
  decode_content-read fresh (binary buf) ref_num r r' h k (m, e, g) = rw (k, e, g) refl
  decode_content-read fresh (string s) ref_num r r' h k (m, e, g) = rw (k, e, g) refl
  decode_content-read fresh (embed v) ref_num r r' h k (m, e, g) = rw (k, e, g) refl
  decode_content-read fresh (json strings) ref_num r r' h k g = absurd h
  decode_content-read fresh (format k' v) ref_num r r' h k (m, e, (m', f, g)) = rw (k, e, f, g) refl
  decode_content-read fresh (type t) ref_num r r' h k g = rw (k, type-read t r r' h g) refl
  decode_content-read fresh (any vs) ref_num r r' h k (m, e, g) =
      let exact : length vs % 2 ^ 32 ≡ length vs = omega (arith, h) in
      rw (k, e, exact, values-read vs m r' g) refl
  decode_content-read fresh (doc parent o) ref_num r r' h k (m, e, (m', f, g)) =
      rw (k, e, f, options_of-as_any o fresh, g) refl

  -- Strings of JSON take a string more than was written: with another string behind their fields,
  -- that string is read as the last of them.
  pub decode_content-json :
      (fresh : Options) (strings : List (List ℕ)) (s : List ℕ) (ref_num : ℕ) (r r' : R)
      → length strings < 2 ^ 31
      → ref_num % 16 ≡ get_ref_number (json strings)
      → Gives d r (content_fields (json strings) ++ text s ∷ []) r'
      → decode_content d fresh ref_num r ≡ ok (json (strings ++ s ∷ []), r')
  unfolding decode_content get_ref_number decode_json_strings
  decode_content-json fresh strings s ref_num r r' h k (m, e, g) =
      let exact : length strings % 2 ^ 32 ≡ length strings = omega (arith, h) in
      let more : suc (length strings) ≡ length (strings ++ s ∷ []) =
        omega (arith, length-append strings (s ∷ [])) in
      let all = texts-read (strings ++ s ∷ []) m r' (texts-Gives strings s m r' g) in
      rw (k, e, exact, lt→ltb (length strings) (2 ^ 31) h, more, all) refl
