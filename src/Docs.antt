-- ===== src/Docs.antt =====
-- `Options` of a document (native/yrs-src/yrs/src/doc.rs) as a value of `Any`, and `TypeRef` of
-- types/mod.rs, with the feature `weak`, which yffi/Cargo.toml turns on.
use crdt_probe.Prelude.{
  ℕ, ◌≡◌, refl, Bool, true, false, not, Option, none, some, List, [], ◌∷◌, ◌==◌, if◌then◌else◌,
}
use crdt_probe.Sync.Awareness.{str_eq}
use crdt_probe.Values.{Any, big_int, string, AnyEntries, field, end}
use crdt_probe.Texts.{OffsetKind, bytes, utf16}
use crdt_probe.Links.{LinkSource}
use crdt_probe.Values

pub data TypeRef : Type 0 where
  array map text xml_fragment xml_hook xml_text sub_doc undefined : TypeRef
  xml_element : List ℕ → TypeRef
  weak_link : LinkSource → TypeRef

pub record Options : Type 0 where
  pub client_id : ℕ
  pub guid : List ℕ
  pub collection_id : Option (List ℕ)
  pub offset_kind : OffsetKind
  pub skip_gc : Bool
  pub auto_load : Bool
  pub should_load : Bool
  pub cleanup_formatting : Bool

-- The keys "gc", "collectionId", "encoding", "autoLoad" and "shouldLoad".
abbrev pub key_gc : List ℕ
key_gc = 103 ∷ 99 ∷ []

abbrev pub key_collection : List ℕ
key_collection = 99 ∷ 111 ∷ 108 ∷ 108 ∷ 101 ∷ 99 ∷ 116 ∷ 105 ∷ 111 ∷ 110 ∷ 73 ∷ 100 ∷ []

abbrev pub key_encoding : List ℕ
key_encoding = 101 ∷ 110 ∷ 99 ∷ 111 ∷ 100 ∷ 105 ∷ 110 ∷ 103 ∷ []

abbrev pub key_auto_load : List ℕ
key_auto_load = 97 ∷ 117 ∷ 116 ∷ 111 ∷ 76 ∷ 111 ∷ 97 ∷ 100 ∷ []

abbrev pub key_should_load : List ℕ
key_should_load = 115 ∷ 104 ∷ 111 ∷ 117 ∷ 108 ∷ 100 ∷ 76 ∷ 111 ∷ 97 ∷ 100 ∷ []

abbrev pub encoding_number : OffsetKind → ℕ
encoding_number bytes = 1
encoding_number utf16 = 0

abbrev pub collection_field : Option (List ℕ) → AnyEntries → AnyEntries
collection_field none rest = rest
collection_field (some id) rest = field key_collection (string id) rest

-- `as_any`. The entries of the map are in one of the orders in which a `HashMap` may hand them out.
unfoldable pub as_any : Options → Any
as_any o = Values.map (
    field key_gc (Values.bool (not o.skip_gc)) (
      collection_field o.collection_id (
        field key_encoding (big_int (encoding_number o.offset_kind)) (
          field key_auto_load (Values.bool o.auto_load)
            (field key_should_load (Values.bool o.should_load) end)))))

-- The `match` on an entry.
unfoldable pub read_option : List ℕ → Any → Options → Options
read_option key (Values.bool b) o =
    if str_eq key key_gc
    then record o { skip_gc = not b }
    else if str_eq key key_auto_load
    then record o { auto_load = b }
    else if str_eq key key_encoding
    then record o { offset_kind = utf16 }
    else o
read_option key (string id) o =
    if str_eq key key_collection
    then record o { collection_id = some id }
    else if str_eq key key_encoding
    then record o { offset_kind = utf16 }
    else o
read_option key (big_int n) o =
    if str_eq key key_encoding
    then record o { offset_kind = if n == 1 then bytes else utf16 }
    else o
read_option key v o = if str_eq key key_encoding then record o { offset_kind = utf16 } else o

unfoldable pub read_options : AnyEntries → Options → Options
unfolding read_option
read_options end o = o
read_options (field key v rest) o = read_options rest (read_option key v o)

-- What `decode` makes of the default options, which are random, and of what it has read.
unfoldable pub options_of : List ℕ → Any → Options → Options
unfolding read_options
options_of guid (Values.map entries) fresh =
    read_options entries (record fresh { should_load = false; guid = guid })
options_of guid v fresh = record fresh { should_load = false; guid = guid }

-- The options `o`, after they are written and read.
abbrev pub received : Options → Options → Options
received o fresh = record o {
  client_id = fresh.client_id;
  cleanup_formatting = fresh.cleanup_formatting;
  should_load = false;
  collection_id = elim o.collection_id [ none ↦ fresh.collection_id | some id ↦ some id ];
}

-- The options that are decoded are those that were encoded, but for the client id and the flag for
-- formatting, which are not written, and for `should_load`, which is not read; what is not written
-- is taken from the default options, and so is the collection where there is none.
pub options_of-as_any : (o fresh : Options) → options_of o.guid (as_any o) fresh ≡ received o fresh
unfolding options_of as_any
options_of-as_any o fresh = by_field o.offset_kind o.collection_id o.skip_gc
  where
    by_field :
        (kind : OffsetKind) (id : Option (List ℕ)) (skip : Bool)
        → let o' = record o { offset_kind = kind; collection_id = id; skip_gc = skip } in
          options_of o.guid (as_any o') fresh ≡ received o' fresh
    by_field bytes none true = refl
    by_field bytes none false = refl
    by_field bytes (some id) true = refl
    by_field bytes (some id) false = refl
    by_field utf16 none true = refl
    by_field utf16 none false = refl
    by_field utf16 (some id) true = refl
    by_field utf16 (some id) false = refl
