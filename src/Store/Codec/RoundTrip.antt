-- ===== src/Store/Codec/RoundTrip.antt =====
-- The fields that the blocks of block.rs are written as, and what `decode_block` of update.rs reads.
use crdt_probe.Prelude.{
  ℕ, ◌<◌, ◌≡◌, refl, ap, Bool, true, false, ◌&&◌, Option, none, some, List, [], ◌++◌, arith, ◌==◌,
  if◌then◌else◌,
}
use crdt_probe.Encoding.Result.{Result, ok}
use crdt_probe.Texts.{utf16}
use crdt_probe.Docs.{Options}
use crdt_probe.Fields.{
  Encoder, Decoder, Field, left_id, right_id, text, put_fields, Gives, Gives-append, Hands,
}
use crdt_probe.Content.{
  ItemContent, any, binary, deleted, doc, json, embed, format, string, type, content_len,
  is_countable,
}
use crdt_probe.Content.Codec.RoundTrip.{content_fields, arrived, IsSent, decode_content-read}
use crdt_probe.Items.{Item, TypePtr, unknown, branch, named, parent_id}
use crdt_probe.Store.{item}
use crdt_probe.Store.Codec.{
  is_some, item_info, has_no_origin, encode_block, new_item, read_opt, read_parent, decode_item,
  decode_block,
}
use crdt_probe.Store.Codec.Bits.{bits_of_info}
use crdt_probe.Store.Codec.Puts.{
  wire_parent, named_fields, IsNamed, opt_field, place_fields, item_fields, encode_item-put,
}

module _ {R : Type 0} (d : Decoder R) where
  opt-read :
      {A : Type 0} (read : R → Result (A × R)) (con : A → Field) (o : Option A) (r r' : R)
      → ((a : A) (x y : R) → Hands d x (con a) y → read x ≡ ok (a, y))
      → Gives d r (opt_field con o) r'
      → read_opt d (is_some o) read r ≡ ok (o, r')
  opt-read read con none r r' h g = ap (λ (x : R). ok (none, x)) g
  opt-read read con (some a) r r' h (m, f, g) = rw (h a r m f, g) refl

  parent-read :
      (parent : TypePtr) (r r' : R)
      → IsNamed parent
      → Gives d r (named_fields parent) r'
      → read_parent d true r ≡ ok (parent, r')
  unfolding read_parent
  parent-read (named name) r r' h (m, e, (m', f, g)) = rw (e, f, g) refl
  parent-read (parent_id id) r r' h (m, e, (m', f, g)) = rw (e, f, g) refl
  parent-read unknown r r' h g = absurd h
  parent-read (branch b) r r' h g = absurd h

  sub-read :
      (b : Bool) (sub : Option (List ℕ)) (r r' : R)
      → Gives d r (if b then opt_field text sub else []) r'
      → read_opt d (b && is_some sub) d.read_text r ≡ ok ((if b then sub else none), r')
  sub-read false sub r r' g = ap (λ (x : R). ok (none, x)) g
  sub-read true sub r r' g = opt-read d.read_text text sub r r' (λ a x y h. h) g

  place-read :
      (b : Bool) (parent : TypePtr) (i : Item) (r r' : R)
      → IsNamed parent
      → Gives d r (place_fields b parent i) r'
      → (m : R) × (read_parent d b r ≡ ok ((if b then parent else unknown), m))
        × (read_opt d (b && is_some i.parent_sub) d.read_text m
            ≡ ok ((if b then i.parent_sub else none), r'))
  unfolding read_parent
  place-read false parent i r r' h g = (r, refl, ap (λ (x : R). ok (none, x)) g)
  place-read true parent i r r' h g =
      let (m, a, b) = Gives-append d (named_fields parent) (opt_field text i.parent_sub) r r' g in
      (m, parent-read parent r m h a, sub-read true i.parent_sub m r' b)

-- The item that arrives: without neighbours, and with its parent and its key only where they cannot
-- be copied from a neighbour.
abbrev pub arrived_item : Options → TypePtr → Item → Item
arrived_item fresh parent i =
    let placed = has_no_origin (item_info i) in
    record i {
      left = none;
      right = none;
      content = arrived fresh i.content;
      parent = if placed then parent else unknown;
      redone = none;
      parent_sub = if placed then i.parent_sub else none;
      info = if is_countable i.content then 2 else 0;
    }

arrived-len :
    (fresh : Options) (c : ItemContent) → content_len utf16 (arrived fresh c) ≡ content_len utf16 c
unfolding content_len
arrived-len fresh (any vs) = refl
arrived-len fresh (binary buf) = refl
arrived-len fresh (deleted n) = refl
arrived-len fresh (doc p o) = refl
arrived-len fresh (json strings) = refl
arrived-len fresh (embed v) = refl
arrived-len fresh (format k v) = refl
arrived-len fresh (string s) = refl
arrived-len fresh (type t) = refl

arrived-countable :
    (fresh : Options) (c : ItemContent) → is_countable (arrived fresh c) ≡ is_countable c
unfolding is_countable
arrived-countable fresh (any vs) = refl
arrived-countable fresh (binary buf) = refl
arrived-countable fresh (deleted n) = refl
arrived-countable fresh (doc p o) = refl
arrived-countable fresh (json strings) = refl
arrived-countable fresh (embed v) = refl
arrived-countable fresh (format k v) = refl
arrived-countable fresh (string s) = refl
arrived-countable fresh (type t) = refl

-- The length of an item is that of its content, and not 0.
abbrev pub HasLength : Item → Type 0
HasLength i = (content_len utf16 i.content ≡ i.len) × (0 < i.len)

new_item-arrived :
    (fresh : Options) (parent : TypePtr) (i : Item)
    → HasLength i
    → let placed = has_no_origin (item_info i) in
      new_item i.id i.origin i.right_origin
        (if placed then parent else unknown)
        (if placed then i.parent_sub else none)
        (arrived fresh i.content)
      ≡ some (arrived_item fresh parent i)
unfolding new_item
new_item-arrived fresh parent i h =
    let some_len : (i.len == 0) ≡ false = ground (arith, h.1) in
    rw (arrived-len fresh i.content, h.0, some_len, arrived-countable fresh i.content) refl

module _ {R : Type 0} (d : Decoder R) where
  decode_item-read :
      (fresh : Options) (i : Item) (parent : TypePtr) (r r' : R)
      → HasLength i
      → IsNamed parent
      → IsSent i.content
      → Gives d r
          (opt_field left_id i.origin
            ++ (opt_field right_id i.right_origin
                ++ (place_fields (has_no_origin (item_info i)) parent i
                    ++ content_fields i.content)))
          r'
      → decode_item d fresh i.id (item_info i) r
        ≡ ok (some (item (arrived_item fresh parent i)), r')
  unfolding decode_item
  decode_item-read fresh i parent r r' l h s g =
      let (o_bit, r_bit, s_bit, _, _, _, kind) = bits_of_info i in
      let (m₁, g₁, rest₁) = Gives-append d (opt_field left_id i.origin) _ r r' g in
      let (m₂, g₂, rest₂) = Gives-append d (opt_field right_id i.right_origin) _ m₁ r' rest₁ in
      let (m₃, g₃, rest₃) =
        Gives-append d (place_fields (has_no_origin (item_info i)) parent i)
          (content_fields i.content) m₂ r' rest₂ in
      let (m, at_parent, at_sub) = place-read d (has_no_origin (item_info i)) parent i m₂ m₃ h g₃ in
      rw
        (
          o_bit,
          opt-read d d.read_left_id left_id i.origin r m₁ (λ a x y e. e) g₁,
          r_bit,
          opt-read d d.read_right_id right_id i.right_origin m₁ m₂ (λ a x y e. e) g₂,
          at_parent,
          s_bit,
          at_sub,
          decode_content-read d fresh i.content (item_info i) m₃ r' s kind rest₃,
          new_item-arrived fresh parent i l,
        )
        refl

-- An item whose length is that of its content and not 0, and whose parent can be sent, is written
-- as fields from which `decode_block` reads it back: its origins, its length and its content, and
-- its parent and key where they cannot be copied from a neighbour. This is over any encoder and
-- decoder, for contents other than strings of JSON, of fewer than 2 ^ 32 values; a document is not
-- read back as it was but made anew, from what its options say of it and from default options, and
-- the boundaries of a weak link have clients of 53 bits and are not a root and a nested type at
-- once.
pub encode_block-decode_block :
    {W R : Type 0} (e : Encoder W) (d : Decoder R) (branches : ℕ → Option TypePtr) (fresh : Options)
    (i : Item) (parent : TypePtr)
    → HasLength i
    → IsSent i.content
    → wire_parent branches i.parent ≡ some parent
    → IsNamed parent
    → (fields : List Field) × ((out : W)
        → encode_block e branches (item i) out ≡ ok (put_fields e fields out))
      × ((r r' : R)
          → Gives d r fields r'
          → decode_block d fresh i.id r ≡ ok (some (item (arrived_item fresh parent i)), r'))
unfolding encode_block decode_block
encode_block-decode_block e d branches fresh i parent l s w h = (
  item_fields parent i,
  λ out. encode_item-put e branches i parent out w h,
  λ r r' (m, first, g).
      let (_, _, _, _, no_skip, no_gc, _) = bits_of_info i in
      rw (first, no_skip, no_gc) (decode_item-read d fresh i parent m r' l h s g),
)
