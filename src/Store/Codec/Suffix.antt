-- ===== src/Store/Codec/Suffix.antt =====
-- The end of an item as `encode_with_offset` of block.rs writes it, and the item that a split makes.
use crdt_probe.Prelude.{
  ℕ, ◌+◌, ◌-◌, ◌%◌, ◌^◌, ◌<◌, ◌≡◌, refl, Bool, true, false, Option, none, some, arith, ◌==◌,
  if◌then◌else◌, ==_iff,
}
use crdt_probe.Encoding.Result.{Result, ok, err, fault}
use crdt_probe.Blocks.Range.{sub_u32}
use crdt_probe.Texts.{utf16}
use crdt_probe.Fields.{Encoder}
use crdt_probe.Content.{
  ItemContent, any, json, string, deleted, splice, content_len, get_ref_number,
}
use crdt_probe.Content.Codec.Suffix.{IsSuffix, splice-IsSuffix}
use crdt_probe.Content.Lengths.{IsSplittable}
use crdt_probe.Items.{Item, TypePtr, check, back_part}
use crdt_probe.Store.{item}
use crdt_probe.Store.Codec.{
  flag, is_some, item_info, encode_item, encode_item_slice, encode_with_offset,
}
use crdt_probe.Store.Codec.Bits.{bits_of_info, ref_number_bound}

-- The info of an item that has got an origin.
abbrev with_origin : ℕ → ℕ
with_origin info = if check 128 info then info else info + 128

with_origin-flags :
    (o r s : Bool) (n : ℕ)
    → n < 10
    → with_origin (flag 128 o + flag 64 r + flag 32 s + n % 16)
      ≡ 128 + flag 64 r + flag 32 s + n % 16
with_origin-flags false false false n h = ground arith
with_origin-flags false false true n h = ground arith
with_origin-flags false true false n h = ground arith
with_origin-flags false true true n h = ground arith
with_origin-flags true false false n h = ground arith
with_origin-flags true false true n h = ground arith
with_origin-flags true true false n h = ground arith
with_origin-flags true true true n h = ground arith

with_origin-item_info :
    (ptr offset : ℕ) (i : Item) (r : ItemContent)
    → get_ref_number r ≡ get_ref_number i.content
    → with_origin (item_info i) ≡ item_info (back_part ptr offset r i)
unfolding item_info
with_origin-item_info ptr offset i r e = rw e (
    with_origin-flags (is_some i.origin) (is_some i.right_origin) (is_some i.parent_sub)
      (get_ref_number i.content) (ref_number_bound i.content).1)

len_bound : (c : ItemContent) (offset : ℕ) → IsSplittable c offset → content_len utf16 c < 2 ^ 32
unfolding content_len
len_bound (any values) offset h = omega arith
len_bound (json strings) offset h = omega arith
len_bound (string s) offset h = omega arith
len_bound (deleted len) offset h = h.1
len_bound c offset h = absurd h

module _ {W : Type 0} (e : Encoder W) (branches : ℕ → Option TypePtr) (ptr offset : ℕ)
    (i : Item) where
  -- The content is split, and the part behind is written.
  abbrev pub IsBackPart : W → Result (Option (ItemContent × ItemContent)) → Type 0
  IsBackPart out x =
      (l r : ItemContent) × (x ≡ ok (some (l, r)))
      × (encode_with_offset e branches (item i) offset out
          ≡ encode_item e branches (back_part ptr offset r i) out)

  module _ (pos : 0 < offset) (inside : offset < i.len)
      (whole : content_len utf16 i.content ≡ i.len) (h : IsSplittable i.content offset) where
    slice-IsBackPart :
        (out : W) (x : Result (Option (ItemContent × ItemContent)))
        → ((out' : W) → IsSuffix e i.content offset out' x)
        → IsBackPart out x
    unfolding encode_with_offset encode_item_slice encode_item
    slice-IsBackPart out (ok (some (l, r))) ends =
        let small = len_bound i.content offset h in
        let part = back_part ptr offset r i in
        let started : (offset == 0) ≡ false = ground (arith, pos) in
        let last : sub_u32 i.len 1 ≡ content_len utf16 i.content - 1 =
          omega (arith, whole, inside, small) in
        let end = content_len utf16 i.content - 1 in
        let adjacent : (end == end) ≡ true = (==_iff end end).1 refl in
        let (_, _, _, no_place, _, _, _) = bits_of_info part in
        (
          l,
          r,
          refl,
          rw
              (
                encode_with_offset,
                encode_item_slice,
                encode_item,
                started,
                with_origin-item_info ptr offset i r (ends out).1,
                last,
                adjacent,
                no_place,
              )
              (ends _).0,
        )
    slice-IsBackPart out (ok none) ends = absurd (ends out)
    slice-IsBackPart out (err x) ends = absurd (ends out)
    slice-IsBackPart out (fault x) ends = absurd (ends out)

    -- An item of several elements, of which there are fewer than 2 ^ 32, and in a string fewer
    -- than 2 ^ 32 bytes, is split at any offset inside, where its length is that of its
    -- content, and `encode_with_offset` writes of the unsplit item what `encode` writes of the
    -- part that the split puts behind.
    pub encode_with_offset-IsBackPart : (out : W) → IsBackPart out (splice i.content offset utf16)
    encode_with_offset-IsBackPart out =
        slice-IsBackPart out (splice i.content offset utf16)
          (λ out'. splice-IsSuffix e i.content offset out' h pos (omega (arith, whole, inside)))
