-- ===== src/Store/Codec.antt =====
-- `Item::encode`, `Item::info`, `Item::new` and `Block::encode` of block.rs, `ItemSlice::encode` of
-- slice.rs and `decode_block` of update.rs, over the traits for encoders and decoders.
pub mod Bits
pub mod Puts
pub mod RoundTrip
pub mod Suffix
use crdt_probe.Prelude.{
  ℕ, ◌+◌, ◌-◌, ◌/◌, ◌%◌, ◌^◌, Bool, true, false, ◌&&◌, Option, none, some, List, ltb, ◌==◌,
  if◌then◌else◌,
}
use crdt_probe.Encoding.Result.{Result, ok, fault, panic, ◌>>=◌}
use crdt_probe.Blocks.{BlockId}
use crdt_probe.Blocks.Range.{add_u32, sub_u32, range_of}
use crdt_probe.Texts.{utf16}
use crdt_probe.Docs.{Options}
use crdt_probe.Fields.{Encoder, Decoder}
use crdt_probe.Content.{ItemContent, content_len, get_ref_number, is_countable}
use crdt_probe.Content.Codec.{encode_content, encode_slice, decode_content}
use crdt_probe.Items.{Item, TypePtr, unknown, branch, named, parent_id, check}
use crdt_probe.Store.{Block, item, gc, skip}

abbrev pub flag : ℕ → Bool → ℕ
flag bit true = bit
flag bit false = 0

abbrev pub is_some : {A : Type 0} → Option A → Bool
is_some none = false
is_some (some a) = true

-- Whether there is an origin, a right origin and a key, in bits of their own, over the content's
-- number, which is below 16.
unfoldable pub item_info : Item → ℕ
item_info i =
    flag 128 (is_some i.origin)
    + flag 64 (is_some i.right_origin)
    + flag 32 (is_some i.parent_sub)
    + get_ref_number i.content % 16

-- `info & (HAS_ORIGIN | HAS_RIGHT_ORIGIN) == 0`
abbrev pub has_no_origin : ℕ → Bool
has_no_origin info = info / 64 % 4 == 0

-- `branches` tells the parent that stands for a branch: the item that holds it, or its name.
module _ {W : Type 0} (e : Encoder W) (branches : ℕ → Option TypePtr) where
  unfoldable pub encode_named : TypePtr → W → Result W
  encode_named (named name) out = ok (e.write_text name (e.write_parent_info true out))
  encode_named (parent_id id) out = ok (e.write_left_id id (e.write_parent_info false out))
  encode_named unknown out = fault panic
  encode_named (branch b) out = fault panic

  unfoldable pub encode_parent : TypePtr → W → Result W
  unfolding encode_named
  encode_parent (branch b) out = elim (branches b) [
    | none ↦ fault panic
    | some parent ↦ encode_named parent out
  ]
  encode_parent (named name) out = encode_named (named name) out
  encode_parent (parent_id id) out = encode_named (parent_id id) out
  encode_parent unknown out = fault panic

  abbrev pub write_opt : {A : Type 0} → (A → W → W) → Option A → W → W
  write_opt write none out = out
  write_opt write (some a) out = write a out

  -- The part that is written where the parent cannot be copied from a neighbour.
  unfoldable pub encode_place : Bool → Item → W → Result W
  encode_place false i out = ok out
  encode_place true i out = do
    out₁ ← encode_parent i.parent out
    ok (write_opt e.write_text i.parent_sub out₁)

  unfoldable pub encode_item : Item → W → Result W
  unfolding encode_place encode_content
  encode_item i out = do
    let info = item_info i
    let out₁ = e.write_info info out
    let out₂ = write_opt e.write_left_id i.origin out₁
    let out₃ = write_opt e.write_right_id i.right_origin out₂
    out₄ ← encode_place (has_no_origin info) i out₃
    ok (encode_content e i.content out₄)

  -- The elements from `start` to `end` of an item.
  unfoldable pub encode_item_slice : Item → ℕ → ℕ → W → Result W
  unfolding encode_place encode_slice
  encode_item_slice i start end out = do
    let before = some (record i.id { clock = sub_u32 (add_u32 i.id.clock start) 1 })
    let origin = if start == 0 then i.origin else before
    let info = item_info i
    let info' = if is_some origin then if check 128 info then info else info + 128 else info
    let out₁ = e.write_info info' out
    let out₂ = write_opt e.write_left_id origin out₁
    let adjacent = end == sub_u32 i.len 1
    let out₃ = if adjacent then write_opt e.write_right_id i.right_origin out₂ else out₂
    out₄ ← encode_place (has_no_origin info') i out₃
    encode_slice e i.content start end out₄

  unfoldable pub encode_block : Block → W → Result W
  unfolding encode_item
  encode_block (item i) out = encode_item i out
  encode_block (skip r) out = ok (e.write_len r.len (e.write_info 10 out))
  encode_block (gc r) out = ok (e.write_len r.len (e.write_info 0 out))

  -- `encode_with_offset`, which leaves the first `offset` elements out.
  unfoldable pub encode_with_offset : Block → ℕ → W → Result W
  unfolding encode_item_slice
  encode_with_offset (item i) offset out = encode_item_slice i offset (sub_u32 i.len 1) out
  encode_with_offset (skip r) offset out =
      ok (e.write_number (sub_u32 r.len offset) (e.write_info 10 out))
  encode_with_offset (gc r) offset out =
      ok (e.write_len (sub_u32 r.len offset) (e.write_info 0 out))

-- `Item::new` without neighbours; there is no item without elements. The flag is that of a countable
-- content.
unfoldable pub new_item :
    BlockId
    → Option BlockId
    → Option BlockId
    → TypePtr
    → Option (List ℕ)
    → ItemContent
    → Option Item
unfolding content_len is_countable
new_item id origin right_origin parent parent_sub content =
    let len = content_len utf16 content in
    if len == 0
    then none
    else some (record {
      id = id;
      len = len;
      left = none;
      right = none;
      origin = origin;
      right_origin = right_origin;
      content = content;
      parent = parent;
      redone = none;
      parent_sub = parent_sub;
      info = if is_countable content then 2 else 0;
    })

abbrev pub block_of : Option Item → Option Block
block_of none = none
block_of (some i) = some (item i)

module _ {R : Type 0} (d : Decoder R) where
  abbrev pub read_opt : {A : Type 0} → Bool → (R → Result (A × R)) → R → Result (Option A × R)
  read_opt false read reader = ok (none, reader)
  read_opt true read reader = do (a, reader₁) ← read reader; ok (some a, reader₁)

  unfoldable pub read_parent : Bool → R → Result (TypePtr × R)
  read_parent false reader = ok (unknown, reader)
  read_parent true reader = do
    (is_named, reader₁) ← d.read_parent_info reader
    let name = (do (s, reader₂) ← d.read_text reader₁; ok (named s, reader₂))
    let id = (do (id, reader₂) ← d.read_left_id reader₁; ok (parent_id id, reader₂))
    if is_named then name else id

  unfoldable pub decode_item : Options → BlockId → ℕ → R → Result (Option Block × R)
  decode_item fresh id info reader = do
    (origin, reader₁) ← read_opt (check 128 info) d.read_left_id reader
    (right_origin, reader₂) ← read_opt (check 64 info) d.read_right_id reader₁
    (parent, reader₃) ← read_parent (has_no_origin info) reader₂
    (parent_sub, reader₄) ← read_opt (has_no_origin info && check 32 info) d.read_text reader₃
    (content, reader₅) ← decode_content d fresh info reader₄
    ok (block_of (new_item id origin right_origin parent parent_sub content), reader₅)

  unfoldable pub decode_block : Options → BlockId → R → Result (Option Block × R)
  decode_block fresh id reader = do
    (info, reader₁) ← d.read_info reader
    let skipped = (do
      (len, reader₂) ← d.read_number reader₁
      ok (some (skip (range_of id len)), reader₂))
    let collected = (do
      (len, reader₂) ← d.read_len reader₁
      ok (some (gc (range_of id len)), reader₂))
    if info == 10
        then skipped
        else if info == 0
        then collected
        else decode_item fresh id info reader₁
