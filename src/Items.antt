-- ===== src/Items.antt =====
-- `Item` of native/yrs-src/yrs/src/block.rs with its content and flags: how an item is split in two
-- and how two are squashed into one. An `ItemPtr` is the number of a cell of the heap, a branch is a
-- number as well. Sums are those of u32, which wrap.
pub mod Parts
pub mod Undo
use crdt_probe.Prelude.{
  ℕ, ◌+◌, ◌-◌, ◌/◌, ◌%◌, ◌^◌, Bool, true, false, not, ◌&&◌, Option, none, some, List, [], ◌∷◌, ltb,
  leb, ◌==◌, if◌then◌else◌,
}
use crdt_probe.Prelude.Maps.{Map, find, insert, upsert}
use crdt_probe.Encoding.Result.{Result, ok, fault, panic, ◌>>=◌}
use crdt_probe.Blocks.{BlockId, origin_eq}
use crdt_probe.Blocks.Range.{BlockRange, add_u32, sub_u32, range_of}
use crdt_probe.Sync.Awareness.{str_eq}
use crdt_probe.Texts.{OffsetKind, utf16}
use crdt_probe.Content.{ItemContent, content_len, splice, try_squash, is_countable}

pub data TypePtr : Type 0 where
  unknown : TypePtr
  branch : ℕ → TypePtr
  named : List ℕ → TypePtr
  parent_id : BlockId → TypePtr

pub record Item : Type 0 where
  pub id : BlockId
  pub len : ℕ
  pub left : Option ℕ
  pub right : Option ℕ
  pub origin : Option BlockId
  pub right_origin : Option BlockId
  pub content : ItemContent
  pub parent : TypePtr
  pub redone : Option BlockId
  pub parent_sub : Option (List ℕ)
  pub info : ℕ

-- `ItemFlags::check` for a mask of one bit, `mask` = 2 ^ k.
abbrev pub check : ℕ → ℕ → Bool
check mask info = info / mask % 2 == 1

abbrev pub is_keep : Item → Bool
is_keep item = check 1 item.info

abbrev pub is_deleted : Item → Bool
is_deleted item = check 4 item.info

abbrev pub is_linked : Item → Bool
is_linked item = check 256 item.info

abbrev pub set_keep : ℕ → ℕ
set_keep info = if check 1 info then info else info + 1

abbrev pub last_id : Item → BlockId
last_id item = record item.id { clock = sub_u32 (add_u32 item.id.clock item.len) 1 }

-- The items of a document, and the maps of its branches.
pub record Heap : Type 0 where
  pub items : Map Item
  pub maps : Map (List (List ℕ × ℕ))

unfoldable pub deref : Map Item → ℕ → Result Item
unfolding find
deref items p = elim (find p items) [ some item ↦ ok item | none ↦ fault panic ]

-- `if let Some(right) = item.right { right.left = Some(new_ptr) }`
unfoldable pub relink : Option ℕ → ℕ → Map Item → Result (Map Item)
unfolding deref insert
relink none ptr items = ok items
relink (some r) ptr items = do
  right ← deref items r
  ok (insert r (record right { left = some ptr }) items)

unfoldable pub insert_key : List ℕ → ℕ → List (List ℕ × ℕ) → List (List ℕ × ℕ)
insert_key key ptr [] = (key, ptr) ∷ []
insert_key key ptr (x ∷ m) =
    let rest = insert_key key ptr m in if str_eq x.0 key then (key, ptr) ∷ m else x ∷ rest

-- The entry of the parent's map, for the last item of a key.
unfoldable pub update_map : Item → ℕ → Map (List (List ℕ × ℕ)) → Map (List (List ℕ × ℕ))
unfolding upsert insert_key
update_map item ptr maps = elim item.parent_sub [
  | none ↦ maps
  | some key ↦ elim item.right [
    | some r ↦ maps
    | none ↦ elim item.parent [
      | branch b ↦ upsert b (λ old. insert_key key ptr (elim old [ none ↦ [] | some m ↦ m ])) maps
      | _ ↦ maps
    ]
  ]
]

abbrev pub moved_on : ℕ → Option BlockId → Option BlockId
moved_on offset none = none
moved_on offset (some id) = some (record id { clock = add_u32 id.clock offset })

-- The item in front of the cut, and the one behind it, which is put into the cell `new_ptr`.
abbrev pub front_part : ℕ → ℕ → ItemContent → Item → Item
front_part new_ptr offset left item = record item {
  content = left;
  len = offset;
  right = some new_ptr;
}

abbrev pub back_part : ℕ → ℕ → ItemContent → Item → Item
back_part ptr offset right item = record item {
  id = record item.id { clock = add_u32 item.id.clock offset };
  len = sub_u32 item.len offset;
  left = some ptr;
  origin = some (record item.id { clock = sub_u32 (add_u32 item.id.clock offset) 1 });
  content = right;
  redone = moved_on offset item.redone;
}

-- `ItemPtr::splice`. The new item's cell is `new_ptr`; `unwrap` panics on content of one element.
unfoldable pub splice_item : ℕ → ℕ → ℕ → OffsetKind → Heap → Result (Option Heap)
unfolding splice deref insert upsert relink update_map
splice_item ptr new_ptr offset kind heap = if offset == 0 then ok none else (do
  item ← deref heap.items ptr
  parts ← splice item.content offset kind
  elim parts [
    | none ↦ fault panic
    | some p ↦ do
      items ← relink item.right new_ptr heap.items
      ok (
          some (record {
            items =
                insert new_ptr (back_part ptr offset p.1 item)
                  (insert ptr (front_part new_ptr offset p.0 item) items);
            maps = update_map item new_ptr heap.maps;
          }))
  ])

abbrev is_none : Option BlockId → Bool
is_none none = true
is_none (some id) = false

abbrev pub ptr_is : ℕ → Option ℕ → Bool
ptr_is p none = false
ptr_is p (some q) = q == p

abbrev pub same : Bool → Bool → Bool
same true b = b
same false b = not b

-- The conditions of `ItemPtr::try_squash`, up to the one on the contents.
unfoldable pub can_squash : ℕ → Item → Item → Bool
can_squash other_ptr self other =
    (self.id.client == other.id.client)
    && (add_u32 self.id.clock self.len == other.id.clock)
    && origin_eq other.origin (some (last_id self))
    && origin_eq self.right_origin other.right_origin
    && ptr_is other_ptr self.right
    && same (is_deleted self) (is_deleted other)
    && (is_none self.redone && is_none other.redone)
    && (not (is_linked self) && not (is_linked other))

-- `ItemPtr::try_squash`; a right neighbour is linked to the item that grows.
unfoldable pub try_squash_item : ℕ → ℕ → Heap → Result (Bool × Heap)
unfolding can_squash try_squash deref insert content_len relink
try_squash_item ptr other_ptr heap = do
  self ← deref heap.items ptr
  other ← deref heap.items other_ptr
  let grow = λ (content : ItemContent). (do
    items ← relink other.right ptr heap.items
    let info = if is_keep other then set_keep self.info else self.info
    let item = record self {
      content = content;
      len = content_len utf16 content;
      info = info;
      right = other.right;
    }
    ok (true, record heap { items = insert ptr item items }))
  if can_squash other_ptr self other
      then elim (try_squash self.content other.content) [
        | none ↦ ok (false, heap)
        | some content ↦ grow content
      ]
      else ok (false, heap)
