-- ===== src/Items/Parts.antt =====
-- The two parts that `ItemPtr::splice` of block.rs makes of an item.
use crdt_probe.Prelude.{
  ℕ, ◌≡◌, refl, Bool, true, false, inl, inr, Bool-cases, Option, none, some, arith, ◌==◌,
  if◌then◌else◌, subst, ==_iff,
}
use crdt_probe.Prelude.Maps.{Map, find, insert}
use crdt_probe.Encoding.Result.{ok}
use crdt_probe.Blocks.{BlockId, id_eq, origin_eq}
use crdt_probe.Blocks.Range.{add_u32, sub_u32}
use crdt_probe.Texts.{utf16}
use crdt_probe.Content.{ItemContent, content_len}
use crdt_probe.Content.Splice.{IsContent}
use crdt_probe.Items.{
  Item, is_linked, is_keep, is_deleted, set_keep, check, deref, relink, front_part, back_part,
  can_squash, same,
}

pub deref-found :
    (items : Map Item) (p : ℕ) (item : Item) → find p items ≡ some item → deref items p ≡ ok item
unfolding deref
deref-found items p item e = rw (e, deref) refl

pub relink_last :
    (o : Option ℕ) (ptr : ℕ) (items : Map Item) → o ≡ none → relink o ptr items ≡ ok items
unfolding relink
relink_last o ptr items e = rw e refl

pub relink_found :
    (o : Option ℕ) (r ptr : ℕ) (right : Item) (items : Map Item)
    → o ≡ some r
    → find r items ≡ some right
    → relink o ptr items ≡ ok (insert r (record right { left = some ptr }) items)
unfolding relink
relink_found o r ptr right items last e = rw (last, deref-found items r right e) refl

-- A right neighbour is another item, and leads back.
abbrev pub IsLinkedBack : ℕ → Map Item → Option ℕ → Type 0
IsLinkedBack ptr items none = Unit
IsLinkedBack ptr items (some r) =
    (right : Item) × (find r items ≡ some right) × (right.left ≡ some ptr) × ((r == ptr) ≡ false)

-- An item as `Item::new` makes it and as it stays: the length is that of the content in UTF-16 units.
abbrev pub IsItem : Item → Type 0
IsItem item = IsContent item.content × (content_len utf16 item.content ≡ item.len)

pub flip : (a b : ℕ) → (a == b) ≡ false → (b == a) ≡ false
flip a b h = ground arith

pub unequal :
    (items : Map Item) (a b : ℕ) (item : Item)
    → find a items ≡ none
    → find b items ≡ some item
    → (a == b) ≡ false
unequal items a b item fresh found = elim (Bool-cases (a == b)) [
  | inl equal ↦
      absurd
        (ground (arith, found, subst (λ (n : ℕ). find n items ≡ none) ((==_iff a b).0 equal) fresh))
  | inr e ↦ e
]

id_eq_refl : (a : BlockId) → id_eq a a ≡ true
id_eq_refl a = ground arith

origin_eq_refl : (o : Option BlockId) → origin_eq o o ≡ true
origin_eq_refl none = refl
origin_eq_refl (some a) = id_eq_refl a

kept : (info : ℕ) → (if check 1 info then set_keep info else info) ≡ info
kept info = elim (Bool-cases (check 1 info)) [ inl keep ↦ rw keep refl | inr free ↦ rw free refl ]

pub self_eq : (n : ℕ) → (n == n) ≡ true
self_eq n = ground arith

self_same : (b : Bool) → same b b ≡ true
self_same true = refl
self_same false = refl

-- The conditions of `try_squash` hold of the parts.
pub parts_fit :
    (ptr new_ptr offset : ℕ) (item : Item) (l r : ItemContent)
    → item.redone ≡ none
    → is_linked item ≡ false
    → can_squash new_ptr (front_part new_ptr offset l item) (back_part ptr offset r item) ≡ true
unfolding can_squash
parts_fit ptr new_ptr offset item l r redone linked =
    rw
      (
        self_eq item.id.client,
        self_eq (add_u32 item.id.clock offset),
        self_eq (sub_u32 (add_u32 item.id.clock offset) 1),
        origin_eq_refl item.right_origin,
        self_eq new_ptr,
        self_same (is_deleted item),
        redone,
        linked,
      )
      refl

-- The item that has grown is the one that was split.
pub grown :
    (item : Item)
    → content_len utf16 item.content ≡ item.len
    → record item {
      len = content_len utf16 item.content;
      info = if is_keep item then set_keep item.info else item.info;
    }
      ≡ item
grown item e = rw (e, kept item.info) refl
