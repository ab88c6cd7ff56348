-- ===== src/Blocks/Conflict/Frame.antt =====
-- What the linking of an item in `integrate_item` of block.rs leaves alone: the ids and the origins
-- of all items.
use crdt_probe.Prelude.{
  ℕ, ◌≡◌, refl, sym, ap, ◌∙◌, subst, false, Option, Option-cases, none, some, ◌==◌, Bool-cases, inl,
  inr, ==_iff,
}
use crdt_probe.Prelude.Maps.{IsMap, find, insert, insert-IsMap, find-insert_other, find-insert_same}
use crdt_probe.Encoding.Result.{Result, ok, err, fault, ◌>>=◌}
use crdt_probe.Blocks.{BlockId}
use crdt_probe.Blocks.Conflict.{
  Item, Items, Branch, Linked, deref, next_right, link_left, link_right, link,
}

-- The part of an item that its place depends on.
abbrev pub view : Option Item → Option (BlockId × Option BlockId × Option BlockId)
view none = none
view (some item) = some (item.id, item.origin, item.right_origin)

abbrev pub Keeps : Items → Items → Type 0
Keeps items items' =
    (IsMap items → IsMap items') × ((k : ℕ) → view (find k items') ≡ view (find k items))

insert-Keeps :
    (items : Items) (l : ℕ) (item item' : Item)
    → find l items ≡ some item
    → view (some item') ≡ view (some item)
    → Keeps items (insert l item' items)
insert-Keeps items l item item' at same = (
  insert-IsMap items l item',
  λ k. elim (Bool-cases (l == k)) [
    | inl equal ↦
        subst (λ (n : ℕ). view (find n (insert l item' items)) ≡ view (find n items))
          ((==_iff l k).0 equal)
          (ap view (find-insert_same l item' items) ∙ same ∙ ap view (sym at))
    | inr other ↦ ap view (find-insert_other l k item' items other)
  ],
)

module _ (items : Items) where
  abbrev KeepsLeft : Result (Items × Branch) → Type 0
  KeepsLeft (ok x) = Keeps items x.0
  KeepsLeft (err e) = Unit
  KeepsLeft (fault x) = Unit

  abbrev KeepsAll : Result Linked → Type 0
  KeepsAll (ok linked) = Keeps items linked.items
  KeepsAll (err e) = Unit
  KeepsAll (fault x) = Unit

  all_kept : Keeps items items
  all_kept = (λ i. i, λ k. refl)

  link_left-Keeps :
      (ptr : ℕ) (self : Item) (parent : Branch) → KeepsLeft (link_left ptr self items parent)
  unfolding link_left deref
  link_left-Keeps ptr self parent = elim (Option-cases self.left) [
    | inl e ↦ elim (Option-cases self.parent_sub) [
      | inl f ↦ rw (link_left, e, f) all_kept
      | inr (key, f) ↦ rw (link_left, e, f) all_kept
    ]
    | inr (l, e) ↦ elim (Option-cases (find l items)) [
      | inl lost ↦ rw (link_left, e, deref, lost) tt
      | inr (left, at) ↦ rw (link_left, e, deref, at) (insert-Keeps items l left _ at refl)
    ]
  ]

  link_right-Keeps :
      (ptr : ℕ) (self : Item) (parent : Branch) → KeepsAll (link_right ptr self items parent)
  unfolding link_right deref
  link_right-Keeps ptr self parent = elim (Option-cases self.right) [
    | inl e ↦ elim (Option-cases self.parent_sub) [
      | inl f ↦ rw (link_right, e, f) all_kept
      | inr (key, f) ↦ rw (link_right, e, f) all_kept
    ]
    | inr (r, e) ↦ elim (Option-cases (find r items)) [
      | inl lost ↦ rw (link_right, e, deref, lost) tt
      | inr (right, at) ↦ rw (link_right, e, deref, at) (insert-Keeps items r right _ at refl)
    ]
  ]

-- The new item is in the store, and all the others have their ids and origins.
abbrev pub IsFramed : ℕ → Item → Items → Result Linked → Type 0
IsFramed ptr self items (ok linked) =
    (IsMap items → IsMap linked.items)
    × (view (find ptr linked.items) ≡ view (some self))
    × ((k : ℕ) → (ptr == k) ≡ false → view (find k linked.items) ≡ view (find k items))
IsFramed ptr self items (err e) = Unit
IsFramed ptr self items (fault x) = Unit

module _ (ptr : ℕ) (self : Item) (items : Items) (parent : Branch) where
  put-IsFramed :
      (its : Items) (x : Result Linked) (right : Option ℕ)
      → Keeps items its
      → KeepsAll its x
      → IsFramed ptr self items (do
        linked ← x
        ok (record linked { items = insert ptr (record self { right = right }) linked.items }))
  put-IsFramed its (ok linked) right k k' = (
    λ i. insert-IsMap linked.items ptr (record self { right = right }) (k'.0 (k.0 i)),
    ap view (find-insert_same ptr (record self { right = right }) linked.items),
    λ q other.
        ap view (find-insert_other ptr q (record self { right = right }) linked.items other)
        ∙ k'.1 q
        ∙ k.1 q,
  )
  put-IsFramed its (err e) right k k' = tt
  put-IsFramed its (fault x) right k k' = tt

  left-IsFramed :
      (x : Result (Items × Branch)) (right : Option ℕ)
      → KeepsLeft items x
      → IsFramed ptr self items (do
        (items', parent') ← x
        linked ← link_right ptr (record self { right = right }) items' parent'
        ok (record linked { items = insert ptr (record self { right = right }) linked.items }))
  left-IsFramed (ok (its, b)) right k =
      put-IsFramed its (link_right ptr (record self { right = right }) its b) right k
        (link_right-Keeps its ptr (record self { right = right }) b)
  left-IsFramed (err e) right k = tt
  left-IsFramed (fault x) right k = tt

  next-IsFramed :
      (x : Result (Option ℕ))
      → IsFramed ptr self items (do
        right ← x
        (items', parent') ← link_left ptr self items parent
        linked ← link_right ptr (record self { right = right }) items' parent'
        ok (record linked { items = insert ptr (record self { right = right }) linked.items }))
  next-IsFramed (ok right) =
      left-IsFramed (link_left ptr self items parent) right (link_left-Keeps items ptr self parent)
  next-IsFramed (err e) = tt
  next-IsFramed (fault x) = tt

  pub link-IsFramed : IsFramed ptr self items (link ptr self items parent)
  unfolding link
  link-IsFramed = next-IsFramed (next_right items parent self)
