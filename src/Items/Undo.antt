-- ===== src/Items/Undo.antt =====
-- An item of block.rs that is split by `ItemPtr::splice` is put together again by `try_squash`.
use crdt_probe.Prelude.{
  ℕ, ◌<◌, ◌≡◌, refl, sym, ap, ◌∙◌, true, false, inl, inr, Bool-cases, Option, Option-cases, none,
  some, arith, ◌==◌, subst, ==_iff,
}
use crdt_probe.Prelude.Maps.{Map, find, insert, find-insert_other, find-insert_same}
use crdt_probe.Encoding.Result.{ok}
use crdt_probe.Texts.{OffsetKind}
use crdt_probe.Content.{ItemContent, splice}
use crdt_probe.Content.Splice.{splice-try_squash}
use crdt_probe.Items.{
  Item, Heap, is_linked, relink, front_part, back_part, splice_item, try_squash_item, update_map,
}
use crdt_probe.Items.Parts.{
  deref-found, relink_last, relink_found, IsLinkedBack, IsItem, flip, unequal, parts_fit, grown,
}

module _ (heap : Heap) (ptr new_ptr offset : ℕ) (kind : OffsetKind) (item : Item)
    (l r : ItemContent) (fresh : find new_ptr heap.items ≡ none)
    (found : find ptr heap.items ≡ some item) (valid : IsItem item) (inside : 0 < offset)
    (parts : splice item.content offset kind ≡ ok (some (l, r))) (redone : item.redone ≡ none)
    (linked : is_linked item ≡ false) where
  apart : (new_ptr == ptr) ≡ false
  apart = unequal heap.items new_ptr ptr item fresh found

  abbrev split_items : Map Item → Map Item
  split_items items =
      insert new_ptr (back_part ptr offset r item)
        (insert ptr (front_part new_ptr offset l item) items)

  abbrev split_heap : Map Item → Heap
  split_heap items = record { items = split_items items; maps = update_map item new_ptr heap.maps }

  splice-split_heap :
      (items : Map Item)
      → relink item.right new_ptr heap.items ≡ ok items
      → splice_item ptr new_ptr offset kind heap ≡ ok (some (split_heap items))
  unfolding splice_item
  splice-split_heap items e =
      let started : (offset == 0) ≡ false = ground arith in
      rw (started, deref-found heap.items ptr item found, parts, e) refl

  squash-split_heap :
      (items items' : Map Item)
      → relink item.right ptr (split_items items) ≡ ok items'
      → try_squash_item ptr new_ptr (split_heap items)
        ≡ ok (
          true,
          record { items = insert ptr item items'; maps = update_map item new_ptr heap.maps },
        )
  unfolding try_squash_item
  squash-split_heap items items' e =
      let at_ptr : find ptr (split_items items) ≡ some (front_part new_ptr offset l item) =
        find-insert_other new_ptr ptr _ _ apart ∙ find-insert_same ptr _ items in
      let at_new : find new_ptr (split_items items) ≡ some (back_part ptr offset r item) =
        find-insert_same new_ptr _ _ in
      let whole = splice-try_squash item.content l r offset kind valid.0 parts in
      rw
        (
          deref-found (split_items items) ptr _ at_ptr,
          deref-found (split_items items) new_ptr _ at_new,
          parts_fit ptr new_ptr offset item l r redone linked,
          whole,
          e,
        )
        (ap
          (λ (i : Item). ok (
            true,
            record { items = insert ptr i items'; maps = update_map item new_ptr heap.maps },
          ))
          (grown item valid.1))

  -- The cells but the new one, at the end, for an item without a right neighbour and one with it.
  restored_last :
      (q : ℕ)
      → (new_ptr == q) ≡ false
      → find q (insert ptr item (split_items heap.items)) ≡ find q heap.items
  restored_last q other = elim (Bool-cases (ptr == q)) [
    | inl equal ↦
        subst (λ (n : ℕ). find n (insert ptr item (split_items heap.items)) ≡ find n heap.items)
          ((==_iff ptr q).0 equal) (find-insert_same ptr item _ ∙ sym found)
    | inr apart' ↦
        find-insert_other ptr q item _ apart'
        ∙ find-insert_other new_ptr q _ _ other
        ∙ find-insert_other ptr q _ _ apart'
  ]

  module _ (r' : ℕ) (right : Item) (at : find r' heap.items ≡ some right)
      (leads_back : right.left ≡ some ptr) where
    abbrev moved_items : Map Item
    moved_items = insert r' (record right { left = some new_ptr }) heap.items

    abbrev back_items : Map Item
    back_items = insert r' (record right { left = some ptr }) (split_items moved_items)

    restored :
        (q : ℕ) → (new_ptr == q) ≡ false → find q (insert ptr item back_items) ≡ find q heap.items
    restored q other = elim (Bool-cases (ptr == q)) [
      | inl equal ↦
          subst (λ (n : ℕ). find n (insert ptr item back_items) ≡ find n heap.items)
            ((==_iff ptr q).0 equal) (find-insert_same ptr item _ ∙ sym found)
      | inr apart' ↦ find-insert_other ptr q item _ apart' ∙ elim (Bool-cases (r' == q)) [
        | inl equal ↦
            subst (λ (n : ℕ). find n back_items ≡ find n heap.items) ((==_iff r' q).0 equal)
              (find-insert_same r' _ _
                ∙ ap (λ (o : Option ℕ). some (record right { left = o })) (sym leads_back)
                ∙ sym at)
        | inr away ↦
            find-insert_other r' q _ _ away
            ∙ find-insert_other new_ptr q _ _ other
            ∙ find-insert_other ptr q _ _ apart'
            ∙ find-insert_other r' q _ heap.items away
      ]
    ]

    -- The neighbour's cell behind the split.
    neighbour :
        (r' == ptr) ≡ false
        → find r' (split_items moved_items) ≡ some (record right { left = some new_ptr })
    neighbour away =
        find-insert_other new_ptr r' _ _ (unequal heap.items new_ptr r' right fresh at)
        ∙ find-insert_other ptr r' _ _ (flip r' ptr away)
        ∙ find-insert_same r' _ heap.items

  -- What the two steps come to.
  abbrev pub Undone : Type 0
  Undone =
      (mid after : Heap) × (splice_item ptr new_ptr offset kind heap ≡ ok (some mid))
      × (try_squash_item ptr new_ptr mid ≡ ok (true, after))
      × ((q : ℕ) → (new_ptr == q) ≡ false → find q after.items ≡ find q heap.items)

  undone : IsLinkedBack ptr heap.items item.right → Undone
  undone back = elim (Option-cases item.right) [
    | inl last ↦
        let moved : relink item.right new_ptr heap.items ≡ ok heap.items =
          relink_last item.right new_ptr heap.items last in
        let undo : relink item.right ptr (split_items heap.items) ≡ ok (split_items heap.items) =
          relink_last item.right ptr (split_items heap.items) last in
        (
          split_heap heap.items,
          record {
            items = insert ptr item (split_items heap.items);
            maps = update_map item new_ptr heap.maps;
          },
          splice-split_heap heap.items moved,
          squash-split_heap heap.items (split_items heap.items) undo,
          restored_last,
        )
    | inr (r', e) ↦
        let (right, at, leads_back, away) = subst (IsLinkedBack ptr heap.items) e back in
        let its = moved_items r' right at leads_back in
        let moved : relink item.right new_ptr heap.items ≡ ok its =
          relink_found item.right r' new_ptr right heap.items e at in
        let undo : relink item.right ptr (split_items its)
            ≡ ok (back_items r' right at leads_back) =
          relink_found item.right r' ptr _ (split_items its) e
            (neighbour r' right at leads_back away) in
        (
          split_heap its,
          record {
            items = insert ptr item (back_items r' right at leads_back);
            maps = update_map item new_ptr heap.maps;
          },
          splice-split_heap its moved,
          squash-split_heap its (back_items r' right at leads_back) undo,
          restored r' right at leads_back,
        )
  ]

-- An item of more than one element that is not redone or linked, and whose right neighbour leads
-- back to it, is split at an offset where its content is, and then squashed: both steps succeed,
-- and every cell but that of the part that was split off holds what it held at first.
pub splice_item-try_squash_item :
    (heap : Heap) (ptr new_ptr offset : ℕ) (kind : OffsetKind) (item : Item) (l r : ItemContent)
    → find new_ptr heap.items ≡ none
    → find ptr heap.items ≡ some item
    → IsItem item
    → IsLinkedBack ptr heap.items item.right
    → item.redone ≡ none
    → is_linked item ≡ false
    → 0 < offset
    → splice item.content offset kind ≡ ok (some (l, r))
    → (mid after : Heap) × (splice_item ptr new_ptr offset kind heap ≡ ok (some mid))
      × (try_squash_item ptr new_ptr mid ≡ ok (true, after))
      × ((q : ℕ) → (new_ptr == q) ≡ false → find q after.items ≡ find q heap.items)
splice_item-try_squash_item heap ptr new_ptr offset kind item l r fresh found valid back redone
      linked inside parts =
    undone heap ptr new_ptr offset kind item l r fresh found valid inside parts redone linked back
