-- ===== src/Blocks/Conflict/Splice.antt =====
-- The list of siblings around a new item that `integrate_item` of block.rs has linked.
use crdt_probe.Prelude.{ℕ, ◌≡◌, refl, ◌∙◌, false, Option, none, some, List, [], ◌∷◌, ◌==◌, arith}
use crdt_probe.Prelude.Maps.{find, insert, find-insert_other, find-insert_same}
use crdt_probe.Encoding.Result.{ok}
use crdt_probe.Blocks.Conflict.{Item, Items, Branch, Linked, link}
use crdt_probe.Blocks.Conflict.Walk.{IsChain}
use crdt_probe.Blocks.Conflict.Link.{
  left_items, link-after_last, link-between, link-alone, link-front, IsNew, IsDistinct,
  IsChain-insert,
}

pub flip : (a b : ℕ) → (a == b) ≡ false → (b == a) ≡ false
flip a b h = ground arith

module _ (ptr : ℕ) (self : Item) (items : Items) (parent : Branch)
    (seq : self.parent_sub ≡ none) where
  -- The store behind the linking has the chain `ps`, and the same cells outside of it.
  abbrev pub IsRelinked : Option ℕ → List ℕ → Option ℕ → Linked → Type 0
  IsRelinked prev ps o linked =
      IsChain linked.items prev ps o × ((k : ℕ) → IsNew k ps → find k linked.items ≡ find k items)

  module _ (l : ℕ) (has_left : self.left ≡ some l) (apart : (ptr == l) ≡ false) where
    pub splice_last :
        (prev : Option ℕ)
        → IsChain items prev (l ∷ []) (some l)
        → (linked : Linked) × (link ptr self items parent ≡ ok linked)
          × (linked.parent ≡ parent)
          × IsRelinked prev (l ∷ ptr ∷ []) (some l) linked
    splice_last prev (e, left, at, back, c) =
        let self' : Item = record self { right = none } in
        let its = left_items ptr self items parent seq l left has_left at in
        (
          record { items = insert ptr self' its; parent = parent; replaced = none },
          link-after_last ptr self items parent seq l left has_left at c,
          refl,
          (
            (
              refl,
              record left { right = some ptr },
              find-insert_other ptr l self' its apart ∙ find-insert_same l _ items,
              back,
              (refl, self', find-insert_same ptr self' its, has_left, refl),
            ),
            λ k (n, (m, t)).
                find-insert_other ptr k self' its (flip k ptr m)
                ∙ find-insert_other l k _ items (flip k l n),
          ),
        )

    pub splice_between :
        (r : ℕ) (bs : List ℕ) (prev : Option ℕ)
        → IsChain items prev (l ∷ r ∷ bs) (some l)
        → IsDistinct (l ∷ r ∷ bs)
        → IsNew ptr (l ∷ r ∷ bs)
        → (linked : Linked) × (link ptr self items parent ≡ ok linked)
          × (linked.parent ≡ parent)
          × IsRelinked prev (l ∷ ptr ∷ r ∷ bs) (some l) linked
    splice_between r bs prev (e, left, at, back, (f, right, at_r, back_r, c)) (dl, (dr, d))
          (nl, (nr, n)) =
        let self' : Item = record self { right = some r } in
        let right' : Item = record right { left = some ptr } in
        let its = left_items ptr self items parent seq l left has_left at in
        let its' = insert r right' its in
        (
          record { items = insert ptr self' its'; parent = parent; replaced = none },
          link-between ptr self items parent seq l left has_left at r right f
              (find-insert_other l r _ items dl.0 ∙ at_r),
          refl,
          (
            (
              refl,
              record left { right = some ptr },
              find-insert_other ptr l self' its' apart
                  ∙ find-insert_other r l right' its (flip l r dl.0)
                  ∙ find-insert_same l _ items,
              back,
              (
                refl,
                self',
                find-insert_same ptr self' its',
                has_left,
                (
                  refl,
                  right',
                  find-insert_other ptr r self' its' nr ∙ find-insert_same r right' its,
                  refl,
                  IsChain-insert bs ptr self' its' (some r) right.right n (
                      IsChain-insert bs r right' its (some r) right.right dr
                        (IsChain-insert bs l _ items (some r) right.right dl.1 c)),
                ),
              ),
            ),
            λ k (kl, (kp, (kr, t))).
                find-insert_other ptr k self' its' (flip k ptr kp)
                ∙ find-insert_other r k right' its (flip k r kr)
                ∙ find-insert_other l k _ items (flip k l kl),
          ),
        )

  module _ (first : self.left ≡ none) where
    pub splice_alone :
        parent.start ≡ none
        → (linked : Linked) × (link ptr self items parent ≡ ok linked)
          × IsChain linked.items none (ptr ∷ []) linked.parent.start
    splice_alone e =
        let self' : Item = record self { right = none } in
        (
          record {
            items = insert ptr self' items;
            parent = record parent { start = some ptr };
            replaced = none;
          },
          link-alone ptr self items parent seq first e,
          (refl, self', find-insert_same ptr self' items, first, refl),
        )

    pub splice_front :
        (r : ℕ) (bs : List ℕ)
        → IsChain items none (r ∷ bs) parent.start
        → IsDistinct (r ∷ bs)
        → IsNew ptr (r ∷ bs)
        → (linked : Linked) × (link ptr self items parent ≡ ok linked)
          × IsChain linked.items none (ptr ∷ r ∷ bs) linked.parent.start
    splice_front r bs (f, right, at_r, back_r, c) (dr, d) (nr, n) =
        let self' : Item = record self { right = some r } in
        let right' : Item = record right { left = some ptr } in
        let its' = insert r right' items in
        (
          record {
            items = insert ptr self' its';
            parent = record parent { start = some ptr };
            replaced = none;
          },
          link-front ptr self items parent seq first r right f at_r,
          (
            refl,
            self',
            find-insert_same ptr self' its',
            first,
            (
              refl,
              right',
              find-insert_other ptr r self' its' nr ∙ find-insert_same r right' items,
              refl,
              IsChain-insert bs ptr self' its' (some r) right.right n
                  (IsChain-insert bs r right' items (some r) right.right dr c),
            ),
          ),
        )
