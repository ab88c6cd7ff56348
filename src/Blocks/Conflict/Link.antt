-- ===== src/Blocks/Conflict/Link.antt =====
-- The linking of an item to its neighbours in `integrate_item` of block.rs.
use crdt_probe.Prelude.{ℕ, ◌≡◌, refl, ◌∙◌, false, Option, none, some, List, [], ◌∷◌, All, ◌==◌}
use crdt_probe.Prelude.Maps.{find, insert, find-insert_other}
use crdt_probe.Encoding.Result.{Result, ok}
use crdt_probe.Blocks.Conflict.{
  Item, Items, Branch, Linked, next_right, link_left, link_right, link,
}
use crdt_probe.Blocks.Conflict.Walk.{IsChain, deref-found}

-- A sequence item: it has no key.
module _ (ptr : ℕ) (self : Item) (items : Items) (parent : Branch)
    (seq : self.parent_sub ≡ none) where
  abbrev pub linked_by : Items → Branch → Option ℕ → Result Linked
  linked_by its b right = ok (record {
    items = insert ptr (record self { right = right }) its;
    parent = b;
    replaced = none;
  })

  module _ (l : ℕ) (left : Item) (has_left : self.left ≡ some l)
      (at : find l items ≡ some left) where
    abbrev pub left_items : Items
    left_items = insert l (record left { right = some ptr }) items

    pub link-after_last :
        left.right ≡ none → link ptr self items parent ≡ linked_by left_items parent none
    unfolding link next_right link_left link_right
    link-after_last e = rw (has_left, deref-found items l left at, e, seq) refl

    pub link-between :
        (r : ℕ) (right : Item)
        → left.right ≡ some r
        → find r left_items ≡ some right
        → link ptr self items parent
          ≡ linked_by (insert r (record right { left = some ptr }) left_items) parent (some r)
    unfolding link next_right link_left link_right
    link-between r right e f =
        rw (has_left, deref-found items l left at, e, deref-found left_items r right f) refl

  module _ (first : self.left ≡ none) where
    pub link-alone :
        parent.start ≡ none
        → link ptr self items parent ≡ linked_by items (record parent { start = some ptr }) none
    unfolding link next_right link_left link_right
    link-alone e = rw (first, seq, e, seq) refl

    pub link-front :
        (r : ℕ) (right : Item)
        → parent.start ≡ some r
        → find r items ≡ some right
        → link ptr self items parent
          ≡ linked_by
              (insert r (record right { left = some ptr }) items)
              (record parent { start = some ptr })
              (some r)
    unfolding link next_right link_left link_right
    link-front r right e f = rw (first, seq, e, deref-found items r right f) refl

-- A cell that is not in a list of pointers.
abbrev pub IsNew : ℕ → List ℕ → Type 0
IsNew q ps = All (λ p. (q == p) ≡ false) ps

abbrev pub IsDistinct : List ℕ → Type 0
IsDistinct [] = Unit
IsDistinct (p ∷ ps) = IsNew p ps × IsDistinct ps

-- What is written into a cell outside a chain does not touch the chain.
pub IsChain-insert :
    (ps : List ℕ) (q : ℕ) (v : Item) (items : Items) (prev o : Option ℕ)
    → IsNew q ps
    → IsChain items prev ps o
    → IsChain (insert q v items) prev ps o
IsChain-insert [] q v items prev o n c = c
IsChain-insert (p ∷ ps) q v items prev o n (e, item, at, back, c) = (
  e,
  item,
  find-insert_other q p v items n.0 ∙ at,
  back,
  IsChain-insert ps q v items (some p) item.right n.1 c,
)
