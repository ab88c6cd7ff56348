-- ===== src/Blocks/Conflict/Place.antt =====
-- `detect_conflict`, `resolve_conflict` and the linking of `integrate_item` in block.rs together:
-- where a new item comes to stand among its siblings.
use crdt_probe.Prelude.{
  ℕ, suc, ◌≤◌, ◌≡◌, ◌⊎◌, refl, sym, ap, ◌∙◌, subst, false, Option, none, some, List, [], ◌∷◌, ◌++◌,
  All, ◌==◌, length, append_assoc, arith, inl, inr,
}
use crdt_probe.Prelude.Maps.{IsMap, find, remove, find-remove, remove-IsMap}
use crdt_probe.Encoding.Result.{ok}
use crdt_probe.Blocks.Conflict.{Item, Items, Branch, Linked, link}
use crdt_probe.Blocks.Conflict.Walk.{IsChain}
use crdt_probe.Blocks.Conflict.Link.{IsNew, IsDistinct}
use crdt_probe.Blocks.Conflict.Splice.{
  flip, splice_last, splice_between, splice_alone, splice_front,
}

abbrev pub last_of : List ℕ → Option ℕ
last_of [] = none
last_of (p ∷ []) = some p
last_of (p ∷ q ∷ ps) = last_of (q ∷ ps)

pub last_of-append : (xs : List ℕ) (l : ℕ) → last_of (xs ++ l ∷ []) ≡ some l
last_of-append [] l = refl
last_of-append (p ∷ []) l = refl
last_of-append (p ∷ q ∷ xs) l = last_of-append (q ∷ xs) l

pub last-cases :
    (xs : List ℕ)
    → (xs ≡ []) ⊎ ((front : List ℕ) × (l : ℕ) × (xs ≡ front ++ l ∷ []) × (last_of xs ≡ some l))
last-cases [] = inl refl
last-cases (p ∷ []) = inr ([], p, refl, refl)
last-cases (p ∷ q ∷ xs) = elim (last-cases (q ∷ xs)) [
  | inl e ↦ absurd (ground arith)
  | inr (front, l, e, f) ↦ inr (p ∷ front, l, ap (λ t. p ∷ t) e, f)
]

All-suffix : (P : ℕ → Type 0) (xs ys : List ℕ) → All P (xs ++ ys) → All P ys
All-suffix P [] ys h = h
All-suffix P (p ∷ xs) ys h = All-suffix P xs ys h.1

pub IsDistinct-suffix : (xs ys : List ℕ) → IsDistinct (xs ++ ys) → IsDistinct ys
IsDistinct-suffix [] ys h = h
IsDistinct-suffix (p ∷ xs) ys h = IsDistinct-suffix xs ys h.1

-- The cell of a sibling, and the chain behind it.
pub IsChain-after :
    (items : Items) (xs ys : List ℕ) (l : ℕ) (prev o : Option ℕ)
    → IsChain items prev (xs ++ l ∷ ys) o
    → (left : Item) × (find l items ≡ some left) × IsChain items (some l) ys left.right
IsChain-after items [] ys l prev o (e, left, at, back, c) = (left, at, c)
IsChain-after items (p ∷ xs) ys l prev o (e, item, at, back, c) =
    IsChain-after items xs ys l (some p) item.right c

module _ (ptr : ℕ) (self : Item) (items : Items) (parent : Branch)
    (seq : self.parent_sub ≡ none) where
  abbrev IsSpliced : Option ℕ → List ℕ → ℕ → List ℕ → Option ℕ → Type 0
  IsSpliced prev xs l ys o =
      (linked : Linked) × (link ptr self items parent ≡ ok linked)
      × (linked.parent ≡ parent)
      × IsChain linked.items prev (xs ++ l ∷ ptr ∷ ys) o
      × ((k : ℕ) → IsNew k (l ∷ ptr ∷ ys) → find k linked.items ≡ find k items)

  module _ (l : ℕ) (has_left : self.left ≡ some l) where
    splice_here :
        (ys : List ℕ) (prev o : Option ℕ)
        → IsChain items prev (l ∷ ys) o
        → IsDistinct (l ∷ ys)
        → IsNew ptr (l ∷ ys)
        → IsSpliced prev [] l ys o
    splice_here [] prev o c d n =
        let (linked, done, same, (chain, frame)) =
          splice_last ptr self items parent seq l has_left n.0 prev
            (subst (IsChain items prev (l ∷ [])) c.0 c) in
        (
          linked,
          done,
          same,
          subst (IsChain linked.items prev (l ∷ ptr ∷ [])) (sym c.0) chain,
          frame,
        )
    splice_here (r ∷ ys) prev o c d n =
        let (linked, done, same, (chain, frame)) =
          splice_between ptr self items parent seq l has_left n.0 r ys prev
            (subst (IsChain items prev (l ∷ r ∷ ys)) c.0 c) d n in
        (
          linked,
          done,
          same,
          subst (IsChain linked.items prev (l ∷ ptr ∷ r ∷ ys)) (sym c.0) chain,
          frame,
        )

    splice_after :
        (xs ys : List ℕ) (prev o : Option ℕ)
        → IsChain items prev (xs ++ l ∷ ys) o
        → IsDistinct (xs ++ l ∷ ys)
        → IsNew ptr (xs ++ l ∷ ys)
        → IsSpliced prev xs l ys o
    splice_after [] ys prev o c d n = splice_here ys prev o c d n
    splice_after (p ∷ xs) ys prev o (e, item, at, back, c) (dp, d) (np, n) =
        let (linked, done, same, chain, frame) = splice_after xs ys (some p) item.right c d n in
        let outside = All-suffix (λ q. (p == q) ≡ false) xs (l ∷ ys) dp in
        (
          linked,
          done,
          same,
          (e, item, frame p (outside.0, (flip ptr p np, outside.1)) ∙ at, back, chain),
          frame,
        )

  link_first :
      (ys : List ℕ)
      → self.left ≡ none
      → IsChain items none ys parent.start
      → IsDistinct ys
      → IsNew ptr ys
      → (linked : Linked) × (link ptr self items parent ≡ ok linked)
        × IsChain linked.items none (ptr ∷ ys) linked.parent.start
  link_first [] first c d n = splice_alone ptr self items parent seq first c
  link_first (r ∷ ys) first c d n = splice_front ptr self items parent seq first r ys c d n

  -- An item is linked behind its left neighbour, and all the others stay in their order.
  pub link-IsChain :
      (xs ys : List ℕ)
      → self.left ≡ last_of xs
      → IsChain items none (xs ++ ys) parent.start
      → IsDistinct (xs ++ ys)
      → IsNew ptr (xs ++ ys)
      → (linked : Linked) × (link ptr self items parent ≡ ok linked)
        × IsChain linked.items none (xs ++ ptr ∷ ys) linked.parent.start
  link-IsChain xs ys here c d n = elim (last-cases xs) [
    | inl empty ↦
        rw empty
          (link_first ys (here ∙ ap last_of empty) (rw empty at c) (rw empty at d) (rw empty at n))
    | inr (front, l, e, f) ↦
        let whole = ap (λ t. t ++ ys) e ∙ append_assoc front (l ∷ []) ys in
        let (linked, done, same, chain, frame) =
          splice_after l (here ∙ f) front ys none parent.start
            (subst (λ t. IsChain items none t parent.start) whole c) (subst IsDistinct whole d)
            (subst (IsNew ptr) whole n) in
        (
          linked,
          done,
          subst (λ (b : Branch). IsChain linked.items none (xs ++ ptr ∷ ys) b.start) (sym same)
              (subst (λ t. IsChain linked.items none t parent.start)
                (sym (ap (λ t. t ++ ptr ∷ ys) e ∙ append_assoc front (l ∷ []) (ptr ∷ ys))) chain),
        )
  ]

-- Distinct pointers that all lead somewhere are no more than there are cells.
length-remove :
    (m : Items) (k : ℕ) (v : Item) → find k m ≡ some v → length m ≡ suc (length (remove k m))
unfolding find remove
length-remove [] k v e = absurd (ground arith)
length-remove (x ∷ m) k v e = ground (arith, length-remove m k v)

IsChain-remove :
    (ps : List ℕ) (k : ℕ) (items : Items) (prev o : Option ℕ)
    → IsMap items
    → IsNew k ps
    → IsChain items prev ps o
    → IsChain (remove k items) prev ps o
IsChain-remove [] k items prev o i n c = c
IsChain-remove (p ∷ ps) k items prev o i n (e, item, at, back, c) = (
  e,
  item,
  find-remove items k p i ∙ rw n.0 at,
  back,
  IsChain-remove ps k items (some p) item.right i n.1 c,
)

pub chain_fits :
    (ps : List ℕ) (items : Items) (prev o : Option ℕ)
    → IsMap items
    → IsDistinct ps
    → IsChain items prev ps o
    → length ps ≤ length items
chain_fits [] items prev o i d c = omega arith
chain_fits (p ∷ ps) items prev o i d (e, item, at, back, c) = omega (
  arith,
  length-remove items p item at,
  chain_fits ps (remove p items) (some p) item.right (remove-IsMap items p i) d.1
      (IsChain-remove ps p items (some p) item.right i d.0 c),
)
