-- ===== src/Blocks/Conflict/Ordered.antt =====
-- The whole of the placing of an item among concurrent ones, in `integrate_item` of block.rs.
use crdt_probe.Prelude.{
  ℕ, ◌≡◌, refl, sym, ap, ◌∙◌, subst, Bool, true, false, if◌then◌else◌, Option, none, some, List, [],
  ◌∷◌, ◌++◌, All, ltb, ◌==◌, append_assoc, append-nil, arith, Bool-cases, inl, inr,
}
use crdt_probe.Prelude.Maps.{IsMap, find}
use crdt_probe.Encoding.Result.{ok}
use crdt_probe.Blocks.{BlockId}
use crdt_probe.Blocks.Conflict.{
  Item, Items, Branch, Linked, ptr_eq, is_linked_left, detect_conflict, link, place,
}
use crdt_probe.Blocks.Conflict.Walk.{IsChain, deref-found}
use crdt_probe.Blocks.Conflict.Link.{IsNew, IsDistinct}
use crdt_probe.Blocks.Conflict.Place.{
  last_of, last-cases, last_of-append, IsChain-after, link-IsChain,
}
use crdt_probe.Blocks.Conflict.Between.{IsFound, detects, placed}
use crdt_probe.Blocks.Conflict.Frame.{IsFramed, link-IsFramed}
use crdt_probe.Blocks.Conflict.Siblings.{
  first_of, client_at, smaller, last_from, IsSibling, resolve_conflict-siblings,
}

-- The siblings with a new one, `ptr` of the client `client`, in front of the first one whose client
-- is not smaller.
abbrev pub ordered : (ℕ → ℕ) → ℕ → ℕ → List ℕ → List ℕ
ordered client_of client ptr [] = ptr ∷ []
ordered client_of client ptr (p ∷ ps) =
    let rest = ordered client_of client ptr ps in
    if ltb (client_of p) client then p ∷ rest else ptr ∷ p ∷ ps

smaller-ordered :
    (client : ℕ) (items : Items) (ptr : ℕ) (ps : List ℕ)
    → (larger : List ℕ) × (ps ≡ smaller client items ps ++ larger)
      × (ordered (client_at items) client ptr ps ≡ smaller client items ps ++ ptr ∷ larger)
unfolding smaller
smaller-ordered client items ptr [] = ([], refl, refl)
smaller-ordered client items ptr (p ∷ ps) = elim (Bool-cases (ltb (client_at items p) client)) [
  | inl small ↦
      let (larger, e, f) = smaller-ordered client items ptr ps in
      rw small (larger, ap (λ t. p ∷ t) e, ap (λ t. p ∷ t) f)
  | inr large ↦ rw large (p ∷ ps, refl, refl)
]

last_from-last_of : (xs ps : List ℕ) → last_from (last_of xs) ps ≡ last_of (xs ++ ps)
last_from-last_of xs [] = ap last_of (sym (append-nil xs))
last_from-last_of xs (p ∷ ps) =
    ap (λ (o : Option ℕ). last_from o ps) (sym (last_of-append xs p))
    ∙ last_from-last_of (xs ++ p ∷ []) ps
    ∙ ap last_of (append_assoc xs (p ∷ []) ps)

ptr_eq_sym : (a b : Option ℕ) → ptr_eq a b ≡ ptr_eq b a
ptr_eq_sym none none = refl
ptr_eq_sym none (some q) = refl
ptr_eq_sym (some p) none = refl
ptr_eq_sym (some p) (some q) = ground arith

-- The item behind others is linked to the left.
linked_behind :
    (items : Items) (ps rest : List ℕ) (p r : ℕ) (prev o : Option ℕ)
    → IsChain items prev (p ∷ (ps ++ r ∷ rest)) o
    → (right : Item) × (find r items ≡ some right) × (is_linked_left right ≡ true)
linked_behind items [] rest p r prev o (e, item, at, back, (e', right, at', back', c)) =
    (right, at', rw back' refl)
linked_behind items (q ∷ ps) rest p r prev o (e, item, at, back, c) =
    linked_behind items ps rest q r (some p) item.right c

module _ (items : Items) (self : Item) where
  calm_left :
      (l p : ℕ) (left : Item)
      → self.left ≡ some l
      → find l items ≡ some left
      → left.right ≡ some p
      → ptr_eq self.right (some p) ≡ false
      → detect_conflict items self ≡ ok true
  unfolding detect_conflict
  calm_left l p left e at next ne =
      rw (e, deref-found items l left at, next, ptr_eq_sym (some p) self.right ∙ ne) refl

  calm_start : self.left ≡ none → self.right ≡ none → detect_conflict items self ≡ ok true
  unfolding detect_conflict
  calm_start e f = rw (e, f) refl

  calm_right :
      (r : ℕ) (right : Item)
      → self.left ≡ none
      → self.right ≡ some r
      → find r items ≡ some right
      → is_linked_left right ≡ true
      → detect_conflict items self ≡ ok true
  unfolding detect_conflict
  calm_right r right e f at linked =
      rw (e, f, deref-found items r right at) (ap (λ (b : Bool). ok b) linked)

  -- Where there are siblings, they are a conflict.
  siblings_detected :
      (xs ps rest : List ℕ) (p : ℕ) (start : Option ℕ)
      → IsChain items none (xs ++ (p ∷ (ps ++ rest))) start
      → self.left ≡ last_of xs
      → self.right ≡ first_of rest
      → ptr_eq self.right (some p) ≡ false
      → detect_conflict items self ≡ ok true
  siblings_detected xs ps rest p start c here right ne = elim (last-cases xs) [
    | inl empty ↦ by_right rest (here ∙ ap last_of empty) right (rw empty at c)
    | inr (front, l, e, f) ↦
        let whole =
          ap (λ t. t ++ (p ∷ (ps ++ rest))) e ∙ append_assoc front (l ∷ []) (p ∷ (ps ++ rest)) in
        let (left, at, behind) =
          IsChain-after items front (p ∷ (ps ++ rest)) l none start
            (subst (λ t. IsChain items none t start) whole c) in
        calm_left l p left (here ∙ f) at behind.0 ne
  ]
    where
      by_right :
          (rest : List ℕ)
          → self.left ≡ none
          → self.right ≡ first_of rest
          → IsChain items none (p ∷ (ps ++ rest)) start
          → detect_conflict items self ≡ ok true
      by_right [] e f chain = calm_start e f
      by_right (r ∷ rest) e f chain =
          let (item, at, linked) = linked_behind items ps rest p r none start chain in
          calm_right r item e f at linked

module _ (get_item : BlockId → Option ℕ) (ptr : ℕ) (items : Items) (parent : Branch) (self : Item)
    (seq : self.parent_sub ≡ none) where
  -- The item finds its left neighbour, whether or not there is a conflict.
  place-link :
      (xs ps rest : List ℕ)
      → IsMap items
      → IsChain items none (xs ++ (ps ++ rest)) parent.start
      → IsDistinct (xs ++ (ps ++ rest))
      → self.left ≡ last_of xs
      → self.right ≡ first_of rest
      → IsFound items self.right
      → All (IsSibling items self) ps
      → place get_item ptr self items parent
        ≡ link ptr
            (record self { left = last_from self.left (smaller self.id.client items ps) })
            items
            parent
  place-link xs [] rest i c d here right found h =
      let self' = record self { left = last_from self.left (smaller self.id.client items []) } in
      let (b, det) = detects get_item items parent self seq xs rest here found c in
      placed get_item items parent self seq ptr b self' det (elim (Bool-cases b) [
        | inl conflict ↦
            rw conflict (
              resolve_conflict-siblings get_item items self parent xs [] rest seq i c d here right
                h)
        | inr calm ↦ rw calm (unfold smaller in refl)
      ])
  place-link xs (p ∷ ps) rest i c d here right found h =
      placed get_item items parent self seq ptr true _
        (siblings_detected items self xs ps rest p parent.start c here right h.0.0)
        (resolve_conflict-siblings get_item items self parent xs (p ∷ ps) rest seq i c d here right
          h)

  -- The order, and what the linking leaves alone.
  pub place-IsFramed :
      (xs ps rest : List ℕ)
      → IsMap items
      → IsChain items none (xs ++ (ps ++ rest)) parent.start
      → IsDistinct (xs ++ (ps ++ rest))
      → IsNew ptr (xs ++ (ps ++ rest))
      → self.left ≡ last_of xs
      → self.right ≡ first_of rest
      → IsFound items self.right
      → All (IsSibling items self) ps
      → (linked : Linked) × (place get_item ptr self items parent ≡ ok linked)
        × IsChain linked.items none
            (xs ++ (ordered (client_at items) self.id.client ptr ps ++ rest))
            linked.parent.start
        × IsFramed ptr self items (ok linked)
  place-IsFramed xs ps rest i c d n here right found h =
      let sm = smaller self.id.client items ps in
      let (larger, parts, order) = smaller-ordered self.id.client items ptr ps in
      let whole : xs ++ (ps ++ rest) ≡ (xs ++ sm) ++ (larger ++ rest) =
        ap (λ t. xs ++ (t ++ rest)) parts
        ∙ ap (λ t. xs ++ t) (append_assoc sm larger rest)
        ∙ sym (append_assoc xs sm (larger ++ rest)) in
      let self' = record self { left = last_from self.left sm } in
      let (linked, done, chain) =
        link-IsChain ptr self' items parent seq (xs ++ sm) (larger ++ rest)
          (ap (λ (o : Option ℕ). last_from o sm) here ∙ last_from-last_of xs sm)
          (subst (λ t. IsChain items none t parent.start) whole c) (subst IsDistinct whole d)
          (subst (IsNew ptr) whole n) in
      let back : (xs ++ sm) ++ ptr ∷ (larger ++ rest)
          ≡ xs ++ (ordered (client_at items) self.id.client ptr ps ++ rest) =
        append_assoc xs sm (ptr ∷ (larger ++ rest))
        ∙ ap (λ t. xs ++ t) (sym (append_assoc sm (ptr ∷ larger) rest))
        ∙ ap (λ t. xs ++ (t ++ rest)) (sym order) in
      (
        linked,
        place-link xs ps rest i c d here right found h ∙ done,
        subst (λ t. IsChain linked.items none t linked.parent.start) back chain,
        subst (IsFramed ptr self items) done (link-IsFramed ptr self' items parent),
      )

  -- Among siblings that were inserted concurrently between the same two neighbours, an item is
  -- placed by its client: it stands in front of the first sibling whose client is not smaller, or
  -- behind them all, and all the others stay where they are, linked both ways.
  pub place-ordered :
      (xs ps rest : List ℕ)
      → IsMap items
      → IsChain items none (xs ++ (ps ++ rest)) parent.start
      → IsDistinct (xs ++ (ps ++ rest))
      → IsNew ptr (xs ++ (ps ++ rest))
      → self.left ≡ last_of xs
      → self.right ≡ first_of rest
      → IsFound items self.right
      → All (IsSibling items self) ps
      → (linked : Linked) × (place get_item ptr self items parent ≡ ok linked)
        × IsChain linked.items none
            (xs ++ (ordered (client_at items) self.id.client ptr ps ++ rest))
            linked.parent.start
  place-ordered xs ps rest i c d n here right found h =
      let (linked, done, chain, _) = place-IsFramed xs ps rest i c d n here right found h in
      (linked, done, chain)

-- Two new siblings of different clients may be put in in either order.
pub ordered-swap :
    (f : ℕ → ℕ) (p q : ℕ) (ps : List ℕ)
    → (f p == f q) ≡ false
    → ordered f (f q) q (ordered f (f p) p ps) ≡ ordered f (f p) p (ordered f (f q) q ps)
ordered-swap f p q [] ne = ground arith
ordered-swap f p q (x ∷ ps) ne = ground (arith, ordered-swap f p q ps ne)
