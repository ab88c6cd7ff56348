-- ===== src/Blocks/Conflict/Between.antt =====
-- The whole of the placing of an item in `integrate_item` of block.rs.
use crdt_probe.Prelude.{
  ℕ, suc, ◌≡◌, refl, sym, ap, ◌∙◌, subst, Bool, true, false, not, if◌then◌else◌, Option, none, some,
  List, [], ◌∷◌, ◌++◌, All, length, append_assoc, arith, inl, inr, Bool-cases,
}
use crdt_probe.Prelude.Maps.{IsMap, find}
use crdt_probe.Encoding.Result.{Result, ok}
use crdt_probe.Blocks.{BlockId}
use crdt_probe.Blocks.Conflict.{
  Item, Items, Branch, Linked, ptr_eq, is_linked_left, detect_conflict, first_conflicting,
  resolve_loop, resolve_conflict, link, place,
}
use crdt_probe.Blocks.Conflict.Walk.{IsChain, IsReached, deref-found, resolve_loop-IsReached}
use crdt_probe.Blocks.Conflict.Link.{IsNew, IsDistinct}
use crdt_probe.Blocks.Conflict.Place.{
  last_of, last-cases, last_of-append, IsChain-after, chain_fits, IsDistinct-suffix, link-IsChain,
}

-- A neighbour that is named is in the store.
abbrev pub IsFound : Items → Option ℕ → Type 0
IsFound items none = Unit
IsFound items (some p) = (item : Item) × (find p items ≡ some item)

module _ (items : Items) (self : Item) where
  detect_left :
      (l : ℕ) (left : Item)
      → self.left ≡ some l
      → find l items ≡ some left
      → (b : Bool) × (detect_conflict items self ≡ ok b)
  unfolding detect_conflict
  detect_left l left e at =
      (not (ptr_eq left.right self.right), rw (e, deref-found items l left at) refl)

  detect_right :
      (r : Option ℕ)
      → self.left ≡ none
      → self.right ≡ r
      → IsFound items r
      → (b : Bool) × (detect_conflict items self ≡ ok b)
  unfolding detect_conflict
  detect_right none e f h = (true, rw (e, f) refl)
  detect_right (some r) e f (right, at) =
      (is_linked_left right, rw (e, f, deref-found items r right at) refl)

module _ (get_item : BlockId → Option ℕ) (items : Items) (parent : Branch) (self : Item)
    (seq : self.parent_sub ≡ none) where
  first_left :
      (l : ℕ) (left : Item) (rounds : ℕ)
      → self.left ≡ some l
      → find l items ≡ some left
      → first_conflicting items rounds parent self ≡ ok left.right
  unfolding first_conflicting
  first_left l left rounds e at = rw (e, deref-found items l left at) refl

  first_start :
      (rounds : ℕ) → self.left ≡ none → first_conflicting items rounds parent self ≡ ok parent.start
  unfolding first_conflicting
  first_start rounds e = rw (e, seq) refl

  -- The walk begins in front of the siblings behind the left neighbour.
  pub first-IsChain :
      (xs ys : List ℕ) (rounds : ℕ)
      → self.left ≡ last_of xs
      → IsChain items none (xs ++ ys) parent.start
      → (o : Option ℕ) × (first_conflicting items rounds parent self ≡ ok o)
        × ((prev : Option ℕ) × IsChain items prev ys o)
  first-IsChain xs ys rounds here c = elim (last-cases xs) [
    | inl empty ↦
        (parent.start, first_start rounds (here ∙ ap last_of empty), (none, rw empty at c))
    | inr (front, l, e, f) ↦
        let whole = ap (λ t. t ++ ys) e ∙ append_assoc front (l ∷ []) ys in
        let (left, at, rest) =
          IsChain-after items front ys l none parent.start
            (subst (λ t. IsChain items none t parent.start) whole c) in
        (left.right, first_left l left rounds (here ∙ f) at, (some l, rest))
  ]

  pub detects :
      (xs ys : List ℕ)
      → self.left ≡ last_of xs
      → IsFound items self.right
      → IsChain items none (xs ++ ys) parent.start
      → (b : Bool) × (detect_conflict items self ≡ ok b)
  detects xs ys here found c = elim (last-cases xs) [
    | inl empty ↦ detect_right items self self.right (here ∙ ap last_of empty) refl found
    | inr (front, l, e, f) ↦
        let whole = ap (λ t. t ++ ys) e ∙ append_assoc front (l ∷ []) ys in
        let (left, at, rest) =
          IsChain-after items front ys l none parent.start
            (subst (λ t. IsChain items none t parent.start) whole c) in
        detect_left items self l left (here ∙ f) at
  ]

  pub resolves :
      (o left' : Option ℕ)
      → first_conflicting items (suc (length items)) parent self ≡ ok o
      → resolve_loop items get_item (suc (length items)) self o self.left [] [] ≡ ok left'
      → resolve_conflict items get_item parent self ≡ ok (record self { left = left' })
  unfolding resolve_conflict
  resolves o left' e f = rw (e, f) refl

  pub placed :
      (ptr : ℕ) (b : Bool) (self' : Item)
      → detect_conflict items self ≡ ok b
      → (if b then resolve_conflict items get_item parent self else ok self) ≡ ok self'
      → place get_item ptr self items parent ≡ link ptr self' items parent
  unfolding place
  placed ptr b self' e f = rw (e, f) refl

  -- `ptr` stands among the siblings `ys` behind `xs`, not past the right neighbour that its item
  -- names, and all the others are where they were.
  abbrev pub IsPlaced : ℕ → List ℕ → List ℕ → Result Linked → Type 0
  IsPlaced ptr xs ys out =
      (mid post : List ℕ) × (linked : Linked) × (ys ≡ mid ++ post)
      × (out ≡ ok linked)
      × IsChain linked.items none (xs ++ (mid ++ ptr ∷ post)) linked.parent.start
      × All (λ q. ptr_eq self.right (some q) ≡ false) mid

  module _ (ptr : ℕ) (xs ys : List ℕ) (c : IsChain items none (xs ++ ys) parent.start)
      (d : IsDistinct (xs ++ ys)) (n : IsNew ptr (xs ++ ys)) where
    IsPlaced-here :
        (self' : Item)
        → self'.parent_sub ≡ none
        → self'.left ≡ last_of xs
        → IsPlaced ptr xs ys (link ptr self' items parent)
    IsPlaced-here self' seq' here =
        let (linked, done, chain) = link-IsChain ptr self' items parent seq' xs ys here c d n in
        ([], ys, linked, refl, done, chain, tt)

    IsPlaced-past :
        (self' : Item)
        → self'.parent_sub ≡ none
        → (pre : List ℕ) (p : ℕ) (post : List ℕ) → ys ≡ pre ++ p ∷ post
        → self'.left ≡ some p
        → All (λ q. ptr_eq self.right (some q) ≡ false) (pre ++ p ∷ [])
        → IsPlaced ptr xs ys (link ptr self' items parent)
    IsPlaced-past self' seq' pre p post split here all =
        let mid = pre ++ p ∷ [] in
        let ys_is : ys ≡ mid ++ post = split ∙ sym (append_assoc pre (p ∷ []) post) in
        let whole : xs ++ ys ≡ (xs ++ mid) ++ post =
          ap (λ t. xs ++ t) ys_is ∙ sym (append_assoc xs mid post) in
        let last : some p ≡ last_of (xs ++ mid) =
          sym (last_of-append (xs ++ pre) p) ∙ ap last_of (append_assoc xs pre (p ∷ [])) in
        let (linked, done, chain) =
          link-IsChain ptr self' items parent seq' (xs ++ mid) post (here ∙ last)
            (subst (λ t. IsChain items none t parent.start) whole c) (subst IsDistinct whole d)
            (subst (IsNew ptr) whole n) in
        (
          mid,
          post,
          linked,
          ys_is,
          done,
          subst (λ t. IsChain linked.items none t linked.parent.start)
              (append_assoc xs mid (ptr ∷ post)) chain,
          all,
        )

    IsPlaced-reached :
        (left' : Option ℕ)
        → self.left ≡ last_of xs
        → IsReached self self.left ys left'
        → IsPlaced ptr xs ys (link ptr (record self { left = left' }) items parent)
    IsPlaced-reached left' here (inl e) =
        IsPlaced-here (record self { left = left' }) seq (e ∙ here)
    IsPlaced-reached left' here (inr (pre, p, post, split, at, all)) =
        IsPlaced-past (record self { left = left' }) seq pre p post split at all

    -- A sequence item with the left neighbour that stands last in `xs` is placed, with and without
    -- a conflict: the loop ends, the item stands behind that neighbour and not past its right one,
    -- and the siblings keep their order, linked both ways.
    pub place-IsPlaced :
        IsMap items
        → self.left ≡ last_of xs
        → IsFound items self.right
        → IsPlaced ptr xs ys (place get_item ptr self items parent)
    place-IsPlaced i here found =
        let (o, first, (prev, co)) = first-IsChain xs ys (suc (length items)) here c in
        let few = chain_fits ys items prev o i (IsDistinct-suffix xs ys d) co in
        let (left', loop, reached) =
          resolve_loop-IsReached items get_item self ys (suc (length items)) prev o self.left [] []
            (omega (arith, few)) co in
        let (b, det) = detects xs ys here found c in
        elim (Bool-cases b) [
          | inl conflict ↦
              subst (IsPlaced ptr xs ys)
                (sym (
                  placed ptr b (record self { left = left' }) det
                    (rw conflict (resolves o left' first loop))))
                (IsPlaced-reached left' here reached)
          | inr calm ↦
              subst (IsPlaced ptr xs ys) (sym (placed ptr b self det (rw calm refl)))
                (IsPlaced-here self seq here)
        ]
