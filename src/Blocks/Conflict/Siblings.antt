-- ===== src/Blocks/Conflict/Siblings.antt =====
-- Items that were inserted concurrently at one place, in `resolve_conflict` of block.rs.
use crdt_probe.Prelude.{
  ℕ, zero, suc, ◌<◌, ◌≡◌, refl, ap, ◌∙◌, true, false, if◌then◌else◌, Option, none, some, List, [],
  ◌∷◌, ◌++◌, All, ltb, length, length-append, arith, Bool-cases, inl, inr, ==_iff,
}
use crdt_probe.Prelude.Maps.{IsMap, find}
use crdt_probe.Encoding.Result.{ok}
use crdt_probe.Blocks.{BlockId, origin_eq}
use crdt_probe.Blocks.Conflict.{
  Item, Items, Branch, ptr_eq, stop, move, decide, resolve_loop, resolve_conflict,
}
use crdt_probe.Blocks.Conflict.Walk.{IsChain, loop_right, loop_stop, loop_move}
use crdt_probe.Blocks.Conflict.Link.{IsDistinct}
use crdt_probe.Blocks.Conflict.Place.{last_of, chain_fits, IsDistinct-suffix}
use crdt_probe.Blocks.Conflict.Between.{first-IsChain, resolves}

abbrev pub first_of : List ℕ → Option ℕ
first_of [] = none
first_of (p ∷ ps) = some p

abbrev pub client_at : Items → ℕ → ℕ
client_at items p = elim (find p items) [ some item ↦ item.id.client | none ↦ 0 ]

-- The items in front of the first one whose client is not below `client`.
unfoldable pub smaller : ℕ → Items → List ℕ → List ℕ
smaller client items [] = []
smaller client items (p ∷ ps) =
    let rest = smaller client items ps in if ltb (client_at items p) client then p ∷ rest else []

abbrev pub last_from : Option ℕ → List ℕ → Option ℕ
last_from left [] = left
last_from left (p ∷ ps) = last_from (some p) ps

-- `p` was inserted between the same two neighbours as `self`, and is not the right one.
abbrev pub IsSibling : Items → Item → ℕ → Type 0
IsSibling items self p =
    (ptr_eq self.right (some p) ≡ false)
    × ((item : Item)
        → find p items ≡ some item
        → (origin_eq self.origin item.origin ≡ true)
          × (origin_eq self.right_origin item.right_origin ≡ true))

module _ (get_item : BlockId → Option ℕ) (items : Items) (self : Item) where
  decide_move :
      (item : Item) (cs bs : List ℕ)
      → origin_eq self.origin item.origin ≡ true
      → ltb item.id.client self.id.client ≡ true
      → decide get_item self item cs bs ≡ move
  decide_move item cs bs e f = rw (e, f) refl

  decide_stop :
      (item : Item) (cs bs : List ℕ)
      → origin_eq self.origin item.origin ≡ true
      → origin_eq self.right_origin item.right_origin ≡ true
      → ltb item.id.client self.id.client ≡ false
      → decide get_item self item cs bs ≡ stop
  decide_stop item cs bs e g f = rw (e, f, g) refl

  client_at-found :
      (p : ℕ) (item : Item) → find p items ≡ some item → client_at items p ≡ item.id.client
  client_at-found p item at = rw (at, client_at) refl

  abbrev smaller_step : ℕ → List ℕ → ℕ → List ℕ
  smaller_step p rest client = if ltb client self.id.client then p ∷ rest else []

  smaller_more :
      (p : ℕ) (ps : List ℕ) (item : Item)
      → find p items ≡ some item
      → ltb item.id.client self.id.client ≡ true
      → smaller self.id.client items (p ∷ ps) ≡ p ∷ smaller self.id.client items ps
  unfolding smaller
  smaller_more p ps item at f =
      ap (smaller_step p (smaller self.id.client items ps)) (client_at-found p item at) ∙ rw f refl

  smaller_end :
      (p : ℕ) (ps : List ℕ) (item : Item)
      → find p items ≡ some item
      → ltb item.id.client self.id.client ≡ false
      → smaller self.id.client items (p ∷ ps) ≡ []
  unfolding smaller
  smaller_end p ps item at f =
      ap (smaller_step p (smaller self.id.client items ps)) (client_at-found p item at) ∙ rw f refl

  loop_ends :
      (rest : List ℕ) (rounds : ℕ) (prev o left : Option ℕ) (cs bs : List ℕ)
      → IsChain items prev rest o
      → self.right ≡ first_of rest
      → resolve_loop items get_item (suc rounds) self o left cs bs ≡ ok left
  unfolding resolve_loop
  loop_ends [] rounds prev o left cs bs c r = rw c refl
  loop_ends (q ∷ rest) rounds prev o left cs bs (e, item, at, back, c) r =
      rw e (loop_right items get_item self rounds q item left cs bs at (rw r ((==_iff q q).1 refl)))

  loop-siblings :
      (ps rest : List ℕ) (rounds : ℕ) (prev o left : Option ℕ) (cs bs : List ℕ)
      → length ps < rounds
      → IsChain items prev (ps ++ rest) o
      → All (IsSibling items self) ps
      → self.right ≡ first_of rest
      → resolve_loop items get_item rounds self o left cs bs
        ≡ ok (last_from left (smaller self.id.client items ps))
  unfolding smaller
  loop-siblings ps rest zero prev o left cs bs few c h r = absurd (omega arith)
  loop-siblings [] rest (suc rounds) prev o left cs bs few c h r =
      loop_ends rest rounds prev o left cs bs c r
  loop-siblings (p ∷ ps) rest (suc rounds) prev o left cs bs few (e, item, at, back, c)
        ((ne, sib), h) r =
      let (same, same_right) = sib item at in
      elim (Bool-cases (ltb item.id.client self.id.client)) [
        | inl small ↦
            rw (e, smaller_more p ps item at small)
              (loop_move items get_item self rounds p item left cs bs at ne
                  (decide_move item (p ∷ cs) (p ∷ bs) same small)
                ∙ loop-siblings ps rest rounds (some p) item.right (some p) [] (p ∷ bs)
                    (omega (arith, few)) c h r)
        | inr large ↦
            rw (e, smaller_end p ps item at large)
              (loop_stop items get_item self rounds p item left cs bs at ne
                (decide_stop item (p ∷ cs) (p ∷ bs) same same_right large))
      ]

  -- Among items that were inserted concurrently between the same two neighbours, the new item gets
  -- its place by its client alone: its left neighbour is the last of those in front of the first
  -- one whose client is not smaller, or the neighbour it names where there is none.
  pub resolve_conflict-siblings :
      (parent : Branch) (xs ps rest : List ℕ)
      → self.parent_sub ≡ none
      → IsMap items
      → IsChain items none (xs ++ (ps ++ rest)) parent.start
      → IsDistinct (xs ++ (ps ++ rest))
      → self.left ≡ last_of xs
      → self.right ≡ first_of rest
      → All (IsSibling items self) ps
      → resolve_conflict items get_item parent self
        ≡ ok (record self { left = last_from self.left (smaller self.id.client items ps) })
  resolve_conflict-siblings parent xs ps rest seq i c d l r h =
      let (o, first, (prev, co)) =
        first-IsChain get_item items parent self seq xs (ps ++ rest) (suc (length items)) l c in
      let fits = chain_fits (ps ++ rest) items prev o i (IsDistinct-suffix xs (ps ++ rest) d) co in
      resolves get_item items parent self seq o _ first (
        loop-siblings ps rest (suc (length items)) prev o self.left [] []
          (omega (arith, fits, length-append ps rest)) co h r)
